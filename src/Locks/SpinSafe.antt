-- ===== src/Locks/SpinSafe.antt =====
-- `SpinLock` of kernel/src/utils.rs under every interleaving: one holder, and interrupt flags.
use prometheos.Base.{
  ℕ, Bool, true, false, ◌||◌, if◌then◌else◌, List, [], ◌∷◌, ◌≡◌, ◌≢◌, refl, sym, ◌∙◌, ap, subst,
  inl, inr, Bool-cases, arith,
}
use prometheos.Locks.System.{put}
use prometheos.Locks.Invariant.{put-same, put-other, restored, same_or_other}
use prometheos.Locks.Spin.{
  SpinStage, outside, state_read, disabled, spinning, holding, released, SpinSystem, start,
  exchange_weak, step_from, run, holds,
}

-- What holds of a processor's flag at a stage, from the one it had at the start.
unfoldable pub Fits : (before : Bool) → SpinStage → (now : Bool) → Type 0
Fits before outside now = now ≡ before
Fits before (state_read state) now = (now ≡ before) × (state ≡ before)
Fits before (disabled state) now = (now ≡ false) × (state ≡ before)
Fits before (spinning state) now = (now ≡ false) × (state ≡ before)
Fits before (holding state) now = (now ≡ false) × (state ≡ before)
Fits before (released state) now = (now ≡ false) × (state ≡ before)

pub record IsSafe (flags : ℕ → Bool) (s : SpinSystem) : Type 0 where
  pub one : (i j : ℕ) → holds (s.stage i) ≡ true → holds (s.stage j) ≡ true → i ≡ j
  pub taken : (i : ℕ) → holds (s.stage i) ≡ true → s.locked ≡ true
  pub fits : (i : ℕ) → Fits (flags i) (s.stage i) (s.interrupts i)

-- A step of processor `i` to a stage, which leaves the lock and the flags as given.
module _ (flags : ℕ → Bool) (s : SpinSystem) (safe : IsSafe flags s) (i : ℕ) (at : SpinStage)
    (locked : Bool) (interrupts : ℕ → Bool) (own : Fits (flags i) at (interrupts i))
    (others : (j : ℕ) → j ≢ i → interrupts j ≡ s.interrupts j)
    (mine : holds at ≡ true → locked ≡ true)
    (apart : (j : ℕ)
      → j ≢ i
      → holds (s.stage j) ≡ true
      → (locked ≡ true) × (holds at ≡ false)) where
  abbrev stages : ℕ → SpinStage
  stages = put s.stage i at

  at_other : (j : ℕ) → j ≢ i → holds (stages j) ≡ true → holds (s.stage j) ≡ true
  at_other j h on = sym (ap holds (put-other s.stage i at j h)) ∙ on

  at_own : (j : ℕ) → j ≡ i → holds (stages j) ≡ true → holds at ≡ true
  at_own j h on = sym (ap holds (ap stages h ∙ put-same s.stage i at)) ∙ on

  one_holder : (j k : ℕ) → holds (stages j) ≡ true → holds (stages k) ≡ true → j ≡ k
  one_holder j k hj hk = elim (same_or_other j i) [
    | inl a ↦ elim (same_or_other k i) [
      | inl b ↦ a ∙ sym b
      | inr b ↦ let (_, off) = apart k b (at_other k b hk) in let on = at_own j a hj in cc
    ]
    | inr a ↦ elim (same_or_other k i) [
      | inl b ↦ let (_, off) = apart j a (at_other j a hj) in let on = at_own k b hk in cc
      | inr b ↦ safe.one j k (at_other j a hj) (at_other k b hk)
    ]
  ]

  next-IsSafe :
      IsSafe flags (record { locked = locked; stage = put s.stage i at; interrupts = interrupts })
  next-IsSafe = record {
    one = one_holder;
    taken = λ j on. elim (same_or_other j i) [
      | inl h ↦ mine (at_own j h on)
      | inr h ↦ (apart j h (at_other j h on)).0
    ];
    fits = λ j. elim (same_or_other j i) [
      | inl h ↦
          subst (λ t. Fits (flags t) (stages t) (interrupts t)) (sym h)
            (rw (put-same s.stage i at) own)
      | inr h ↦ rw (put-other s.stage i at j h, others j h) (safe.fits j)
    ];
  }

if_IsSafe :
    {flags : ℕ → Bool} (test : Bool) (s s' : SpinSystem)
    → IsSafe flags s
    → IsSafe flags s'
    → IsSafe flags (if test then s else s')
if_IsSafe true s s' h h' = h
if_IsSafe false s s' h h' = h'

module _ (flags : ℕ → Bool) (s : SpinSystem) (safe : IsSafe flags s) (i : ℕ) where
  fit_at : {at : SpinStage} → s.stage i ≡ at → Fits (flags i) at (s.interrupts i)
  fit_at h = subst (λ t. Fits (flags i) t (s.interrupts i)) h (safe.fits i)

  -- A step to a stage that does not hold the lock, which stays as it is.
  keeps_lock :
      (at : SpinStage) (interrupts : ℕ → Bool)
      → holds at ≡ false
      → Fits (flags i) at (interrupts i)
      → ((j : ℕ) → j ≢ i → interrupts j ≡ s.interrupts j)
      → IsSafe flags
          (record { locked = s.locked; stage = put s.stage i at; interrupts = interrupts })
  keeps_lock at interrupts off own others =
      next-IsSafe flags s safe i at s.locked interrupts own others (λ on. cc)
        (λ j h on. (safe.taken j on, off))

  step-holding :
      (state : Bool)
      → s.stage i ≡ holding state
      → IsSafe flags (step_from (holding state) i false s)
  unfolding step_from holds Fits
  step-holding state at =
      next-IsSafe flags s safe i (released state) false s.interrupts (fit_at at) (λ j h. refl)
        (λ on. cc) (λ j h on. absurd (h (safe.one j i on (ap holds at))))

  step-disabled :
      (fails : Bool)
      → (fails ≡ false → s.locked ≡ false)
      → (state : Bool) → s.stage i ≡ disabled state
      → IsSafe flags (exchange_weak fails state i s)
  unfolding holds Fits
  step-disabled true free state at =
      keeps_lock (spinning state) s.interrupts refl (fit_at at) (λ j h. refl)
  step-disabled false free state at =
      next-IsSafe flags s safe i (holding state) true s.interrupts (fit_at at) (λ j h. refl)
        (λ on. refl) (λ j h on. let taken = safe.taken j on in let open_lock = free refl in cc)

  fails_when_locked : (spurious : Bool) → (s.locked || spurious) ≡ false → s.locked ≡ false
  fails_when_locked spurious h = elim (Bool-cases s.locked) [
    | inl on ↦ ground (arith)
    | inr off ↦ off
  ]

  step_from-IsSafe :
      (at : SpinStage) (spurious : Bool) → s.stage i ≡ at → IsSafe flags (step_from at i spurious s)
  unfolding step_from holds Fits
  step_from-IsSafe outside spurious at =
      keeps_lock (state_read (s.interrupts i)) s.interrupts refl (fit_at at, fit_at at)
        (λ j h. refl)
  step_from-IsSafe (state_read state) spurious at =
      keeps_lock (disabled state) (put s.interrupts i false) refl
        (put-same s.interrupts i false, (fit_at at).1) (put-other s.interrupts i false)
  step_from-IsSafe (disabled state) spurious at =
      step-disabled (s.locked || spurious) (fails_when_locked spurious) state at
  step_from-IsSafe (spinning state) spurious at =
      if_IsSafe s.locked s _ safe
        (keeps_lock (disabled state) s.interrupts refl (fit_at at) (λ j h. refl))
  step_from-IsSafe (holding state) spurious at = step-holding state at
  step_from-IsSafe (released state) spurious at =
      let (off, before) = fit_at at in
      keeps_lock outside (put s.interrupts i (if state then true else s.interrupts i)) refl
        (put-same s.interrupts i (if state then true else s.interrupts i)
          ∙ restored state (s.interrupts i) (flags i) off before)
        (put-other s.interrupts i _)

start-IsSafe : (flags : ℕ → Bool) → IsSafe flags (start flags)
unfolding start holds Fits
start-IsSafe flags = record { one = λ i j hi hj. cc; taken = λ i h. cc; fits = λ i. refl }

off_while_held :
    (before : Bool) (at : SpinStage) (now : Bool)
    → holds at ≡ true
    → Fits before at now
    → now ≡ false
unfolding holds Fits
off_while_held before outside now h fit = cc
off_while_held before (state_read state) now h fit = cc
off_while_held before (disabled state) now h fit = fit.0
off_while_held before (spinning state) now h fit = fit.0
off_while_held before (holding state) now h fit = fit.0
off_while_held before (released state) now h fit = fit.0

run-IsSafe :
    (flags : ℕ → Bool) (schedule : List (ℕ × Bool)) (s : SpinSystem)
    → IsSafe flags s
    → IsSafe flags (run schedule s)
unfolding run
run-IsSafe flags [] s safe = safe
run-IsSafe flags ((i, spurious) ∷ schedule) s safe =
    run-IsSafe flags schedule (step_from (s.stage i) i spurious s)
      (step_from-IsSafe flags s safe i (s.stage i) spurious refl)

-- After every interleaving of any processors' steps through `uacpi_kernel_lock_spinlock` and
-- `uacpi_kernel_unlock_spinlock` from a free lock, spurious failures of the exchange included, when a
-- processor holds the lock no other one does, the lock is marked as locked, and the holder's
-- interrupts are off.
pub run-start :
    (flags : ℕ → Bool) (schedule : List (ℕ × Bool)) (i : ℕ)
    → holds ((run schedule (start flags)).stage i) ≡ true
    → (j : ℕ) → j ≢ i
    → (holds ((run schedule (start flags)).stage j) ≡ false)
      × ((run schedule (start flags)).locked ≡ true)
      × ((run schedule (start flags)).interrupts i ≡ false)
run-start flags schedule i on j other =
    let after = run schedule (start flags) in
    let safe = run-IsSafe flags schedule (start flags) (start-IsSafe flags) in
    (
      elim (Bool-cases (holds (after.stage j))) [
        | inl both ↦ absurd (other (safe.one j i both on))
        | inr off ↦ off
      ],
      safe.taken i on,
      off_while_held (flags i) (after.stage i) (after.interrupts i) on (safe.fits i),
    )
