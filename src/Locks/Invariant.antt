-- ===== src/Locks/Invariant.antt =====
-- What is true of `IntLock` of kernel/src/utils.rs between any two atomic steps, and what a step of
-- one processor must show to keep it.
use prometheos.Base.{
  ℕ, Bool, true, false, ◌==◌, if◌then◌else◌, ◌≡◌, sym, ◌∙◌, ◌≢◌, ◌⊎◌, inl, inr, Bool-cases, arith,
  subst,
}
use prometheos.Locks.System.{
  Stage, outside, locked_on, flag_saved, inside, leaving, restoring, System, put, holds,
}

-- What holds of a processor's interrupt flag at a stage, from the flag it had at the start and the
-- flag that the lock has saved.
unfoldable pub FlagFits : (before saved : Bool) → Stage → Bool → Type 0
FlagFits before saved outside now = now ≡ before
FlagFits before saved locked_on now = now ≡ before
FlagFits before saved flag_saved now = (now ≡ before) × (saved ≡ before)
FlagFits before saved inside now = (now ≡ false) × (saved ≡ before)
FlagFits before saved (leaving restore) now = (now ≡ false) × (restore ≡ before)
FlagFits before saved (restoring restore) now = (now ≡ false) × (restore ≡ before)

pub record IsSafe (flags : ℕ → Bool) (s : System) : Type 0 where
  pub one : (i j : ℕ) → holds (s.stage i) ≡ true → holds (s.stage j) ≡ true → i ≡ j
  pub taken : (i : ℕ) → holds (s.stage i) ≡ true → s.locked ≡ true
  pub fits : (i : ℕ) → FlagFits (flags i) s.saved_if (s.stage i) (s.interrupts i)

-- The saved flag matters to a processor that holds the lock alone.
fits-saved :
    (before saved saved' : Bool) (at : Stage) (now : Bool)
    → holds at ≡ false
    → FlagFits before saved at now
    → FlagFits before saved' at now
unfolding FlagFits holds
fits-saved before saved saved' outside now h fit = fit
fits-saved before saved saved' (restoring restore) now h fit = fit
fits-saved before saved saved' locked_on now h fit = cc
fits-saved before saved saved' flag_saved now h fit = cc
fits-saved before saved saved' inside now h fit = cc
fits-saved before saved saved' (leaving restore) now h fit = cc

pub put-same {ℓ} : {A : Type ℓ} (f : ℕ → A) (i : ℕ) (v : A) → put f i v i ≡ v
put-same f i v = ground arith

pub put-other {ℓ} : {A : Type ℓ} (f : ℕ → A) (i : ℕ) (v : A) (j : ℕ) → j ≢ i → put f i v j ≡ f j
put-other f i v j h = ground arith

pub same_or_other : (j i : ℕ) → (j ≡ i) ⊎ (j ≢ i)
same_or_other j i = elim (Bool-cases (j == i)) [
  | inl h ↦ inl (ground arith)
  | inr h ↦ inr (ground arith)
]

-- A step of one processor, by what becomes of it and of the lock.
module _ (flags : ℕ → Bool) (s s' : System) (safe : IsSafe flags s) (i : ℕ)
    (own : FlagFits (flags i) s'.saved_if (s'.stage i) (s'.interrupts i))
    (stages : (j : ℕ) → j ≢ i → s'.stage j ≡ s.stage j)
    (interrupts : (j : ℕ) → j ≢ i → s'.interrupts j ≡ s.interrupts j)
    (saved : (s'.saved_if ≡ s.saved_if) ⊎ ((j : ℕ) → j ≢ i → holds (s.stage j) ≡ false))
    (mine : holds (s'.stage i) ≡ true → s'.locked ≡ true)
    (apart : (j : ℕ)
      → j ≢ i
      → holds (s.stage j) ≡ true
      → (s'.locked ≡ true) × (holds (s'.stage i) ≡ false)) where
  other_fits : (j : ℕ) → j ≢ i → FlagFits (flags j) s'.saved_if (s'.stage j) (s'.interrupts j)
  other_fits j h =
      rw (stages j h, interrupts j h)
        (elim saved [
          | inl same ↦ rw same (safe.fits j)
          | inr free ↦
              fits-saved (flags j) s.saved_if s'.saved_if (s.stage j) (s.interrupts j) (free j h)
                (safe.fits j)
        ])

  held_apart :
      (j : ℕ)
      → j ≢ i
      → holds (s'.stage j) ≡ true
      → (s'.locked ≡ true) × (holds (s'.stage i) ≡ false)
  held_apart j h on = apart j h (subst (λ t. holds t ≡ true) (stages j h) on)

  one_holder : (j k : ℕ) → holds (s'.stage j) ≡ true → holds (s'.stage k) ≡ true → j ≡ k
  one_holder j k hj hk = elim (same_or_other j i) [
    | inl a ↦ elim (same_or_other k i) [
      | inl b ↦ a ∙ sym b
      | inr b ↦ let (_, off) = held_apart k b hk in cc
    ]
    | inr a ↦ elim (same_or_other k i) [
      | inl b ↦ let (_, off) = held_apart j a hj in cc
      | inr b ↦
          safe.one j k (subst (λ t. holds t ≡ true) (stages j a) hj)
            (subst (λ t. holds t ≡ true) (stages k b) hk)
    ]
  ]

  pub moved-IsSafe : IsSafe flags s'
  moved-IsSafe = record {
    one = one_holder;
    taken = λ j on. elim (same_or_other j i) [
      | inl h ↦ mine (subst (λ t. holds (s'.stage t) ≡ true) h on)
      | inr h ↦ let (locked, _) = held_apart j h on in locked
    ];
    fits = λ j. elim (same_or_other j i) [
      | inl h ↦
          subst (λ t. FlagFits (flags t) s'.saved_if (s'.stage t) (s'.interrupts t)) (sym h) own
      | inr h ↦ other_fits j h
    ];
  }

-- What `unlock` does to the flag, when interrupts are off before it.
pub restored : (b now before : Bool) → now ≡ false → b ≡ before → (if b then true else now) ≡ before
restored true now before off same = same
restored false now before off same = off ∙ same
