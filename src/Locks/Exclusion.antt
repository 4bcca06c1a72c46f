-- ===== src/Locks/Exclusion.antt =====
-- `IntLock` of kernel/src/utils.rs under every interleaving: one holder, and interrupt flags.
use prometheos.Base.{
  ℕ, Bool, true, false, if◌then◌else◌, List, [], ◌∷◌, ◌≡◌, refl, sym, ◌∙◌, ◌≢◌, inl, inr,
  Bool-cases, ap, subst,
}
use prometheos.Locks.System.{
  Stage, outside, locked_on, flag_saved, inside, leaving, restoring, System, put, start, exchange,
  step_from, step, run, holds,
}
use prometheos.Locks.Invariant.{FlagFits, IsSafe, put-same, put-other, restored, moved-IsSafe}

-- A step of processor `i`, at each stage.
module _ (flags : ℕ → Bool) (s : System) (safe : IsSafe flags s) (i : ℕ) where
  Fits : Stage → Type 0
  Fits at = FlagFits (flags i) s.saved_if at (s.interrupts i)

  fit_at : {at : Stage} → s.stage i ≡ at → Fits at
  unfolding Fits
  fit_at h = subst (λ t. FlagFits (flags i) s.saved_if t (s.interrupts i)) h (safe.fits i)

  on_at : {at : Stage} → s.stage i ≡ at → holds at ≡ true → holds (s.stage i) ≡ true
  on_at h on = ap holds h ∙ on

  -- While processor `i` holds the lock nobody else does.
  alone : holds (s.stage i) ≡ true → (j : ℕ) → j ≢ i → holds (s.stage j) ≡ true → {P : Type 0} → P
  alone on j h other = absurd (h (safe.one j i other on))

  others_off : holds (s.stage i) ≡ true → (j : ℕ) → j ≢ i → holds (s.stage j) ≡ false
  others_off on j h = elim (Bool-cases (holds (s.stage j))) [
    | inl other ↦ absurd (h (safe.one j i other on))
    | inr off ↦ off
  ]

  step-outside : s.stage i ≡ outside → IsSafe flags (step_from outside i s)
  unfolding step_from holds FlagFits Fits
  step-outside at = elim (Bool-cases s.locked) [
    | inl locked ↦ subst (λ b. IsSafe flags (exchange b i s)) (sym locked) safe
    | inr free ↦
        let nobody = λ (j : ℕ) (on : holds (s.stage j) ≡ true). safe.taken j on in
        subst (λ b. IsSafe flags (exchange b i s)) (sym free)
          (moved-IsSafe flags s (record s { locked = true; stage = put s.stage i locked_on }) safe i
            (rw (put-same s.stage i locked_on) (fit_at at)) (put-other s.stage i _) (λ j h. refl)
            (inl refl) (λ _. refl) (λ j h on. let taken = nobody j on in cc))
  ]

  step-locked_on : s.stage i ≡ locked_on → IsSafe flags (step_from locked_on i s)
  unfolding step_from holds FlagFits Fits
  step-locked_on at =
      moved-IsSafe flags s _ safe i (rw (put-same s.stage i flag_saved) (fit_at at, fit_at at))
        (put-other s.stage i _) (λ j h. refl) (inr (others_off (on_at at refl)))
        (λ _. safe.taken i (on_at at refl)) (λ j h on. alone (on_at at refl) j h on)

  step-flag_saved : s.stage i ≡ flag_saved → IsSafe flags (step_from flag_saved i s)
  unfolding step_from holds FlagFits Fits
  step-flag_saved at =
      let (_, saved) = fit_at at in
      moved-IsSafe flags s _ safe i
        (rw (put-same s.stage i inside, put-same s.interrupts i false) (refl, saved))
        (put-other s.stage i _) (put-other s.interrupts i _) (inl refl)
        (λ _. safe.taken i (on_at at refl)) (λ j h on. alone (on_at at refl) j h on)

  step-inside : s.stage i ≡ inside → IsSafe flags (step_from inside i s)
  unfolding step_from holds FlagFits Fits
  step-inside at =
      moved-IsSafe flags s _ safe i (rw (put-same s.stage i (leaving s.saved_if)) (fit_at at))
        (put-other s.stage i _) (λ j h. refl) (inl refl) (λ _. safe.taken i (on_at at refl))
        (λ j h on. alone (on_at at refl) j h on)

  step-leaving : (b : Bool) → s.stage i ≡ leaving b → IsSafe flags (step_from (leaving b) i s)
  unfolding step_from holds FlagFits Fits
  step-leaving b at =
      moved-IsSafe flags s _ safe i (rw (put-same s.stage i (restoring b)) (fit_at at))
        (put-other s.stage i _) (λ j h. refl) (inl refl)
        (λ on. let off = ap holds (put-same s.stage i (restoring b)) in cc)
        (λ j h on. alone (on_at at refl) j h on)

  step-restoring : (b : Bool) → s.stage i ≡ restoring b → IsSafe flags (step_from (restoring b) i s)
  unfolding step_from holds FlagFits Fits
  step-restoring b at =
      let (off, before) = fit_at at in
      moved-IsSafe flags s _ safe i
        (rw
          (put-same s.stage i outside, put-same s.interrupts i (if b then true else s.interrupts i))
          (restored b (s.interrupts i) (flags i) off before))
        (put-other s.stage i _) (put-other s.interrupts i _) (inl refl)
        (λ on. let off = ap holds (put-same s.stage i outside) in cc)
        (λ j h on. (safe.taken j on, ap holds (put-same s.stage i outside)))

  step_from-IsSafe : (at : Stage) → s.stage i ≡ at → IsSafe flags (step_from at i s)
  step_from-IsSafe outside = step-outside
  step_from-IsSafe locked_on = step-locked_on
  step_from-IsSafe flag_saved = step-flag_saved
  step_from-IsSafe inside = step-inside
  step_from-IsSafe (leaving b) = step-leaving b
  step_from-IsSafe (restoring b) = step-restoring b

run-IsSafe :
    (flags : ℕ → Bool) (schedule : List ℕ) (s : System)
    → IsSafe flags s
    → IsSafe flags (run schedule s)
unfolding run step
run-IsSafe flags [] s safe = safe
run-IsSafe flags (i ∷ schedule) s safe =
    run-IsSafe flags schedule (step i s) (step_from-IsSafe flags s safe i (s.stage i) refl)

start-IsSafe : (flags : ℕ → Bool) → IsSafe flags (start flags)
unfolding start holds FlagFits
start-IsSafe flags = record { one = λ i j hi hj. cc; taken = λ i h. cc; fits = λ i. refl }

module _ (flags : ℕ → Bool) (schedule : List ℕ) where
  -- After every interleaving of any processors' steps from a free lock, when a processor holds the
  -- lock no other one does, and the lock is marked as locked.
  pub run-excludes :
      (i : ℕ)
      → holds ((run schedule (start flags)).stage i) ≡ true
      → (j : ℕ) → j ≢ i
      → (holds ((run schedule (start flags)).stage j) ≡ false)
        × ((run schedule (start flags)).locked ≡ true)
  run-excludes i on j other =
      let safe = run-IsSafe flags schedule (start flags) (start-IsSafe flags) in
      (others_off flags (run schedule (start flags)) safe i on j other, safe.taken i on)

  -- After every interleaving of any processors' steps from a free lock, a processor that is not at
  -- the lock has the interrupt flag that it had at the start.
  pub run-restores :
      (i : ℕ)
      → (run schedule (start flags)).stage i ≡ outside
      → (run schedule (start flags)).interrupts i ≡ flags i
  unfolding FlagFits Fits
  run-restores i at =
      let safe = run-IsSafe flags schedule (start flags) (start-IsSafe flags) in
      fit_at flags (run schedule (start flags)) safe i at

  -- After every interleaving of any processors' steps from a free lock, a processor that has
  -- returned from `lock` and not begun `unlock` has its interrupts off.
  pub run-disables :
      (i : ℕ)
      → (run schedule (start flags)).stage i ≡ inside
      → (run schedule (start flags)).interrupts i ≡ false
  unfolding FlagFits Fits
  run-disables i at =
      let safe = run-IsSafe flags schedule (start flags) (start-IsSafe flags) in
      let (off, _) = fit_at flags (run schedule (start flags)) safe i at in off
