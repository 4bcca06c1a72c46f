-- ===== src/Locks/Release.antt =====
-- `lock` and `unlock` of `IntLock` of kernel/src/utils.rs, by one processor that nobody disturbs.
use prometheos.Base.{ℕ, true, false, [], ◌∷◌, ◌≡◌, refl, ◌∙◌, ap}
use prometheos.Locks.System.{
  Stage, outside, locked_on, flag_saved, inside, leaving, restoring, System, put, exchange,
  step_from, step, run,
}
use prometheos.Locks.Invariant.{put-same, restored}

step_at : (i : ℕ) (s : System) {at : Stage} → s.stage i ≡ at → step i s ≡ step_from at i s
unfolding step
step_at i s h = ap (λ t. step_from t i s) h

module _ (i : ℕ) (s : System) where
  -- The states of a processor that takes the lock and gives it back.
  taken : System
  taken = record s { locked = true; stage = put s.stage i locked_on }

  after_lock : System
  after_lock = step_from flag_saved i (step_from locked_on i taken)

  after_unlock : System
  after_unlock =
      step_from (restoring (s.interrupts i)) i
        (step_from (leaving (s.interrupts i)) i (step_from inside i after_lock))

module _ (i : ℕ) (s : System) (free : s.locked ≡ false) (at : s.stage i ≡ outside) where
  run-after_lock : run (i ∷ i ∷ i ∷ []) s ≡ after_lock i s
  unfolding run after_lock taken step_from
  run-after_lock =
      let first : step i s ≡ taken i s = step_at i s at ∙ ap (λ b. exchange b i s) free in
      let second = step_at i (taken i s) (put-same s.stage i locked_on) in
      let third =
        step_at i (step_from locked_on i (taken i s)) (put-same (taken i s).stage i flag_saved) in
      rw (first, second, third) refl

  run-after_unlock : run (i ∷ i ∷ i ∷ []) (after_lock i s) ≡ after_unlock i s
  unfolding run after_lock after_unlock taken step_from
  run-after_unlock =
      let first =
        step_at i (after_lock i s) (put-same (step_from locked_on i (taken i s)).stage i inside) in
      let second =
        step_at i (step_from inside i (after_lock i s))
          (put-same (after_lock i s).stage i (leaving (s.interrupts i))) in
      let third =
        step_at i (step_from (leaving (s.interrupts i)) i (step_from inside i (after_lock i s)))
          (put-same (step_from inside i (after_lock i s)).stage i (restoring (s.interrupts i))) in
      rw (first, second, third) refl

  -- When the lock is free, three steps of a processor that is not at it take it to the end of
  -- `lock`, with the lock marked as locked and the processor's interrupts off.
  pub run-lock :
      ((run (i ∷ i ∷ i ∷ []) s).stage i ≡ inside)
      × ((run (i ∷ i ∷ i ∷ []) s).locked ≡ true)
      × ((run (i ∷ i ∷ i ∷ []) s).interrupts i ≡ false)
  unfolding after_lock taken step_from
  run-lock = rw run-after_lock (
    put-same (step_from locked_on i (taken i s)).stage i inside,
    refl,
    put-same s.interrupts i false,
  )

  -- When the lock is free, `lock` and then `unlock` by a processor that nobody disturbs leave the
  -- lock free and the processor outside, with the interrupt flag that it had.
  pub run-unlock :
      ((run (i ∷ i ∷ i ∷ []) (run (i ∷ i ∷ i ∷ []) s)).stage i ≡ outside)
      × ((run (i ∷ i ∷ i ∷ []) (run (i ∷ i ∷ i ∷ []) s)).locked ≡ false)
      × ((run (i ∷ i ∷ i ∷ []) (run (i ∷ i ∷ i ∷ []) s)).interrupts i ≡ s.interrupts i)
  unfolding after_unlock after_lock taken step_from
  run-unlock =
      let flag =
        restored (s.interrupts i) (put s.interrupts i false i) _ (put-same s.interrupts i false)
          refl in
      let last = step_from (leaving (s.interrupts i)) i (step_from inside i (after_lock i s)) in
      rw (run-after_lock, run-after_unlock)
        (put-same last.stage i outside, refl, put-same last.interrupts i _ ∙ flag)
