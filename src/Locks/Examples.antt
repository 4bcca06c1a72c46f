-- ===== src/Locks/Examples.antt =====
-- Two processors at the lock, the first with interrupts on.
use prometheos.Base.{ℕ, Bool, true, false, ◌==◌, List, [], ◌∷◌, ◌≡◌, refl}
use prometheos.Locks.System.{outside, inside, start, step, run, holds, step_from}
use prometheos.Locks.Spin
use prometheos.Locks.SpinSafe
use prometheos.Locks.Exclusion.{run-excludes, run-restores, run-disables}
use prometheos.Locks.Release.{run-lock, run-unlock}

abbrev first_on : ℕ → Bool
first_on i = i == 0

-- The second processor's attempt fails while the first one is inside.
abbrev contended : List ℕ
contended = 0 ∷ 0 ∷ 1 ∷ 0 ∷ []

abbrev contended_twice : List ℕ
contended_twice = 0 ∷ 0 ∷ 1 ∷ 0 ∷ 0 ∷ 0 ∷ 1 ∷ 0 ∷ []

run-excludes_example :
    (holds ((run contended (start first_on)).stage 1) ≡ false)
    × ((run contended (start first_on)).locked ≡ true)
unfolding run start step step_from holds
run-excludes_example = run-excludes first_on contended 0 refl 1 (λ h. cc)

run-restores_example : (run contended_twice (start first_on)).interrupts 0 ≡ true
unfolding run start step step_from
run-restores_example = run-restores first_on contended_twice 0 refl

run-disables_example : (run contended (start first_on)).interrupts 0 ≡ false
unfolding run start step step_from
run-disables_example = run-disables first_on contended 0 refl

run-lock_example :
    ((run (0 ∷ 0 ∷ 0 ∷ []) (start first_on)).stage 0 ≡ inside)
    × ((run (0 ∷ 0 ∷ 0 ∷ []) (start first_on)).locked ≡ true)
    × ((run (0 ∷ 0 ∷ 0 ∷ []) (start first_on)).interrupts 0 ≡ false)
unfolding start
run-lock_example = run-lock 0 (start first_on) refl refl

run-unlock_example :
    ((run (0 ∷ 0 ∷ 0 ∷ []) (run (0 ∷ 0 ∷ 0 ∷ []) (start first_on))).stage 0 ≡ outside)
    × ((run (0 ∷ 0 ∷ 0 ∷ []) (run (0 ∷ 0 ∷ 0 ∷ []) (start first_on))).locked ≡ false)
    × ((run (0 ∷ 0 ∷ 0 ∷ []) (run (0 ∷ 0 ∷ 0 ∷ []) (start first_on))).interrupts 0 ≡ true)
unfolding start
run-unlock_example = run-unlock 0 (start first_on) refl refl

-- The first processor's exchange fails spuriously once, and the second one waits.
abbrev spin_contended : List (ℕ × Bool)
spin_contended =
    (0, false)
    ∷ (0, false)
    ∷ (1, false)
    ∷ (0, true)
    ∷ (0, false)
    ∷ (0, false)
    ∷ (1, false)
    ∷ (1, false)
    ∷ []

run-start_example :
    (Spin.holds ((Spin.run spin_contended (Spin.start first_on)).stage 1) ≡ false)
    × ((Spin.run spin_contended (Spin.start first_on)).locked ≡ true)
    × ((Spin.run spin_contended (Spin.start first_on)).interrupts 0 ≡ false)
unfolding Spin.run Spin.start Spin.holds
run-start_example = SpinSafe.run-start first_on spin_contended 0 refl 1 (λ h. cc)
