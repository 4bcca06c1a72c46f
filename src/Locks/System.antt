-- ===== src/Locks/System.antt =====
-- `IntLock` of kernel/src/utils.rs: the atomic steps of `lock` and `unlock`, for processors that
-- interleave.
use prometheos.Base.{ℕ, Bool, true, false, ◌==◌, if◌then◌else◌, List, [], ◌∷◌}

-- How far a processor is: before `try_lock`, after each of its three steps, and within `unlock`,
-- where `restore` is known.
pub data Stage : Type 0 where
  outside locked_on flag_saved inside : Stage
  leaving restoring : (restore : Bool) → Stage

-- `locked` and `saved_if` are the fields of the lock; `stage` and `interrupts` are each processor's
-- program counter and interrupt flag.
pub record System : Type 0 where
  pub locked : Bool
  pub saved_if : Bool
  pub stage : ℕ → Stage
  pub interrupts : ℕ → Bool

abbrev pub put {ℓ} : {A : Type ℓ} → (ℕ → A) → ℕ → A → ℕ → A
put f i v j = if j == i then v else f j

-- Nobody is at the lock, and the flags are given.
unfoldable pub start : (ℕ → Bool) → System
start flags = record { locked = false; saved_if = false; stage = λ i. outside; interrupts = flags }

-- The compare-and-exchange of `try_lock`; the loop of `lock` repeats it until it succeeds.
abbrev pub exchange : Bool → ℕ → System → System
exchange true i s = s
exchange false i s = record s { locked = true; stage = put s.stage i locked_on }

-- The next atomic step of processor `i`, which is at the stage.
unfoldable pub step_from : Stage → ℕ → System → System
step_from outside i s = exchange s.locked i s
step_from locked_on i s = record s { saved_if = s.interrupts i; stage = put s.stage i flag_saved }
step_from flag_saved i s = record s {
  interrupts = put s.interrupts i false;
  stage = put s.stage i inside;
}
step_from inside i s = record s { stage = put s.stage i (leaving s.saved_if) }
step_from (leaving restore) i s = record s {
  locked = false;
  stage = put s.stage i (restoring restore);
}
step_from (restoring restore) i s = record s {
  interrupts = put s.interrupts i (if restore then true else s.interrupts i);
  stage = put s.stage i outside;
}

unfoldable pub step : ℕ → System → System
unfolding step_from
step i s = step_from (s.stage i) i s

-- An interleaving: the processors in the order of their steps.
unfoldable pub run : List ℕ → System → System
unfolding step
run [] s = s
run (i ∷ schedule) s = run schedule (step i s)

-- Whether the lock is held at a stage.
unfoldable pub holds : Stage → Bool
holds outside = false
holds locked_on = true
holds flag_saved = true
holds inside = true
holds (leaving restore) = true
holds (restoring restore) = false
