-- ===== src/Locks/Spin.antt =====
-- `SpinLock` of kernel/src/utils.rs, as `uacpi_kernel_lock_spinlock` and `uacpi_kernel_unlock_spinlock`
-- of kernel/src/acpi/uacpi.rs use it on a handle that is not null: the atomic
-- steps of processors that interleave.
use prometheos.Base.{ℕ, Bool, true, false, ◌||◌, if◌then◌else◌, List, [], ◌∷◌}
use prometheos.Locks.System.{put}

-- How far a processor is, with the interrupt state that it keeps: before the lock, with the state
-- read, with interrupts off before the exchange, in the loop of loads, holding the lock, and with the
-- lock released.
pub data SpinStage : Type 0 where
  outside : SpinStage
  state_read disabled spinning holding released : (state : Bool) → SpinStage

pub record SpinSystem : Type 0 where
  pub locked : Bool
  pub stage : ℕ → SpinStage
  pub interrupts : ℕ → Bool

unfoldable pub start : (ℕ → Bool) → SpinSystem
start flags = record { locked = false; stage = λ i. outside; interrupts = flags }

abbrev pub to : SpinSystem → ℕ → SpinStage → SpinSystem
to s i at = record s { stage = put s.stage i at }

-- `compare_exchange_weak`, which `fails` where the lock is taken, and may fail without a reason.
abbrev pub exchange_weak : (fails : Bool) → (state : Bool) → ℕ → SpinSystem → SpinSystem
exchange_weak true state i s = to s i (spinning state)
exchange_weak false state i s = record (to s i (holding state)) { locked = true }

-- The next atomic step of processor `i`; `spurious` is such a failure.
unfoldable pub step_from : SpinStage → (i : ℕ) → (spurious : Bool) → SpinSystem → SpinSystem
step_from outside i spurious s = to s i (state_read (s.interrupts i))
step_from (state_read state) i spurious s = record (to s i (disabled state)) {
  interrupts = put s.interrupts i false;
}
step_from (disabled state) i spurious s = exchange_weak (s.locked || spurious) state i s
step_from (spinning state) i spurious s = if s.locked then s else to s i (disabled state)
step_from (holding state) i spurious s = record (to s i (released state)) { locked = false }
step_from (released state) i spurious s = record (to s i outside) {
  interrupts = put s.interrupts i (if state then true else s.interrupts i);
}

-- An interleaving: the processors in the order of their steps.
unfoldable pub run : List (ℕ × Bool) → SpinSystem → SpinSystem
unfolding step_from
run [] s = s
run ((i, spurious) ∷ schedule) s = run schedule (step_from (s.stage i) i spurious s)

unfoldable pub holds : SpinStage → Bool
holds outside = false
holds (state_read state) = false
holds (disabled state) = false
holds (spinning state) = false
holds (holding state) = true
holds (released state) = false
