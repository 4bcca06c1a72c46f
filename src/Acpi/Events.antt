-- ===== src/Acpi/Events.antt =====
-- `SimpleEvent` of kernel/src/acpi/uacpi.rs: its accesses to the counter by several processors, and
-- the wait of one of them.
use prometheos.Base.{
  ℕ, zero, suc, ◌+◌, ◌-◌, ◌%◌, Bool, true, false, Option, none, some, List, [], ◌∷◌, ◌==◌,
  if◌then◌else◌, u64_size,
}

-- Where a processor is in `decrement`: before the load, or with the value that it has loaded.
pub data Stage : Type 0 where
  outside : Stage
  loaded : ℕ → Stage

-- `signalled`, `taken` and `dropped` count what `signal_event` adds, what `decrement` takes and what
-- `reset_event` drops; the code keeps the counter only.
pub record Event : Type 0 where
  pub counter : ℕ
  pub signalled : ℕ
  pub taken : ℕ
  pub dropped : ℕ
  pub stages : ℕ → Stage

abbrev pub set_stage : (ℕ → Stage) → ℕ → Stage → ℕ → Stage
set_stage stages cpu stage c = if c == cpu then stage else stages c

-- `SimpleEvent::default()`
abbrev pub create_event : Event
create_event = record { counter = 0; signalled = 0; taken = 0; dropped = 0; stages = λ c. outside }

-- `compare_exchange` from a loaded value to the one below. A failure leads back to the load, and a
-- value that is 0 would be the return of `false`.
unfoldable pub exchange : (cpu value : ℕ) → Event → Event
exchange cpu value e =
    let left = record e { stages = set_stage e.stages cpu outside } in
    if e.counter == value
    then record left { counter = value - 1; taken = if value == 0 then e.taken else e.taken + 1 }
    else left

-- One access of `decrement`. A load of 0 is the return of `false`.
unfoldable pub step_from : Stage → (cpu : ℕ) → Event → Event
unfolding exchange
step_from outside cpu e =
    if e.counter == 0 then e else record e { stages = set_stage e.stages cpu (loaded e.counter) }
step_from (loaded value) cpu e = exchange cpu value e

unfoldable pub signal_event : Event → Event
signal_event e = record e { counter = (e.counter + 1) % u64_size; signalled = e.signalled + 1 }

unfoldable pub reset_event : Event → Event
reset_event e = record e { counter = 0; dropped = e.dropped + e.counter }

pub data Action : Type 0 where
  decrement : (cpu : ℕ) → Action
  signal reset : Action

unfoldable pub act : Action → Event → Event
unfolding step_from signal_event reset_event
act (decrement cpu) e = step_from (e.stages cpu) cpu e
act signal e = signal_event e
act reset e = reset_event e

-- An interleaving, as the list of its actions.
unfoldable pub run : List Action → Event → Event
unfolding act
run [] e = e
run (a ∷ actions) e = run actions (act a e)

-- `uacpi_kernel_wait_for_event`: `arrive` is the number of signals during each sleep, and `sleeps`
-- counts the sleeps of 10 ms. The result is the function's, the counter and the number of sleeps.
module _ (arrive : ℕ → ℕ) where
  -- With a limit on the time: where `remaining` would be negative it is 0, as the code only asks
  -- whether it is above 0.
  unfoldable pub wait_limited : (fuel : ℕ) → (remaining counter sleeps : ℕ) → Option (Bool × ℕ × ℕ)
  wait_limited zero remaining counter sleeps = none
  wait_limited (suc fuel) remaining counter sleeps =
      let rest =
        wait_limited fuel (remaining - 10) ((counter + arrive sleeps) % u64_size) (sleeps + 1) in
      if counter == 0
      then (if remaining == 0 then some (false, counter, sleeps) else rest)
      else some (true, counter - 1, sleeps)

  unfoldable pub wait_unlimited : (fuel : ℕ) → (counter sleeps : ℕ) → Option (Bool × ℕ × ℕ)
  wait_unlimited zero counter sleeps = none
  wait_unlimited (suc fuel) counter sleeps =
      let rest = wait_unlimited fuel ((counter + arrive sleeps) % u64_size) (sleeps + 1) in
      if counter == 0 then rest else some (true, counter - 1, sleeps)

  unfoldable pub wait_for_event : (fuel : ℕ) → (timeout counter : ℕ) → Option (Bool × ℕ × ℕ)
  unfolding wait_limited wait_unlimited
  wait_for_event fuel timeout counter =
      if timeout == 0xFFFF
      then wait_unlimited fuel counter 0
      else wait_limited fuel timeout counter 0
