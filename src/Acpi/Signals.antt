-- ===== src/Acpi/Signals.antt =====
-- No signal of an event of kernel/src/acpi/uacpi.rs is lost or taken twice.
use native.Mathlib.Nat.{mod-eq_of_lt}
use prometheos.Base.{
  ℕ, ◌+◌, ◌%◌, ◌≤◌, ◌<◌, ◌≡◌, ◌≢◌, refl, inl, inr, arith, List, [], ◌∷◌, length, u64_size, ◌==◌,
  Bool-cases,
}
use prometheos.Acpi.Events.{
  Stage, outside, loaded, Event, set_stage, create_event, exchange, step_from, signal_event,
  reset_event, Action, decrement, signal, reset, act, run,
}

-- A processor holds no loaded value of 0.
abbrev pub IsStage : Stage → Type 0
IsStage outside = Unit
IsStage (loaded value) = value ≢ 0

pub record IsCounted (e : Event) : Type 0 where
  pub total : e.counter + e.taken + e.dropped ≡ e.signalled
  pub stage : (cpu : ℕ) → IsStage (e.stages cpu)

set_stage-IsStage :
    (stages : ℕ → Stage) (cpu : ℕ) (stage : Stage)
    → IsStage stage
    → ((c : ℕ) → IsStage (stages c))
    → (c : ℕ) → IsStage (set_stage stages cpu stage c)
set_stage-IsStage stages cpu stage h all c = elim (Bool-cases (c == cpu)) [
  | inl same ↦ rw same h
  | inr other ↦ rw other (all c)
]

step_from-IsCounted :
    (stage : Stage) (cpu : ℕ) (e : Event)
    → IsStage stage
    → IsCounted e
    → IsCounted (step_from stage cpu e)
unfolding step_from exchange
step_from-IsCounted outside cpu e h v = elim (Bool-cases (e.counter == 0)) [
  | inl empty ↦ rw empty v
  | inr some_left ↦ rw some_left (record {
    total = v.total;
    stage = set_stage-IsStage e.stages cpu (loaded e.counter) (ground arith) v.stage;
  })
]
step_from-IsCounted (loaded value) cpu e h v = elim (Bool-cases (e.counter == value)) [
  | inl same ↦ rw same (record {
    total = ground (arith, v.total, h);
    stage = set_stage-IsStage e.stages cpu outside tt v.stage;
  })
  | inr other ↦
      rw other
        (record { total = v.total; stage = set_stage-IsStage e.stages cpu outside tt v.stage })
]

signalled-step_from :
    (stage : Stage) (cpu : ℕ) (e : Event) → (step_from stage cpu e).signalled ≡ e.signalled
unfolding step_from exchange
signalled-step_from outside cpu e = ground arith
signalled-step_from (loaded value) cpu e = ground arith

act-IsCounted :
    (a : Action) (e : Event)
    → e.signalled + 1 < u64_size
    → IsCounted e
    → IsCounted (act a e) × ((act a e).signalled ≤ e.signalled + 1)
unfolding act signal_event reset_event
act-IsCounted (decrement cpu) e fits v = (
  step_from-IsCounted (e.stages cpu) cpu e (v.stage cpu) v,
  omega (arith, signalled-step_from (e.stages cpu) cpu e),
)
act-IsCounted signal e fits v =
    let same : (e.counter + 1) % u64_size ≡ e.counter + 1 = mod-eq_of_lt (omega (arith, v.total)) in
    (record { total = rw same (omega (arith, v.total)); stage = v.stage }, omega arith)
act-IsCounted reset e fits v =
    (record { total = omega (arith, v.total); stage = v.stage }, omega arith)

run-IsCounted :
    (actions : List Action) (e : Event)
    → e.signalled + length actions < u64_size
    → IsCounted e
    → IsCounted (run actions e)
unfolding run
run-IsCounted [] e fits v = v
run-IsCounted (a ∷ actions) e fits v =
    let (v', more) = act-IsCounted a e (omega (arith, fits)) v in
    run-IsCounted actions (act a e) (omega (arith, fits, more)) v'

-- After every interleaving of fewer than 2^64 accesses of any processors' waits, signals and resets
-- on a new event, the signals given are those that are left in the counter, those that a wait has
-- taken and those that a reset has dropped, and no processor is about to decrement from 0.
pub run-create_event :
    (actions : List Action) → length actions < u64_size → IsCounted (run actions create_event)
run-create_event actions fits =
    run-IsCounted actions create_event (omega (arith, fits))
      (record { total = refl; stage = λ c. tt })
