-- ===== src/Acpi/Examples.antt =====
-- The theorems about kernel/src/acpi/uacpi.rs at inputs that meet their hypotheses.
use prometheos.Base.{
  ℕ, ◌+◌, ◌-◌, ◌*◌, ◌%◌, ◌≤◌, ◌<◌, ◌≡◌, ◌≢◌, refl, ◌⊎◌, arith, Bool, true, false, none, some, [],
  ◌∷◌, ltb, if◌then◌else◌, ok,
}
use prometheos.Base.Exec.{done}
use prometheos.Idt.{Cpu, is_handler_installed}
use prometheos.Idt.Examples.{count, low_bits}
use prometheos.Pmm.Examples.{base}
use prometheos.Vmm.Examples.{paging, fresh_machine}
use prometheos.Acpi.Status.{success, timeout}
use prometheos.Acpi.Interrupts.{Handler, install_interrupt_handler}
use prometheos.Acpi.Installed.{IsInstalled, install_interrupt_handler_lem}
use prometheos.Acpi.Ranges.{kernel_map}
use prometheos.Acpi.Pages.{Ending, Run, pointer, kernel_map_lem}
use prometheos.Acpi.Events.{create_event, decrement, signal, reset, run, wait_for_event}
use prometheos.Acpi.Signals.{IsCounted, run-create_event}
use prometheos.Acpi.Waits.{arrived, last_sleep, wait_for_event_lem}
use prometheos.Acpi.Clock.{Waiter, acquire_mutex}
use prometheos.Acpi.Mutex.{IsClock, Ended, acquire_mutex_lem}

-- A processor without handlers; the kernel's own ones, and the library's, would be numbers.
abbrev quiet : Cpu (Handler ℕ ℕ)
quiet = record { handlers = λ v. none; dr6 = 0; cr2 = 0; lines = [] }

line_unused : is_handler_installed 0x29 quiet ≡ false
unfolding is_handler_installed
line_unused = refl

install_interrupt_handler_lem_example :
    (s' : Cpu (Handler ℕ ℕ)) × (install_interrupt_handler 9 (some 5) 0x7000 quiet
      ≡ ok (success, some 0x29, s'))
    × IsInstalled count low_bits 9 (some 5) 0x7000 quiet s'
install_interrupt_handler_lem_example =
    install_interrupt_handler_lem count low_bits 9 (some 5) 0x7000 quiet (omega arith)
      (λ e. omega (arith, e)) line_unused

kernel_map_lem_example :
    (first : ℕ) × (n : ℕ) × (first % 4096 ≡ 0)
    × (first ≤ 0x1ABC)
    × (0x1ABC < first + 4096)
    × (0x1ABC + 0xF00 ≤ first + n * 4096)
    × (first + n * 4096 < 0x1ABC + 0xF00 + 4096)
    × ((fuel : ℕ)
        → n < fuel
        → (ending : Ending) × Run paging base n first fresh_machine ending
          × (kernel_map paging fuel 0x1ABC 0xF00 fresh_machine ≡ pointer 0x1ABC base ending))
kernel_map_lem_example = kernel_map_lem paging 0x1ABC 0xF00 fresh_machine (omega arith)

run-create_event_example :
    IsCounted
      (run (signal ∷ decrement 0 ∷ decrement 1 ∷ signal ∷ decrement 1 ∷ reset ∷ []) create_event)
run-create_event_example =
    run-create_event (signal ∷ decrement 0 ∷ decrement 1 ∷ signal ∷ decrement 1 ∷ reset ∷ [])
      (omega arith)

-- Two signals arrive during the third sleep.
abbrev third : ℕ → ℕ
third n = if ltb n 2 then 0 else 2

wait_for_event_lem_example :
    (k : ℕ) × (k ≤ last_sleep third 0 95)
    × ((j : ℕ) → j < k → arrived third 0 j ≡ 0)
    × ((arrived third 0 k ≢ 0)
          × (wait_for_event third 11 95 0 ≡ some (true, arrived third 0 k - 1, k))
        ⊎ (k ≡ last_sleep third 0 95)
          × (arrived third 0 k ≡ 0)
          × (wait_for_event third 11 95 0 ≡ some (false, 0, k)))
wait_for_event_lem_example = wait_for_event_lem third 0 11 95 (λ e. omega (arith, e)) (omega arith)

-- A clock that gains a tenth of a millisecond at each reading, and a lock that is free at the third
-- attempt.
abbrev tenths : ℕ → ℕ
tenths n = n * 100000

abbrev busy_twice : ℕ → Bool
busy_twice t = ltb t 2

tenths-IsClock : IsClock tenths busy_twice 11 100
tenths-IsClock = record {
  forward = λ n h. omega arith;
  fits = λ n h. omega arith;
  passes = λ n h. (9, omega arith, omega arith);
}

abbrev waiter : Waiter
waiter = record { reads = 0; tries = 0 }

acquire_mutex_lem_example :
    (locked : Bool) × (w' : Waiter) × (acquire_mutex tenths busy_twice 6 11 5 waiter
      ≡ ok (done (if locked then success else timeout), w'))
    × Ended tenths busy_twice 5000000 waiter locked w'
acquire_mutex_lem_example =
    acquire_mutex_lem tenths busy_twice 11 100 tenths-IsClock 6 5 waiter (omega arith)
      (λ e. omega (arith, e)) (omega arith) (omega arith)
