-- ===== src/Acpi/Interrupts.antt =====
-- The interrupt handlers that kernel/src/acpi/uacpi.rs installs for the ACPI library.
use prometheos.Base.{
  ℕ, ◌+◌, ◌%◌, ◌^◌, Option, none, some, List, [], ◌∷◌, ltb, if◌then◌else◌, Panic, Result, ok, ◌>>◌,
  check,
}
use prometheos.Idt.{InterruptFrame, Cpu, is_handler_installed, install_handler, clear_handler}
use prometheos.Acpi.Status.{Status, success, already_exists}

-- The closure that is installed: the library's handler, if there is one, and `ctx as usize`. `calls`
-- are the calls it has made, the last one first; the code keeps no such list.
pub record Closure (L : Type 0) : Type 0 where
  pub handler : Option L
  pub ctx : ℕ
  pub calls : List (L × ℕ)

abbrev pub closure_of : {L : Type 0} → (handler : Option L) → (ctx : ℕ) → Closure L
closure_of handler ctx = record { handler = handler; ctx = ctx; calls = [] }

-- A handler in the table: one of the kernel's own, or such a closure.
pub data Handler (K L : Type 0) : Type 0 where
  own : K → Handler K L
  library : Closure L → Handler K L

-- `if let Some(handler) = handler.as_ref() { handler(ctx) }`
unfoldable pub call_library : {L : Type 0} → Option L → Closure L → Closure L
call_library none c = c
call_library (some handler) c = record c { calls = (handler, c.ctx) ∷ c.calls }

-- What a handler does with a frame: a closure ignores it.
unfoldable pub run_handler :
    {K L : Type 0}
    → (K → InterruptFrame → K × InterruptFrame)
    → Handler K L
    → InterruptFrame
    → Handler K L × InterruptFrame
unfolding call_library
run_handler run_own (own k) frame = let (k', frame') = run_own k frame in (own k', frame')
run_handler run_own (library c) frame = (library (call_library c.handler c), frame)

-- The check of the sum is one on `u32`. The second part of the result is what is written to
-- `out_irq_handle`.
unfoldable pub install_interrupt_handler :
    {K L : Type 0}
    → (irq : ℕ) → (handler : Option L) → (ctx : ℕ) → Cpu (Handler K L)
    → Result (Status × Option ℕ × Cpu (Handler K L))
unfolding is_handler_installed install_handler
install_interrupt_handler irq handler ctx s = do
  check (ltb (irq + 0x20) (2 ^ 32)) Panic.overflow
  let vector = (irq + 0x20) % 256
  if is_handler_installed vector s
      then ok (already_exists, none, s)
      else ok (success, some vector, install_handler vector (library (closure_of handler ctx)) s)

unfoldable pub uninstall_interrupt_handler :
    {H : Type 0} → (irq_handle : ℕ) → Cpu H → Status × Cpu H
unfolding clear_handler
uninstall_interrupt_handler irq_handle s = (success, clear_handler (irq_handle % 256) s)
