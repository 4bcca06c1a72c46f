-- ===== src/Acpi/Installed.antt =====
-- An interrupt handler of the ACPI library, from `install` to `uninstall`.
use native.Mathlib.Nat.{mod-eq_of_lt}
use prometheos.Base.{
  ℕ, ◌+◌, ◌%◌, ◌^◌, ◌<◌, ◌≡◌, ◌≢◌, refl, subst, arith, true, false, Option, none, some, List, [],
  ◌∷◌, ap, ◌∙◌, ok, lt→ltb, eq→==,
}
use prometheos.Idt.{
  InterruptFrame, returned, Cpu, is_handler_installed, install_handler, clear_handler, isr_handler,
}
use prometheos.Idt.Dispatch.{isr_handler-install_handler}
use prometheos.Acpi.Status.{success, already_exists}
use prometheos.Acpi.Interrupts.{
  Handler, library, run_handler, call_library, closure_of, install_interrupt_handler,
  uninstall_interrupt_handler,
}

module _ {H : Type 0} where
  installed-install_handler :
      (vector : ℕ) (h : H) (s : Cpu H)
      → is_handler_installed vector (install_handler vector h s) ≡ true
  unfolding is_handler_installed install_handler
  installed-install_handler vector h s = rw (eq→== vector vector refl) refl

  installed-clear_handler :
      (vector : ℕ) (s : Cpu H) → is_handler_installed vector (clear_handler vector s) ≡ false
  unfolding is_handler_installed clear_handler
  installed-clear_handler vector s = rw (eq→== vector vector refl) refl

-- The call that a closure makes each time, if it has a handler.
abbrev pub calls_of : {L : Type 0} → (handler : Option L) → (ctx : ℕ) → List (L × ℕ)
calls_of none ctx = []
calls_of (some handler) ctx = (handler, ctx) ∷ []

called :
    {L : Type 0} (handler : Option L) (ctx : ℕ)
    → call_library handler (closure_of handler ctx)
      ≡ record (closure_of handler ctx) { calls = calls_of handler ctx }
unfolding call_library
called none ctx = refl
called (some handler) ctx = refl

module _ {K L : Type 0} (run_own : K → InterruptFrame → K × InterruptFrame) (truncate : ℕ → ℕ) where
  -- What follows an installation that left the state `s'` from `s`.
  pub record IsInstalled (irq : ℕ) (handler : Option L) (ctx : ℕ) (s s' : Cpu (Handler K L))
      : Type 0 where
    pub reached :
        (frame : InterruptFrame)
        → frame.vector ≡ irq + 0x20
        → isr_handler (run_handler run_own) truncate frame s'
          ≡ returned (
            frame,
            install_handler
                (irq + 0x20)
                (library (record { handler = handler; ctx = ctx; calls = calls_of handler ctx }))
                s,
          )
    pub refused :
        (other : Option L) (ctx' : ℕ)
        → install_interrupt_handler irq other ctx' s' ≡ ok (already_exists, none, s')
    pub removed :
        is_handler_installed (irq + 0x20) (uninstall_interrupt_handler (irq + 0x20) s').1 ≡ false

  -- For a line below 224 that is not 96, whose vector is the system call's, and has no handler yet,
  -- `uacpi_kernel_install_interrupt_handler` succeeds with the vector 32 above the line. An interrupt
  -- with that vector then returns with the frame as it was, after one call of the handler that was
  -- given, if there was one, with the context that was given. A second installation is refused and
  -- changes nothing, and after `uacpi_kernel_uninstall_interrupt_handler` of the vector no handler is
  -- installed.
  pub install_interrupt_handler_lem :
      (irq : ℕ) (handler : Option L) (ctx : ℕ) (s : Cpu (Handler K L)) (low : irq < 224)
      (no_call : irq ≢ 96) (unused : is_handler_installed (irq + 0x20) s ≡ false)
      → (s' : Cpu (Handler K L)) × (install_interrupt_handler irq handler ctx s
          ≡ ok (success, some (irq + 0x20), s'))
        × IsInstalled irq handler ctx s s'
  unfolding install_interrupt_handler uninstall_interrupt_handler run_handler
  install_interrupt_handler_lem irq handler ctx s low no_call unused =
      let vector : (irq + 0x20) % 256 ≡ irq + 0x20 = mod-eq_of_lt (omega arith) in
      let fits = lt→ltb (irq + 0x20) (2 ^ 32) (omega arith) in
      let closure : Handler K L = library (closure_of handler ctx) in
      let s' = install_handler (irq + 0x20) closure s in
      (
        s',
        rw (fits, vector, unused) refl,
        record {
          reached = λ frame e.
              subst
                (λ v.
                  isr_handler (run_handler run_own) truncate frame (install_handler v closure s)
                  ≡ returned (
                    frame,
                    install_handler v
                        (library
                          (record { handler = handler; ctx = ctx; calls = calls_of handler ctx }))
                        s,
                  ))
                e
                (isr_handler-install_handler (run_handler run_own) truncate frame closure s
                    (omega (arith, e)) (omega (arith, e)) (λ c. omega (arith, e, c, no_call))
                  ∙ ap (λ t. returned (frame, install_handler frame.vector (library t) s))
                      (called handler ctx));
          refused = λ other ctx'.
              rw (fits, vector, installed-install_handler (irq + 0x20) closure s) refl;
          removed = rw vector (installed-clear_handler (irq + 0x20) s');
        },
      )
