-- ===== src/Idt/Dispatch.antt =====
-- Which handler an interrupt of kernel/src/idt.rs reaches.
use prometheos.Base.{
  ℕ, ◌≤◌, ◌<◌, ◌≡◌, ◌≢◌, refl, ap, ◌∙◌, inl, inr, false, not, Option, none, some, ◌==◌, ◌&&◌, ◌||◌,
  if◌then◌else◌, Bool-cases, arith,
}
use prometheos.Idt.{
  InterruptFrame, returned, Cpu, set_handler, is_handler_installed, install_handler, clear_handler,
  isr_handler, call_handler, fault, print_line, unhandled,
}

module _ {H : Type 0} (run : H → InterruptFrame → H × InterruptFrame) (truncate : ℕ → ℕ) where
  reaches :
      (frame : InterruptFrame) (s : Cpu H)
      → 32 ≤ frame.vector
      → frame.vector < 256
      → frame.vector ≢ 0x80
      → isr_handler run truncate frame s
        ≡ returned (call_handler run truncate frame.vector (s.handlers frame.vector) frame s)
  unfolding isr_handler
  reaches frame s low high no_call = ground arith

  again :
      (v : ℕ) (a b : Option H) (f : ℕ → Option H) (w : ℕ)
      → set_handler v b (set_handler v a f) w ≡ set_handler v b f w
  again v a b f w = ground arith

  -- An interrupt whose vector is no exception and no system call, after `install_handler` for it, runs
  -- the handler on the frame, and leaves the handler as it is afterwards installed and all else as it
  -- was.
  pub isr_handler-install_handler :
      (frame : InterruptFrame) (handler : H) (s : Cpu H) (low : 32 ≤ frame.vector)
      (high : frame.vector < 256) (no_call : frame.vector ≢ 0x80)
      → isr_handler run truncate frame (install_handler frame.vector handler s)
        ≡ returned ((run handler frame).1, install_handler frame.vector ((run handler frame).0) s)
  unfolding install_handler call_handler
  isr_handler-install_handler frame handler s low high no_call =
      let here : set_handler frame.vector (some handler) s.handlers frame.vector ≡ some handler =
        ground arith in
      reaches frame (install_handler frame.vector handler s) low high no_call
      ∙ ap
          (λ slot. returned (
            call_handler run truncate frame.vector slot frame
              (install_handler frame.vector handler s)))
          here
      ∙ λ i. returned (
        (run handler frame).1,
        record s {
          handlers =
              λ w. again frame.vector (some handler) (some ((run handler frame).0)) s.handlers w i;
        },
      )

  -- An interrupt whose vector is no exception and no system call, after `clear_handler` for it, is
  -- printed as unhandled; the frame and the handlers are as they were.
  pub isr_handler-clear_handler :
      (frame : InterruptFrame) (s : Cpu H) (low : 32 ≤ frame.vector) (high : frame.vector < 256)
      (no_call : frame.vector ≢ 0x80)
      → isr_handler run truncate frame (clear_handler frame.vector s)
        ≡ returned (frame, print_line unhandled (clear_handler frame.vector s))
  unfolding clear_handler call_handler
  isr_handler-clear_handler frame s low high no_call =
      let here : set_handler frame.vector none s.handlers frame.vector ≡ none = ground arith in
      reaches frame (clear_handler frame.vector s) low high no_call
      ∙ ap
          (λ slot.
            returned
              (call_handler run truncate frame.vector slot frame (clear_handler frame.vector s)))
          here

  -- An exception other than the vectors 1, 2 and 3 panics, whatever handlers are installed, for a page
  -- fault with the register CR2.
  pub isr_handler-exception :
      (frame : InterruptFrame) (s : Cpu H) (low : frame.vector < 32)
      (fatal : (frame.vector == 1 || frame.vector == 2 || frame.vector == 3) ≡ false)
      → isr_handler run truncate frame s
        ≡ fault frame.vector (if frame.vector == 14 then some s.cr2 else none)
  unfolding isr_handler
  isr_handler-exception frame s low fatal = ground arith

module _ {H : Type 0} where
  -- After `install_handler` for a vector a handler is installed for it, and after `clear_handler` none;
  -- for each other vector it is as before.
  pub is_handler_installed_lem :
      (vector w : ℕ) (handler : H) (s : Cpu H)
      → (is_handler_installed w (install_handler vector handler s)
          ≡ (w == vector || is_handler_installed w s))
        × (is_handler_installed w (clear_handler vector s)
            ≡ (not (w == vector) && is_handler_installed w s))
  unfolding is_handler_installed install_handler clear_handler
  is_handler_installed_lem vector w handler s = elim (Bool-cases (w == vector)) [
    | inl e ↦ rw e (refl, refl)
    | inr e ↦ rw e (refl, refl)
  ]
