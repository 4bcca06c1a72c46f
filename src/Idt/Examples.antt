-- ===== src/Idt/Examples.antt =====
-- The theorem about kernel/src/idt.rs on an interrupt of the keyboard.
use prometheos.Base.{ℕ, ◌+◌, ◌≡◌, arith, none, []}
use prometheos.Idt.{InterruptFrame, returned, Cpu, install_handler, isr_handler}
use prometheos.Idt.Dispatch.{isr_handler-install_handler}

abbrev frame_of : ℕ → InterruptFrame
frame_of n = record {
  r15 = 0;
  r14 = 0;
  r13 = 0;
  r12 = 0;
  r11 = 0;
  r10 = 0;
  r9 = 0;
  r8 = 0;
  rbp = 0;
  rdi = 0;
  rsi = 0;
  rdx = 0;
  rcx = 0;
  rbx = 0;
  rax = 7;
  vector = n;
  error_code = 0;
  rip = 0x1000;
  cs = 8;
  rflags = 2;
  rsp = 0x2000;
  ss = 16;
}

-- A handler that counts its calls and clears a register.
abbrev pub count : ℕ → InterruptFrame → ℕ × InterruptFrame
count n frame = (n + 1, record frame { rax = 0 })

abbrev pub low_bits : ℕ → ℕ
low_bits n = n

abbrev pub idle : Cpu ℕ
idle = record { handlers = λ v. none; dr6 = 0; cr2 = 0xBAD; lines = [] }

isr_handler-install_handler_example :
    isr_handler count low_bits (frame_of 0x21) (install_handler 0x21 4 idle)
    ≡ returned (record (frame_of 0x21) { rax = 0 }, install_handler 0x21 5 idle)
isr_handler-install_handler_example =
    isr_handler-install_handler count low_bits (frame_of 0x21) 4 idle (omega arith) (omega arith)
      (λ e. omega (arith, e))
