-- ===== src/Idt.antt =====
-- kernel/src/idt.rs: the table of handlers, and what an interrupt does.
use prometheos.Base.{
  ℕ, ◌≤◌, Bool, true, false, Option, none, some, List, ◌∷◌, ltb, ◌==◌, ◌&&◌, ◌||◌, if◌then◌else◌,
  is_some,
}
pub mod Dispatch
pub mod Examples

pub record InterruptFrame : Type 0 where
  pub r15 : ℕ
  pub r14 : ℕ
  pub r13 : ℕ
  pub r12 : ℕ
  pub r11 : ℕ
  pub r10 : ℕ
  pub r9 : ℕ
  pub r8 : ℕ
  pub rbp : ℕ
  pub rdi : ℕ
  pub rsi : ℕ
  pub rdx : ℕ
  pub rcx : ℕ
  pub rbx : ℕ
  pub rax : ℕ
  pub vector : ℕ
  pub error_code : ℕ
  pub rip : ℕ
  pub cs : ℕ
  pub rflags : ℕ
  pub rsp : ℕ
  pub ss : ℕ

-- What is printed, without the frame.
pub data Line : Type 0 where
  exception : ℕ → Line
  syscall unhandled : Line

-- The end of a handler: a return, a panic for an exception with the register CR2 for a page fault, or
-- the panic of an index beyond the table.
pub data Trap (A : Type 0) : Type 0 where
  returned : A → Trap A
  fault : (vector : ℕ) → (cr2 : Option ℕ) → Trap A
  out_of_bounds : Trap A

-- `handlers` is the static `HANDLERS`, the slots of its 256 entries; `lines` are printed, the last one
-- first.
pub record Cpu (H : Type 0) : Type 0 where
  pub handlers : ℕ → Option H
  pub dr6 : ℕ
  pub cr2 : ℕ
  pub lines : List Line

module _ {H : Type 0} where
  abbrev pub set_handler : ℕ → Option H → (ℕ → Option H) → ℕ → Option H
  set_handler vector slot handlers w = if w == vector then slot else handlers w

  unfoldable pub is_handler_installed : (vector : ℕ) → Cpu H → Bool
  is_handler_installed vector s = is_some (s.handlers vector)

  unfoldable pub install_handler : (vector : ℕ) → H → Cpu H → Cpu H
  install_handler vector handler s = record s {
    handlers = set_handler vector (some handler) s.handlers;
  }

  unfoldable pub clear_handler : (vector : ℕ) → Cpu H → Cpu H
  clear_handler vector s = record s { handlers = set_handler vector none s.handlers }

  abbrev pub print_line : Line → Cpu H → Cpu H
  print_line line s = record s { lines = line ∷ s.lines }

  -- A handler is a closure that may change what it holds and the frame; `truncate` is
  -- `Dr6::from_bits_truncate` of the x86 crate.
  module _ (run : H → InterruptFrame → H × InterruptFrame) (truncate : ℕ → ℕ) where
    unfoldable pub call_handler :
        (vector : ℕ) → Option H → InterruptFrame → Cpu H → InterruptFrame × Cpu H
    call_handler vector none frame s = (frame, print_line unhandled s)
    call_handler vector (some handler) frame s =
        let (handler', frame') = run handler frame in
        (frame', record s { handlers = set_handler vector (some handler') s.handlers })

    unfoldable pub isr_handler : InterruptFrame → Cpu H → Trap (InterruptFrame × Cpu H)
    unfolding call_handler
    isr_handler frame s =
        let vec = frame.vector in
        if vec == 1
        then returned (frame, record (print_line (exception vec) s) { dr6 = truncate 0xFFFF_0FF0 })
        else if vec == 2
        then returned (frame, s)
        else if vec == 3
        then returned (frame, print_line (exception vec) s)
        else if vec == 14
        then fault vec (some s.cr2)
        else if vec == 0 || ltb 3 vec && ltb vec 32
        then fault vec none
        else if vec == 0x80
        then returned (frame, print_line syscall s)
        else if ltb vec 256
        then returned (call_handler vec (s.handlers vec) frame s)
        else out_of_bounds

-- The fields of a gate that `init` chooses.
pub record Gate : Type 0 where
  pub offset : ℕ
  pub dpl : ℕ
  pub ist : ℕ

unfoldable pub gate : (isr_table : ℕ → ℕ) → (i : ℕ) → Gate
gate isr_table i = record {
  offset = isr_table i;
  dpl = if i == 0x80 then 3 else 0;
  ist = if i == 8 then 1 else 0;
}
