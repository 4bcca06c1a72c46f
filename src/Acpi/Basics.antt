-- ===== src/Acpi/Basics.antt =====
-- The functions of kernel/src/acpi that keep no state of their own, and `init` of acpi/mod.rs.
use prometheos.Base.{
  ℕ, ◌+◌, ◌-◌, ◌%◌, max, Bool, true, false, Option, none, some, ◌==◌, if◌then◌else◌, Result, ok,
  u64_size,
}
use prometheos.Base.Exec.{Exec, ◌>>◌, raise, pure}
use prometheos.Heap.Sizes.{Layout}
use prometheos.Heap.Slabs
use prometheos.Heap.Slabs.{Heap}
use prometheos.Acpi.Status.{Status, success, invalid_argument, not_found, unimplemented}

-- `a.wrapping_sub(b)`
abbrev pub wrapping_sub : ℕ → ℕ → ℕ
wrapping_sub a b = (a + u64_size - b) % u64_size

-- `response` is the address that the bootloader gave, if it answered, and `revision` the one of its
-- protocol. The result is what is written to `out_rsdp_addr`, if anything, and the status.
unfoldable pub get_rsdp :
    (out_is_null : Bool) → (response revision : Option ℕ) → (hhdm : ℕ) → Option ℕ × Status
get_rsdp true response revision hhdm = (none, invalid_argument)
get_rsdp false none revision hhdm = (none, not_found)
get_rsdp false (some address) none hhdm = (some (wrapping_sub address hhdm), success)
get_rsdp false (some address) (some revision) hhdm =
    (some (if revision == 3 then address else wrapping_sub address hhdm), success)

-- The layouts of the blocks for the library.
abbrev pub block_layout : ℕ → Layout
block_layout size = record { size = max size 1; align = 16 }

unfoldable pub kernel_alloc : Heap → (size : ℕ) → Result (Option ℕ × Heap)
kernel_alloc h size = Slabs.alloc h (block_layout size)

unfoldable pub kernel_free : Heap → (mem : Option ℕ) → (size_hint : ℕ) → Result Heap
kernel_free h none size_hint = ok h
kernel_free h (some mem) size_hint = Slabs.dealloc h (some mem) (block_layout size_hint)

-- The prefix of a message.
pub data LogLevel : Type 0 where
  debug trace info warn error : LogLevel
  other : ℕ → LogLevel

pub data Prefix : Type 0 where
  debug info warning error : Prefix
  unknown : ℕ → Prefix

-- A message that is no text is dropped.
unfoldable pub kernel_log : {Text : Type 0} → LogLevel → Option Text → Option (Prefix × Text)
kernel_log level none = none
kernel_log LogLevel.debug (some s) = some (Prefix.debug, s)
kernel_log LogLevel.trace (some s) = some (Prefix.debug, s)
kernel_log LogLevel.info (some s) = some (Prefix.info, s)
kernel_log LogLevel.warn (some s) = some (Prefix.warning, s)
kernel_log LogLevel.error (some s) = some (Prefix.error, s)
kernel_log (LogLevel.other level) (some s) = some (Prefix.unknown level, s)

abbrev pub thread_id : ℕ
thread_id = 0

-- What the kernel does not offer.
abbrev pub handle_firmware_request : Status
handle_firmware_request = unimplemented

abbrev pub schedule_work : Status
schedule_work = unimplemented

abbrev pub wait_for_work_completion : Status
wait_for_work_completion = unimplemented

-- The flag for interrupts: its old value, and the new one.
abbrev pub disable_interrupts : (interrupts : Bool) → ℕ × Bool
disable_interrupts interrupts = (if interrupts then 1 else 0, false)

abbrev pub restore_interrupts : (state : ℕ) → (interrupts : Bool) → Bool
restore_interrupts state interrupts = if state == 0 then interrupts else true

-- `call` are the functions of the library by their number, each on the library's state; 0 is
-- `UACPI_STATUS_OK`, and `to_string` the library's text for another status.
module _ {S Text : Type 0} (to_string : ℕ → Text) where
  unfoldable pub status_to_result : (status : ℕ) → Exec S Text (Unit {0})
  status_to_result status = if status == 0 then pure tt else raise (to_string status)

  unfoldable pub checked : (S → ℕ × S) → Exec S Text (Unit {0})
  unfolding status_to_result
  checked call s = let (status, s') = call s in status_to_result status s'

  unfoldable pub init : (initialize load namespace finalize : S → ℕ × S) → Exec S Text (Unit {0})
  unfolding checked
  init initialize load namespace finalize = do
    checked initialize
    checked load
    checked namespace
    checked finalize
