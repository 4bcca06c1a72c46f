-- ===== src/Memory/Frames.antt =====
-- The part of `init` of kernel/src/mm/mod.rs that sets up the frame allocator.
use prometheos.Base.{
  ℕ, zero, suc, ◌+◌, ◌-◌, ◌/◌, not, Option, List, [], ◌∷◌, ◌==◌, Panic, Result, ok, ◌>>=◌, ◌>>◌,
  check, u64_size, add64,
}
use prometheos.Pmm.{Pmm, FreeBlock, frame_size, new}
use prometheos.Memory.Align.{align_up}
use prometheos.Memory.Regions.{Entry, highest_end, order_phys, add_entries}

-- `from_raw_parts_mut`: the `count` bytes from an address on.
unfoldable pub slice : (bytes : ℕ → ℕ) → (address count : ℕ) → List ℕ
slice bytes address zero = []
slice bytes address (suc count) = bytes address ∷ slice bytes (address + 1) count

-- `frames << FRAME_SHIFT` is undone by `>> FRAME_SHIFT`: the number of frames up to the end of the
-- highest entry, and of bytes that their metadata takes.
unfoldable pub count_frames : List Entry → Result ℕ
unfolding highest_end align_up
count_frames entries = do
  highest ← highest_end entries 0
  aligned ← align_up highest frame_size
  ok (aligned / frame_size)

-- `bytes` and `memory` are what stands in memory, as bytes and as free blocks. `none` is `add_range`
-- without fuel.
unfoldable pub set_up_frames :
    List Entry → (hhdm_offset : ℕ) → (bytes : ℕ → ℕ) → (ℕ → FreeBlock) → Result (Option Pmm)
unfolding count_frames align_up order_phys slice new add_entries
set_up_frames entries hhdm_offset bytes memory = do
  total_frames ← count_frames entries
  order_bytes ← align_up total_frames frame_size
  let phys = order_phys entries order_bytes
  check (not (phys == u64_size - 1)) Panic.no_region
  virt ← add64 phys hhdm_offset
  pmm ← new (slice bytes virt total_frames) total_frames hhdm_offset memory
  order_last ← add64 (phys / frame_size) (order_bytes / frame_size)
  add_entries pmm entries (phys / frame_size) order_last
