-- ===== src/Pmm.antt =====
-- kernel/src/mm/pmm.rs: the buddy allocator of physical frames. A method that mutates `self`
-- returns the new state, inside the result that a panic leaves.
pub mod Examples
pub mod FreeList
pub mod Orders
pub mod Alloc
pub mod Buddies
pub mod Free
pub mod Init
pub mod Range
pub mod Errors
pub mod Push
pub mod Step
pub mod Split
pub mod Remove
pub mod Valid
pub mod Static
pub mod Reclaim
use prometheos.Base.Words.{trailing_zeros, leading_zeros}
use prometheos.Base.{
  ℕ, zero, suc, ◌+◌, ◌-◌, ◌*◌, ◌/◌, ◌%◌, ◌^◌, min, bit_and, bit_xor, Option, none, some, List, ltb,
  leb, ◌==◌, if◌then◌else◌, Panic, Result, ok, ◌>>=◌, ◌>>◌, check, u64_size, add64, sub64, length,
  replicate, read, write,
}

abbrev pub frame_shift : ℕ
frame_shift = 12

abbrev pub frame_size : ℕ
frame_size = 4096

abbrev pub max_order : ℕ
max_order = 11

abbrev pub num_orders : ℕ
num_orders = 12

abbrev pub order_none : ℕ
order_none = 0xff

-- `frame << FRAME_SHIFT`: a shift drops the high bits.
abbrev pub shift_frame : ℕ → ℕ
shift_frame frame = frame * frame_size % u64_size

unfoldable pub frame_index : ℕ → Result ℕ
frame_index raw = do check (raw % frame_size == 0) Panic.misaligned_frame; ok (raw / frame_size)

-- Pointers to blocks are virtual addresses, and `none` is the null pointer.
pub record FreeBlock : Type 0 where
  pub prev : Option ℕ
  pub next : Option ℕ

-- `blocks` is the memory behind the pointers: the block that stands at an address.
pub record Pmm : Type 0 where
  pub free_lists : List (Option ℕ)
  pub frame_order : List ℕ
  pub total_frames : ℕ
  pub free_frames : ℕ
  pub hhdm_offset : ℕ
  pub blocks : ℕ → FreeBlock

unfoldable pub new : List ℕ → ℕ → ℕ → (ℕ → FreeBlock) → Result Pmm
new frame_order total_frames hhdm_offset memory = do
  check (total_frames == length frame_order) Panic.metadata_length
  ok (record {
    free_lists = replicate num_orders none;
    frame_order = replicate (length frame_order) order_none;
    total_frames = total_frames;
    free_frames = 0;
    hhdm_offset = hhdm_offset;
    blocks = memory;
  })

unfoldable pub frame_to_block : Pmm → ℕ → Result ℕ
frame_to_block p frame = add64 (shift_frame frame) p.hhdm_offset

unfoldable pub block_to_frame : Pmm → ℕ → Result ℕ
block_to_frame p block = do offset ← sub64 block p.hhdm_offset; ok (offset / frame_size)

-- The loop of `set_block_order` over `pages` entries from `at` on. Where `frame + i` would
-- overflow it is past the end of the slice: a panic either way.
unfoldable pub fill_order : (pages : ℕ) → List ℕ → (at value : ℕ) → Result (List ℕ)
fill_order zero orders at value = ok orders
fill_order (suc pages) orders at value = do
  orders' ← write orders at value
  fill_order pages orders' (at + 1) value

unfoldable pub set_block_order : Pmm → ℕ → ℕ → ℕ → Result Pmm
set_block_order p frame order value = do
  orders ← fill_order (2 ^ order) p.frame_order frame value
  ok (record p { frame_order = orders })

-- The loop of `assert_block_unused`.
unfoldable pub all_unused : (pages : ℕ) → List ℕ → (at : ℕ) → Result (Unit {0})
all_unused zero orders at = ok tt
all_unused (suc pages) orders at = do
  order ← read orders at
  check (order == order_none) Panic.overlap
  all_unused pages orders (at + 1)

unfoldable pub assert_block_unused : Pmm → ℕ → ℕ → Result (Unit {0})
assert_block_unused p frame order = all_unused (2 ^ order) p.frame_order frame

-- `(*block).prev = v` and `(*block).next = v`
unfoldable pub set_prev : (ℕ → FreeBlock) → ℕ → Option ℕ → ℕ → FreeBlock
set_prev blocks block v b = if b == block then record (blocks b) { prev = v } else blocks b

unfoldable pub set_next : (ℕ → FreeBlock) → ℕ → Option ℕ → ℕ → FreeBlock
set_next blocks block v b = if b == block then record (blocks b) { next = v } else blocks b

-- The writes through `if let Some(h) = pointer`.
unfoldable pub set_prev? : (ℕ → FreeBlock) → Option ℕ → Option ℕ → ℕ → FreeBlock
set_prev? blocks none v = blocks
set_prev? blocks (some block) v = set_prev blocks block v

unfoldable pub list_push : Pmm → ℕ → ℕ → Result Pmm
list_push p frame order = do
  check (ltb frame p.total_frames) Panic.debug_assertion
  end ← add64 frame (2 ^ order)
  check (leb end p.total_frames) Panic.debug_assertion
  assert_block_unused p frame order
  block ← frame_to_block p frame
  head ← read p.free_lists order
  let blocks = set_next (set_prev p.blocks block none) block head
  lists ← write p.free_lists order (some block)
  set_block_order (record p { blocks = set_prev? blocks head (some block); free_lists = lists })
      frame order order

-- `match prev { Some(p) => (*p).next = next, None => self.free_lists[order] = next }`
unfoldable pub unlink_next : Pmm → Option ℕ → Option ℕ → ℕ → Result Pmm
unlink_next p (some before) next order = ok (record p { blocks = set_next p.blocks before next })
unlink_next p none next order = do
  lists ← write p.free_lists order next
  ok (record p { free_lists = lists })

unfoldable pub list_remove : Pmm → ℕ → ℕ → Result Pmm
list_remove p frame order = do
  check (ltb frame p.total_frames) Panic.debug_assertion
  found ← read p.frame_order frame
  check (found == order) Panic.debug_assertion
  block ← frame_to_block p frame
  let prev = (p.blocks block).prev
  let next = (p.blocks block).next
  p' ← unlink_next p prev next order
  set_block_order (record p' { blocks = set_prev? p'.blocks next prev }) frame order order_none

-- The inner loop of `alloc_pages`, which gives back the upper halves: `rounds` is `o - order`.
unfoldable pub split : (rounds : ℕ) → Pmm → (frame order : ℕ) → Result Pmm
split zero p frame order = ok p
split (suc rounds) p frame order = do
  buddy ← add64 frame (2 ^ (order + rounds))
  p' ← list_push p buddy (order + rounds)
  split rounds p' frame order

-- The body of the outer loop once a block is found at order `current`.
unfoldable pub take_block : Pmm → (head current order : ℕ) → Result (Option ℕ × Pmm)
take_block p head current order = do
  frame ← block_to_frame p head
  removed ← list_remove p frame current
  p' ← split (current - order) removed frame order
  free ← sub64 p'.free_frames (2 ^ order)
  ok (some (shift_frame frame), record p' { free_frames = free })

-- The outer loop of `alloc_pages`: `rounds` orders are left, from `current` to `MAX_ORDER`.
unfoldable pub alloc_from : (rounds : ℕ) → Pmm → (current order : ℕ) → Result (Option ℕ × Pmm)
alloc_from zero p current order = ok (none, p)
alloc_from (suc rounds) p current order = do
  head ← read p.free_lists current
  elim head [
    | some block ↦ take_block p block current order
    | none ↦ alloc_from rounds p (current + 1) order
  ]

unfoldable pub alloc_pages : Pmm → ℕ → Result (Option ℕ × Pmm)
alloc_pages p order = do
  check (leb order max_order) Panic.order_out_of_range
  alloc_from (num_orders - order) p order order

-- `frame & !(1 << o)`
abbrev pub clear_bit : ℕ → ℕ → ℕ
clear_bit frame o = bit_and frame (u64_size - 1 - 2 ^ o)

-- The loop of `free_pages`: `rounds` is `MAX_ORDER - o`. The result is the state, the merged
-- block's frame and its order.
unfoldable pub coalesce : (rounds : ℕ) → Pmm → (frame o : ℕ) → Result (Pmm × ℕ × ℕ)
coalesce zero p frame o = ok (p, frame, o)
coalesce (suc rounds) p frame o =
    let buddy = bit_xor frame (2 ^ o) in
    if leb p.total_frames buddy then ok (p, frame, o) else do
      order ← read p.frame_order buddy
      if order == o
          then (do p' ← list_remove p buddy o; coalesce rounds p' (clear_bit frame o) (o + 1))
          else ok (p, frame, o)

unfoldable pub free_pages : Pmm → (addr order : ℕ) → Result Pmm
free_pages p addr order = do
  check (leb order max_order) Panic.order_out_of_range
  frame ← frame_index addr
  end ← add64 frame (2 ^ order)
  check (leb end p.total_frames) Panic.free_out_of_range
  check (frame % 2 ^ order == 0) Panic.misaligned_block
  found ← read p.frame_order frame
  check (found == order_none) Panic.double_free
  assert_block_unused p frame order
  free ← add64 p.free_frames (2 ^ order)
  (p', merged, o) ← coalesce (max_order - order) (record p { free_frames = free }) frame order
  list_push p' merged o

-- The order of the next block of `add_range`.
unfoldable pub range_order : (start count : ℕ) → ℕ
range_order start count =
    let align_order = if start == 0 then max_order else trailing_zeros start in
    let size_order = 63 - leading_zeros count in min (min align_order size_order) max_order

-- The loop of `add_range`, on fuel: every round takes at least one frame of `count`.
unfoldable pub add_range_from : (fuel : ℕ) → Pmm → (start count : ℕ) → Result (Option Pmm)
add_range_from zero p start count = ok none
add_range_from (suc fuel) p start count =
    let order = range_order start count in
    if count == 0 then ok (some p) else do
      p' ← free_pages p (shift_frame start) order
      start' ← add64 start (2 ^ order)
      count' ← sub64 count (2 ^ order)
      add_range_from fuel p' start' count'

-- `none` is a loop that the fuel does not bring to its end.
unfoldable pub add_range : Pmm → (start count : ℕ) → Result (Option Pmm)
add_range p start count = add_range_from (count + 1) p start count

unfoldable pub free_frames_count : Pmm → ℕ
free_frames_count p = p.free_frames
