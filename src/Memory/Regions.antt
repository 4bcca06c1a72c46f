-- ===== src/Memory/Regions.antt =====
-- The loop of `init` of kernel/src/mm/mod.rs that gives the usable memory to the frame allocator.
use prometheos.Base.{
  ℕ, ◌+◌, ◌-◌, ◌/◌, ◌≤◌, min, max, ◌≡◌, arith, Bool, false, not, ◌&&◌, ◌||◌, Option, none, some,
  List, [], ◌∷◌, ltb, leb, ◌==◌, if◌then◌else◌, Result, ok, ◌>>=◌, add64, u64_size,
}
use prometheos.Pmm.{Pmm, add_range, frame_size}

-- An entry of the memory map; `usable` stands for the type `MEMMAP_USABLE`.
pub record Entry : Type 0 where
  pub base : ℕ
  pub length : ℕ
  pub usable : Bool

-- The end of the highest entry, from the one found so far.
unfoldable pub highest_end : List Entry → ℕ → Result ℕ
highest_end [] highest = ok highest
highest_end (entry ∷ entries) highest = do
  end ← add64 entry.base entry.length
  highest_end entries (if ltb highest end then end else highest)

-- The base of the first usable entry with room for the metadata, or `u64::MAX`.
unfoldable pub order_phys : List Entry → (order_bytes : ℕ) → ℕ
order_phys [] order_bytes = u64_size - 1
order_phys (entry ∷ entries) order_bytes =
    let later = order_phys entries order_bytes in
    if entry.usable && leb order_bytes entry.length then entry.base else later

-- The first frame and the number of frames of a piece from `s` to `e`, without frame 0.
unfoldable pub piece_range : (s e : ℕ) → Option (ℕ × ℕ)
piece_range s e =
    let first = if s == 0 then 1 else s in
    if leb e s then none else if ltb first e then some (first, e - first) else none

unfoldable pub add_piece : Option (ℕ × ℕ) → Pmm → Result (Option Pmm)
add_piece none p = ok (some p)
add_piece (some (first, count)) p = add_range p first count

-- The frames of an entry before and after those of the metadata.
unfoldable pub pieces :
    (entry_first entry_last order_first order_last : ℕ) → Option (ℕ × ℕ) × Option (ℕ × ℕ)
unfolding piece_range
pieces entry_first entry_last order_first order_last = (
  piece_range entry_first (min entry_last order_first),
  piece_range (max entry_first order_last) entry_last,
)

-- Whether a frame is in a range.
unfoldable pub covers : Option (ℕ × ℕ) → ℕ → Bool
covers none j = false
covers (some (first, count)) j = leb first j && ltb j (first + count)

covers-piece_range : (s e j : ℕ) → covers (piece_range s e) j ≡ (leb s j && ltb j e && ltb 0 j)
unfolding covers piece_range
covers-piece_range s e j = ground arith

-- The body of the loop, and the loop. `none` is `add_range` without fuel.
unfoldable pub add_entry : Pmm → Entry → (order_first order_last : ℕ) → Result (Option Pmm)
unfolding pieces add_piece
add_entry p entry order_first order_last = if not entry.usable then ok (some p) else do
  end ← add64 entry.base entry.length
  let (before, after) = pieces (entry.base / frame_size) (end / frame_size) order_first order_last
  added ← add_piece before p
  elim added [ none ↦ ok none | some p' ↦ add_piece after p' ]

unfoldable pub add_entries : Pmm → List Entry → (order_first order_last : ℕ) → Result (Option Pmm)
unfolding add_entry
add_entries p [] order_first order_last = ok (some p)
add_entries p (entry ∷ entries) order_first order_last = do
  added ← add_entry p entry order_first order_last
  elim added [ none ↦ ok none | some p' ↦ add_entries p' entries order_first order_last ]

-- Whether a frame is in a piece before or after the metadata.
unfoldable pub given : Option (ℕ × ℕ) × Option (ℕ × ℕ) → ℕ → Bool
given (before, after) j = covers before j || covers after j

unfoldable pub given_twice : Option (ℕ × ℕ) × Option (ℕ × ℕ) → ℕ → Bool
given_twice (before, after) j = covers before j && covers after j

module _ (entry_first entry_last order_first order_last j : ℕ)
    (ordered : order_first ≤ order_last) where
  -- For an entry, and metadata that ends no earlier than it begins, a frame is in one of the two
  -- pieces exactly if it is a frame of the entry, none of the metadata's, and not frame 0.
  pub given-pieces : given (pieces entry_first entry_last order_first order_last) j ≡ (
      leb entry_first j
      && ltb j entry_last
      && not (leb order_first j && ltb j order_last)
      && ltb 0 j)
  unfolding given pieces
  given-pieces =
      rw
        (
          covers-piece_range entry_first (min entry_last order_first) j,
          covers-piece_range (max entry_first order_last) entry_last j,
        )
        (ground arith)

  -- For an entry, and metadata that ends no earlier than it begins, no frame is in both pieces.
  pub given_twice-pieces :
      given_twice (pieces entry_first entry_last order_first order_last) j ≡ false
  unfolding given_twice pieces
  given_twice-pieces =
      rw
        (
          covers-piece_range entry_first (min entry_last order_first) j,
          covers-piece_range (max entry_first order_last) entry_last j,
        )
        (ground arith)
