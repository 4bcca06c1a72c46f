-- ===== src/Memory/Memmap.antt =====
-- The memory map as `init` of kernel/src/mm/mod.rs reads it: its end, and the room for metadata.
use prometheos.Base.{
  ℕ, zero, suc, ◌+◌, ◌-◌, ◌*◌, ◌/◌, ◌%◌, ◌≤◌, ◌<◌, ◌≡◌, refl, ap, inl, inr, arith, Bool, true,
  false, ◌&&◌, ◌||◌, List, [], ◌∷◌, ltb, leb, if◌then◌else◌, ok, u64_size, add64-ok, Bool-cases,
  length,
}
use prometheos.Pmm.{frame_size}
use prometheos.Memory.Align.{align_up, align_up_lem}
use prometheos.Memory.Regions.{Entry, highest_end, order_phys}
use prometheos.Memory.Frames.{slice, count_frames}
use prometheos.Memory.Given.{entry_frames, is_usable, IsMap}

-- What the bootloader promises of the map: the entries can be mapped with room for a frame behind
-- them, usable ones start at a frame, and no frame is in two of them.
abbrev pub IsMemmap : List Entry → (hhdm_offset : ℕ) → Type 0
IsMemmap [] hhdm_offset = hhdm_offset + 4096 < u64_size
IsMemmap (entry ∷ entries) hhdm_offset =
    (entry.base + entry.length + hhdm_offset + 4096 < u64_size)
    × (entry.usable ≡ true → entry.base % frame_size ≡ 0)
    × ((j : ℕ) → entry_frames entry j ≡ true → is_usable entries j ≡ false)
    × IsMemmap entries hhdm_offset

abbrev pub EndBy : List Entry → (end : ℕ) → Type 0
EndBy [] end = Unit
EndBy (entry ∷ entries) end = (entry.base + entry.length ≤ end) × EndBy entries end

-- Whether some usable entry has room for the metadata.
unfoldable pub has_room : List Entry → (order_bytes : ℕ) → Bool
has_room [] order_bytes = false
has_room (entry ∷ entries) order_bytes =
    entry.usable && leb order_bytes entry.length || has_room entries order_bytes

pub length-slice : (bytes : ℕ → ℕ) (address count : ℕ) → length (slice bytes address count) ≡ count
unfolding slice
length-slice bytes address zero = refl
length-slice bytes address (suc count) = ap suc (length-slice bytes (address + 1) count)

module _ (hhdm_offset : ℕ) where
  abbrev pub BelowTop : ℕ → Type 0
  BelowTop n = n + hhdm_offset + 4096 < u64_size

  highest_end-ok :
      (entries : List Entry)
      → IsMemmap entries hhdm_offset
      → (h : ℕ) → BelowTop h
      → (end : ℕ) × (highest_end entries h ≡ ok end) × (h ≤ end) × BelowTop end × EndBy entries end
  unfolding highest_end
  highest_end-ok [] m h fits = (h, refl, omega arith, fits, tt)
  highest_end-ok (entry ∷ entries) (top, _, _, rest) h fits =
      let next = if ltb h (entry.base + entry.length) then entry.base + entry.length else h in
      let larger : (h ≤ next) × (entry.base + entry.length ≤ next) × BelowTop next = ground arith in
      let (end, e, up, top', within) = highest_end-ok entries rest next larger.2 in
      (
        end,
        rw (add64-ok entry.base entry.length (omega arith)) e,
        omega (arith, larger.0),
        top',
        (omega (arith, larger.1), within),
      )

  pub order_phys-room :
      (entries : List Entry)
      → IsMemmap entries hhdm_offset
      → (bytes end : ℕ) → EndBy entries end
      → has_room entries bytes ≡ true
      → (order_phys entries bytes % frame_size ≡ 0) × (order_phys entries bytes + bytes ≤ end)
  unfolding order_phys has_room
  order_phys-room [] m bytes end within room = cc
  order_phys-room (entry ∷ entries) (top, aligned, _, rest) bytes end (near, within) room =
      elim (Bool-cases (entry.usable && leb bytes entry.length)) [
        | inl here ↦ rw here (aligned (ground arith), ground arith)
        | inr later ↦ rw later (order_phys-room entries rest bytes end within (ground arith))
      ]

  pub order_phys-none :
      (entries : List Entry) (bytes : ℕ)
      → has_room entries bytes ≡ false
      → order_phys entries bytes ≡ u64_size - 1
  unfolding order_phys has_room
  order_phys-none [] bytes e = refl
  order_phys-none (entry ∷ entries) bytes e = ground (arith, order_phys-none entries bytes)

  pub memmap-IsMap :
      (entries : List Entry)
      → IsMemmap entries hhdm_offset
      → (end total : ℕ) → EndBy entries end
      → end ≤ total * frame_size
      → IsMap entries total
  memmap-IsMap [] m end total within h = tt
  memmap-IsMap (entry ∷ entries) (top, _, apart, rest) end total (near, within) h =
      (omega arith, omega arith, apart, memmap-IsMap entries rest end total within h)

  -- The number of frames covers the map, and all of them can be mapped.
  pub record Counts (entries : List Entry) (total_frames order_bytes : ℕ) : Type 0 where
    pub counted : count_frames entries ≡ ok total_frames
    pub rounded : align_up total_frames frame_size ≡ ok order_bytes
    pub end : ℕ
    pub within : EndBy entries end
    pub top : BelowTop end
    pub covered : end ≤ total_frames * frame_size
    pub mapped : total_frames * frame_size + hhdm_offset ≤ u64_size
    pub enough : total_frames ≤ order_bytes
    pub whole : order_bytes % frame_size ≡ 0

  pub count_frames-Counts :
      (entries : List Entry)
      → IsMemmap entries hhdm_offset
      → hhdm_offset + 4096 < u64_size
      → (n b : ℕ) × Counts entries n b
  unfolding count_frames
  count_frames-Counts entries m small =
      let (end, e, _, top, within) = highest_end-ok entries m 0 (omega (arith, small)) in
      let (aligned, e1, up, close, whole) =
        align_up_lem 12 end (omega arith) (omega (arith, top)) in
      let (bytes, e2, up', close', whole') =
        align_up_lem 12 (aligned / frame_size) (omega arith) (omega (arith, top, close)) in
      (
        aligned / frame_size,
        bytes,
        record {
          counted = rw (e, e1) refl;
          rounded = e2;
          end = end;
          within = within;
          top = top;
          covered = omega (arith, up, whole);
          mapped = omega (arith, close, top, whole);
          enough = up';
          whole = whole';
        },
      )

  pub hhdm-small :
      (entries : List Entry) → IsMemmap entries hhdm_offset → hhdm_offset + 4096 < u64_size
  hhdm-small [] m = m
  hhdm-small (entry ∷ entries) (_, _, _, rest) = hhdm-small entries rest
