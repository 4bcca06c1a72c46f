-- ===== src/Memory/Boot.antt =====
-- The frame allocator that `init` of kernel/src/mm/mod.rs sets up from the memory map.
use prometheos.Base.{
  ℕ, ◌+◌, ◌-◌, ◌/◌, ◌%◌, ◌≤◌, ◌<◌, ◌≡◌, ◌≢◌, refl, subst, sym, ap, ◌∙◌, inl, inr, ◌⊎◌, arith, Bool,
  true, false, ◌&&◌, ◌||◌, not, some, List, ltb, leb, Panic, ok, panic, u64_size, add64-ok,
  Bool-cases, ne→==, le→leb, lt→ltb,
}
use prometheos.Pmm.{Pmm, FreeBlock, frame_size}
use prometheos.Pmm.Valid.{IsValid}
use prometheos.Pmm.Step.{is_free}
use prometheos.Pmm.Init.{new-IsValid, new_total}
use prometheos.Memory.Align.{align_up}
use prometheos.Memory.Regions.{Entry, order_phys}
use prometheos.Memory.Frames.{slice, count_frames, set_up_frames}
use prometheos.Memory.Given.{is_usable, IsMap, add_entries-Gives}
use prometheos.Memory.Memmap.{
  IsMemmap, has_room, Counts, length-slice, order_phys-room, order_phys-none, memmap-IsMap,
  count_frames-Counts, hhdm-small,
}

module _ (hhdm_offset : ℕ) where
  -- The frames that hold the metadata.
  abbrev pub is_metadata : (phys order_bytes : ℕ) → ℕ → Bool
  is_metadata phys order_bytes j =
      leb (phys / frame_size) j && ltb j (phys / frame_size + order_bytes / frame_size)

  -- The allocator after `init`, when there was room for its metadata.
  pub record IsReady (entries : List Entry) (total_frames order_bytes : ℕ) (p : Pmm) : Type 0 where
    pub valid : IsValid p
    pub total : p.total_frames ≡ total_frames
    pub free :
        (j : ℕ)
        → is_free p j ≡ (
            is_usable entries j
            && (not (is_metadata (order_phys entries order_bytes) order_bytes j) && ltb 0 j))
    pub kept :
        (a : ℕ)
        → order_phys entries order_bytes ≤ a
        → a < order_phys entries order_bytes + total_frames
        → is_free p (a / frame_size) ≡ false

  metadata-held :
      (phys b a : ℕ)
      → phys % frame_size ≡ 0
      → b % frame_size ≡ 0
      → phys ≤ a
      → a < phys + b
      → is_metadata phys b (a / frame_size) ≡ true
  metadata-held phys b a e e' low high =
      rw
        (
          le→leb (phys / frame_size) (a / frame_size) (omega arith),
          lt→ltb (a / frame_size) (phys / frame_size + b / frame_size) (omega arith),
        )
        refl

  closed : (t : Bool) → (t && false) ≡ false
  closed true = refl
  closed false = refl

  module _ (entries : List Entry) (m : IsMemmap entries hhdm_offset) (bytes : ℕ → ℕ)
      (memory : ℕ → FreeBlock) where
    no_room :
        (n b : ℕ)
        → Counts hhdm_offset entries n b
        → has_room entries b ≡ false
        → set_up_frames entries hhdm_offset bytes memory ≡ panic Panic.no_region
    unfolding set_up_frames
    no_room n b c none_found =
        rw (c.counted, c.rounded, order_phys-none hhdm_offset entries b none_found) refl

    ready :
        (n b : ℕ)
        → Counts hhdm_offset entries n b
        → has_room entries b ≡ true
        → (p : Pmm) × (set_up_frames entries hhdm_offset bytes memory ≡ ok (some p))
          × IsReady entries n b p
    unfolding set_up_frames
    ready n b c room =
        let phys = order_phys entries b in
        let (aligned, inside) = order_phys-room hhdm_offset entries m b c.end c.within room in
        let not_max : phys ≢ u64_size - 1 = λ at_top. omega (arith, c.top, inside) in
        let (p, e, v, unfree, _) =
          new-IsValid n hhdm_offset memory c.mapped (slice bytes (phys + hhdm_offset) n)
            (length-slice bytes (phys + hhdm_offset) n) in
        let total : p.total_frames ≡ n =
          new_total (slice bytes (phys + hhdm_offset) n) n hhdm_offset memory p e in
        let (q, e', g) =
          add_entries-Gives (phys / frame_size) (phys / frame_size + b / frame_size) (omega arith)
            entries p v
            (subst (IsMap entries) (sym total)
              (memmap-IsMap hhdm_offset entries m c.end n c.within c.covered))
            (λ j _. unfree j) in
        let freed : (j : ℕ)
            → is_free q j ≡ (is_usable entries j && (not (is_metadata phys b j) && ltb 0 j)) =
          λ j.
            g.freed j
            ∙ ap (λ t. t || is_usable entries j && (not (is_metadata phys b j) && ltb 0 j))
                (unfree j) in
        let kept : (a : ℕ) → phys ≤ a → a < phys + n → is_free q (a / frame_size) ≡ false =
          λ a low high.
            let held : is_metadata phys b (a / frame_size) ≡ true =
              metadata-held phys b a aligned c.whole low (omega (arith, c.enough)) in
            freed (a / frame_size) ∙ rw held (closed (is_usable entries (a / frame_size))) in
        (
          q,
          rw
              (
                c.counted,
                c.rounded,
                ne→== phys (u64_size - 1) not_max,
                add64-ok phys hhdm_offset (omega (arith, c.top, inside)),
                e,
                add64-ok (phys / frame_size) (b / frame_size) (omega (arith, c.top, inside)),
              )
              e',
          record {
            valid = g.valid;
            total = g.total ∙ total;
            free = λ j. freed j;
            kept = λ a low high. kept a low high;
          },
        )

  -- With a memory map whose entries end, with the offset added, at least a frame below 2^64, whose
  -- usable entries start at a frame, and no frame of which is in two usable entries, the part of
  -- `init` that sets up the frame allocator ends. If no usable entry has room for the metadata, it
  -- panics. Otherwise it returns a valid allocator of all frames up to the end of the map: exactly the
  -- frames of usable entries are free that hold no metadata and are not frame 0, and no byte of the
  -- metadata lies in a free frame.
  pub set_up_frames_lem :
      (entries : List Entry) (m : IsMemmap entries hhdm_offset) (bytes : ℕ → ℕ)
      (memory : ℕ → FreeBlock)
      → (n : ℕ) × (b : ℕ) × (count_frames entries ≡ ok n)
        × (align_up n frame_size ≡ ok b)
        × ((has_room entries b ≡ false)
              × (set_up_frames entries hhdm_offset bytes memory ≡ panic Panic.no_region)
            ⊎ (has_room entries b ≡ true)
              × (p : Pmm) × (set_up_frames entries hhdm_offset bytes memory ≡ ok (some p))
              × IsReady entries n b p)
  set_up_frames_lem entries m bytes memory =
      let (n, b, c) =
        count_frames-Counts hhdm_offset entries m (hhdm-small hhdm_offset entries m) in
      (
        n,
        b,
        c.counted,
        c.rounded,
        elim (Bool-cases (has_room entries b)) [
          | inr none_found ↦ inl (none_found, no_room entries m bytes memory n b c none_found)
          | inl room ↦
              let (p, e, r) = ready entries m bytes memory n b c room in inr (room, p, e, r)
        ],
      )
