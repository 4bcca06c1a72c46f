-- ===== src/Pmm/Reclaim.antt =====
-- `reclaim_bootloader` of kernel/src/mm/pmm.rs: the bootloader's memory is given to the allocator.
use prometheos.Base.{
  ℕ, ◌+◌, ◌*◌, ◌/◌, ◌≤◌, ◌<◌, ◌≡◌, refl, sym, subst, ap, ◌∙◌, inl, inr, arith, Bool, true, false,
  ◌&&◌, ◌||◌, some, List, [], ◌∷◌, if◌then◌else◌, ok, u64_size, add64-ok, mul64, mul64-ok,
  Bool-cases,
}
use prometheos.Pmm.{Pmm, frame_size}
use prometheos.Pmm.Orders.{in_block}
use prometheos.Pmm.Valid.{IsValid}
use prometheos.Pmm.Step.{is_free}
use prometheos.Pmm.Range.{add_range-adds}
use prometheos.Pmm.Static.{Region, reclaim_regions, reclaim_bootloader}

abbrev pub first_frame : Region → ℕ
first_frame region = region.base / frame_size

abbrev pub frame_count : Region → ℕ
frame_count region = region.length / frame_size

-- The frames of a region of the bootloader's, of all of them, and their number.
abbrev pub region_frames : Region → ℕ → Bool
region_frames region j = region.reclaimable && in_block (first_frame region) (frame_count region) j

unfoldable pub is_reclaimable : List Region → ℕ → Bool
is_reclaimable [] j = false
is_reclaimable (region ∷ regions) j = region_frames region j || is_reclaimable regions j

unfoldable pub reclaimable_count : List Region → ℕ
reclaimable_count [] = 0
reclaimable_count (region ∷ regions) =
    (if region.reclaimable then frame_count region else 0) + reclaimable_count regions

-- The bootloader's regions end by the last frame, and no frame is in two of them.
abbrev pub IsRegions : List Region → (total : ℕ) → Type 0
IsRegions [] total = Unit
IsRegions (region ∷ regions) total =
    (region.reclaimable ≡ true → first_frame region + frame_count region ≤ total)
    × ((j : ℕ) → region_frames region j ≡ true → is_reclaimable regions j ≡ false)
    × IsRegions regions total

-- All frames of the regions have become free.
pub record IsReclaimed (p q : Pmm) (regions : List Region) : Type 0 where
  pub valid : IsValid q
  pub freed : (j : ℕ) → is_free q j ≡ (is_free p j || is_reclaimable regions j)
  pub counted : q.free_frames ≡ p.free_frames + reclaimable_count regions
  pub total : q.total_frames ≡ p.total_frames

reclaim_regions_lem :
    (regions : List Region) (p : Pmm) (n : ℕ)
    → IsValid p
    → IsRegions regions p.total_frames
    → n + reclaimable_count regions < u64_size
    → ((j : ℕ) → is_reclaimable regions j ≡ true → is_free p j ≡ false)
    → (q : Pmm) × (reclaim_regions regions p n ≡ ok (some (q, n + reclaimable_count regions)))
      × IsReclaimed p q regions
unfolding reclaim_regions is_reclaimable reclaimable_count
reclaim_regions_lem [] p n v is small fresh =
    let same : n ≡ n + 0 = omega arith in
    (
      p,
      ap (λ t. ok (some (p, t))) same,
      record { valid = v; freed = λ j. ground arith; counted = omega arith; total = refl },
    )
reclaim_regions_lem (region ∷ regions) p n v (fits, apart, rest) small fresh =
    elim (Bool-cases region.reclaimable) [
      | inr kept ↦
          let count : (if region.reclaimable then frame_count region else 0)
                + reclaimable_count regions
              ≡ reclaimable_count regions =
            rw kept (omega arith) in
          let (q, e, r) =
            reclaim_regions_lem regions p n v rest (omega (arith, small, count))
              (λ j h. fresh j (rw (kept) h)) in
          (
            q,
            rw kept (e ∙ ap (λ t. ok (some (q, t))) (omega arith)),
            record {
              valid = r.valid;
              freed = λ j. r.freed j ∙ rw kept refl;
              counted = omega (arith, r.counted, count);
              total = r.total;
            },
          )
      | inl given ↦
          let count : (if region.reclaimable then frame_count region else 0)
                + reclaimable_count regions
              ≡ frame_count region + reclaimable_count regions =
            rw given refl in
          let (q, e, a) =
            add_range-adds p (first_frame region) (frame_count region) v
              (record { fits = fits given; unused = λ j h. fresh j (rw (given, h) refl) }) in
          let (s, e', r) =
            reclaim_regions_lem regions q (n + frame_count region) a.valid
              (subst (IsRegions regions) (sym a.total) rest) (omega (arith, small, count))
              (λ j h. ground (arith, a.freed j, fresh j, apart j, given, h)) in
          (
            s,
            rw (given, e, add64-ok n (frame_count region) (omega (arith, small, count)))
                (e' ∙ ap (λ t. ok (some (s, t))) (omega arith)),
            record {
              valid = r.valid;
              freed = λ j. r.freed j ∙ ground (arith, a.freed j, given);
              counted = omega (arith, r.counted, a.counted, count);
              total = r.total ∙ a.total;
            },
          )
    ]

-- In a valid state, with regions that end by the last frame, no frame of which is free or in two of
-- the bootloader's regions, of which none starts at frame 0, and fewer than 2^64 bytes in those,
-- `reclaim_bootloader` ends without a panic: exactly the frames of the bootloader's regions become
-- free, the counter grows by their number, and the state is valid. Frame 0 is as it was.
pub reclaim_bootloader_lem :
    (p : Pmm) (regions : List Region)
    → IsValid p
    → IsRegions regions p.total_frames
    → is_reclaimable regions 0 ≡ false
    → reclaimable_count regions * frame_size < u64_size
    → ((j : ℕ) → is_reclaimable regions j ≡ true → is_free p j ≡ false)
    → (q : Pmm) × (reclaim_bootloader (some p) regions ≡ ok (some (some q)))
      × IsReclaimed p q regions
      × (is_free q 0 ≡ is_free p 0)
unfolding reclaim_bootloader
reclaim_bootloader_lem p regions v is zero_out small fresh =
    let (q, e, r) = reclaim_regions_lem regions p 0 v is (omega (arith, small)) fresh in
    let bytes : mul64 (0 + reclaimable_count regions) frame_size
        ≡ ok ((0 + reclaimable_count regions) * frame_size) =
      mul64-ok (0 + reclaimable_count regions) frame_size (omega (arith, small)) in
    (q, rw (e, bytes) refl, r, ground (arith, r.freed 0, zero_out))
