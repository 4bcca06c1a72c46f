-- ===== src/Pmm/Errors.antt =====
-- The refusals of kernel/src/mm/pmm.rs, and what an allocation followed by a release leaves.
use native.Mathlib.Nat.{pow-le-pow_right}
use prometheos.Base.{
  ℕ, ◌+◌, ◌*◌, ◌%◌, ◌^◌, ◌≤◌, ◌<◌, ◌≡◌, subst, ltb, ◌≢◌, ◌⊎◌, true, some, if◌then◌else◌, arith, ok,
  panic, Panic, add64-ok, read-ok, le→leb,
}
use prometheos.Pmm.{
  Pmm, max_order, order_none, frame_size, free_pages, alloc_pages, assert_block_unused,
}
use prometheos.Pmm.Orders.{in_block, all_unused-overlap}
use prometheos.Pmm.Valid.{IsValid}
use prometheos.Pmm.Push.{IsUnused, two-pow-pos}
use prometheos.Pmm.Step.{is_free}
use prometheos.Pmm.Alloc.{IsAlloc, AllocPost, alloc_pages_lem}
use prometheos.Pmm.Free.{frame_index-ok, free_pages-frees}

-- In a valid state, `free_pages` of an aligned block within the frames that has a free frame
-- panics: as a double free if its first frame is free, and as an overlap if a later one is.
pub free_pages-free_frame :
    (p : Pmm) (frame order j : ℕ)
    → IsValid p
    → order ≤ max_order
    → frame % 2 ^ order ≡ 0
    → frame + 2 ^ order ≤ p.total_frames
    → in_block frame (2 ^ order) j ≡ true
    → is_free p j ≡ true
    → free_pages p (frame * frame_size) order
      ≡ panic (if is_free p frame then Panic.double_free else Panic.overlap)
unfolding free_pages assert_block_unused
free_pages-free_frame p frame order j v small aligned fits inside used =
    rw
      (
        le→leb order max_order small,
        frame_index-ok frame,
        add64-ok frame (2 ^ order) (omega (arith, fits, v.buddy.addressable)),
        le→leb (frame + 2 ^ order) p.total_frames fits,
        aligned,
        read-ok p.frame_order frame order_none
            (omega (arith, fits, v.buddy.orders_length, two-pow-pos order)),
      )
      (ground (arith, all_unused-overlap (2 ^ order) p.frame_order frame j, v.buddy.orders_length))

-- In a valid state, `free_pages` panics for a block that does not lie within the frames, and for
-- one within them that is not aligned to its order.
pub free_pages-misplaced :
    (p : Pmm) (frame order : ℕ)
    → IsValid p
    → order ≤ max_order
    → frame < p.total_frames
    → (p.total_frames < frame + 2 ^ order) ⊎ (frame % 2 ^ order ≢ 0)
    → free_pages p (frame * frame_size) order
      ≡ panic (
          if ltb p.total_frames (frame + 2 ^ order)
          then Panic.free_out_of_range
          else Panic.misaligned_block)
unfolding free_pages
free_pages-misplaced p frame order v small below wrong =
    rw
      (
        le→leb order max_order small,
        frame_index-ok frame,
        add64-ok frame (2 ^ order) (
            omega (
              arith,
              v.buddy.addressable,
              pow-le-pow_right {n = 2} (omega arith) {i = order} {j = max_order} small,
            )),
      )
      (ground arith)

-- A block that `alloc_pages` hands out in a valid state can be released at once, and then exactly
-- the frames that were free before are free again, with the same count.
pub free_pages-alloc_pages :
    (p q : Pmm) (order addr : ℕ)
    → IsValid p
    → order ≤ max_order
    → alloc_pages p order ≡ ok (some addr, q)
    → (r : Pmm) × (free_pages q addr order ≡ ok r)
      × IsValid r
      × ((j : ℕ) → is_free r j ≡ is_free p j)
      × (r.free_frames ≡ p.free_frames)
free_pages-alloc_pages p q order addr v small e =
    let (r, e', post) = alloc_pages_lem p order v small in
    let same : r ≡ (some addr, q) = cc in release (subst (λ t. AllocPost p order t.0 t.1) same post)
  where
    release :
        IsAlloc p q order addr
        → (r : Pmm) × (free_pages q addr order ≡ ok r)
          × IsValid r
          × ((j : ℕ) → is_free r j ≡ is_free p j)
          × (r.free_frames ≡ p.free_frames)
    release a =
        let h : IsUnused q a.frame order = record {
          order_in = small;
          aligned = a.aligned;
          fits = omega (arith, a.fits, a.total);
          unused = λ j lo hi. ground (arith, a.freed j);
        } in
        let (r, e', f) = free_pages-frees q a.valid a.frame order h in
        (
          r,
          rw a.at e',
          f.valid,
          λ j. ground (arith, f.freed j, a.freed j, a.was_free j),
          omega (arith, f.counted, a.counted),
        )
