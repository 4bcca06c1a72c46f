-- ===== src/Pmm/Free.antt =====
-- `free_pages` of kernel/src/mm/pmm.rs: the block is merged with its free buddies and becomes free.
use native.Mathlib.Nat.{pow-suc}
use prometheos.Base.{
  ℕ, zero, suc, ◌+◌, ◌-◌, ◌*◌, ◌/◌, ◌%◌, ◌^◌, ◌<◌, ◌≡◌, refl, sym, ◌∙◌, subst, inl, inr, true, ◌||◌,
  leb, ◌==◌, arith, Bool-cases, ok, add64-ok, read-ok, le→leb, bit_xor, u64_size,
}
use prometheos.Pmm.{
  Pmm, max_order, order_none, frame_size, clear_bit, coalesce, free_pages, frame_index,
  assert_block_unused,
}
use prometheos.Pmm.Orders.{order_of, in_block, free_count, free_count-le, all_unused-ok}
use prometheos.Pmm.Valid.{is_block, IsBuddy, IsValid, IsBuddy-counter}
use prometheos.Pmm.Push.{IsUnused, two-pow-pos}
use prometheos.Pmm.Remove.{block_fits, block_order}
use prometheos.Pmm.Step.{is_free, Marks, push_step, remove_step}
use prometheos.Pmm.Buddies.{buddy_cases, buddy_aligned, merged_aligned}

-- The loop has taken free buddies out of the lists and joined them to the block.
record IsMerged (p q : Pmm) (frame o frame' o' : ℕ) : Type 0 where
  buddy : IsBuddy q
  unused : IsUnused q frame' o'
  freed :
      (j : ℕ)
      → (is_free q j || in_block frame' (2 ^ o') j) ≡ (is_free p j || in_block frame (2 ^ o) j)
  total : q.total_frames ≡ p.total_frames
  free : q.free_frames ≡ p.free_frames
  count : free_count q.frame_order + 2 ^ o' ≡ free_count p.frame_order + 2 ^ o

unmerged : (p : Pmm) (frame o : ℕ) → IsBuddy p → IsUnused p frame o → IsMerged p p frame o frame o
unmerged p frame o b h = record {
  buddy = b;
  unused = h;
  freed = λ j. refl;
  total = refl;
  free = refl;
  count = refl;
}

module _ (p : Pmm) (b : IsBuddy p) (frame o : ℕ) (h : IsUnused p frame o)
    (below : o < max_order) where
  frame_small : frame < u64_size
  frame_small = omega (arith, b.addressable, h.fits, two-pow-pos o)

  abbrev other : ℕ
  other = bit_xor frame (2 ^ o)

  other_block : order_of p.frame_order other ≡ o → is_block p.frame_order o other ≡ true
  other_block e = ground (arith, buddy_aligned o frame (omega arith) frame_small h.aligned)

  -- Without its buddy in a list, the joined block is in no free block.
  joined :
      (p' : Pmm)
      → is_block p.frame_order o other ≡ true
      → Marks p p' other (2 ^ o) order_none
      → IsUnused p' (clear_bit frame o) (suc o)
  joined p' is m = record {
    order_in = omega arith;
    aligned = merged_aligned o frame (omega arith) frame_small h.aligned;
    fits = omega (
      arith,
      m.total,
      h.fits,
      pow-suc 2 o,
      block_fits b other o (omega arith) is,
      buddy_cases o frame (omega arith) frame_small h.aligned,
    );
    unused = λ j lo hi. ground (
      arith,
      m.order j,
      h.unused j,
      pow-suc 2 o,
      buddy_cases o frame (omega arith) frame_small h.aligned,
    );
  }

  joined_freed :
      (p' : Pmm) (j : ℕ)
      → is_block p.frame_order o other ≡ true
      → Marks p p' other (2 ^ o) order_none
      → (is_free p' j || in_block (clear_bit frame o) (2 ^ suc o) j)
        ≡ (is_free p j || in_block frame (2 ^ o) j)
  joined_freed p' j is m = ground (
    arith,
    m.order j,
    block_order b other o (omega arith) is j,
    pow-suc 2 o,
    buddy_cases o frame (omega arith) frame_small h.aligned,
  )

  merge :
      (p' : Pmm)
      → is_block p.frame_order o other ≡ true
      → Marks p p' other (2 ^ o) order_none
      → free_count p'.frame_order + 2 ^ o ≡ free_count p.frame_order
      → (r : Pmm × ℕ × ℕ) → IsMerged p' r.0 (clear_bit frame o) (suc o) r.1 r.2
      → IsMerged p r.0 frame o r.1 r.2
  merge p' is m c r s = record {
    buddy = s.buddy;
    unused = s.unused;
    freed = λ j. s.freed j ∙ joined_freed p' j is m;
    total = s.total ∙ m.total;
    free = s.free ∙ m.free;
    count = omega (arith, s.count, c, pow-suc 2 o);
  }

coalesce_lem :
    (rounds : ℕ) (p : Pmm) (frame o : ℕ) (b : IsBuddy p) (h : IsUnused p frame o)
    → o + rounds ≡ max_order
    → (r : Pmm × ℕ × ℕ) × (coalesce rounds p frame o ≡ ok r) × IsMerged p r.0 frame o r.1 r.2
unfolding coalesce
coalesce_lem zero p frame o b h sum = ((p, frame, o), refl, unmerged p frame o b h)
coalesce_lem (suc rounds) p frame o b h sum =
    let below : o < max_order = omega arith in
    let stop = unmerged p frame o b h in
    elim (Bool-cases (leb p.total_frames (bit_xor frame (2 ^ o)))) [
      | inl past ↦ ((p, frame, o), rw past, stop)
      | inr inside ↦
          let at =
            read-ok p.frame_order (bit_xor frame (2 ^ o)) order_none
              (ground (arith, b.orders_length)) in
          elim (Bool-cases (order_of p.frame_order (bit_xor frame (2 ^ o)) == o)) [
            | inr busy ↦ ((p, frame, o), rw (inside, at, busy), stop)
            | inl found ↦
                let is = other_block p b frame o h below (ground arith) in
                let (p', e, b', m, c) =
                  remove_step p (bit_xor frame (2 ^ o)) o b (omega arith) is in
                let up : suc o ≡ o + 1 = omega arith in
                let h' =
                  subst (λ k. IsUnused p' (clear_bit frame o) k) up
                    (joined p b frame o h below p' is m) in
                let (r, e', s) =
                  coalesce_lem rounds p' (clear_bit frame o) (o + 1) b' h' (omega arith) in
                (
                  r,
                  rw (inside, at, found, e) e',
                  merge p b frame o h below p' is m c r
                      (subst (λ k. IsMerged p' r.0 (clear_bit frame o) k r.1 r.2) (sym up) s),
                )
          ]
    ]

-- What `free_pages` of a block does: its frames are free, every other frame is as it was.
pub record IsFreed (p q : Pmm) (frame order : ℕ) : Type 0 where
  pub freed : (j : ℕ) → is_free q j ≡ (is_free p j || in_block frame (2 ^ order) j)
  pub counted : q.free_frames ≡ p.free_frames + 2 ^ order
  pub total : q.total_frames ≡ p.total_frames
  pub valid : IsValid q

pushed_freed :
    (p r q : Pmm) (frame order f o : ℕ)
    → IsMerged p r frame order f o
    → Marks r q f (2 ^ o) o
    → (j : ℕ) → is_free q j ≡ (is_free p j || in_block frame (2 ^ order) j)
pushed_freed p r q frame order f o s m j = ground (arith, s.freed j, m.order j, s.unused.order_in)

pub frame_index-ok : (frame : ℕ) → frame_index (frame * frame_size) ≡ ok frame
unfolding frame_index
frame_index-ok frame =
    let even : frame * frame_size % frame_size ≡ 0 = omega arith in
    let back : frame * frame_size / frame_size ≡ frame = omega arith in rw (even, back)

module _ (p : Pmm) (v : IsValid p) (frame order : ℕ) (h : IsUnused p frame order) where
  abbrev counting : Pmm
  counting = record p { free_frames = p.free_frames + 2 ^ order }

  counter_fits : p.free_frames + 2 ^ order < u64_size
  counter_fits = omega (
    arith,
    v.counted,
    v.buddy.orders_length,
    v.buddy.addressable,
    h.fits,
    free_count-le p.frame_order,
  )

  -- In a valid state, `free_pages` of a block that is aligned, lies within the frames and has no
  -- frame in a free block (`IsUnused`) returns without a panic: exactly its frames become free, the
  -- counter grows by its size, and the new state is valid (`IsFreed`).
  pub free_pages-frees :
      (q : Pmm) × (free_pages p (frame * frame_size) order ≡ ok q) × IsFreed p q frame order
  unfolding free_pages assert_block_unused
  free_pages-frees =
      let b : IsBuddy counting = IsBuddy-counter v.buddy (p.free_frames + 2 ^ order) in
      let h' : IsUnused counting frame order = record {
        order_in = h.order_in;
        aligned = h.aligned;
        fits = h.fits;
        unused = h.unused;
      } in
      let (r, e, s) =
        coalesce_lem (max_order - order) counting frame order b h' (omega (arith, h.order_in)) in
      let (q, e', b', m, c) = push_step r.0 r.1 r.2 s.buddy s.unused in
      (
        q,
        rw
            (
              le→leb order max_order h.order_in,
              frame_index-ok frame,
              add64-ok frame (2 ^ order) (omega (arith, h.fits, v.buddy.addressable)),
              le→leb (frame + 2 ^ order) p.total_frames h.fits,
              h.aligned,
              read-ok p.frame_order frame order_none
                  (omega (arith, h.fits, v.buddy.orders_length, two-pow-pos order)),
              h.unused frame (omega arith) (omega (arith, two-pow-pos order)),
              all_unused-ok (2 ^ order) p.frame_order frame
                  (omega (arith, h.fits, v.buddy.orders_length)) h.unused,
              add64-ok p.free_frames (2 ^ order) counter_fits,
              e,
            )
            e',
        record {
          freed = pushed_freed counting r.0 q frame order r.1 r.2 s m;
          counted = omega (arith, m.free, s.free);
          total = m.total ∙ s.total;
          valid = record {
            buddy = b';
            counted = omega (arith, m.free, s.free, c, s.count, v.counted);
          };
        },
      )
