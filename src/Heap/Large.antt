-- ===== src/Heap/Large.antt =====
-- The blocks of whole frames of kernel/src/mm/heap.rs, from `alloc` to `dealloc`.
use native.Mathlib.Nat.{pow-le-pow_right, one-le-pow}
use prometheos.Base.{
  ℕ, ◌+◌, ◌-◌, ◌*◌, ◌^◌, ◌<◌, ◌≤◌, ◌≡◌, refl, ap, subst, inl, inr, ◌⊎◌, arith, Option, some, none,
  ok, Option-cases, add64-ok, sub64-ok, u64_size, Bool-cases, ltb, false,
}
use prometheos.Pmm.{Pmm, frame_size, max_order, alloc_pages}
use prometheos.Pmm.Valid.{IsValid, is_block}
use prometheos.Pmm.Step.{is_free}
use prometheos.Pmm.Alloc.{IsAlloc, AllocPost, alloc_pages_lem}
use prometheos.Pmm.Errors.{free_pages-alloc_pages}
use prometheos.Pmm.Static.{alloc_pages_static, free_pages_static}
use prometheos.Heap.Sizes.{Layout, bucket_for, order_for_large}
use prometheos.Heap.Slabs.{
  Heap, phys_to_virt, virt_to_phys, alloc_large, dealloc_large, alloc, dealloc,
}
use prometheos.Heap.Layouts.{FitsOrder, order_for_large_lem}

-- A block of an order that the layout fits, with its address, and its return.
pub record IsLarge (h : Heap) (p : Pmm) (layout : Layout) (h' : Heap) (ptr : ℕ) : Type 0 where
  pub order : ℕ
  pub fits : layout.size ≤ 4096 * 2 ^ order
  pub phys : ℕ
  pub at : ptr ≡ phys + h.hhdm
  pub after : Pmm
  pub block : IsAlloc p after order phys
  pub state : h' ≡ record h { pmm = some after }
  pub back : Pmm
  pub returned : dealloc h' (some ptr) layout ≡ ok (record h { pmm = some back })
  pub valid : IsValid back
  pub free : (j : ℕ) → is_free back j ≡ is_free p j
  pub count : back.free_frames ≡ p.free_frames

module _ (h : Heap) (p : Pmm) (layout : Layout) (large : bucket_for layout ≡ none)
    (installed : h.pmm ≡ some p) (valid : IsValid p)
    (small : p.total_frames * frame_size + h.hhdm < u64_size) where
  -- Either no free block fits, or one is handed out and can be given back.
  abbrev pub LargeAnswer : Type 0
  LargeAnswer =
      ((alloc h layout ≡ ok (none, h))
        × ((o f : ℕ)
            → layout.size ≤ 4096 * 2 ^ o
            → layout.align ≤ 4096 * 2 ^ o
            → o ≤ max_order
            → is_block p.frame_order o f ≡ false))
      ⊎ (ptr : ℕ) × (h' : Heap) × (alloc h layout ≡ ok (some ptr, h')) × IsLarge h p layout h' ptr

  module _ (order : ℕ) (chosen : order_for_large layout ≡ some order)
      (fits : FitsOrder layout (some order)) where
    from_block :
        (phys : ℕ) (q : Pmm)
        → alloc_pages p order ≡ ok (some phys, q)
        → IsAlloc p q order phys
        → LargeAnswer
    unfolding alloc alloc_large dealloc dealloc_large alloc_pages_static free_pages_static
        phys_to_virt virt_to_phys
    from_block phys q e is =
        let (r, e', v, free, count) = free_pages-alloc_pages p q order phys valid fits.0 e in
        let mapped : phys + h.hhdm < u64_size =
          omega (arith, is.at, is.fits, small, one-le-pow order 2 (omega arith)) in
        let there : phys + h.hhdm - h.hhdm ≡ phys = omega arith in
        inr (
          phys + h.hhdm,
          record h { pmm = some q },
          rw (alloc, large, alloc_large, chosen, installed, e, add64-ok phys h.hhdm mapped) refl,
          record {
            order = order;
            fits = fits.1;
            phys = phys;
            at = refl;
            after = q;
            block = is;
            state = refl;
            back = r;
            returned =
                rw
                  (
                    dealloc,
                    large,
                    dealloc_large,
                    chosen,
                    sub64-ok (phys + h.hhdm) h.hhdm (omega arith),
                    there,
                    e',
                  )
                  refl;
            valid = v;
            free = free;
            count = count;
          },
        )

    no_block :
        (q : Pmm) → alloc_pages p order ≡ ok (none, q) → AllocPost p order none q → LargeAnswer
    unfolding alloc alloc_large alloc_pages_static
    no_block q e (same, blocks) = inl (
      rw (alloc, large, alloc_large, chosen, installed, e)
          (ap (λ t. ok (none, record h { pmm = t })) (ap some same)),
      λ o f size align le. elim (Bool-cases (ltb o order)) [
        | inl low ↦ let over = fits.3 o (ground arith) in absurd (omega (arith, over, size, align))
        | inr high ↦ blocks o f (ground arith) le
      ],
    )

  no_order : order_for_large layout ≡ none → FitsOrder layout none → LargeAnswer
  unfolding alloc alloc_large
  no_order chosen over = inl (
    rw (alloc, large, alloc_large, chosen) refl,
    λ o f size align le.
        let grown = pow-le-pow_right {n = 2} (omega arith) {i = o} {j = max_order} le in
        absurd (omega (arith, over, size, align, grown)),
  )

  -- For a layout that has no bucket, with an alignment that is not 0, and with a size and an alignment
  -- below 2^63, and with a valid frame allocator whose frames are mapped below 2^64, `alloc` returns. It
  -- returns the null pointer and changes nothing only if no free block is as large as the size and the
  -- alignment; otherwise it returns the address of a block of frames with room for the size, and `dealloc`
  -- of it with the layout succeeds: then exactly the frames are free that were free before.
  pub alloc-LargeAnswer :
      0 < layout.align → layout.size < 2 ^ 63 → layout.align < 2 ^ 63 → LargeAnswer
  alloc-LargeAnswer pos size align =
      let fits : FitsOrder layout (order_for_large layout) =
        order_for_large_lem layout pos size align in
      elim (Option-cases (order_for_large layout)) [
        | inl chosen ↦ no_order chosen (subst (FitsOrder layout) chosen fits)
        | inr (order, chosen) ↦
            let fits' : FitsOrder layout (some order) = subst (FitsOrder layout) chosen fits in
            let ((r, q), e, post) = alloc_pages_lem p order valid fits'.0 in
            answer order chosen fits' r q e post
      ]
    where
      answer :
          (order : ℕ)
          → order_for_large layout ≡ some order
          → FitsOrder layout (some order)
          → (r : Option ℕ) (q : Pmm) → alloc_pages p order ≡ ok (r, q)
          → AllocPost p order r q
          → LargeAnswer
      answer order chosen fits' none q e post = no_block order chosen fits' q e post
      answer order chosen fits' (some phys) q e is = from_block order chosen fits' phys q e is
