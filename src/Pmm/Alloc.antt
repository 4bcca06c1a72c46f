-- ===== src/Pmm/Alloc.antt =====
-- `alloc_pages` of kernel/src/mm/pmm.rs: a free block is cut down to the order asked for.
use native.Mathlib.Decide.{ℕ_discrete}
use native.Mathlib.Nat.{pow-le-pow_right, mod-eq_of_lt}
use prometheos.Base.{
  ℕ, zero, suc, ◌+◌, ◌-◌, ◌*◌, ◌%◌, ◌^◌, ◌≤◌, ◌<◌, ◌≡◌, refl, sym, ap, ◌∙◌, subst, inl, inr, true,
  false, not, ◌&&◌, Option, none, some, arith, Option-cases, ok, sub64-ok, read, read-ok, le→leb,
}
use prometheos.Pmm.{
  Pmm, max_order, num_orders, order_none, frame_size, shift_frame, take_block, alloc_from,
  alloc_pages, block_to_frame,
}
use prometheos.Pmm.Orders.{in_block, free_count}
use prometheos.Pmm.Valid.{is_block, IsValid, IsBuddy-counter, list_at}
use prometheos.Pmm.Push.{IsUnused, two-pow-pos}
use prometheos.Pmm.Remove.{block_fits, block_order}
use prometheos.Pmm.Step.{is_free, Marks, remove_step}
use prometheos.Pmm.FreeList.{IsList, address, IsList-none}
use prometheos.Pmm.Split.{IsSplit, split_lem}

-- What a successful `alloc_pages(order)` hands out: an aligned block of free frames, which are in
-- use afterwards while every other frame is as it was.
pub record IsAlloc (p q : Pmm) (order addr : ℕ) : Type 0 where
  pub frame : ℕ
  pub at : addr ≡ frame * frame_size
  pub aligned : frame % 2 ^ order ≡ 0
  pub fits : frame + 2 ^ order ≤ p.total_frames
  pub was_free : (j : ℕ) → in_block frame (2 ^ order) j ≡ true → is_free p j ≡ true
  pub freed : (j : ℕ) → is_free q j ≡ (is_free p j && not (in_block frame (2 ^ order) j))
  pub counted : q.free_frames + 2 ^ order ≡ p.free_frames
  pub total : q.total_frames ≡ p.total_frames
  pub valid : IsValid q

-- A failed one leaves the state alone, and there was no block to serve it.
abbrev pub AllocPost : Pmm → ℕ → Option ℕ → Pmm → Type 0
AllocPost p order none q =
    (q ≡ p) × ((o f : ℕ) → order ≤ o → o ≤ max_order → is_block p.frame_order o f ≡ false)
AllocPost p order (some addr) q = IsAlloc p q order addr

block_to_frame-ok : (p : Pmm) (f : ℕ) → block_to_frame p (address p.hhdm_offset f) ≡ ok f
unfolding block_to_frame
block_to_frame-ok p f =
    rw (sub64-ok (address p.hhdm_offset f) p.hhdm_offset (omega arith)) (ap ok (omega arith))

module _ (p : Pmm) (v : IsValid p) (current order : ℕ) (le : order ≤ current)
    (small : current ≤ max_order) where
  same_order : order + (current - order) ≡ current
  same_order = omega arith

  -- The block that was just removed may be split.
  removed-IsUnused :
      (f : ℕ) (p' : Pmm)
      → is_block p.frame_order current f ≡ true
      → Marks p p' f (2 ^ current) order_none
      → IsUnused p' f (order + (current - order))
  removed-IsUnused f p' is m = rw same_order (record {
    order_in = small;
    aligned = ground arith;
    fits = omega (arith, block_fits v.buddy f current small is, m.total);
    unused = λ j lo hi. ground (arith, m.order j);
  })

  abbrev Took : ℕ → Type 0
  Took head =
      (r : ℕ × Pmm) × (take_block p head current order ≡ ok (some r.0, r.1))
      × IsAlloc p r.1 order r.0

  module _ (f : ℕ) (is : is_block p.frame_order current f ≡ true) where
    enough_free :
        (q p' : Pmm)
        → IsSplit p' q f order (current - order)
        → Marks p p' f (2 ^ current) order_none
        → free_count p'.frame_order + 2 ^ current ≡ free_count p.frame_order
        → 2 ^ order ≤ q.free_frames
    enough_free q p' s m c = omega (
      arith,
      s.free,
      m.free,
      v.counted,
      c,
      pow-le-pow_right {n = 2} (omega arith) {i = order} {j = current} le,
    )

    address_small : shift_frame f ≡ f * frame_size
    address_small = mod-eq_of_lt (
        omega
          (arith, v.buddy.addressable, two-pow-pos current, block_fits v.buddy f current small is))

    module _ (p' q : Pmm) (m : Marks p p' f (2 ^ current) order_none)
        (c : free_count p'.frame_order + 2 ^ current ≡ free_count p.frame_order)
        (s : IsSplit p' q f order (current - order)) where
      wide : 2 ^ (order + (current - order)) ≡ 2 ^ current
      wide = ap (λ (k : ℕ). 2 ^ k) same_order

      lower : 2 ^ order ≤ 2 ^ current
      lower = pow-le-pow_right {n = 2} (omega arith) {i = order} {j = current} le

      IsAlloc-result :
          IsAlloc p (record q { free_frames = q.free_frames - 2 ^ order }) order (shift_frame f)
      IsAlloc-result = record {
        frame = f;
        at = address_small;
        aligned = s.aligned;
        fits = omega (arith, block_fits v.buddy f current small is, lower);
        was_free = λ j inside. ground (arith, lower, block_order v.buddy f current small is j);
        freed = λ j.
            ground
              (arith, lower, wide, s.freed j, m.order j, block_order v.buddy f current small is j);
        counted = omega (arith, s.free, m.free, enough_free q p' s m c);
        total = s.total ∙ m.total;
        valid = record {
          buddy = IsBuddy-counter s.buddy (q.free_frames - 2 ^ order);
          counted = omega (arith, s.free, m.free, v.counted, c, wide, s.count);
        };
      }

    take_block_at : Took (address p.hhdm_offset f)
    unfolding take_block
    take_block_at =
        let (p', e, b', m, c) = remove_step p f current v.buddy small is in
        let (q, e', s) = split_lem (current - order) p' f order b' (removed-IsUnused f p' is m) in
        (
          (shift_frame f, record q { free_frames = q.free_frames - 2 ^ order }),
          rw (
            block_to_frame-ok p f,
            e,
            e',
            sub64-ok q.free_frames (2 ^ order) (enough_free q p' s m c),
          ),
          IsAlloc-result p' q m c s,
        )

  take_block_lem : (head : ℕ) → list_at p.free_lists current ≡ some head → Took head
  take_block_lem head first =
      let (f, is_f, is, _) = (v.buddy.linked current small).first head first in
      subst Took (sym is_f) (take_block_at f is)

-- No free block of an order from `order` up to `current`.
abbrev NoneBelow : Pmm → ℕ → ℕ → Type 0
NoneBelow p order current = (o f : ℕ) → order ≤ o → o < current → is_block p.frame_order o f ≡ false

module _ (p : Pmm) (v : IsValid p) (order : ℕ) where
  none_at :
      (current : ℕ)
      → current ≤ max_order
      → list_at p.free_lists current ≡ none
      → NoneBelow p order current
      → NoneBelow p order (current + 1)
  none_at current small e below o f lo hi = elim (ℕ_discrete o current) [
    | yes same ↦
        let empty =
          subst (λ h. IsList (is_block p.frame_order current) p.hhdm_offset h p.blocks) e
            (v.buddy.linked current small) in
        subst (λ k. is_block p.frame_order k f ≡ false) (sym same) (IsList-none empty f)
    | no other ↦ below o f lo (omega arith)
  ]

  Outcome : ℕ → ℕ → Type 0
  Outcome rounds current =
      (r : Option ℕ × Pmm) × (alloc_from rounds p current order ≡ ok r) × AllocPost p order r.0 r.1

  alloc_from_lem :
      (rounds current : ℕ)
      → order ≤ current
      → current + rounds ≡ num_orders
      → NoneBelow p order current
      → Outcome rounds current
  unfolding alloc_from Outcome
  alloc_from_lem zero current le sum below =
      ((none, p), refl, (refl, λ o f lo hi. below o f lo (omega arith)))
  alloc_from_lem (suc rounds) current le sum below =
      let here : read p.free_lists current ≡ ok (list_at p.free_lists current) =
        read-ok p.free_lists current none (omega (arith, v.buddy.lists_length)) in
      elim (Option-cases (list_at p.free_lists current)) [
        | inl e ↦
            rw (here, e)
              (alloc_from_lem rounds (current + 1) (omega arith) (omega arith)
                (none_at current (omega arith) e below))
        | inr (head, e) ↦
            let ((a, q), is, post) = take_block_lem p v current order le (omega arith) head e in
            ((some a, q), rw (here, e) is, post)
      ]

-- In a valid state and for an order up to `max_order`, `alloc_pages` returns: it hands out a block
-- as `IsAlloc` says (which includes that the new state is valid), or it returns `none`, changes
-- nothing, and no free block of that order or a larger one exists.
pub alloc_pages_lem :
    (p : Pmm) (order : ℕ)
    → IsValid p
    → order ≤ max_order
    → (r : Option ℕ × Pmm) × (alloc_pages p order ≡ ok r) × AllocPost p order r.0 r.1
unfolding alloc_pages Outcome
alloc_pages_lem p order v small = rw (le→leb order max_order small) (
    alloc_from_lem p v order (num_orders - order) order (omega arith) (omega arith)
      λ o f lo hi. absurd (omega arith))
