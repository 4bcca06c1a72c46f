-- ===== src/Pmm/Push.antt =====
-- `list_push` of kernel/src/mm/pmm.rs on a valid state: it succeeds, and marks one more free block.
use mathlib.Core.Path.{fun_ext}
use native.Mathlib.Nat.{one-le-pow, mod-eq_of_lt}
use native.Mathlib.Decide.{ℕ_discrete}
use prometheos.Base.{
  ℕ, ◌+◌, ◌-◌, ◌*◌, ◌%◌, ◌^◌, ◌≤◌, ◌<◌, ◌≡◌, refl, sym, ap, ◌∙◌, subst, ◌≢◌, inl, inr, true, ◌||◌,
  none, some, List, ◌==◌, if◌then◌else◌, arith, Bool-cases, lt→ltb, le→leb, eq→==, ne→==, ok,
  add64-ok, set, read-ok, write-ok, length-set, get_or-set,
}
use prometheos.Base.Blocks.{aligned_offset}
use prometheos.Pmm.{
  Pmm, frame_size, max_order, order_none, shift_frame, frame_to_block, assert_block_unused,
  set_block_order, list_push,
}
use prometheos.Pmm.Orders.{
  order_of, in_block, filled, length-filled, fill_order-ok, order_of-filled, all_unused-ok,
}
use prometheos.Pmm.FreeList.{IsList, address, IsList-frame}
use prometheos.Pmm.FreeList.Push.{pushed, IsList-push, pushed_outside}
use prometheos.Pmm.Valid.{is_block, list_at, IsBuddy}

pub two-pow-pos : (o : ℕ) → 0 < 2 ^ o
two-pow-pos o = one-le-pow o 2 (omega arith)

-- A block that `list_push` accepts.
pub record IsUnused (p : Pmm) (f o : ℕ) : Type 0 where
  pub order_in : o ≤ max_order
  pub aligned : f % 2 ^ o ≡ 0
  pub fits : f + 2 ^ o ≤ p.total_frames
  pub unused : (j : ℕ) → f ≤ j → j < f + 2 ^ o → order_of p.frame_order j ≡ order_none

-- Pointer arithmetic does not wrap below the last frame.
pub frame_to_block-ok :
    {p : Pmm} (b : IsBuddy p) (f : ℕ)
    → f < p.total_frames
    → frame_to_block p f ≡ ok (address p.hhdm_offset f)
unfolding frame_to_block
frame_to_block-ok {p} b f h =
    let small : shift_frame f ≡ f * frame_size = mod-eq_of_lt (omega (arith, b.addressable)) in
    rw small (add64-ok (f * frame_size) p.hhdm_offset (omega (arith, b.addressable)))

module _ (p : Pmm) (b : IsBuddy p) (f o : ℕ) (h : IsUnused p f o) where
  open b use {lists_length, orders_length, addressable, uniform, covered, linked}
  open h use {order_in, aligned, fits, unused}

  abbrev block : ℕ
  block = address p.hhdm_offset f

  abbrev orders' : List ℕ
  orders' = filled (2 ^ o) p.frame_order f o

  -- The state after the push.
  abbrev pub push_state : Pmm
  push_state = record p {
    blocks = pushed (linked o order_in) f;
    free_lists = set p.free_lists o (some block);
    frame_order = orders';
  }

  order_after :
      (j : ℕ) → order_of orders' j ≡ (if in_block f (2 ^ o) j then o else order_of p.frame_order j)
  order_after j = order_of-filled (2 ^ o) p.frame_order f o j (omega arith)

  pub list_push-ok : list_push p f o ≡ ok push_state
  unfolding list_push assert_block_unused set_block_order pushed
  list_push-ok = rw (
    lt→ltb f p.total_frames (omega (arith, two-pow-pos o)),
    add64-ok f (2 ^ o) (omega (arith, addressable)),
    le→leb (f + 2 ^ o) p.total_frames fits,
    all_unused-ok (2 ^ o) p.frame_order f (omega arith) unused,
    frame_to_block-ok b f (omega (arith, two-pow-pos o)),
    read-ok p.free_lists o none (omega arith),
    write-ok p.free_lists o (some block) (omega arith),
    fill_order-ok (2 ^ o) p.frame_order f o (omega arith),
  )

  block_after_same : (g : ℕ) → is_block orders' o g ≡ ((g == f) || is_block p.frame_order o g)
  block_after_same g =
      ground (arith, two-pow-pos o, order_after g, unused g, aligned_offset (2 ^ o) f aligned g)

  block_after_other :
      (o' g : ℕ) → o' ≤ max_order → o' ≢ o → is_block orders' o' g ≡ is_block p.frame_order o' g
  block_after_other o' g small ne = ground (arith, order_after g, unused g)

  uniform_same :
      (f' g : ℕ) → is_block orders' o f' ≡ true → f' ≤ g → g < f' + 2 ^ o → order_of orders' g ≡ o
  uniform_same f' g is lo hi = elim (Bool-cases (f' == f)) [
    | inl new ↦ ground (arith, order_after g)
    | inr old ↦ ground (arith, block_after_same f', order_after g, uniform o f' g)
  ]

  uniform_after :
      (o' f' g : ℕ)
      → o' ≤ max_order
      → is_block orders' o' f' ≡ true
      → f' ≤ g
      → g < f' + 2 ^ o'
      → order_of orders' g ≡ o'
  uniform_after o' f' g small is lo hi = elim (ℕ_discrete o' o) [
    | yes same ↦
        let is' = subst (λ k. is_block orders' k f' ≡ true) same is in
        uniform_same f' g is' lo (omega (arith, ap (λ (k : ℕ). 2 ^ k) same)) ∙ sym same
    | no other ↦
        let is' = sym (block_after_other o' f' small other) ∙ is in
        ground (arith, order_after g, unused g, uniform o' f' g small is' lo hi)
  ]

  covered_inside : (j : ℕ) → in_block f (2 ^ o) j ≡ true → is_block orders' o (j - j % 2 ^ o) ≡ true
  covered_inside j inside =
      let first : j - j % 2 ^ o ≡ f = ground (arith, aligned_offset (2 ^ o) f aligned j) in
      rw first (ground (arith, order_after f, two-pow-pos o))

  covered_after :
      (o' j : ℕ)
      → order_of orders' j ≡ o'
      → o' ≢ order_none
      → (o' ≤ max_order) × (is_block orders' o' (j - j % 2 ^ o') ≡ true)
  covered_after o' j e real = elim (Bool-cases (in_block f (2 ^ o) j)) [
    | inl inside ↦
        let same : o' ≡ o = sym e ∙ order_after j ∙ rw inside in
        rw same (order_in, covered_inside j inside)
    | inr outside ↦
        let was : order_of p.frame_order j ≡ o' = ground (arith, order_after j) in
        let (small, is) = covered o' j was real in
        let base = j - j % 2 ^ o' in
        let marked = uniform o' base base small is (omega arith) (omega (arith, two-pow-pos o')) in
        (small, ground (arith, order_after base, unused base))
  ]

  list_after :
      (o' : ℕ)
      → list_at push_state.free_lists o' ≡ (if o == o' then some block else list_at p.free_lists o')
  list_after o' = get_or-set p.free_lists o o' (some block) none (omega arith)

  linked_self :
      IsList (is_block orders' o) p.hhdm_offset (list_at push_state.free_lists o) push_state.blocks
  linked_self =
      rw (list_after o, eq→== o o refl, fun_ext block_after_same)
        (IsList-push (linked o order_in) f (ground (arith, unused f, two-pow-pos o)))

  linked_after :
      (o' : ℕ)
      → o' ≤ max_order
      → IsList
          (is_block orders' o')
          p.hhdm_offset
          (list_at push_state.free_lists o')
          push_state.blocks
  linked_after o' small = elim (ℕ_discrete o' o) [
    | yes same ↦
        subst
          (λ k.
            IsList (is_block orders' k) p.hhdm_offset (list_at push_state.free_lists k)
              push_state.blocks)
          (sym same) linked_self
    | no other ↦
        rw
          (
            list_after o',
            ne→== o o' (λ e. other (sym e)),
            fun_ext (λ g. block_after_other o' g small other),
          )
          (IsList-frame (linked o' small) push_state.blocks λ g is.
            pushed_outside (linked o order_in) f g (ground (arith, unused f, two-pow-pos o))
              (ground arith))
  ]

  pub IsBuddy-push : IsBuddy push_state
  IsBuddy-push = record {
    lists_length = length-set p.free_lists o (some block) ∙ lists_length;
    orders_length = length-filled (2 ^ o) p.frame_order f o ∙ orders_length;
    addressable = addressable;
    uniform = uniform_after;
    covered = covered_after;
    linked = linked_after;
  }
