-- ===== src/Pmm/Remove.antt =====
-- `list_remove` of kernel/src/mm/pmm.rs on a valid state: it succeeds, and one free block is gone.
use mathlib.Core.Path.{fun_ext}
use native.Mathlib.Nat.{mod-lt}
use native.Mathlib.Decide.{ℕ_discrete}
use prometheos.Base.{
  ℕ, ◌+◌, ◌-◌, ◌%◌, ◌^◌, ◌≤◌, ◌<◌, ◌≡◌, refl, sym, ap, ◌∙◌, subst, ◌≢◌, inl, inr, true, false, not,
  ◌&&◌, Option, none, some, List, ◌==◌, if◌then◌else◌, arith, Bool-cases, lt→ltb, eq→==, ne→==, ok,
  length, set, read-ok, write-ok, get_or_past, length-set, get_or-set,
}
use prometheos.Base.Blocks.{aligned_disjoint}
use prometheos.Pmm.{Pmm, max_order, order_none, set_block_order, unlink_next, list_remove}
use prometheos.Pmm.Orders.{
  order_of, in_block, filled, length-filled, fill_order-ok, order_of-filled,
}
use prometheos.Pmm.FreeList.{IsList, address, IsList-frame}
use prometheos.Pmm.FreeList.Remove
use prometheos.Pmm.FreeList.Remove.{removed, new_head, IsList-remove, removed_outside}
use prometheos.Pmm.Valid.{is_block, list_at, IsBuddy}
use prometheos.Pmm.Push.{two-pow-pos, frame_to_block-ok}

module _ {p : Pmm} (b : IsBuddy p) (f o : ℕ) (small : o ≤ max_order)
    (is : is_block p.frame_order o f ≡ true) where
  pub block_order : (j : ℕ) → f ≤ j → j < f + 2 ^ o → order_of p.frame_order j ≡ o
  block_order j = b.uniform o f j small is

  -- A free block lies within the frames.
  pub block_fits : f + 2 ^ o ≤ p.total_frames
  block_fits = ground (
    arith,
    two-pow-pos o,
    b.orders_length,
    block_order (f + 2 ^ o - 1),
    get_or_past p.frame_order (f + 2 ^ o - 1) order_none,
  )

-- `free_lists[order] = next` where the removed node was the first.
abbrev lists_after : List (Option ℕ) → (prev next : Option ℕ) → ℕ → List (Option ℕ)
lists_after lists none next o = set lists o next
lists_after lists (some before) next o = lists

length-lists_after :
    (lists : List (Option ℕ)) (prev next : Option ℕ) (o : ℕ)
    → length (lists_after lists prev next o) ≡ length lists
length-lists_after lists none next o = length-set lists o next
length-lists_after lists (some before) next o = refl

list_at-lists_after :
    (lists : List (Option ℕ)) (prev next : Option ℕ) (o o' : ℕ)
    → o < length lists
    → list_at (lists_after lists prev next o) o'
      ≡ (if o == o' then new_head (list_at lists o) prev next else list_at lists o')
list_at-lists_after lists none next o o' h = get_or-set lists o o' next none h
list_at-lists_after lists (some before) next o o' h = elim (Bool-cases (o == o')) [
  | inl same ↦ let e : o ≡ o' = ground arith in rw (same, e)
  | inr other ↦ rw other
]

unlink_next-ok :
    (p : Pmm) (prev next : Option ℕ) (o : ℕ)
    → o < length p.free_lists
    → unlink_next p prev next o
      ≡ ok (record p {
        blocks = Remove.unlinked p.blocks prev next;
        free_lists = lists_after p.free_lists prev next o;
      })
unfolding unlink_next Remove.unlinked
unlink_next-ok p none next o h = rw (write-ok p.free_lists o next h)
unlink_next-ok p (some before) next o h = refl

module _ (p : Pmm) (b : IsBuddy p) (f o : ℕ) (small : o ≤ max_order)
    (is : is_block p.frame_order o f ≡ true) where
  open b use {lists_length, orders_length, addressable, uniform, covered, linked}

  abbrev prev : Option ℕ
  prev = (p.blocks (address p.hhdm_offset f)).prev

  abbrev next : Option ℕ
  next = (p.blocks (address p.hhdm_offset f)).next

  abbrev orders' : List ℕ
  orders' = filled (2 ^ o) p.frame_order f order_none

  -- The state after the removal.
  abbrev pub remove_state : Pmm
  remove_state = record p {
    blocks = removed p.blocks prev next;
    free_lists = lists_after p.free_lists prev next o;
    frame_order = orders';
  }

  order_after :
      (j : ℕ)
      → order_of orders' j ≡ (if in_block f (2 ^ o) j then order_none else order_of p.frame_order j)
  order_after j =
      order_of-filled (2 ^ o) p.frame_order f order_none j
        (omega (arith, block_fits b f o small is))

  pub list_remove-ok : list_remove p f o ≡ ok remove_state
  unfolding list_remove set_block_order removed
  list_remove-ok = rw (
    lt→ltb f p.total_frames (omega (arith, block_fits b f o small is, two-pow-pos o)),
    read-ok p.frame_order f order_none (omega (arith, block_fits b f o small is, two-pow-pos o)),
    eq→== (order_of p.frame_order f) o (ground arith),
    frame_to_block-ok b f (omega (arith, block_fits b f o small is, two-pow-pos o)),
    unlink_next-ok p prev next o (omega arith),
    fill_order-ok (2 ^ o) p.frame_order f order_none (omega (arith, block_fits b f o small is)),
  )

  block_after_same : (g : ℕ) → is_block orders' o g ≡ (not (g == f) && is_block p.frame_order o g)
  block_after_same g =
      ground (arith, two-pow-pos o, order_after g, aligned_disjoint (2 ^ o) f (ground arith) g g)

  block_after_other :
      (o' g : ℕ) → o' ≤ max_order → o' ≢ o → is_block orders' o' g ≡ is_block p.frame_order o' g
  block_after_other o' g small' ne = ground (arith, order_after g, block_order b f o small is g)

  -- Two free blocks that share a frame are the same.
  share :
      (o' g j : ℕ)
      → o' ≤ max_order
      → is_block p.frame_order o' g ≡ true
      → g ≤ j
      → j < g + 2 ^ o'
      → in_block f (2 ^ o) j ≡ true
      → (o' ≡ o) × (g ≡ f)
  share o' g j small' is' lo hi inside =
      let same : o' ≡ o =
        ground (arith, block_order b f o small is j, uniform o' g j small' is' lo hi) in
      let hi' : j < g + 2 ^ o = omega (arith, ap (λ (k : ℕ). 2 ^ k) same) in
      let even : g % 2 ^ o ≡ 0 = subst (λ k. g % 2 ^ k ≡ 0) same (ground arith) in
      (same, ground (arith, aligned_disjoint (2 ^ o) f (ground arith) g j even))

  -- A block that is still marked was there before, and its frames are spared.
  kept :
      (o' g j : ℕ)
      → o' ≤ max_order
      → is_block orders' o' g ≡ true
      → g ≤ j
      → j < g + 2 ^ o'
      → (is_block p.frame_order o' g ≡ true) × (in_block f (2 ^ o) j ≡ false)
  kept o' g j small' is' lo hi =
      let old : is_block p.frame_order o' g ≡ true = ground (arith, order_after g) in
      elim (Bool-cases (in_block f (2 ^ o) j)) [
        | inl inside ↦
            absurd
              (ground (arith, two-pow-pos o, order_after g, share o' g j small' old lo hi inside))
        | inr outside ↦ (old, outside)
      ]

  uniform_after :
      (o' f' g : ℕ)
      → o' ≤ max_order
      → is_block orders' o' f' ≡ true
      → f' ≤ g
      → g < f' + 2 ^ o'
      → order_of orders' g ≡ o'
  uniform_after o' f' g small' is' lo hi =
      let (old, outside) = kept o' f' g small' is' lo hi in
      ground (arith, order_after g, uniform o' f' g small' old lo hi)

  covered_after :
      (o' j : ℕ)
      → order_of orders' j ≡ o'
      → o' ≢ order_none
      → (o' ≤ max_order) × (is_block orders' o' (j - j % 2 ^ o') ≡ true)
  covered_after o' j e real =
      let was : order_of p.frame_order j ≡ o' = ground (arith, order_after j) in
      let (small', is') = covered o' j was real in
      let base = j - j % 2 ^ o' in
      let hi : j < base + 2 ^ o' = omega (arith, mod-lt j (two-pow-pos o')) in
      (
        small',
        elim (Bool-cases (in_block f (2 ^ o) base)) [
          | inl inside ↦
              let (same, at) =
                share o' base base small' is' (omega arith) (omega (arith, two-pow-pos o'))
                  inside in
              absurd (ground (arith, order_after j, ap (λ (k : ℕ). 2 ^ k) same))
          | inr outside ↦ ground (arith, order_after base)
        ],
      )

  list_after :
      (o' : ℕ)
      → list_at remove_state.free_lists o'
        ≡ (if o == o' then new_head (list_at p.free_lists o) prev next else list_at p.free_lists o')
  list_after o' = list_at-lists_after p.free_lists prev next o o' (omega arith)

  linked_self :
      IsList
        (is_block orders' o)
        p.hhdm_offset
        (list_at remove_state.free_lists o)
        remove_state.blocks
  linked_self =
      rw (list_after o, eq→== o o refl, fun_ext block_after_same)
        (IsList-remove (linked o small) f is)

  spared :
      (o' g : ℕ)
      → o' ≤ max_order
      → o' ≢ o
      → is_block p.frame_order o' g ≡ true
      → remove_state.blocks (address p.hhdm_offset g) ≡ p.blocks (address p.hhdm_offset g)
  spared o' g small' other is' =
      removed_outside p.blocks prev next (address p.hhdm_offset g)
        (λ e.
          let (k, is_k, n, q, _) = (linked o small).prev_back f (address p.hhdm_offset g) is e in
          ground arith)
        (λ e.
          let (k, is_k, n, q) = (linked o small).next_back f (address p.hhdm_offset g) is e in
          ground arith)

  linked_after :
      (o' : ℕ)
      → o' ≤ max_order
      → IsList
          (is_block orders' o')
          p.hhdm_offset
          (list_at remove_state.free_lists o')
          remove_state.blocks
  linked_after o' small' = elim (ℕ_discrete o' o) [
    | yes same ↦
        subst
          (λ k.
            IsList (is_block orders' k) p.hhdm_offset (list_at remove_state.free_lists k)
              remove_state.blocks)
          (sym same) linked_self
    | no other ↦
        rw
          (
            list_after o',
            ne→== o o' (λ e. other (sym e)),
            fun_ext (λ g. block_after_other o' g small' other),
          )
          (IsList-frame (linked o' small') remove_state.blocks
            λ g is'. spared o' g small' other is')
  ]

  pub IsBuddy-remove : IsBuddy remove_state
  IsBuddy-remove = record {
    lists_length = length-lists_after p.free_lists prev next o ∙ lists_length;
    orders_length = length-filled (2 ^ o) p.frame_order f order_none ∙ orders_length;
    addressable = addressable;
    uniform = uniform_after;
    covered = covered_after;
    linked = linked_after;
  }
