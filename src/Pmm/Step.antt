-- ===== src/Pmm/Step.antt =====
-- One push or one removal of kernel/src/mm/pmm.rs as a step on the marks: what the loops of
-- `alloc_pages` and `free_pages` are proved from.
use prometheos.Base.{
  ℕ, ◌+◌, ◌^◌, ◌≤◌, ◌≡◌, refl, Bool, true, not, ◌==◌, if◌then◌else◌, arith, ok, length,
}
use prometheos.Pmm.{Pmm, max_order, order_none, list_push, list_remove}
use prometheos.Pmm.Orders.{
  order_of, in_block, free_count, free_count-mark, free_count-unmark, order_of-filled,
}
use prometheos.Pmm.Valid.{is_block, IsBuddy}
use prometheos.Pmm.Push.{IsUnused, push_state, list_push-ok, IsBuddy-push}
use prometheos.Pmm.Remove.{block_fits, block_order, remove_state, list_remove-ok, IsBuddy-remove}

-- A frame that belongs to a free block.
abbrev pub is_free : Pmm → ℕ → Bool
is_free p j = not (order_of p.frame_order j == order_none)

-- `n` frames from `f` on are marked with `value`, and nothing else of interest changes.
pub record Marks (p p' : Pmm) (f n value : ℕ) : Type 0 where
  pub order :
      (j : ℕ)
      → order_of p'.frame_order j ≡ (if in_block f n j then value else order_of p.frame_order j)
  pub total : p'.total_frames ≡ p.total_frames
  pub free : p'.free_frames ≡ p.free_frames
  pub base : p'.hhdm_offset ≡ p.hhdm_offset

pub push_step :
    (p : Pmm) (f o : ℕ)
    → IsBuddy p
    → IsUnused p f o
    → (q : Pmm) × (list_push p f o ≡ ok q)
      × IsBuddy q
      × Marks p q f (2 ^ o) o
      × (free_count q.frame_order ≡ free_count p.frame_order + 2 ^ o)
push_step p f o b h = (
  push_state p b f o h,
  list_push-ok p b f o h,
  IsBuddy-push p b f o h,
  record {
    order = λ j. order_of-filled (2 ^ o) p.frame_order f o j fits;
    total = refl;
    free = refl;
    base = refl;
  },
  free_count-mark (2 ^ o) p.frame_order f o fits (omega (arith, h.order_in)) h.unused,
)
  where
    fits : f + 2 ^ o ≤ length p.frame_order
    fits = omega (arith, h.fits, b.orders_length)

pub remove_step :
    (p : Pmm) (f o : ℕ)
    → IsBuddy p
    → o ≤ max_order
    → is_block p.frame_order o f ≡ true
    → (q : Pmm) × (list_remove p f o ≡ ok q)
      × IsBuddy q
      × Marks p q f (2 ^ o) order_none
      × (free_count q.frame_order + 2 ^ o ≡ free_count p.frame_order)
remove_step p f o b small is = (
  remove_state p b f o small is,
  list_remove-ok p b f o small is,
  IsBuddy-remove p b f o small is,
  record {
    order = λ j. order_of-filled (2 ^ o) p.frame_order f order_none j fits;
    total = refl;
    free = refl;
    base = refl;
  },
  free_count-unmark (2 ^ o) p.frame_order f o fits (omega arith) (block_order b f o small is),
)
  where
    fits : f + 2 ^ o ≤ length p.frame_order
    fits = omega (arith, block_fits b f o small is, b.orders_length)
