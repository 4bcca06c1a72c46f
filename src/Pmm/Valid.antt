-- ===== src/Pmm/Valid.antt =====
-- The invariant of the allocator of kernel/src/mm/pmm.rs.
use prometheos.Base.{
  ℕ, ◌+◌, ◌-◌, ◌*◌, ◌%◌, ◌^◌, ◌≤◌, ◌<◌, ◌≡◌, ◌≢◌, Bool, true, ◌&&◌, Option, none, List, ◌==◌,
  u64_size, length, get_or,
}
use prometheos.Pmm.{Pmm, frame_size, max_order, num_orders, order_none}
use prometheos.Pmm.Orders.{order_of, free_count}
use prometheos.Pmm.FreeList.{IsList}

-- Whether a free block of an order starts at a frame.
abbrev pub is_block : List ℕ → ℕ → ℕ → Bool
is_block orders o frame = (order_of orders frame == o) && (frame % 2 ^ o == 0)

abbrev pub list_at : List (Option ℕ) → ℕ → Option ℕ
list_at lists o = get_or lists o none

-- Every free block is marked with its order on all of its frames, every mark belongs to such a
-- block, and the blocks of an order are the nodes of that order's list.
pub record IsBuddy (p : Pmm) : Type 0 where
  pub lists_length : length p.free_lists ≡ num_orders
  pub orders_length : length p.frame_order ≡ p.total_frames
  pub addressable : p.total_frames * frame_size + p.hhdm_offset ≤ u64_size
  pub uniform :
      (o f g : ℕ)
      → o ≤ max_order
      → is_block p.frame_order o f ≡ true
      → f ≤ g
      → g < f + 2 ^ o
      → order_of p.frame_order g ≡ o
  pub covered :
      (o f : ℕ)
      → order_of p.frame_order f ≡ o
      → o ≢ order_none
      → (o ≤ max_order) × (is_block p.frame_order o (f - f % 2 ^ o) ≡ true)
  pub linked :
      (o : ℕ)
      → o ≤ max_order
      → IsList (is_block p.frame_order o) p.hhdm_offset (list_at p.free_lists o) p.blocks

-- The counter agrees with the marks too.
pub record IsValid (p : Pmm) : Type 0 where
  pub buddy : IsBuddy p
  pub counted : p.free_frames ≡ free_count p.frame_order

-- The counter plays no part in the lists.
pub IsBuddy-counter : {p : Pmm} → IsBuddy p → (n : ℕ) → IsBuddy (record p { free_frames = n })
IsBuddy-counter b n = record {
  lists_length = b.lists_length;
  orders_length = b.orders_length;
  addressable = b.addressable;
  uniform = b.uniform;
  covered = b.covered;
  linked = b.linked;
}
