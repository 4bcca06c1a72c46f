-- ===== src/Pmm/Init.antt =====
-- `Pmm::new` of kernel/src/mm/pmm.rs: a valid state with no free frame.
use prometheos.Base.{
  ℕ, ◌+◌, ◌*◌, ◌≤◌, ◌≡◌, refl, sym, false, ok, Option, none, List, length, replicate, arith,
  u64_size, eq→==, length-replicate, get_or-replicate,
}
use prometheos.Pmm.{Pmm, FreeBlock, new, frame_size, order_none, num_orders}
use prometheos.Pmm.Orders.{free_count-replicate}
use prometheos.Pmm.FreeList.{IsList}
use prometheos.Pmm.Valid.{is_block, IsValid}
use prometheos.Pmm.Step.{is_free}

-- The state that `new` returns.
abbrev pub fresh : ℕ → ℕ → (ℕ → FreeBlock) → Pmm
fresh frames hhdm_offset memory = record {
  free_lists = replicate num_orders none;
  frame_order = replicate frames order_none;
  total_frames = frames;
  free_frames = 0;
  hhdm_offset = hhdm_offset;
  blocks = memory;
}

module _ (frames hhdm_offset : ℕ) (memory : ℕ → FreeBlock)
    (fits : frames * frame_size + hhdm_offset ≤ u64_size) where
  unmarked : (o f : ℕ) → o ≤ 11 → is_block (replicate frames order_none) o f ≡ false
  unmarked o f small = ground (arith, get_or-replicate frames f order_none)

  empty-IsList :
      (o : ℕ) → o ≤ 11 → IsList (is_block (replicate frames order_none) o) hhdm_offset none memory
  empty-IsList o small = record {
    rank = λ f. f;
    first = λ a h. cc;
    is_first = λ f m h. cc (unmarked o f small);
    next_back = λ f a m h. cc (unmarked o f small);
    prev_back = λ f a m h. cc (unmarked o f small);
  }

  fresh-IsValid : IsValid (fresh frames hhdm_offset memory)
  fresh-IsValid = record {
    buddy = record {
      lists_length = refl;
      orders_length = length-replicate frames order_none;
      addressable = fits;
      uniform = λ o f g small is. cc (unmarked o f small);
      covered = λ o f e real. absurd (ground (arith, get_or-replicate frames f order_none));
      linked =
          λ o small. rw (get_or-replicate {A = Option ℕ} num_orders o none) (empty-IsList o small);
    };
    counted = sym (free_count-replicate frames);
  }

  -- Given one entry of metadata for each frame and physical addresses that can be mapped below
  -- 2^64, `new` returns a valid state with no free frame, whatever the metadata held.
  pub new-IsValid :
      (orders : List ℕ)
      → length orders ≡ frames
      → (p : Pmm) × (new orders frames hhdm_offset memory ≡ ok p)
        × IsValid p
        × ((j : ℕ) → is_free p j ≡ false)
        × (p.free_frames ≡ 0)
  unfolding new
  new-IsValid orders e = (
    fresh frames hhdm_offset memory,
    rw (e, eq→== frames frames refl),
    fresh-IsValid,
    λ j. ground (arith, get_or-replicate frames j order_none),
    refl,
  )

pub new_total :
    (orders : List ℕ) (frames hhdm_offset : ℕ) (memory : ℕ → FreeBlock) (p : Pmm)
    → new orders frames hhdm_offset memory ≡ ok p
    → p.total_frames ≡ frames
unfolding new
new_total orders frames hhdm_offset memory p e = ground arith
