-- ===== src/Pmm/Orders.antt =====
-- The loops over `frame_order` in kernel/src/mm/pmm.rs: what they write, and how many frames are
-- marked free afterwards.
use prometheos.Base.{
  ℕ, zero, suc, ◌+◌, ◌*◌, ◌≤◌, ◌<◌, ◌≡◌, refl, ap, ◌∙◌, ◌≢◌, Bool, ◌&&◌, List, [], ◌∷◌, ltb, leb,
  ◌==◌, if◌then◌else◌, arith, Panic, ok, panic, length, replicate, get_or, set, read-ok, write-ok,
  length-set, get_or-set,
}
use prometheos.Pmm.{order_none, fill_order, all_unused}

-- The entry of a frame; beyond the slice, as if it were in no free block.
abbrev pub order_of : List ℕ → ℕ → ℕ
order_of orders frame = get_or orders frame order_none

abbrev pub in_block : (frame pages at : ℕ) → Bool
in_block frame pages at = leb frame at && ltb at (frame + pages)

-- What the loop of `set_block_order` writes.
pub filled : (pages : ℕ) → List ℕ → (at value : ℕ) → List ℕ
filled zero orders at value = orders
filled (suc pages) orders at value = filled pages (set orders at value) (at + 1) value

pub length-filled :
    (n : ℕ) (orders : List ℕ) (at value : ℕ) → length (filled n orders at value) ≡ length orders
unfolding filled
length-filled zero orders at value = refl
length-filled (suc n) orders at value =
    length-filled n (set orders at value) (at + 1) value ∙ length-set orders at value

pub fill_order-ok :
    (n : ℕ) (orders : List ℕ) (at value : ℕ)
    → at + n ≤ length orders
    → fill_order n orders at value ≡ ok (filled n orders at value)
unfolding fill_order filled
fill_order-ok zero orders at value h = refl
fill_order-ok (suc n) orders at value h = rw (write-ok orders at value (omega arith)) (
    fill_order-ok n (set orders at value) (at + 1) value
      (omega (arith, length-set orders at value)))

pub order_of-filled :
    (n : ℕ) (orders : List ℕ) (at value j : ℕ)
    → at + n ≤ length orders
    → order_of (filled n orders at value) j ≡ (if in_block at n j then value else order_of orders j)
unfolding filled
order_of-filled zero orders at value j h = ground arith
order_of-filled (suc n) orders at value j h = ground (
  arith,
  length-set orders at value,
  get_or-set orders at j value order_none,
  order_of-filled n (set orders at value) (at + 1) value j,
)

-- The frames that are marked as parts of free blocks.
abbrev marked : ℕ → ℕ
marked order = if order == order_none then 0 else 1

pub free_count : List ℕ → ℕ
free_count [] = 0
free_count (x ∷ xs) = marked x + free_count xs

pub free_count-le : (xs : List ℕ) → free_count xs ≤ length xs
unfolding free_count
free_count-le [] = omega arith
free_count-le (x ∷ xs) = ground (arith, free_count-le xs)

pub free_count-replicate : (n : ℕ) → free_count (replicate n order_none) ≡ 0
unfolding free_count
free_count-replicate zero = refl
free_count-replicate (suc n) = omega (arith, free_count-replicate n)

free_count-set :
    (orders : List ℕ) (at value : ℕ)
    → at < length orders
    → free_count (set orders at value) + marked (order_of orders at)
      ≡ free_count orders + marked value
unfolding free_count
free_count-set [] at value h = absurd (omega arith)
free_count-set (x ∷ xs) zero value h = omega arith
free_count-set (x ∷ xs) (suc at) value h = omega (arith, free_count-set xs at value (omega arith))

-- Filling a block whose entries were all `old`.
free_count-filled :
    (n : ℕ) (orders : List ℕ) (at old value : ℕ)
    → at + n ≤ length orders
    → ((j : ℕ) → at ≤ j → j < at + n → order_of orders j ≡ old)
    → free_count (filled n orders at value) + n * marked old ≡ free_count orders + n * marked value
unfolding filled
free_count-filled zero orders at old value h was = omega arith
free_count-filled (suc n) orders at old value h was = omega (
  arith,
  free_count-set orders at value (omega arith),
  ap marked (was at (omega arith) (omega arith)),
  free_count-filled n (set orders at value) (at + 1) old value
      (omega (arith, length-set orders at value))
      λ j lo hi. ground (arith, get_or-set orders at j value order_none, was j),
)

module _ (n : ℕ) (orders : List ℕ) (at order : ℕ) (fits : at + n ≤ length orders)
    (real : order ≢ order_none) where
  pub free_count-mark :
      ((j : ℕ) → at ≤ j → j < at + n → order_of orders j ≡ order_none)
      → free_count (filled n orders at order) ≡ free_count orders + n
  free_count-mark was = ground (arith, free_count-filled n orders at order_none order fits was)

  pub free_count-unmark :
      ((j : ℕ) → at ≤ j → j < at + n → order_of orders j ≡ order)
      → free_count (filled n orders at order_none) + n ≡ free_count orders
  free_count-unmark was = ground (arith, free_count-filled n orders at order order_none fits was)

pub all_unused-ok :
    (n : ℕ) (orders : List ℕ) (at : ℕ)
    → at + n ≤ length orders
    → ((j : ℕ) → at ≤ j → j < at + n → order_of orders j ≡ order_none)
    → all_unused n orders at ≡ ok tt
unfolding all_unused
all_unused-ok zero orders at h unused = refl
all_unused-ok (suc n) orders at h unused =
    rw (read-ok orders at order_none (omega arith), unused at (omega arith) (omega arith))
      (all_unused-ok n orders (at + 1) (omega arith)
        (λ j lo hi. unused j (omega arith) (omega arith)))

-- A block with a frame in use by a free block is refused.
pub all_unused-overlap :
    (n : ℕ) (orders : List ℕ) (at j : ℕ)
    → at + n ≤ length orders
    → at ≤ j
    → j < at + n
    → order_of orders j ≢ order_none
    → all_unused n orders at ≡ panic Panic.overlap
unfolding all_unused
all_unused-overlap zero orders at j h lo hi used = absurd (omega arith)
all_unused-overlap (suc n) orders at j h lo hi used =
    rw (read-ok orders at order_none (omega arith))
      (ground (arith, all_unused-overlap n orders (at + 1) j))
