-- ===== src/Heap/Sizes.antt =====
-- The sizes of kernel/src/mm/heap.rs: which bucket or which order serves a layout.
use prometheos.Base.{ℕ, ◌+◌, ◌-◌, ◌/◌, ◌%◌, ◌^◌, max, Option, none, some, ltb, ◌==◌, if◌then◌else◌}
use prometheos.Base.Words.{trailing_zeros, bit_length_from}
use prometheos.Pmm.{max_order}

abbrev pub min_bucket_shift : ℕ
min_bucket_shift = 4

abbrev pub max_bucket_shift : ℕ
max_bucket_shift = 10

abbrev pub num_buckets : ℕ
num_buckets = 7

abbrev pub slab_frame_size : ℕ
slab_frame_size = 4096

-- `OBJ_SIZE[bucket]`
abbrev pub obj_size : ℕ → ℕ
obj_size bucket = 2 ^ (min_bucket_shift + bucket)

-- A `Layout` of the language's library: a size and an alignment.
pub record Layout : Type 0 where
  pub size : ℕ
  pub align : ℕ

-- `n.next_power_of_two()` and `n.div_ceil(d)`
unfoldable pub next_power_of_two : ℕ → ℕ
next_power_of_two n = 2 ^ bit_length_from 64 (n - 1)

abbrev pub div_ceil : ℕ → ℕ → ℕ
div_ceil n d = if n % d == 0 then n / d else n / d + 1

unfoldable pub bucket_for : Layout → Option ℕ
bucket_for layout =
    let need = max (max layout.size layout.align) (2 ^ min_bucket_shift) in
    if ltb (2 ^ max_bucket_shift) need
    then none
    else some (trailing_zeros (next_power_of_two need) - min_bucket_shift)

unfoldable pub order_for_large : Layout → Option ℕ
order_for_large layout =
    let need = max layout.size layout.align in
    let order = trailing_zeros (next_power_of_two (div_ceil need slab_frame_size)) in
    if ltb max_order order then none else some order
