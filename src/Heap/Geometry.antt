-- ===== src/Heap/Geometry.antt =====
-- Where the objects of a slab of kernel/src/mm/heap.rs lie.
use prometheos.Base.{ℕ, zero, suc, ◌+◌, ◌*◌, ◌%◌, ◌<◌, ◌≤◌, ◌≡◌, ◌∙◌, arith, u64_size}
use prometheos.Base.Bits.{bit_and-high}
use prometheos.Heap.Sizes.{obj_size, num_buckets}
use prometheos.Heap.Slabs.{data_off, object_count, slab_of, header_size}
use prometheos.Heap.Objects.{object, obj_size_pos}

-- A slab has room for its header and at least one object.
pub layout_of :
    (bucket : ℕ)
    → bucket < num_buckets
    → (header_size ≤ data_off bucket)
      × (data_off bucket + object_count bucket * obj_size bucket ≤ 4096)
      × (0 < object_count bucket)
layout_of zero h = (omega arith, omega arith, omega arith)
layout_of (suc zero) h = (omega arith, omega arith, omega arith)
layout_of (suc (suc zero)) h = (omega arith, omega arith, omega arith)
layout_of (suc (suc (suc zero))) h = (omega arith, omega arith, omega arith)
layout_of (suc (suc (suc (suc zero)))) h = (omega arith, omega arith, omega arith)
layout_of (suc (suc (suc (suc (suc zero))))) h = (omega arith, omega arith, omega arith)
layout_of (suc (suc (suc (suc (suc (suc zero)))))) h = (omega arith, omega arith, omega arith)
layout_of (suc (suc (suc (suc (suc (suc (suc b))))))) h = absurd (omega arith)

module _ (base bucket i : ℕ) (known : bucket < num_buckets)
    (counted : i < object_count bucket) where
  -- Every object of a slab of a known bucket lies behind the slab's header and within its frame.
  pub object-fits :
      (base + header_size ≤ object base bucket i)
      × (object base bucket i + obj_size bucket ≤ base + 4096)
  object-fits =
      let (header, room, _) = layout_of bucket known in
      let step : i * obj_size bucket + obj_size bucket ≤ object_count bucket * obj_size bucket =
        grind arith in
      (omega (arith, header), omega (arith, room, step))

  -- From an object of a slab that starts at a frame, `dealloc` finds the slab again.
  pub slab_of-object :
      base % 4096 ≡ 0 → base + 4096 ≤ u64_size → slab_of (object base bucket i) ≡ base
  slab_of-object aligned fits =
      let (low, high) = object-fits in
      let pos = obj_size_pos bucket in
      bit_and-high 12 64 (object base bucket i) (omega arith) (omega (arith, high, pos))
      ∙ omega (arith, aligned, low, high, pos)

-- Objects of a slab do not overlap.
pub object-apart :
    (base bucket i j : ℕ) → i < j → object base bucket i + obj_size bucket ≤ object base bucket j
object-apart base bucket i j h =
    let step : i * obj_size bucket + obj_size bucket ≤ j * obj_size bucket = grind arith in
    omega arith
