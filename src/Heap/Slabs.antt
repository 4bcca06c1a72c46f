-- ===== src/Heap/Slabs.antt =====
-- The slabs of kernel/src/mm/heap.rs: their free objects, the buckets, and the frames they come from.
use prometheos.Base.{
  ℕ, zero, suc, ◌+◌, ◌-◌, ◌*◌, ◌/◌, bit_and, Bool, false, not, Option, none, some, List, ltb, ◌==◌,
  if◌then◌else◌, is_some, Panic, Result, ok, ◌>>=◌, ◌>>◌, check, add64, sub64, u64_size, read,
  write,
}
use prometheos.Pmm.{Pmm}
use prometheos.Pmm.Static.{alloc_pages_static, free_pages_static}
use prometheos.Heap.Sizes.{Layout, obj_size, slab_frame_size, bucket_for, order_for_large}

-- `active` and `partial` are the fields of `HeapInner`; `slab_next`, `slab_free` and `obj_next` are
-- the memory of slabs and of free objects, by address; `pmm` and `hhdm` are the statics.
pub record Heap : Type 0 where
  pub active : List (Option ℕ)
  pub partial : List (Option ℕ)
  pub slab_next : ℕ → Option ℕ
  pub slab_free : ℕ → Option ℕ
  pub obj_next : ℕ → Option ℕ
  pub pmm : Option Pmm
  pub hhdm : ℕ

abbrev pub put : (ℕ → Option ℕ) → ℕ → Option ℕ → ℕ → Option ℕ
put f a v b = if b == a then v else f b

abbrev pub header_size : ℕ
header_size = 16

-- `header_size.next_multiple_of(obj_size)`, and the number of objects after it
abbrev pub data_off : ℕ → ℕ
data_off bucket = (header_size + obj_size bucket - 1) / obj_size bucket * obj_size bucket

abbrev pub object_count : ℕ → ℕ
object_count bucket = (slab_frame_size - data_off bucket) / obj_size bucket

unfoldable pub phys_to_virt : Heap → ℕ → Result ℕ
phys_to_virt h phys = add64 phys h.hhdm

unfoldable pub virt_to_phys : Heap → ℕ → Result ℕ
virt_to_phys h virt = sub64 virt h.hhdm

-- The loop of `refill`, downwards: the first `left` objects of the slab at `base` are still to be
-- linked before `head`.
unfoldable pub link_objects :
    (left : ℕ) → (base bucket : ℕ) → (head : Option ℕ) → (ℕ → Option ℕ) → Option ℕ × (ℕ → Option ℕ)
link_objects zero base bucket head next = (head, next)
link_objects (suc i) base bucket head next =
    let obj = base + data_off bucket + i * obj_size bucket in
    link_objects i base bucket (some obj) (put next obj head)

unfoldable pub make_slab : Heap → (base bucket : ℕ) → Heap
unfolding link_objects
make_slab h base bucket =
    let (head, next) = link_objects (object_count bucket) base bucket none h.obj_next in
    record h {
      obj_next = next;
      slab_next = put h.slab_next base none;
      slab_free = put h.slab_free base head;
    }

unfoldable pub refill : Heap → (bucket : ℕ) → Result (Option ℕ × Heap)
unfolding phys_to_virt make_slab
refill h bucket = do
  (frame, pmm) ← alloc_pages_static h.pmm 0
  let h' = record h { pmm = pmm }
  elim frame [
    | none ↦ ok (none, h')
    | some phys ↦ do
      base ← phys_to_virt h' phys
      check (ltb 0 (object_count bucket)) Panic.debug_assertion
      ok (some base, make_slab h' base bucket)
  ]

unfoldable pub take_partial : Heap → (bucket : ℕ) → Result (Option ℕ × Heap)
take_partial h bucket = do
  first ← read h.partial bucket
  elim first [
    | none ↦ ok (none, h)
    | some slab ↦ do
      partial' ← write h.partial bucket (h.slab_next slab)
      ok (some slab, record h { partial = partial'; slab_next = put h.slab_next slab none })
  ]

-- The first object of a slab is handed out. `free` of a slab that `take_partial` or `refill` returns
-- is read with `unwrap_unchecked`, which wants it to be there: `unwrap_none` marks where it is not.
abbrev pub pop_first : Heap → (slab : ℕ) → Option ℕ → Result (ℕ × Heap)
pop_first h slab none = Result.panic Panic.unwrap_none
pop_first h slab (some obj) =
    ok (obj, record h { slab_free = put h.slab_free slab (h.obj_next obj) })

unfoldable pub pop_object : Heap → (slab : ℕ) → Result (ℕ × Heap)
pop_object h slab = pop_first h slab (h.slab_free slab)

-- `if let Some(active) = .. && let Some(obj) = (*active).free`
unfoldable pub active_object : Heap → (active : Option ℕ) → Option ℕ
active_object h none = none
active_object h (some slab) = if is_some (h.slab_free slab) then some slab else none

-- `alloc_small` without an object in the active slab.
unfoldable pub alloc_slow : Heap → (bucket : ℕ) → Result (Option ℕ × Heap)
unfolding take_partial refill pop_object
alloc_slow h bucket = do
  cleared ← write h.active bucket none
  (found, h1) ← take_partial (record h { active = cleared }) bucket
  (slab, h2) ← elim found [ some s ↦ ok (some s, h1) | none ↦ refill h1 bucket ]
  elim slab [
    | none ↦ ok (none, h2)
    | some s ↦ do
      active' ← write h2.active bucket (some s)
      (obj, h3) ← pop_object (record h2 { active = active' }) s
      ok (some obj, h3)
  ]

-- The object of the active slab, if it has one.
abbrev pub alloc_from_active : Heap → (bucket : ℕ) → Option ℕ → Result (Option ℕ × Heap)
alloc_from_active h bucket none = alloc_slow h bucket
alloc_from_active h bucket (some slab) = do (obj, h') ← pop_object h slab; ok (some obj, h')

-- The result is the object, or the null pointer.
unfoldable pub alloc_small : Heap → (bucket : ℕ) → Result (Option ℕ × Heap)
unfolding active_object pop_object alloc_slow
alloc_small h bucket = do
  active ← read h.active bucket
  alloc_from_active h bucket (active_object h active)

abbrev pub is_target : Option ℕ → ℕ → Bool
is_target none a = false
is_target (some b) a = b == a

unfoldable pub dealloc_small : Heap → (bucket slab ptr : ℕ) → Result Heap
dealloc_small h bucket slab ptr = do
  let was_full = not (is_some (h.slab_free slab))
  let h1 = record h {
    obj_next = put h.obj_next ptr (h.slab_free slab);
    slab_free = put h.slab_free slab (some ptr);
  }
  active ← read h.active bucket
  if is_target active slab then ok h1 else if not was_full then ok h1 else do
    first ← read h.partial bucket
    partial' ← write h.partial bucket (some slab)
    ok (record h1 { slab_next = put h.slab_next slab first; partial = partial' })

unfoldable pub alloc_large : Heap → Layout → Result (Option ℕ × Heap)
unfolding phys_to_virt
alloc_large h layout = elim (order_for_large layout) [
  | none ↦ ok (none, h)
  | some order ↦ do
    (frame, pmm) ← alloc_pages_static h.pmm order
    let h' = record h { pmm = pmm }
    elim frame [
      | none ↦ ok (none, h')
      | some phys ↦ do virt ← phys_to_virt h' phys; ok (some virt, h')
    ]
]

unfoldable pub dealloc_large : Heap → (ptr : ℕ) → Layout → Result Heap
unfolding virt_to_phys
dealloc_large h ptr layout = elim (order_for_large layout) [
  | none ↦ ok h
  | some order ↦ do
    phys ← virt_to_phys h ptr
    pmm ← free_pages_static h.pmm phys order
    ok (record h { pmm = pmm })
]

-- `ptr & SLAB_MASK`
abbrev pub slab_of : ℕ → ℕ
slab_of ptr = bit_and ptr (u64_size - slab_frame_size)

unfoldable pub alloc : Heap → Layout → Result (Option ℕ × Heap)
unfolding alloc_small alloc_large
alloc h layout = elim (bucket_for layout) [
  | none ↦ alloc_large h layout
  | some bucket ↦ alloc_small h bucket
]

-- `none` is the null pointer.
unfoldable pub dealloc : Heap → (ptr : Option ℕ) → Layout → Result Heap
unfolding dealloc_small dealloc_large
dealloc h none layout = ok h
dealloc h (some ptr) layout = elim (bucket_for layout) [
  | none ↦ dealloc_large h ptr layout
  | some bucket ↦ dealloc_small h bucket (slab_of ptr) ptr
]
