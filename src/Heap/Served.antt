-- ===== src/Heap/Served.antt =====
-- What `alloc_small` of kernel/src/mm/heap.rs hands out, and from where.
use prometheos.Base.{
  ℕ, ◌+◌, ◌-◌, ◌≤◌, ◌≡◌, ◌≢◌, Option, some, none, false, List, [], ◌∷◌, ok, get_or, Result,
}
use prometheos.Pmm.{Pmm, max_order}
use prometheos.Pmm.Valid.{is_block}
use prometheos.Pmm.Alloc.{IsAlloc}
use prometheos.Heap.Slabs.{Heap, put, active_object, object_count}
use prometheos.Heap.Objects.{object, objects_from}
use prometheos.Heap.Free.{HasFree}
use prometheos.Heap.Buckets.{IsBucket}

-- The first free object of a slab is taken, and the slab is the active one.
pub record IsTaken (h h' : Heap) (bucket slab x : ℕ) : Type 0 where
  pub first : h.slab_free slab ≡ some x
  pub free : h'.slab_free ≡ put h.slab_free slab (h.obj_next x)
  pub links : h'.obj_next ≡ h.obj_next
  pub active : get_or h'.active bucket none ≡ some slab
  pub pmm : h'.pmm ≡ h.pmm

-- A slab in a new frame is the active one, all of its objects but the first are free, and the other
-- slabs are as they were.
pub record IsRefilled (h h' : Heap) (p : Pmm) (bucket base : ℕ) : Type 0 where
  pub allocator : Pmm
  pub pmm : h'.pmm ≡ some allocator
  pub phys : ℕ
  pub at : base ≡ phys + h.hhdm
  pub frame : IsAlloc p allocator 0 phys
  pub free : HasFree h' base (objects_from (object_count bucket - 1) base bucket 1)
  pub active : get_or h'.active bucket none ≡ some base
  pub others : (s : ℕ) → s ≢ base → h'.slab_free s ≡ h.slab_free s

-- The result of `alloc_small`, where `ps` are the partial slabs before and `ps'` the ones after.
pub data Served (h h' : Heap) (p : Pmm) (bucket : ℕ) (ps ps' : List ℕ) : Option ℕ → Type 0 where
  from_active :
      (slab x : ℕ)
      → get_or h.active bucket none ≡ some slab
      → ps' ≡ ps
      → IsTaken h h' bucket slab x
      → Served h h' p bucket ps ps' (some x)
  from_partial :
      (slab x : ℕ)
      → active_object h (get_or h.active bucket none) ≡ none
      → ps ≡ slab ∷ ps'
      → IsTaken h h' bucket slab x
      → Served h h' p bucket ps ps' (some x)
  from_frame :
      (base : ℕ)
      → active_object h (get_or h.active bucket none) ≡ none
      → ps ≡ []
      → ps' ≡ []
      → IsRefilled h h' p bucket base
      → Served h h' p bucket ps ps' (some (object base bucket 0))
  exhausted :
      active_object h (get_or h.active bucket none) ≡ none
      → ps ≡ []
      → ps' ≡ []
      → h'.pmm ≡ some p
      → ((o f : ℕ) → o ≤ max_order → is_block p.frame_order o f ≡ false)
      → Served h h' p bucket ps ps' none

abbrev pub Answer :
    Heap → (p : Pmm) → (bucket : ℕ) → (ps : List ℕ) → Result (Option ℕ × Heap) → Type 0
Answer h p bucket ps answer =
    (r : Option ℕ) × (h' : Heap) × (answer ≡ ok (r, h'))
    × (ps' : List ℕ) × IsBucket h' bucket ps'
    × Served h h' p bucket ps ps' r
