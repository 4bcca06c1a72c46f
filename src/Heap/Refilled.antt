-- ===== src/Heap/Refilled.antt =====
-- `alloc_small` of kernel/src/mm/heap.rs from a slab in a new frame.
use prometheos.Base.{
  ℕ, suc, ◌+◌, ◌-◌, ◌*◌, ◌<◌, ◌≡◌, ◌≢◌, refl, ap, ◌∙◌, subst, arith, Option, some, none, List, [],
  ok, lt→ltb, add64-ok, ne→==, length, get_or, set, length-set, read-ok, write-ok, u64_size,
}
use prometheos.Pmm.{Pmm, frame_size, alloc_pages}
use prometheos.Pmm.Alloc.{IsAlloc, AllocPost}
use prometheos.Pmm.Static.{alloc_pages_static}
use prometheos.Heap.Sizes.{num_buckets}
use prometheos.Heap.Slabs.{
  Heap, put, phys_to_virt, make_slab, refill, take_partial, active_object, alloc_slow, alloc_small,
  object_count,
}
use prometheos.Heap.Objects.{IsChain, object, objects_from}
use prometheos.Heap.Geometry.{layout_of}
use prometheos.Heap.Free.{HasFree, make_slab-HasFree, pop_object-ok, popped}
use prometheos.Heap.Buckets.{IsBucket}
use prometheos.Heap.Served.{IsRefilled, from_frame, exhausted, Answer}
use prometheos.Heap.Taken.{active_slot, alloc_small-slow}

module _ (h : Heap) (p : Pmm) (bucket : ℕ) where
  -- The state after the slots of the bucket are found empty.
  abbrev cleared_state : (q : Pmm) → Heap
  cleared_state q = record h { active = set h.active bucket none; pmm = some q }

  twice_put :
      (f : ℕ → Option ℕ) (base : ℕ) (v w : Option ℕ) (s : ℕ)
      → s ≢ base
      → put (put f base v) base w s ≡ f s
  twice_put f base v w s ne = rw (ne→== s base ne) refl

  -- The new slab is the active one, in a bucket without partial slabs, and one object is taken.
  abbrev made : (q : Pmm) → (base : ℕ) → Heap
  made q base = make_slab (cleared_state q) base bucket

  abbrev placed : (q : Pmm) → (base : ℕ) → Heap
  placed q base = record (made q base) { active = set (made q base).active bucket (some base) }

  abbrev refilled : (q : Pmm) → (base : ℕ) → Heap
  refilled q base = popped (placed q base) base (object base bucket 0)

  active-made : (q : Pmm) (base : ℕ) → (made q base).active ≡ set h.active bucket none
  unfolding make_slab
  active-made q base = refl

  popped-HasFree :
      (g : Heap) (slab x : ℕ) (xs : List ℕ)
      → IsChain g.obj_next (g.obj_next x) xs
      → HasFree (popped g slab x) slab xs
  popped-HasFree g slab x xs chain =
      let here : put g.slab_free slab (g.obj_next x) slab ≡ g.obj_next x = ground arith in
      rw here chain

  make_slab-objects :
      (q : Pmm) (base : ℕ)
      → bucket < num_buckets
      → ((made q base).slab_free base ≡ some (object base bucket 0))
        × IsChain
            (made q base).obj_next
            ((made q base).obj_next (object base bucket 0))
            (objects_from (object_count bucket - 1) base bucket 1)
  make_slab-objects q base known =
      let (_, _, some_objects) = layout_of bucket known in
      let same : object_count bucket ≡ suc (object_count bucket - 1) =
        omega (arith, some_objects) in
      subst
        (λ n.
          IsChain (made q base).obj_next ((made q base).slab_free base)
            (objects_from n base bucket 0))
        same (make_slab-HasFree (cleared_state q) base bucket).0

  module _ (b : IsBucket h bucket []) (dry : active_object h (get_or h.active bucket none) ≡ none)
      (known : bucket < num_buckets) (installed : h.pmm ≡ some p)
      (small : p.total_frames * frame_size + h.hhdm < u64_size) where
    refilled-IsBucket : (q : Pmm) (base : ℕ) → IsBucket (refilled q base) bucket []
    unfolding make_slab
    refilled-IsBucket q base = record {
      active_known = omega (
        arith,
        b.active_known,
        length-set h.active bucket none,
        length-set (set h.active bucket none) bucket (some base),
      );
      partial_known = b.partial_known;
      listed = b.listed;
      stocked = tt;
      distinct = tt;
      idle = tt;
    }

    refilled-IsRefilled :
        (q : Pmm) (phys : ℕ)
        → IsAlloc p q 0 phys
        → IsRefilled h (refilled q (phys + h.hhdm)) p bucket (phys + h.hhdm)
    unfolding make_slab
    refilled-IsRefilled q phys is =
        let base = phys + h.hhdm in
        record {
          allocator = q;
          pmm = refl;
          phys = phys;
          at = refl;
          frame = is;
          free =
              popped-HasFree (placed q base) base (object base bucket 0)
                (objects_from (object_count bucket - 1) base bucket 1)
                (make_slab-objects q base known).1;
          active = active_slot h p bucket b.active_known base;
          others = twice_put h.slab_free base _ _;
        }

    pub frame-Answer :
        (r : Option ℕ) (q : Pmm)
        → alloc_pages p 0 ≡ ok (r, q)
        → AllocPost p 0 r q
        → Answer h p bucket [] (alloc_small h bucket)
    unfolding alloc_slow take_partial refill alloc_pages_static phys_to_virt
    frame-Answer none q e (same, no_block) =
        let cleared = write-ok h.active bucket none b.active_known in
        let head = read-ok h.partial bucket none b.partial_known ∙ ap ok b.listed in
        (
          none,
          cleared_state q,
          alloc_small-slow h p bucket b.active_known dry ∙ rw (cleared, head, installed, e) refl,
          [],
          record {
            active_known = omega (arith, b.active_known, length-set h.active bucket none);
            partial_known = b.partial_known;
            listed = b.listed;
            stocked = tt;
            distinct = tt;
            idle = tt;
          },
          exhausted dry refl refl (ap some same) (λ o f le. no_block o f (omega arith) le),
        )
    frame-Answer (some phys) q e is =
        let cleared = write-ok h.active bucket none b.active_known in
        let head = read-ok h.partial bucket none b.partial_known ∙ ap ok b.listed in
        let base = phys + h.hhdm in
        let mapped : phys + h.hhdm < u64_size = omega (arith, is.at, is.fits, small) in
        let (_, _, some_objects) = layout_of bucket known in
        let counted = lt→ltb 0 (object_count bucket) some_objects in
        let length_made : length (made q base).active ≡ length h.active =
          ap length (active-made q base) ∙ length-set h.active bucket none in
        let written =
          write-ok (made q base).active bucket (some base)
            (omega (arith, length_made, b.active_known)) in
        let (first, _) = make_slab-objects q base known in
        (
          some (object base bucket 0),
          refilled q base,
          alloc_small-slow h p bucket b.active_known dry
              ∙ rw
                  (
                    cleared,
                    head,
                    installed,
                    e,
                    add64-ok phys h.hhdm mapped,
                    counted,
                    written,
                    pop_object-ok (placed q base) base (object base bucket 0) first,
                  )
                  refl,
          [],
          refilled-IsBucket q base,
          from_frame base dry refl refl (refilled-IsRefilled q phys is),
        )
