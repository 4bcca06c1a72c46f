-- ===== src/Heap/Small.antt =====
-- `alloc_small` of kernel/src/mm/heap.rs in a well-formed bucket.
use prometheos.Base.{
  ℕ, ◌+◌, ◌*◌, ◌<◌, ◌≡◌, inl, inr, arith, some, none, List, [], ◌∷◌, Option-cases, get_or, u64_size,
}
use prometheos.Pmm.{Pmm, frame_size}
use prometheos.Pmm.Valid.{IsValid}
use prometheos.Pmm.Alloc.{alloc_pages_lem}
use prometheos.Heap.Sizes.{num_buckets}
use prometheos.Heap.Slabs.{Heap, active_object, alloc_small}
use prometheos.Heap.Buckets.{IsBucket}
use prometheos.Heap.Served.{Answer}
use prometheos.Heap.Taken.{active_object-found, active-Answer, partial-Answer}
use prometheos.Heap.Refilled.{frame-Answer}

module _ (h : Heap) (p : Pmm) (bucket : ℕ) where
  -- In a well-formed bucket, with a valid frame allocator whose frames are mapped below 2^64,
  -- `alloc_small` returns, and leaves the bucket well formed (`Served`). It takes the first free object
  -- of the active slab, with the partial slabs as they were; or, if that has none, of the first
  -- partial slab, which becomes the active one; or, if there is none either, of a slab in a new
  -- frame, which becomes the active one and has all other objects free. It returns the null pointer only
  -- if the frame allocator has no free block either.
  pub alloc_small_lem :
      (ps : List ℕ)
      → IsBucket h bucket ps
      → bucket < num_buckets
      → h.pmm ≡ some p
      → IsValid p
      → p.total_frames * frame_size + h.hhdm < u64_size
      → Answer h p bucket ps (alloc_small h bucket)
  alloc_small_lem ps b known installed valid small =
      elim (Option-cases (active_object h (get_or h.active bucket none))) [
        | inr (slab, found) ↦
            let (x, active, first) =
              active_object-found h (get_or h.active bucket none) slab found in
            active-Answer h p bucket ps b slab x active first
        | inl dry ↦ dry_answer ps b dry
      ]
    where
      dry_answer :
          (ps : List ℕ)
          → IsBucket h bucket ps
          → active_object h (get_or h.active bucket none) ≡ none
          → Answer h p bucket ps (alloc_small h bucket)
      dry_answer [] b dry =
          let ((r, q), e, post) = alloc_pages_lem p 0 valid (omega arith) in
          frame-Answer h p bucket b dry known installed small r q e post
      dry_answer (slab ∷ ps) b dry = partial-Answer h p bucket slab ps b dry
