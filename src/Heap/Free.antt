-- ===== src/Heap/Free.antt =====
-- The free lists of kernel/src/mm/heap.rs: what a new slab, `alloc_small` and `dealloc_small` do to
-- them.
use prometheos.Base.{
  ℕ, ◌+◌, ◌<◌, ◌≡◌, ◌≢◌, refl, sym, ap, ◌∙◌, subst, arith, ◌&&◌, ◌||◌, some, none, not, List, ◌∷◌,
  ◌==◌, if◌then◌else◌, ok, read-ok, write-ok, length, get_or, set, is_some, inl, inr, Bool-cases,
}
use prometheos.Heap.Slabs.{
  Heap, put, pop_first, object_count, link_objects, make_slab, pop_object, active_object,
  alloc_small, dealloc_small, is_target,
}
use prometheos.Heap.Objects.{IsChain, IsChain-put, All, objects_from, link_objects-IsChain}

-- The free objects of a slab, in the order of its list.
abbrev pub HasFree : Heap → (slab : ℕ) → List ℕ → Type 0
HasFree h slab xs = IsChain h.obj_next (h.slab_free slab) xs

-- The slab that `refill` makes in a frame has all objects of its bucket free, from the first to the
-- last, and stands in no list.
pub make_slab-HasFree :
    (h : Heap) (base bucket : ℕ)
    → HasFree (make_slab h base bucket) base (objects_from (object_count bucket) base bucket 0)
      × ((make_slab h base bucket).slab_next base ≡ none)
unfolding make_slab
make_slab-HasFree h base bucket =
    let n = object_count bucket in
    let chain = link_objects-IsChain n 0 base bucket none h.obj_next refl in
    let head = (link_objects n base bucket none h.obj_next).0 in
    let here : put h.slab_free base head base ≡ head = ground arith in
    let same : n + 0 ≡ n = omega arith in
    (
      subst
          (λ t.
            IsChain (link_objects n base bucket none h.obj_next).1 t (objects_from n base bucket 0))
          (sym here)
          (subst
            (λ t.
              IsChain (link_objects n base bucket none h.obj_next).1
                (link_objects n base bucket none h.obj_next).0 (objects_from t base bucket 0))
            same chain),
      ground arith,
    )

pub active_object-some :
    (h : Heap) (slab x : ℕ) → h.slab_free slab ≡ some x → active_object h (some slab) ≡ some slab
unfolding active_object
active_object-some h slab x first = simp first refl

pub pop_object-ok :
    (h : Heap) (slab x : ℕ)
    → h.slab_free slab ≡ some x
    → pop_object h slab ≡ ok (x, record h { slab_free = put h.slab_free slab (h.obj_next x) })
unfolding pop_object
pop_object-ok h slab x first = ap (pop_first h slab) first

-- The state after the first object of a slab is handed out.
abbrev pub popped : Heap → (slab x : ℕ) → Heap
popped h slab x = record h { slab_free = put h.slab_free slab (h.obj_next x) }

module _ (h : Heap) (bucket slab : ℕ) (known : bucket < length h.active) where
  -- With a free object in the bucket's active slab, `alloc_small` hands out the first one: the rest of
  -- its list stays free, the lists of other slabs are as they were, and so are the buckets.
  pub alloc_small-active :
      (x : ℕ) (xs : List ℕ)
      → get_or h.active bucket none ≡ some slab
      → HasFree h slab (x ∷ xs)
      → (h' : Heap) × (alloc_small h bucket ≡ ok (some x, h'))
        × HasFree h' slab xs
        × (h'.active ≡ h.active)
        × (h'.partial ≡ h.partial)
        × ((s : ℕ) (ys : List ℕ) → s ≢ slab → HasFree h s ys → HasFree h' s ys)
  unfolding alloc_small
  alloc_small-active x xs active (first, rest) =
      let slot = read-ok h.active bucket none known ∙ ap ok active in
      let here : put h.slab_free slab (h.obj_next x) slab ≡ h.obj_next x = ground arith in
      (
        popped h slab x,
        rw (slot, active_object-some h slab x first, pop_object-ok h slab x first) refl,
        subst (λ t. IsChain h.obj_next t xs) (sym here) rest,
        refl,
        refl,
        λ s ys ne chain.
            let same : put h.slab_free slab (h.obj_next x) s ≡ h.slab_free s = ground arith in
            subst (λ t. IsChain h.obj_next t ys) (sym same) chain,
      )

  -- The state after an object is put back before the free ones of its slab.
  abbrev pushed : (ptr : ℕ) → Heap
  pushed ptr = record h {
    obj_next = put h.obj_next ptr (h.slab_free slab);
    slab_free = put h.slab_free slab (some ptr);
  }

  pushed-HasFree :
      (ptr : ℕ) (xs : List ℕ)
      → HasFree h slab xs
      → All (λ b. b ≢ ptr) xs
      → HasFree (pushed ptr) slab (ptr ∷ xs)
  pushed-HasFree ptr xs chain out =
      let here : put h.obj_next ptr (h.slab_free slab) ptr ≡ h.slab_free slab = ground arith in
      (
        ground arith,
        subst (λ t. IsChain (put h.obj_next ptr (h.slab_free slab)) t xs) (sym here)
            (IsChain-put h.obj_next ptr (h.slab_free slab) (h.slab_free slab) xs out chain),
      )

  -- What `dealloc_small` leaves: the object is the first free one of its slab. A slab that had none
  -- and is not the active one becomes the first partial one, and otherwise the partial slabs are as
  -- they were.
  abbrev pub IsReturned : (ptr : ℕ) → List ℕ → Heap → Type 0
  IsReturned ptr xs h' =
      HasFree h' slab (ptr ∷ xs)
      × (h'.active ≡ h.active)
      × (h'.partial ≡ (
          if is_target (get_or h.active bucket none) slab || is_some (h.slab_free slab)
          then h.partial
          else set h.partial bucket (some slab)))
      × ((s : ℕ)
          → h'.slab_next s ≡ (
              if s == slab
                && not (is_target (get_or h.active bucket none) slab || is_some (h.slab_free slab))
              then get_or h.partial bucket none
              else h.slab_next s))

  -- `dealloc_small` of an object that is not free returns (`IsReturned`): the object is the first free
  -- one of its slab, before those that were free. A slab that had none and is not the active one
  -- becomes the first partial one, and otherwise the partial slabs are as they were.
  pub dealloc_small_lem :
      bucket < length h.partial
      → (ptr : ℕ) (xs : List ℕ) → HasFree h slab xs
      → All (λ b. b ≢ ptr) xs
      → (h' : Heap) × (dealloc_small h bucket slab ptr ≡ ok h') × IsReturned ptr xs h'
  unfolding dealloc_small
  dealloc_small_lem known' ptr xs chain out =
      let active = read-ok h.active bucket none known in
      let partial = read-ok h.partial bucket none known' in
      let written = write-ok h.partial bucket (some slab) known' in
      let free = pushed-HasFree ptr xs chain out in
      elim (Bool-cases (is_target (get_or h.active bucket none) slab)) [
        | inl is_active ↦ (
          pushed ptr,
          rw (active, is_active) refl,
          (free, refl, rw is_active refl, λ s. ground arith),
        )
        | inr other ↦ elim (Bool-cases (is_some (h.slab_free slab))) [
          | inl some_left ↦ (
            pushed ptr,
            rw (active, other, some_left) refl,
            (free, refl, rw (other, some_left) refl, λ s. ground arith),
          )
          | inr full ↦ (
            record (pushed ptr) {
              slab_next = put h.slab_next slab (get_or h.partial bucket none);
              partial = set h.partial bucket (some slab);
            },
            rw (active, other, full, partial, written) refl,
            (free, refl, rw (other, full) refl, λ s. ground arith),
          )
        ]
      ]
