-- ===== src/Heap/Buckets.antt =====
-- What kernel/src/mm/heap.rs keeps of a bucket: its partial slabs, and its active one.
use prometheos.Base.{
  ℕ, ◌<◌, ◌≡◌, ◌≢◌, refl, ap, ◌∙◌, inl, inr, arith, Option, some, none, true, false, ◌||◌, List, [],
  ◌∷◌, ◌==◌, if◌then◌else◌, ok, is_some, Bool-cases, length, get_or, set, length-set, get_or-set,
  read-ok, write-ok,
}
use prometheos.Heap.Slabs.{Heap, put, is_target, dealloc_small}
use prometheos.Heap.Objects.{IsChain, IsChain-put, All}

abbrev pub Distinct : List ℕ → Type 0
Distinct [] = Unit
Distinct (s ∷ ps) = All (λ t. t ≢ s) ps × Distinct ps

-- The partial slabs are a list without repetition, each has a free object, and none is the active
-- slab.
pub record IsBucket (h : Heap) (bucket : ℕ) (ps : List ℕ) : Type 0 where
  pub active_known : bucket < length h.active
  pub partial_known : bucket < length h.partial
  pub listed : IsChain h.slab_next (get_or h.partial bucket none) ps
  pub stocked : All (λ s. is_some (h.slab_free s) ≡ true) ps
  pub distinct : Distinct ps
  pub idle : All (λ s. get_or h.active bucket none ≢ some s) ps

pub All-map : (P Q : ℕ → Type 0) → ((s : ℕ) → P s → Q s) → (ps : List ℕ) → All P ps → All Q ps
All-map P Q f [] all = tt
All-map P Q f (s ∷ ps) (here, rest) = (f s here, All-map P Q f ps rest)

-- A change of one slab's free objects does not empty the others, and one that leaves an object does
-- not empty any.
pub stocked-put :
    (f : ℕ → Option ℕ) (slab : ℕ) (v : Option ℕ) (ps : List ℕ)
    → All (λ s. s ≢ slab) ps
    → All (λ s. is_some (f s) ≡ true) ps
    → All (λ s. is_some (put f slab v s) ≡ true) ps
stocked-put f slab v [] out all = tt
stocked-put f slab v (s ∷ ps) (ne, out) (here, rest) =
    (ground (arith, here, ne), stocked-put f slab v ps out rest)

stocked-put-some :
    (f : ℕ → Option ℕ) (slab x : ℕ) (ps : List ℕ)
    → All (λ s. is_some (f s) ≡ true) ps
    → All (λ s. is_some (put f slab (some x) s) ≡ true) ps
stocked-put-some f slab x ps =
    All-map (λ s. is_some (f s) ≡ true) (λ s. is_some (put f slab (some x) s) ≡ true)
      (λ s here. elim (Bool-cases (s == slab)) [
        | inl same ↦ rw same refl
        | inr other ↦ rw other here
      ])
      ps

-- A slab without free objects is none of the partial ones.
full-apart :
    (f : ℕ → Option ℕ) (slab : ℕ) (ps : List ℕ)
    → is_some (f slab) ≡ false
    → All (λ s. is_some (f s) ≡ true) ps
    → All (λ s. s ≢ slab) ps
full-apart f slab ps full =
    All-map (λ s. is_some (f s) ≡ true) (λ s. s ≢ slab)
      (λ s here same. let e = ap (λ t. is_some (f t)) same in cc) ps

is_target-ne : (active : Option ℕ) (slab : ℕ) → is_target active slab ≡ false → active ≢ some slab
is_target-ne none slab h = λ e. cc
is_target-ne (some a) slab h = λ e. ground (arith, e, h)

module _ (h : Heap) (bucket slab ptr : ℕ) (ps : List ℕ) (b : IsBucket h bucket ps) where
  abbrev returned : Heap
  returned = record h {
    obj_next = put h.obj_next ptr (h.slab_free slab);
    slab_free = put h.slab_free slab (some ptr);
  }

  returned-IsBucket : IsBucket returned bucket ps
  returned-IsBucket = record {
    active_known = b.active_known;
    partial_known = b.partial_known;
    listed = b.listed;
    stocked = stocked-put-some h.slab_free slab ptr ps b.stocked;
    distinct = b.distinct;
    idle = b.idle;
  }

  abbrev relisted : Heap
  relisted = record returned {
    slab_next = put h.slab_next slab (get_or h.partial bucket none);
    partial = set h.partial bucket (some slab);
  }

  relisted-IsBucket :
      is_some (h.slab_free slab) ≡ false
      → get_or h.active bucket none ≢ some slab
      → IsBucket relisted bucket (slab ∷ ps)
  relisted-IsBucket full ne =
      let apart = full-apart h.slab_free slab ps full b.stocked in
      let same : bucket == bucket ≡ true = ground arith in
      let slot : get_or (set h.partial bucket (some slab)) bucket none ≡ some slab =
        get_or-set h.partial bucket bucket (some slab) none b.partial_known ∙ rw same refl in
      let here : put h.slab_next slab (get_or h.partial bucket none) slab
          ≡ get_or h.partial bucket none =
        ground arith in
      record {
        active_known = b.active_known;
        partial_known = omega (arith, b.partial_known, length-set h.partial bucket (some slab));
        listed = (
          slot,
          rw here (
              IsChain-put h.slab_next slab (get_or h.partial bucket none)
                (get_or h.partial bucket none) ps apart b.listed),
        );
        stocked = (ground arith, stocked-put-some h.slab_free slab ptr ps b.stocked);
        distinct = (apart, b.distinct);
        idle = (ne, b.idle);
      }

  -- In a well-formed bucket, `dealloc_small` of an object of any slab returns and leaves the bucket well
  -- formed. Its partial slabs are as before, unless the slab had no free object and is not the
  -- active one: then it becomes the first of them.
  pub dealloc_small-IsBucket :
      (h' : Heap) × (dealloc_small h bucket slab ptr ≡ ok h')
      × IsBucket h' bucket (
          if is_target (get_or h.active bucket none) slab || is_some (h.slab_free slab)
          then ps
          else slab ∷ ps)
  unfolding dealloc_small
  dealloc_small-IsBucket =
      let active = read-ok h.active bucket none b.active_known in
      let partial = read-ok h.partial bucket none b.partial_known in
      let written = write-ok h.partial bucket (some slab) b.partial_known in
      elim (Bool-cases (is_target (get_or h.active bucket none) slab)) [
        | inl is_active ↦ (returned, rw (active, is_active) refl, rw is_active returned-IsBucket)
        | inr other ↦ elim (Bool-cases (is_some (h.slab_free slab))) [
          | inl some_left ↦ (
            returned,
            rw (active, other, some_left) refl,
            rw (other, some_left) returned-IsBucket,
          )
          | inr full ↦ (
            relisted,
            rw (active, other, full, partial, written) refl,
            rw (other, full)
                (relisted-IsBucket full (is_target-ne (get_or h.active bucket none) slab other)),
          )
        ]
      ]
