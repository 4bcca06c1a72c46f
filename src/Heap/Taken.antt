-- ===== src/Heap/Taken.antt =====
-- `alloc_small` of kernel/src/mm/heap.rs from a slab that the bucket has.
use prometheos.Base.{
  ℕ, ◌<◌, ◌≡◌, ◌≢◌, refl, sym, ap, ◌∙◌, inl, inr, arith, Option, some, none, true, List, ◌∷◌, ◌==◌,
  ok, Option-cases, length, get_or, set, length-set, get_or-set, read-ok, write-ok,
}
use prometheos.Pmm.{Pmm}
use prometheos.Heap.Slabs.{Heap, put, take_partial, active_object, alloc_slow, alloc_small}
use prometheos.Heap.Objects.{IsChain-put}
use prometheos.Heap.Free.{active_object-some, pop_object-ok, popped}
use prometheos.Heap.Buckets.{IsBucket, All-map, stocked-put}
use prometheos.Heap.Served.{from_active, from_partial, Answer}

pub active_object-found :
    (h : Heap) (active : Option ℕ) (slab : ℕ)
    → active_object h active ≡ some slab
    → (x : ℕ) × (active ≡ some slab) × (h.slab_free slab ≡ some x)
unfolding active_object
active_object-found h none slab found = absurd cc
active_object-found h (some a) slab found = elim (Option-cases (h.slab_free a)) [
  | inl empty ↦ absurd (ground (arith, empty, found))
  | inr (x, first) ↦
      let same : a ≡ slab = ground (arith, first, found) in
      (x, ap some same, ap h.slab_free (sym same) ∙ first)
]

module _ (h : Heap) (p : Pmm) (bucket : ℕ) where
  pub active-Answer :
      (ps : List ℕ)
      → IsBucket h bucket ps
      → (slab x : ℕ) → get_or h.active bucket none ≡ some slab
      → h.slab_free slab ≡ some x
      → Answer h p bucket ps (alloc_small h bucket)
  unfolding alloc_small
  active-Answer ps b slab x active first =
      let slot = read-ok h.active bucket none b.active_known ∙ ap ok active in
      (
        some x,
        popped h slab x,
        rw (slot, active_object-some h slab x first, pop_object-ok h slab x first) refl,
        ps,
        record {
          active_known = b.active_known;
          partial_known = b.partial_known;
          listed = b.listed;
          stocked =
              stocked-put h.slab_free slab (h.obj_next x) ps
                (All-map (λ s. get_or h.active bucket none ≢ some s) (λ s. s ≢ slab)
                  (λ s ne e. ne (active ∙ ap some (sym e))) ps b.idle)
                b.stocked;
          distinct = b.distinct;
          idle = b.idle;
        },
        from_active slab x active refl
            (record { first = first; free = refl; links = refl; active = active; pmm = refl }),
      )

  -- The bucket's slot of the active slabs, when it is written twice.
  pub active_slot :
      bucket < length h.active
      → (slab : ℕ)
      → get_or (set (set h.active bucket none) bucket (some slab)) bucket none ≡ some slab
  active_slot known slab =
      let same : bucket == bucket ≡ true = ground arith in
      get_or-set (set h.active bucket none) bucket bucket (some slab) none
        (omega (arith, length-set h.active bucket none))
      ∙ rw same refl

  abbrev taken : (slab x : ℕ) → Heap
  taken slab x = record h {
    active = set (set h.active bucket none) bucket (some slab);
    partial = set h.partial bucket (h.slab_next slab);
    slab_next = put h.slab_next slab none;
    slab_free = put h.slab_free slab (h.obj_next x);
  }

  taken-IsBucket :
      (slab x : ℕ) (ps : List ℕ) → IsBucket h bucket (slab ∷ ps) → IsBucket (taken slab x) bucket ps
  taken-IsBucket slab x ps b =
      let (apart, distinct) = b.distinct in
      let (head, rest) = b.listed in
      let same : bucket == bucket ≡ true = ground arith in
      let slot : get_or (set h.partial bucket (h.slab_next slab)) bucket none ≡ h.slab_next slab =
        get_or-set h.partial bucket bucket (h.slab_next slab) none b.partial_known ∙ rw same refl in
      record {
        active_known = omega (
          arith,
          b.active_known,
          length-set h.active bucket none,
          length-set (set h.active bucket none) bucket (some slab),
        );
        partial_known =
            omega (arith, b.partial_known, length-set h.partial bucket (h.slab_next slab));
        listed = rw slot (IsChain-put h.slab_next slab none (h.slab_next slab) ps apart rest);
        stocked = stocked-put h.slab_free slab (h.obj_next x) ps apart b.stocked.1;
        distinct = distinct;
        idle =
            All-map (λ s. s ≢ slab) _ (λ s ne e. let at = active_slot b.active_known slab in ne cc)
              ps apart;
      }

  pub alloc_small-slow :
      bucket < length h.active
      → active_object h (get_or h.active bucket none) ≡ none
      → alloc_small h bucket ≡ alloc_slow h bucket
  unfolding alloc_small
  alloc_small-slow known dry = rw (read-ok h.active bucket none known, dry) refl

  pub partial-Answer :
      (slab : ℕ) (ps : List ℕ)
      → IsBucket h bucket (slab ∷ ps)
      → active_object h (get_or h.active bucket none) ≡ none
      → Answer h p bucket (slab ∷ ps) (alloc_small h bucket)
  unfolding alloc_slow take_partial
  partial-Answer slab ps b dry = elim (Option-cases (h.slab_free slab)) [
    | inl full ↦ let stocked = b.stocked.0 in absurd (ground (arith, full, stocked))
    | inr (x, first) ↦
        let cleared = write-ok h.active bucket none b.active_known in
        let head = read-ok h.partial bucket none b.partial_known ∙ ap ok b.listed.0 in
        let next = write-ok h.partial bucket (h.slab_next slab) b.partial_known in
        let placed =
          write-ok (set h.active bucket none) bucket (some slab)
            (omega (arith, b.active_known, length-set h.active bucket none)) in
        let before = record (taken slab x) { slab_free = h.slab_free } in
        (
          some x,
          taken slab x,
          alloc_small-slow b.active_known dry
              ∙ rw (cleared, head, next, placed, pop_object-ok before slab x first) refl,
          ps,
          taken-IsBucket slab x ps b,
          from_partial slab x dry refl (record {
            first = first;
            free = refl;
            links = refl;
            active = active_slot b.active_known slab;
            pmm = refl;
          }),
        )
  ]
