-- ===== src/Heap/Objects.antt =====
-- The objects of a new slab of kernel/src/mm/heap.rs: where they lie, and their free list.
use native.Mathlib.Nat.{one-le-pow}
use prometheos.Base.{
  ℕ, zero, suc, ◌+◌, ◌*◌, ◌<◌, ◌≡◌, ◌≢◌, refl, sym, subst, arith, Option, some, none, List, [], ◌∷◌,
}
use prometheos.Heap.Sizes.{obj_size}
use prometheos.Heap.Slabs.{put, data_off, link_objects}

-- A list in memory: `next` leads from each address to the one after it.
abbrev pub IsChain : (ℕ → Option ℕ) → Option ℕ → List ℕ → Type 0
IsChain next head [] = head ≡ none
IsChain next head (a ∷ xs) = (head ≡ some a) × IsChain next (next a) xs

abbrev pub All : (ℕ → Type 0) → List ℕ → Type 0
All P [] = Unit {0}
All P (a ∷ xs) = P a × All P xs

-- A write to an address that is not in a list leaves the list.
pub IsChain-put :
    (next : ℕ → Option ℕ) (a : ℕ) (v head : Option ℕ) (xs : List ℕ)
    → All (λ b. b ≢ a) xs
    → IsChain next head xs
    → IsChain (put next a v) head xs
IsChain-put next a v head [] out chain = chain
IsChain-put next a v head (b ∷ xs) (ne, out) (at, chain) =
    let same : put next a v b ≡ next b = ground arith in
    (
      at,
      subst (λ t. IsChain (put next a v) t xs) (sym same)
          (IsChain-put next a v (next b) xs out chain),
    )

-- The object with an index of the slab at `base`, and `n` objects from an index on.
abbrev pub object : (base bucket i : ℕ) → ℕ
object base bucket i = base + data_off bucket + i * obj_size bucket

abbrev pub objects_from : (n : ℕ) → (base bucket i : ℕ) → List ℕ
objects_from zero base bucket i = []
objects_from (suc n) base bucket i = object base bucket i ∷ objects_from n base bucket (suc i)

pub obj_size_pos : (bucket : ℕ) → 0 < obj_size bucket
obj_size_pos bucket = one-le-pow (4 + bucket) 2 (omega arith)

later-ne :
    (n base bucket i j : ℕ)
    → j < i
    → All (λ b. b ≢ object base bucket j) (objects_from n base bucket i)
later-ne zero base bucket i j h = tt
later-ne (suc n) base bucket i j h =
    let step : j * obj_size bucket < i * obj_size bucket = grind (arith, obj_size_pos bucket) in
    (λ e. omega arith, later-ne n base bucket (suc i) j (omega arith))

-- `link_objects` puts the objects before the list that it is given.
pub link_objects-IsChain :
    (left n base bucket : ℕ) (head : Option ℕ) (next : ℕ → Option ℕ)
    → IsChain next head (objects_from n base bucket left)
    → IsChain
        (link_objects left base bucket head next).1
        (link_objects left base bucket head next).0
        (objects_from (left + n) base bucket 0)
unfolding link_objects
link_objects-IsChain zero n base bucket head next chain =
    let same : 0 + n ≡ n = omega arith in rw same chain
link_objects-IsChain (suc i) n base bucket head next chain =
    let obj = object base bucket i in
    let here : put next obj head obj ≡ head = ground arith in
    let rest = link_objects-IsChain i (suc n) base bucket (some obj) (put next obj head) (
      refl,
      subst (λ t. IsChain (put next obj head) t (objects_from n base bucket (suc i))) (sym here)
          (IsChain-put next obj head head (objects_from n base bucket (suc i))
            (later-ne n base bucket (suc i) i (omega arith)) chain),
    ) in
    let same : i + suc n ≡ suc i + n = omega arith in
    subst
      (λ t.
        IsChain (link_objects i base bucket (some obj) (put next obj head)).1
          (link_objects i base bucket (some obj) (put next obj head)).0
          (objects_from t base bucket 0))
      same rest
