-- ===== src/Pmm/FreeList/Remove.antt =====
-- What the pointer writes of `list_remove` in kernel/src/mm/pmm.rs do to a free list.
use prometheos.Base.{
  ℕ, ◌<◌, ◌≡◌, sym, ap, ◌∙◌, subst, ◌≢◌, inl, inr, Bool, true, not, ◌&&◌, Option, none, some, ◌==◌,
  arith, Option-cases, target_cases,
}
use prometheos.Pmm.{FreeBlock, set_prev, set_next, set_prev?}
use prometheos.Pmm.FreeList.{IsList, address}

-- The writes around a node whose pointers are `prev` and `next`.
unfoldable abbrev pub unlinked : (ℕ → FreeBlock) → (prev next : Option ℕ) → ℕ → FreeBlock
unfolding set_next
unlinked blocks none next = blocks
unlinked blocks (some before) next = set_next blocks before next

unfoldable abbrev pub removed : (ℕ → FreeBlock) → (prev next : Option ℕ) → ℕ → FreeBlock
unfolding set_prev set_prev? unlinked
removed blocks prev next = set_prev? (unlinked blocks prev next) next prev

abbrev pub new_head : Option ℕ → (prev next : Option ℕ) → Option ℕ
new_head head none next = next
new_head head (some before) next = head

module _ (blocks : ℕ → FreeBlock) where
  next_at :
      (prev next : Option ℕ) (a : ℕ) → prev ≡ some a → (removed blocks prev next a).next ≡ next
  unfolding removed
  next_at none next a e = cc
  next_at (some b) none a e = ground arith
  next_at (some b) (some c) a e = ground arith

  next_other :
      (prev next : Option ℕ) (a : ℕ)
      → prev ≢ some a
      → (removed blocks prev next a).next ≡ (blocks a).next
  unfolding removed
  next_other none none a ne = ground arith
  next_other none (some c) a ne = ground arith
  next_other (some b) none a ne = ground arith
  next_other (some b) (some c) a ne = ground arith

  prev_at :
      (prev next : Option ℕ) (a : ℕ) → next ≡ some a → (removed blocks prev next a).prev ≡ prev
  unfolding removed
  prev_at prev none a e = cc
  prev_at none (some c) a e = ground arith
  prev_at (some b) (some c) a e = ground arith

  prev_other :
      (prev next : Option ℕ) (a : ℕ)
      → next ≢ some a
      → (removed blocks prev next a).prev ≡ (blocks a).prev
  unfolding removed
  prev_other none none a ne = ground arith
  prev_other none (some c) a ne = ground arith
  prev_other (some b) none a ne = ground arith
  prev_other (some b) (some c) a ne = ground arith

  -- A block that neither pointer names is not touched.
  pub removed_outside :
      (prev next : Option ℕ) (a : ℕ)
      → prev ≢ some a
      → next ≢ some a
      → removed blocks prev next a ≡ blocks a
  unfolding removed
  removed_outside none none a p q = ground arith
  removed_outside none (some c) a p q = ground arith
  removed_outside (some b) none a p q = ground arith
  removed_outside (some b) (some c) a p q = ground arith

module _ {member : ℕ → Bool} {base : ℕ} {head : Option ℕ} {blocks : ℕ → FreeBlock}
    (is : IsList member base head blocks) (f : ℕ) (mem : member f ≡ true) where
  open is use {rank, first, is_first, next_back, prev_back}

  abbrev pub without : ℕ → Bool
  without g = not (g == f) && member g

  abbrev pub pv : Option ℕ
  pv = (blocks (address base f)).prev

  abbrev pub nx : Option ℕ
  nx = (blocks (address base f)).next

  abbrev pub after : ℕ → FreeBlock
  after = removed blocks pv nx

  remove_first :
      (a : ℕ)
      → new_head head pv nx ≡ some a
      → (k : ℕ) × (a ≡ address base k) × (without k ≡ true) × ((after a).prev ≡ none)
  remove_first a h = elim (Option-cases pv) [
    | inl e ↦
        let to_a : nx ≡ some a = rw e at h in
        let (k, is_k, n, p) = next_back f a mem to_a in
        (k, is_k, ground arith, ground (arith, prev_at blocks pv nx a to_a))
    | inr (b, e) ↦
        let at_a : head ≡ some a = rw e at h in
        let (k, is_k, n, p) = first a at_a in
        let ne : nx ≢ some a = λ q. cc (p, (next_back f a mem q).3) in
        (k, is_k, ground arith, ground (arith, prev_other blocks pv nx a ne))
  ]

  remove_is_first :
      (g : ℕ)
      → without g ≡ true
      → (after (address base g)).prev ≡ none
      → new_head head pv nx ≡ some (address base g)
  remove_is_first g m h = elim (target_cases nx (address base g)) [
    | inl to_g ↦
        let e : pv ≡ none = sym (prev_at blocks pv nx (address base g) to_g) ∙ h in rw e to_g
    | inr ne ↦
        let at_g : head ≡ some (address base g) =
          is_first g (ground arith) (sym (prev_other blocks pv nx (address base g) ne) ∙ h) in
        elim (Option-cases pv) [
          | inl e ↦ absurd (ground (arith, is_first f mem e))
          | inr (b, e) ↦ rw e at_g
        ]
  ]

  abbrev Back : ℕ → ℕ → Type 0
  Back g a =
      (k : ℕ) × (a ≡ address base k) × (without k ≡ true) × ((after a).prev ≡ some (address base g))

  remove_next-Back :
      (g a : ℕ) → without g ≡ true → (after (address base g)).next ≡ some a → Back g a
  remove_next-Back g a m h = elim (target_cases pv (address base g)) [
    | inl from_g ↦
        let to_a : nx ≡ some a = sym (next_at blocks pv nx (address base g) from_g) ∙ h in
        let (k, is_k, n, p) = next_back f a mem to_a in
        (k, is_k, ground arith, prev_at blocks pv nx a to_a ∙ from_g)
    | inr ne ↦
        let (k, is_k, n, p) =
          next_back g a (ground arith) (sym (next_other blocks pv nx (address base g) ne) ∙ h) in
        let ne' : nx ≢ some a = λ q. ground (arith, (next_back f a mem q).3) in
        (k, is_k, ground arith, prev_other blocks pv nx a ne' ∙ p)
  ]

  abbrev Front : ℕ → ℕ → Type 0
  Front g a =
      (k : ℕ) × (a ≡ address base k)
      × (without k ≡ true)
      × ((after a).next ≡ some (address base g))
      × (rank k < rank g)

  remove_prev-Front :
      (g a : ℕ) → without g ≡ true → (after (address base g)).prev ≡ some a → Front g a
  remove_prev-Front g a m h = elim (target_cases nx (address base g)) [
    | inl to_g ↦
        let from_a : pv ≡ some a = sym (prev_at blocks pv nx (address base g) to_g) ∙ h in
        let (k, is_k, n, p, r) = prev_back f a mem from_a in
        let back = (next_back f (address base g) mem to_g).3 in
        let (j, is_j, _, _, r') = prev_back g (address base f) (ground arith) back in
        let same : j ≡ f = omega arith in
        let lower : rank f < rank g = subst (λ t. rank t < rank g) same r' in
        let ne : k ≢ f = λ e. ground (arith, ap rank e) in
        (k, is_k, ground arith, next_at blocks pv nx a from_a ∙ to_g, omega arith)
    | inr ne ↦
        let (k, is_k, n, p, r) =
          prev_back g a (ground arith) (sym (prev_other blocks pv nx (address base g) ne) ∙ h) in
        let ne' : pv ≢ some a = λ q. ground (arith, (prev_back f a mem q).3) in
        (k, is_k, ground arith, next_other blocks pv nx a ne' ∙ p, r)
  ]

  pub IsList-remove : IsList without base (new_head head pv nx) after
  IsList-remove = record {
    rank = rank;
    first = remove_first;
    is_first = remove_is_first;
    next_back = remove_next-Back;
    prev_back = remove_prev-Front;
  }
