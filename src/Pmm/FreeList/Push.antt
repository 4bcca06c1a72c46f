-- ===== src/Pmm/FreeList/Push.antt =====
-- What the pointer writes of `list_push` in kernel/src/mm/pmm.rs do to a free list.
use prometheos.Base.{
  ℕ, suc, ◌<◌, ◌≡◌, ◌≢◌, inl, inr, Bool, true, false, ◌||◌, Option, none, some, ◌==◌, if◌then◌else◌,
  arith, Bool-cases, Option-cases, target_cases,
}
use prometheos.Pmm.{FreeBlock, set_prev, set_next, set_prev?}
use prometheos.Pmm.FreeList.{IsList, address}

module _ {member : ℕ → Bool} {base : ℕ} {head : Option ℕ} {blocks : ℕ → FreeBlock}
    (is : IsList member base head blocks) where
  open is use {rank, first, is_first, next_back, prev_back}

  -- The memory after a push of `f`.
  unfoldable abbrev pub pushed : ℕ → ℕ → FreeBlock
  unfolding set_prev set_next set_prev?
  pushed f =
      let a = address base f in set_prev? (set_next (set_prev blocks a none) a head) head (some a)

  abbrev with_member : ℕ → ℕ → Bool
  with_member f g = (g == f) || member g

  pushed_self : (f : ℕ) → member f ≡ false → (pushed f (address base f)).prev ≡ none
  unfolding pushed
  pushed_self f new = elim (Option-cases head) [
    | inl e ↦ rw e (ground arith)
    | inr (h, e) ↦ let (g, is_g, m, p) = first h e in rw e (ground arith)
  ]

  -- What the pointers of a node are after the push.
  pushed_next :
      (f g : ℕ)
      → member f ≡ false
      → (pushed f (address base g)).next ≡ (if g == f then head else (blocks (address base g)).next)
  unfolding pushed
  pushed_next f g new = elim (Option-cases head) [
    | inl e ↦ rw e (ground arith)
    | inr (h, e) ↦ let (k, is_k, m, p) = first h e in rw e (ground arith)
  ]

  pushed_prev_first :
      (f g : ℕ)
      → member f ≡ false
      → head ≡ some (address base g)
      → (pushed f (address base g)).prev ≡ some (address base f)
  unfolding pushed
  pushed_prev_first f g new e =
      let (k, is_k, m, p) = first (address base g) e in rw e (ground arith)

  pushed_prev_other :
      (f g : ℕ)
      → g ≢ f
      → head ≢ some (address base g)
      → (pushed f (address base g)).prev ≡ (blocks (address base g)).prev
  unfolding pushed
  pushed_prev_other f g ne not_first = elim (Option-cases head) [
    | inl e ↦ rw e (ground arith)
    | inr (h, e) ↦ let (k, is_k, m, p) = first h e in rw e (ground arith)
  ]

  abbrev Back : ℕ → ℕ → ℕ → Type 0
  Back f g a =
      (k : ℕ) × (a ≡ address base k)
      × (with_member f k ≡ true)
      × ((pushed f a).prev ≡ some (address base g))

  push_next-Back :
      (f g a : ℕ)
      → member f ≡ false
      → with_member f g ≡ true
      → (pushed f (address base g)).next ≡ some a
      → Back f g a
  push_next-Back f g a new m h = elim (Bool-cases (g == f)) [
    | inl same ↦
        let head_is : head ≡ some a = ground (arith, pushed_next f g new) in
        let (k, is_k, n, p) = first a head_is in
        let at_k : head ≡ some (address base k) = ground arith in
        (k, is_k, ground arith, ground (arith, pushed_prev_first f k new at_k))
    | inr other ↦
        let (k, is_k, n, p) = next_back g a (ground arith) (ground (arith, pushed_next f g new)) in
        (k, is_k, ground arith, ground (arith, pushed_prev_other f k, first a))
  ]

  abbrev new_rank : ℕ → ℕ → ℕ
  new_rank f g = if g == f then 0 else suc (rank g)

  abbrev Front : ℕ → ℕ → ℕ → Type 0
  Front f g a =
      (k : ℕ) × (a ≡ address base k)
      × (with_member f k ≡ true)
      × ((pushed f a).next ≡ some (address base g))
      × (new_rank f k < new_rank f g)

  push_prev-Front :
      (f g a : ℕ)
      → member f ≡ false
      → with_member f g ≡ true
      → (pushed f (address base g)).prev ≡ some a
      → Front f g a
  push_prev-Front f g a new m h = elim (Bool-cases (g == f)) [
    | inl same ↦ absurd (ground (arith, pushed_self f new))
    | inr other ↦ elim (target_cases head (address base g)) [
      | inl e ↦
          let is_f : a ≡ address base f = ground (arith, pushed_prev_first f g new e) in
          (f, is_f, ground arith, ground (arith, pushed_next f f new), ground arith)
      | inr e ↦
          let (k, is_k, n, p, r) =
            prev_back g a (ground arith) (ground (arith, pushed_prev_other f g)) in
          (k, is_k, ground arith, ground (arith, pushed_next f k new), ground arith)
    ]
  ]

  pub IsList-push :
      (f : ℕ) → member f ≡ false → IsList (with_member f) base (some (address base f)) (pushed f)
  IsList-push f new = record {
    rank = new_rank f;
    first = λ a h. (f, ground arith, ground arith, ground (arith, pushed_self f new));
    is_first = λ g m h. elim (target_cases head (address base g)) [
      | inl e ↦ cc (pushed_prev_first f g new e, h)
      | inr e ↦ ground (arith, is_first g, pushed_prev_other f g)
    ];
    next_back = λ g a m h. push_next-Back f g a new m h;
    prev_back = λ g a m h. push_prev-Front f g a new m h;
  }

  -- No other node is touched.
  pub pushed_outside :
      (f g : ℕ) → g ≢ f → member g ≡ false → pushed f (address base g) ≡ blocks (address base g)
  unfolding pushed
  pushed_outside f g ne out = elim (Option-cases head) [
    | inl e ↦ rw e (ground arith)
    | inr (h, e) ↦ let (k, is_k, m, p) = first h e in rw e (ground arith)
  ]
