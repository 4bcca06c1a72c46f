-- ===== src/Pmm/FreeList.antt =====
-- The doubly linked free lists of kernel/src/mm/pmm.rs: when pointers in memory make one.
pub mod Push
pub mod Remove
use prometheos.Base.{
  ℕ, zero, suc, ◌+◌, ◌*◌, ◌<◌, ◌≡◌, ◌≢◌, ◌⊎◌, inl, inr, Bool, true, false, Option, none, some, ◌==◌,
  arith, Bool-cases, Option-cases,
}
use prometheos.Pmm.{FreeBlock, frame_size}

-- The address of a frame's block.
abbrev pub address : ℕ → ℕ → ℕ
address base frame = frame * frame_size + base

-- The frames of `member` are the nodes of one list: `prev` and `next` are inverse to one another,
-- only the first node has no `prev`, and `rank` falls along `prev`, so every node is reached from
-- the first.
pub record IsList (member : ℕ → Bool) (base : ℕ) (head : Option ℕ) (blocks : ℕ → FreeBlock)
    : Type 0 where
  pub rank : ℕ → ℕ
  pub first :
      (a : ℕ)
      → head ≡ some a
      → (f : ℕ) × (a ≡ address base f) × (member f ≡ true) × ((blocks a).prev ≡ none)
  pub is_first :
      (f : ℕ)
      → member f ≡ true
      → (blocks (address base f)).prev ≡ none
      → head ≡ some (address base f)
  pub next_back :
      (f a : ℕ)
      → member f ≡ true
      → (blocks (address base f)).next ≡ some a
      → (g : ℕ) × (a ≡ address base g)
        × (member g ≡ true)
        × ((blocks a).prev ≡ some (address base f))
  pub prev_back :
      (f a : ℕ)
      → member f ≡ true
      → (blocks (address base f)).prev ≡ some a
      → (g : ℕ) × (a ≡ address base g)
        × (member g ≡ true)
        × ((blocks a).next ≡ some (address base f))
        × (rank g < rank f)

module _ {member : ℕ → Bool} {base : ℕ} {head : Option ℕ} {blocks : ℕ → FreeBlock}
    (is : IsList member base head blocks) where
  open is use {rank, first, is_first, next_back, prev_back}

  -- A list survives changes that spare its own nodes.
  pub IsList-frame :
      (blocks' : ℕ → FreeBlock)
      → ((f : ℕ) → member f ≡ true → blocks' (address base f) ≡ blocks (address base f))
      → IsList member base head blocks'
  IsList-frame blocks' same = record {
    rank = rank;
    first = λ a h. let (f, e, m, p) = first a h in (f, e, m, ground (arith, same f));
    is_first = λ f m h. is_first f m (ground (arith, same f m));
    next_back = λ f a m h.
        let (g, e, n, p) = next_back f a m (ground (arith, same f m)) in
        (g, e, n, ground (arith, same g n));
    prev_back = λ f a m h.
        let (g, e, n, p, r) = prev_back f a m (ground (arith, same f m)) in
        (g, e, n, ground (arith, same g n), r);
  }

module _ {member : ℕ → Bool} {base : ℕ} {blocks : ℕ → FreeBlock}
    (is : IsList member base none blocks) where
  -- Along `prev` from any node one would come to a first one.
  no_member : (n f : ℕ) → is.rank f < n → member f ≢ true
  no_member zero f h m = absurd (omega arith)
  no_member (suc n) f h m = elim (Option-cases (blocks (address base f)).prev) [
    | inl e ↦ cc (is.is_first f m e)
    | inr (a, e) ↦
        let (g, is_g, m', _, lower) = is.prev_back f a m e in no_member n g (omega arith) m'
  ]

  -- A list with no first node has no nodes.
  pub IsList-none : (f : ℕ) → member f ≡ false
  IsList-none f = ground (arith, no_member (is.rank f + 1) f (omega arith))
