-- ===== src/Memory/Given.antt =====
-- What the loop of `init` of kernel/src/mm/mod.rs over the memory map does to the frame allocator.
use prometheos.Base.{
  ℕ, ◌+◌, ◌/◌, ◌≤◌, ◌<◌, min, max, ◌≡◌, refl, sym, subst, ap, ◌∙◌, inl, inr, arith, Bool, true,
  false, not, ◌&&◌, ◌||◌, Option, none, some, List, [], ◌∷◌, ltb, leb, ok, u64_size, add64-ok,
  Bool-cases,
}
use prometheos.Pmm.{Pmm, frame_size}
use prometheos.Pmm.Valid.{IsValid}
use prometheos.Pmm.Step.{is_free}
use prometheos.Pmm.Range.{add_range-adds}
use prometheos.Memory.Regions.{
  Entry, piece_range, add_piece, pieces, covers, given, add_entry, add_entries, given-pieces,
  given_twice, given_twice-pieces,
}

-- Whether a frame lies in an entry, and in a usable entry of the map.
abbrev pub first_frame : Entry → ℕ
first_frame entry = entry.base / frame_size

abbrev pub last_frame : Entry → ℕ
last_frame entry = (entry.base + entry.length) / frame_size

abbrev pub entry_frames : Entry → ℕ → Bool
entry_frames entry j = entry.usable && (leb (first_frame entry) j && ltb j (last_frame entry))

unfoldable pub is_usable : List Entry → ℕ → Bool
is_usable [] j = false
is_usable (entry ∷ entries) j = entry_frames entry j || is_usable entries j

-- Every entry ends by a frame and below 2^64, and no frame is in two usable ones.
abbrev pub IsMap : List Entry → (total : ℕ) → Type 0
IsMap [] total = Unit
IsMap (entry ∷ entries) total =
    (entry.base + entry.length < u64_size)
    × (last_frame entry ≤ total)
    × ((j : ℕ) → entry_frames entry j ≡ true → is_usable entries j ≡ false)
    × IsMap entries total

-- The state after some frames have been given.
pub record Gives (p q : Pmm) (frames : ℕ → Bool) : Type 0 where
  pub valid : IsValid q
  pub freed : (j : ℕ) → is_free q j ≡ (is_free p j || frames j)
  pub total : q.total_frames ≡ p.total_frames

and-left : (a b : Bool) → (a && b) ≡ true → a ≡ true
and-left true b h = refl
and-left false b h = h

distribute : (a b c d : Bool) → (a || b && d || c && d) ≡ (a || (b || c) && d)
distribute true b c d = refl
distribute false b c true = ground arith
distribute false b c false = ground arith

Gives-none :
    (p : Pmm) (v : IsValid p) (frames : ℕ → Bool) → ((j : ℕ) → frames j ≡ false) → Gives p p frames
Gives-none p v frames h = record { valid = v; freed = λ j. ground (arith, h j); total = refl }

abbrev EndsBy : Option (ℕ × ℕ) → ℕ → Type 0
EndsBy none n = Unit
EndsBy (some (first, count)) n = first + count ≤ n

piece_range-EndsBy : (s e n : ℕ) → e ≤ n → EndsBy (piece_range s e) n
unfolding piece_range
piece_range-EndsBy s e n h = ground arith

add_piece-Gives :
    (piece : Option (ℕ × ℕ)) (p : Pmm) (v : IsValid p)
    → EndsBy piece p.total_frames
    → ((j : ℕ) → covers piece j ≡ true → is_free p j ≡ false)
    → (q : Pmm) × (add_piece piece p ≡ ok (some q)) × Gives p q (covers piece)
unfolding add_piece covers
add_piece-Gives none p v fits fresh = (p, refl, Gives-none p v (λ j. false) (λ j. refl))
add_piece-Gives (some (first, count)) p v fits fresh =
    let (q, e, a) = add_range-adds p first count v (record { fits = fits; unused = fresh }) in
    (q, e, record { valid = a.valid; freed = a.freed; total = a.total })

module _ (order_first order_last : ℕ) (ordered : order_first ≤ order_last) where
  -- The frames that are given away: not those of the metadata, and not frame 0.
  abbrev pub is_open : ℕ → Bool
  is_open j = not (leb order_first j && ltb j order_last) && ltb 0 j

  -- The two pieces of an entry, one after the other.
  add_both-Gives :
      (before after : Option (ℕ × ℕ)) (p : Pmm) (v : IsValid p)
      → EndsBy before p.total_frames
      → EndsBy after p.total_frames
      → ((j : ℕ) → given (before, after) j ≡ true → is_free p j ≡ false)
      → ((j : ℕ) → given_twice (before, after) j ≡ false)
      → (q r : Pmm) × (add_piece before p ≡ ok (some q))
        × (add_piece after q ≡ ok (some r))
        × Gives p r (given (before, after))
  unfolding given given_twice
  add_both-Gives before after p v fits fits' fresh once =
      let (q, e, g) = add_piece-Gives before p v fits (λ j h. fresh j (ground (arith, h))) in
      let (r, e', g') =
        add_piece-Gives after q g.valid (subst (EndsBy after) (sym g.total) fits')
          (λ j h. ground (arith, g.freed j, fresh j, once j)) in
      (
        q,
        r,
        e,
        e',
        record {
          valid = g'.valid;
          freed = λ j. ground (arith, g.freed j, g'.freed j);
          total = g'.total ∙ g.total;
        },
      )

  frames_same :
      {used : Bool}
      → used ≡ true
      → (a b m z : Bool) → (a && b && not m && z) ≡ (used && (a && b) && (not m && z))
  frames_same e a b m z = rw e (ground arith)

  pieces-EndsBy :
      (first last total : ℕ)
      → last ≤ total
      → EndsBy (pieces first last order_first order_last).0 total
        × EndsBy (pieces first last order_first order_last).1 total
  unfolding pieces
  pieces-EndsBy first last total h = (
    piece_range-EndsBy first (min last order_first) total (omega arith),
    piece_range-EndsBy (max first order_last) last total h,
  )

  add_entry-Gives :
      (entry : Entry) (p : Pmm) (v : IsValid p)
      → entry.base + entry.length < u64_size
      → last_frame entry ≤ p.total_frames
      → ((j : ℕ) → entry_frames entry j ≡ true → is_free p j ≡ false)
      → (q : Pmm) × (add_entry p entry order_first order_last ≡ ok (some q))
        × Gives p q (λ j. entry_frames entry j && is_open j)
  unfolding add_entry
  add_entry-Gives entry p v fits inside fresh = elim (Bool-cases entry.usable) [
    | inr no_use ↦ (p, rw no_use refl, Gives-none p v _ (λ j. rw no_use refl))
    | inl in_use ↦
        let two = pieces (first_frame entry) (last_frame entry) order_first order_last in
        let same : (j : ℕ) → given two j ≡ (entry_frames entry j && is_open j) = λ j.
          given-pieces (first_frame entry) (last_frame entry) order_first order_last j ordered
          ∙ frames_same in_use (leb (first_frame entry) j) (ltb j (last_frame entry))
              (leb order_first j && ltb j order_last) (ltb 0 j) in
        let (before_fits, after_fits) =
          pieces-EndsBy (first_frame entry) (last_frame entry) p.total_frames inside in
        let (q, r, e, e', g) =
          add_both-Gives two.0 two.1 p v before_fits after_fits
            (λ j h. fresh j (and-left (entry_frames entry j) (is_open j) (sym (same j) ∙ h)))
            (λ j.
              given_twice-pieces (first_frame entry) (last_frame entry) order_first order_last j
                ordered) in
        (
          r,
          rw (in_use, add64-ok entry.base entry.length fits, e) e',
          record {
            valid = g.valid;
            freed = λ j. g.freed j ∙ ap (λ t. is_free p j || t) (same j);
            total = g.total;
          },
        )
  ]

  pub add_entries-Gives :
      (entries : List Entry) (p : Pmm) (v : IsValid p)
      → IsMap entries p.total_frames
      → ((j : ℕ) → is_usable entries j ≡ true → is_free p j ≡ false)
      → (q : Pmm) × (add_entries p entries order_first order_last ≡ ok (some q))
        × Gives p q (λ j. is_usable entries j && is_open j)
  unfolding add_entries is_usable
  add_entries-Gives [] p v map fresh = (p, refl, Gives-none p v _ (λ j. refl))
  add_entries-Gives (entry ∷ entries) p v (fits, inside, apart, rest) fresh =
      let (q, e, g) = add_entry-Gives entry p v fits inside (λ j h. fresh j (rw h refl)) in
      let (r, e', g') =
        add_entries-Gives entries q g.valid (subst (IsMap entries) (sym g.total) rest)
          (λ j h. ground (arith, g.freed j, fresh j, apart j)) in
      (
        r,
        rw e e',
        record {
          valid = g'.valid;
          freed = λ j.
              g'.freed j
              ∙ ap (λ t. t || is_usable entries j && is_open j) (g.freed j)
              ∙ distribute (is_free p j) (entry_frames entry j) (is_usable entries j) (is_open j);
          total = g'.total ∙ g.total;
        },
      )
