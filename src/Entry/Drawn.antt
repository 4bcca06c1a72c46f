-- ===== src/Entry/Drawn.antt =====
-- The diagonal that `kmain` of kernel/src/main.rs draws.
use native.Mathlib.Nat.{mul-add-div_right, div-eq_of_lt, div-add-mod', mul-le-mul_right}
use prometheos.Base.Bits.{mod_unique}
use prometheos.Base.{
  ℕ, zero, suc, ◌+◌, ◌*◌, ◌/◌, ◌%◌, ◌≤◌, ◌<◌, ◌≡◌, refl, sym, ap, ◌∙◌, inl, inr, ◌⊎◌, arith, Bool,
  false, ◌&&◌, ◌||◌, List, ltb, leb, eq→==, le→ltb, ◌==◌, if◌then◌else◌, Bool-cases, ok, panic,
  Panic, u64_size, write, add64-ok, mul64-ok, write-ok, length, get_or, set, length-set, get_or-set,
}
use prometheos.Entry.{white, draw_from, draw}

-- Whether a pixel is one of the diagonal's, from a round on.
unfoldable pub on_line : (left i pitch_pixels : ℕ) → ℕ → Bool
on_line zero i pitch_pixels j = false
on_line (suc left) i pitch_pixels j =
    (i * pitch_pixels + i == j) || on_line left (i + 1) pitch_pixels j

white_or :
    (here later : Bool) (old : ℕ)
    → (if later then white else (if here then white else old))
      ≡ (if here || later then white else old)
white_or here later old = ground arith

draw_from-ok :
    (left i pitch_pixels : ℕ) (fb : List ℕ)
    → (i + left) * pitch_pixels + i + left ≤ length fb + pitch_pixels
    → length fb < u64_size
    → (fb' : List ℕ) × (draw_from left i pitch_pixels fb ≡ ok fb')
      × (length fb' ≡ length fb)
      × ((j : ℕ)
          → get_or fb' j 0 ≡ (if on_line left i pitch_pixels j then white else get_or fb j 0))
unfolding draw_from on_line
draw_from-ok zero i pitch fb fits small = (fb, refl, refl, λ j. refl)
draw_from-ok (suc left) i pitch fb fits small =
    let rounds : (i + suc left) * pitch ≡ i * pitch + pitch + left * pitch = grind arith in
    let rounds' : (i + 1 + left) * pitch ≡ i * pitch + pitch + left * pitch = grind arith in
    let within : i * pitch + i < length fb = omega (arith, rounds) in
    let fb1 = set fb (i * pitch + i) white in
    let same = length-set fb (i * pitch + i) white in
    let (fb', e, l, drawn) =
      draw_from-ok left (i + 1) pitch fb1 (omega (arith, rounds, rounds', same, fits))
        (omega (arith, same)) in
    (
      fb',
      rw
          (
            mul64-ok i pitch (omega arith),
            add64-ok (i * pitch) i (omega arith),
            write-ok fb (i * pitch + i) white within,
          )
          e,
      l ∙ same,
      λ j.
          drawn j
          ∙ rw (get_or-set fb (i * pitch + i) j white 0 within)
              (white_or (i * pitch + i == j) (on_line left (i + 1) pitch j) (get_or fb j 0)),
    )

-- The pixels of the first hundred rows whose column is their row.
abbrev pub is_diagonal : (pitch_pixels : ℕ) → ℕ → Bool
is_diagonal pitch_pixels j = (j / pitch_pixels == j % pitch_pixels) && ltb (j / pitch_pixels) 100

abbrev on_diagonal : (left i pitch j : ℕ) → Bool
on_diagonal left i pitch j =
    (j / pitch == j % pitch) && (leb i (j / pitch) && ltb (j / pitch) (i + left))

module _ (pitch : ℕ) where
  place :
      (i j : ℕ) → i < pitch → (i * pitch + i == j) ≡ ((j / pitch == j % pitch) && (j / pitch == i))
  place i j small = elim (Bool-cases (i * pitch + i == j)) [
    | inl here ↦
        let at : j ≡ i * pitch + i = ground arith in
        let row : (i * pitch + i) / pitch ≡ i =
          mul-add-div_right (omega arith) i i
          ∙ ap (λ t. i + t) (div-eq_of_lt small)
          ∙ omega arith in
        let column : (i * pitch + i) % pitch ≡ i = mod_unique pitch i i small in
        rw (here, at, row, column) (rw (eq→== i i refl) refl)
    | inr away ↦ elim (Bool-cases (j / pitch == i)) [
      | inr other ↦ ground (arith)
      | inl row ↦
          let e = div-add-mod' j pitch in
          let same : j / pitch ≡ i = ground arith in
          let split : i * pitch + j % pitch ≡ j = ap (λ t. t * pitch + j % pitch) (sym same) ∙ e in
          ground (arith, split)
    ]
  ]

  on_line-diagonal :
      (left i j : ℕ) → i + left ≤ pitch → on_line left i pitch j ≡ on_diagonal left i pitch j
  unfolding on_line
  on_line-diagonal zero i j h = ground arith
  on_line-diagonal (suc left) i j h =
      rw (place i j (omega arith), on_line-diagonal left (i + 1) j (omega arith)) (ground arith)

  draw_from-past :
      (left i height : ℕ) (fb : List ℕ)
      → length fb ≡ pitch * height
      → length fb + pitch < u64_size
      → i ≤ height
      → height < i + left
      → i + left ≤ pitch + 1
      → draw_from left i pitch fb ≡ panic Panic.out_of_bounds
  unfolding draw_from write
  draw_from-past zero i height fb size small low high wide = absurd (omega arith)
  draw_from-past (suc left) i height fb size small low high wide =
      let rows : pitch * height ≡ height * pitch = grind arith in
      elim (Bool-cases (i == height)) [
        | inl last ↦
            let e : i ≡ height = ground arith in
            let at : i * pitch ≡ length fb = ap (λ t. t * pitch) e ∙ sym rows ∙ sym size in
            rw
              (
                mul64-ok i pitch (omega arith),
                add64-ok (i * pitch) i (omega arith),
                le→ltb (i * pitch + i) (length fb) (omega arith),
              )
              refl
        | inr more ↦
            let after : i < height = ground arith in
            let room : (i + 1) * pitch ≤ height * pitch = mul-le-mul_right pitch (omega arith) in
            let next : (i + 1) * pitch ≡ i * pitch + pitch = grind arith in
            let fb1 = set fb (i * pitch + i) white in
            let same = length-set fb (i * pitch + i) white in
            rw
              (
                mul64-ok i pitch (omega arith),
                add64-ok (i * pitch) i (omega arith),
                write-ok fb (i * pitch + i) white (omega (arith, room, next, rows, size)),
              )
              (draw_from-past left (i + 1) height fb1 (same ∙ size) (omega (arith, same))
                (omega arith) (omega arith) (omega arith))
      ]

-- Either the diagonal is drawn, or the index is out of bounds.
abbrev pub IsDrawn : (pitch_pixels height : ℕ) → List ℕ → Type 0
IsDrawn pitch height fb =
    ((100 ≤ height)
      × (fb' : List ℕ) × (draw pitch fb ≡ ok fb')
      × (length fb' ≡ length fb)
      × ((j : ℕ) → get_or fb' j 0 ≡ (if is_diagonal pitch j then white else get_or fb j 0)))
    ⊎ (height < 100) × (draw pitch fb ≡ panic Panic.out_of_bounds)

-- On a screen whose rows have at least 100 pixels, and whose pixels and one more row are fewer than
-- 2^64, the loop of `kmain` draws a line in the first hundred rows: a pixel there whose column is its
-- row is white, and all others are as they were. This is if the screen has a hundred rows, and if it
-- has fewer, the loop panics, as an index is out of bounds.
pub draw_lem :
    (pitch height : ℕ) (fb : List ℕ)
    → length fb ≡ pitch * height
    → length fb + pitch < u64_size
    → 100 ≤ pitch
    → IsDrawn pitch height fb
unfolding draw
draw_lem pitch height fb size small wide = elim (Bool-cases (ltb height 100)) [
  | inl low ↦ inr (
    ground arith,
    draw_from-past pitch 100 0 height fb size small (omega arith) (ground arith) (omega arith),
  )
  | inr high ↦
      let enough : 100 ≤ height = ground arith in
      let rows : pitch * height ≡ height * pitch = grind arith in
      let room : 100 * pitch ≤ height * pitch = mul-le-mul_right pitch enough in
      let (fb', e, l, drawn) =
        draw_from-ok 100 0 pitch fb (omega (arith, rows, room, size, wide)) (omega arith) in
      inl (
        enough,
        fb',
        e,
        l,
        λ j.
            drawn j
            ∙ ap (λ t. if t then white else get_or fb j 0)
                (on_line-diagonal pitch 100 0 j wide ∙ ground arith),
      )
]
