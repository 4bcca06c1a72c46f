-- ===== src/Heap/Layouts.antt =====
-- The bucket and the order that kernel/src/mm/heap.rs chooses are the smallest that fit.
use native.Mathlib.Nat.{pow-suc, pow-le-pow_right}
use prometheos.Base.{
  ℕ, zero, suc, ◌+◌, ◌-◌, ◌*◌, ◌/◌, ◌%◌, ◌^◌, ◌<◌, ◌≤◌, ◌≡◌, refl, sym, ap, ◌∙◌, subst, arith, max,
  inl, inr, some, none, Option, ltb, ◌==◌, Bool-cases,
}
use prometheos.Base.Words.{trailing_zeros, trailing_zeros_from, bit_length_from}
use prometheos.Pmm.{max_order}
use prometheos.Pmm.Range.{bit_length-le}
use prometheos.Heap.Sizes.{
  Layout, next_power_of_two, bucket_for, order_for_large, obj_size, num_buckets, slab_frame_size,
  div_ceil,
}

bit_length-lt : (rounds n : ℕ) → n < 2 ^ rounds → n < 2 ^ bit_length_from rounds n
unfolding bit_length_from
bit_length-lt zero n h = omega arith
bit_length-lt (suc rounds) n h = elim (Bool-cases (n == 0)) [
  | inl none_left ↦ rw none_left (ground arith)
  | inr some_left ↦
      let half = bit_length-lt rounds (n / 2) (omega (arith, pow-suc 2 rounds)) in
      rw some_left (omega (arith, half, pow-suc 2 (bit_length_from rounds (n / 2))))
]

trailing_zeros-pow : (rounds k : ℕ) → k < rounds → trailing_zeros_from rounds (2 ^ k) ≡ k
unfolding trailing_zeros_from
trailing_zeros-pow zero k h = absurd (omega arith)
trailing_zeros-pow (suc rounds) zero h = refl
trailing_zeros-pow (suc rounds) (suc k) h =
    let even : 2 ^ suc k % 2 ≡ 0 = omega (arith, pow-suc 2 k) in
    let half : 2 ^ suc k / 2 ≡ 2 ^ k = omega (arith, pow-suc 2 k) in
    rw (even, half, trailing_zeros-pow rounds k (omega arith)) refl

-- The logarithm of the next power of two.
abbrev log_up : ℕ → ℕ
log_up n = trailing_zeros (next_power_of_two n)

trailing_zeros-from : (n : ℕ) → trailing_zeros n ≡ trailing_zeros_from 64 n
unfolding trailing_zeros
trailing_zeros-from n = refl

next_power_of_two-bits : (n : ℕ) → next_power_of_two n ≡ 2 ^ bit_length_from 64 (n - 1)
unfolding next_power_of_two
next_power_of_two-bits n = refl

few_bits : (n : ℕ) → n < 2 ^ 63 → bit_length_from 64 n < 64
few_bits n small = elim (Bool-cases (ltb (bit_length_from 64 n) 64)) [
  | inl few ↦ ground arith
  | inr many ↦ let large : 2 ^ 63 ≤ n = bit_length-le 64 n 63 (ground arith) in absurd (omega arith)
]

log_up-bits : (n : ℕ) → n < 2 ^ 63 → log_up n ≡ bit_length_from 64 (n - 1)
log_up-bits n small =
    trailing_zeros-from (next_power_of_two n)
    ∙ ap (trailing_zeros_from 64) (next_power_of_two-bits n)
    ∙ trailing_zeros-pow 64 (bit_length_from 64 (n - 1)) (few_bits (n - 1) (omega arith))

-- `n` fits the power of two, and no smaller one.
log_up_lem :
    (n : ℕ) → 0 < n → n < 2 ^ 63 → (n ≤ 2 ^ log_up n) × ((k : ℕ) → k < log_up n → 2 ^ k < n)
log_up_lem n pos small =
    let bits = log_up-bits n small in
    let below = bit_length-lt 64 (n - 1) (omega arith) in
    (
      subst (λ t. n ≤ 2 ^ t) (sym bits) (omega (arith, below)),
      λ k h.
          let large = bit_length-le 64 (n - 1) k (subst (λ t. k < t) bits h) in
          omega (arith, large),
    )

-- The powers of two grow.
pow_lt : (j k : ℕ) → 2 ^ j < 2 ^ k → j < k
pow_lt j k h = elim (Bool-cases (ltb j k)) [
  | inl less ↦ ground arith
  | inr more ↦
      let grown = pow-le-pow_right {n = 2} (omega arith) {i = k} {j = j} (ground arith) in
      absurd (omega (arith, grown))
]

-- What `bucket_for` promises: the bucket's objects have room for the size and keep the alignment,
-- and those of the bucket before do not; there is none for more than the largest objects.
abbrev pub FitsBucket : Layout → Option ℕ → Type 0
FitsBucket layout none = 1024 < max layout.size layout.align
FitsBucket layout (some b) =
    (b < num_buckets)
    × (layout.size ≤ obj_size b)
    × (layout.align ≤ obj_size b)
    × ((k : ℕ) → k < b → obj_size k < max layout.size layout.align)

bucket_fits :
    (layout : Layout) (log : ℕ)
    → max (max layout.size layout.align) 16 ≤ 1024
    → max (max layout.size layout.align) 16 ≤ 2 ^ log
    → ((k : ℕ) → k < log → 2 ^ k < max (max layout.size layout.align) 16)
    → FitsBucket layout (some (log - 4))
bucket_fits layout log small fits least =
    let low : 3 < log = pow_lt 3 log (omega arith) in
    let high : log ≤ 10 = elim (Bool-cases (ltb 10 log)) [
      | inl more ↦ let over = least 10 (ground arith) in absurd (omega arith)
      | inr less ↦ ground arith
    ] in
    let back : 4 + (log - 4) ≡ log = omega arith in
    (
      omega arith,
      subst (λ t. layout.size ≤ 2 ^ t) (sym back) (omega arith),
      subst (λ t. layout.align ≤ 2 ^ t) (sym back) (omega arith),
      λ k h.
          let less = least (4 + k) (omega arith) in
          let grown = pow-le-pow_right {n = 2} (omega arith) {i = 4} {j = 4 + k} (omega arith) in
          omega (arith, less, grown),
    )

-- For every layout `bucket_for` chooses the first of the seven buckets whose objects are as large as
-- its size and its alignment, or none if both the largest objects are smaller than one of them.
pub bucket_for_lem : (layout : Layout) → FitsBucket layout (bucket_for layout)
unfolding bucket_for
bucket_for_lem layout =
    let need = max (max layout.size layout.align) 16 in
    elim (Bool-cases (ltb 1024 need)) [
      | inl large ↦ rw large (ground arith)
      | inr small ↦ rw small (
          bucket_fits layout (log_up need) (ground arith)
            (log_up_lem need (omega arith) (ground arith)).0
            (log_up_lem need (omega arith) (ground arith)).1)
    ]

-- What `order_for_large` promises: blocks of the order have room for the size and keep the alignment,
-- and those of the order before do not; there is none for more than the largest blocks.
abbrev pub FitsOrder : Layout → Option ℕ → Type 0
FitsOrder layout none = slab_frame_size * 2 ^ max_order < max layout.size layout.align
FitsOrder layout (some o) =
    (o ≤ max_order)
    × (layout.size ≤ slab_frame_size * 2 ^ o)
    × (layout.align ≤ slab_frame_size * 2 ^ o)
    × ((k : ℕ) → k < o → slab_frame_size * 2 ^ k < max layout.size layout.align)

-- For every layout with an alignment that is not 0, and with a size and an alignment below 2^63,
-- `order_for_large` chooses the first order whose blocks are as large as both, or none if blocks of
-- the largest order are smaller than one of them.
pub order_for_large_lem :
    (layout : Layout)
    → 0 < layout.align
    → layout.size < 2 ^ 63
    → layout.align < 2 ^ 63
    → FitsOrder layout (order_for_large layout)
unfolding order_for_large
order_for_large_lem layout pos small small' =
    let need = max layout.size layout.align in
    let frames = div_ceil need slab_frame_size in
    let (fits, least) = log_up_lem frames (ground arith) (ground arith) in
    elim (Bool-cases (ltb max_order (log_up frames))) [
      | inl large ↦ let more = least 11 (ground arith) in rw large (ground arith)
      | inr in_range ↦
          rw in_range
            (ground arith, ground arith, ground arith, λ k h. let more = least k h in ground arith)
    ]
