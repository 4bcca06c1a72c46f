-- ===== src/Pmm/Range.antt =====
-- `add_range` of kernel/src/mm/pmm.rs: it ends, and every frame of the range is free.
use native.Mathlib.Decide.{ℕ_discrete}
use native.Mathlib.Nat.{pow-suc, zero-mod, mod-one, mod-eq_of_lt, mul-mod_left, div-add-mod'}
use prometheos.Base.{
  ℕ, zero, suc, ◌+◌, ◌-◌, ◌*◌, ◌/◌, ◌%◌, ◌^◌, ◌≤◌, ◌<◌, ◌≡◌, refl, ap, ◌∙◌, inl, inr, ◌≢◌, true,
  false, ◌||◌, some, ◌==◌, arith, Bool-cases, ok, add64-ok, sub64-ok, eq→==, ne→==,
}
use prometheos.Base.Words.{trailing_zeros_from, trailing_zeros, bit_length_from, leading_zeros}
use prometheos.Pmm.{Pmm, max_order, frame_size, shift_frame, range_order, add_range_from, add_range}
use prometheos.Pmm.Orders.{in_block}
use prometheos.Pmm.Valid.{IsValid}
use prometheos.Pmm.Push.{IsUnused, two-pow-pos}
use prometheos.Pmm.Step.{is_free}
use prometheos.Pmm.Free.{IsFreed, free_pages-frees}

mod-double : (n m : ℕ) → n % 2 ≡ 0 → n / 2 % m ≡ 0 → n % (2 * m) ≡ 0
mod-double n m even h =
    let half : n / 2 ≡ n / 2 / m * m = omega (arith, div-add-mod' (n / 2) m) in
    let split : n ≡ n / 2 / m * (2 * m) = omega arith in
    ap (λ t. t % (2 * m)) split ∙ mul-mod_left (n / 2 / m) (2 * m)

-- A number is a multiple of two to the power of its trailing zeros.
trailing_zeros-mod : (rounds n k : ℕ) → k ≤ trailing_zeros_from rounds n → n % 2 ^ k ≡ 0
unfolding trailing_zeros_from
trailing_zeros-mod rounds n zero h = mod-one n
trailing_zeros-mod zero n (suc k) h = absurd (omega arith)
trailing_zeros-mod (suc rounds) n (suc k) h = elim (Bool-cases (n % 2 == 0)) [
  | inl even ↦
      let double : 2 ^ suc k ≡ 2 * 2 ^ k = omega (arith, pow-suc 2 k) in
      rw double
        (mod-double n (2 ^ k) (ground arith) (trailing_zeros-mod rounds (n / 2) k (ground arith)))
  | inr odd ↦ absurd (ground arith)
]

pub bit_length-le : (rounds n k : ℕ) → k < bit_length_from rounds n → 2 ^ k ≤ n
unfolding bit_length_from
bit_length-le zero n k h = absurd (omega arith)
bit_length-le (suc rounds) n zero h = ground arith
bit_length-le (suc rounds) n (suc k) h = ground (arith, pow-suc 2 k, bit_length-le rounds (n / 2) k)

bit_length-le-rounds : (rounds n : ℕ) → bit_length_from rounds n ≤ rounds
unfolding bit_length_from
bit_length-le-rounds zero n = omega arith
bit_length-le-rounds (suc rounds) n = ground (arith, bit_length-le-rounds rounds (n / 2))

bit_length_pos : (rounds n : ℕ) → n ≢ 0 → 0 < bit_length_from (suc rounds) n
unfolding bit_length_from
bit_length_pos rounds n h = ground arith

zero-aligned : (s m : ℕ) → s ≡ 0 → s % m ≡ 0
zero-aligned s m e = rw e (zero-mod m)

module _ (start count : ℕ) (pos : count ≢ 0) where
  pub range_order-le : range_order start count ≤ max_order
  unfolding range_order
  range_order-le = omega arith

  pub range_order-fits : 2 ^ range_order start count ≤ count
  unfolding range_order leading_zeros
  range_order-fits =
      bit_length-le 64 count (range_order start count)
        (omega (arith, bit_length-le-rounds 64 count, bit_length_pos 63 count pos))

  pub range_order-aligned : start % 2 ^ range_order start count ≡ 0
  unfolding range_order trailing_zeros
  range_order-aligned = elim (Bool-cases (start == 0)) [
    | inl e ↦ zero-aligned start (2 ^ range_order start count) (ground arith)
    | inr ne ↦ trailing_zeros-mod 64 start (range_order start count) (ground arith)
  ]

-- The frames of the range are in no free block yet.
pub record IsNew (p : Pmm) (start count : ℕ) : Type 0 where
  pub fits : start + count ≤ p.total_frames
  pub unused : (j : ℕ) → in_block start count j ≡ true → is_free p j ≡ false

-- What adding a range does.
pub record IsAdded (p q : Pmm) (start count : ℕ) : Type 0 where
  pub valid : IsValid q
  pub freed : (j : ℕ) → is_free q j ≡ (is_free p j || in_block start count j)
  pub counted : q.free_frames ≡ p.free_frames + count
  pub total : q.total_frames ≡ p.total_frames

module _ (p : Pmm) (v : IsValid p) (start count : ℕ) (new : IsNew p start count)
    (pos : count ≢ 0) where
  abbrev order : ℕ
  order = range_order start count

  next-IsUnused : IsUnused p start order
  next-IsUnused = record {
    order_in = range_order-le start count pos;
    aligned = range_order-aligned start count pos;
    fits = omega (arith, new.fits, range_order-fits start count pos);
    unused = λ j lo hi. ground (arith, new.unused j, range_order-fits start count pos);
  }

  rest-IsNew : (q : Pmm) → IsFreed p q start order → IsNew q (start + 2 ^ order) (count - 2 ^ order)
  rest-IsNew q f = record {
    fits = omega (arith, new.fits, f.total, range_order-fits start count pos);
    unused = λ j inside. ground (arith, f.freed j, new.unused j, range_order-fits start count pos);
  }

  add_block :
      (q r : Pmm)
      → IsFreed p q start order
      → IsAdded q r (start + 2 ^ order) (count - 2 ^ order)
      → IsAdded p r start count
  add_block q r f a = record {
    valid = a.valid;
    freed = λ j. ground (arith, a.freed j, f.freed j, range_order-fits start count pos);
    counted = omega (arith, a.counted, f.counted, range_order-fits start count pos);
    total = a.total ∙ f.total;
  }

add_range_from-adds :
    (fuel : ℕ) (p : Pmm) (start count : ℕ)
    → IsValid p
    → IsNew p start count
    → count < fuel
    → (q : Pmm) × (add_range_from fuel p start count ≡ ok (some q)) × IsAdded p q start count
unfolding add_range_from
add_range_from-adds zero p start count v new fuel = absurd (omega arith)
add_range_from-adds (suc fuel) p start count v new enough = elim (ℕ_discrete count 0) [
  | yes e ↦ (
    p,
    rw (eq→== count 0 e),
    record { valid = v; freed = λ j. ground arith; counted = omega arith; total = refl },
  )
  | no pos ↦
      let order = range_order start count in
      let fits = range_order-fits start count pos in
      let small : shift_frame start ≡ start * frame_size =
        mod-eq_of_lt (omega (arith, v.buddy.addressable, new.fits)) in
      let (q, e, f) = free_pages-frees p v start order (next-IsUnused p v start count new pos) in
      let (r, e', a) =
        add_range_from-adds fuel q (start + 2 ^ order) (count - 2 ^ order) f.valid
          (rest-IsNew p v start count new pos q f) (omega (arith, two-pow-pos order)) in
      (
        r,
        rw
            (
              ne→== count 0 pos,
              small,
              e,
              add64-ok start (2 ^ order) (omega (arith, v.buddy.addressable, new.fits)),
              sub64-ok count (2 ^ order) fits,
            )
            e',
        add_block p v start count new pos q r f a,
      )
]

-- In a valid state `add_range` of a range of frames that are in no free block ends (its fuel is
-- enough) without a panic: afterwards exactly those frames are free besides those that were, the
-- counter has grown by their number, and the state is valid.
pub add_range-adds :
    (p : Pmm) (start count : ℕ)
    → IsValid p
    → IsNew p start count
    → (q : Pmm) × (add_range p start count ≡ ok (some q)) × IsAdded p q start count
unfolding add_range
add_range-adds p start count v new =
    add_range_from-adds (count + 1) p start count v new (omega arith)
