-- ===== src/Base/Bits.antt =====
-- `&`, `^` and `!` of machine words as arithmetic, at every width and bit position.
use Prim.Native.Nat.{
  ℕ, zero, suc, ◌+◌, ◌-◌, ◌*◌, ◌/◌, ◌%◌, ◌^◌, ◌≤◌, ◌<◌, min, differ, digits, bitwise, bit_and,
  bit_xor, bit_and-bitwise, bit_xor-bitwise,
}
use mathlib.Core.Path.{◌≡◌, refl, sym, ap, ◌∙◌}
use native.Mathlib.Nat.{
  pow-suc, one-le-pow, le_refl, mod-lt, mod-eq_of_lt, mul-add-mod_self_right, div-add-mod',
  div-div-eq-div-mul, pow-le-pow_right,
}
use native.Mathlib.Omega.{arith}

module _ (z : ℕ → ℕ) (f : ℕ → ℕ → ℕ) where
  -- Any two supplies of fuel that reach the first number give the same digits.
  digits_agree : (k l a b : ℕ) → a ≤ k → a ≤ l → digits z f k a b ≡ digits z f l a b
  digits_agree (suc k) (suc l) (suc a) b below below' =
      let rest = digits_agree k l (suc a / 2) (b / 2) (omega arith) (omega arith) in
      ap (λ t. t * 2 + f (suc a % 2) (b % 2)) rest
  digits_agree (suc k) (suc l) zero b _ _ = refl
  digits_agree (suc k) zero zero b _ _ = refl
  digits_agree (suc k) zero (suc a) b _ below' = absurd (omega arith)
  digits_agree zero (suc l) zero b _ _ = refl
  digits_agree zero l (suc a) b below _ = absurd (omega arith)
  digits_agree zero zero zero b _ _ = refl

  -- The lowest digit comes first, also where no digit of the first number is left.
  lowest_digit :
      (none_left : (y : ℕ) → z y ≡ z (y / 2) * 2 + f 0 (y % 2)) (x y : ℕ)
      → bitwise z f x y ≡ bitwise z f (x / 2) (y / 2) * 2 + f (x % 2) (y % 2)
  lowest_digit none_left zero y = none_left y
  lowest_digit none_left (suc n) y =
      let half = suc n / 2 in
      let enough = digits_agree n half half (y / 2) (omega arith) (omega arith) in
      ap (λ high. high * 2 + f (suc n % 2) (y % 2)) enough

pub bit_xor_step : (x y : ℕ) → bit_xor x y ≡ bit_xor (x / 2) (y / 2) * 2 + differ (x % 2) (y % 2)
bit_xor_step x y = simp bit_xor-bitwise (lowest_digit (λ v. v) differ (λ v. omega arith) x y)

pub bit_and_step : (x y : ℕ) → bit_and x y ≡ bit_and (x / 2) (y / 2) * 2 + min (x % 2) (y % 2)
bit_and_step x y = simp bit_and-bitwise (lowest_digit (λ _. 0) min (λ v. omega arith) x y)

differ-zero : (b : ℕ) → differ b 0 ≡ b
differ-zero zero = refl
differ-zero (suc b) = refl

differ-one : (b : ℕ) → b < 2 → differ b 1 ≡ 1 - b
differ-one zero h = refl
differ-one (suc zero) h = refl
differ-one (suc (suc b)) h = absurd (omega arith)

-- The laws at zero, for every number up to a bound.
xor-zero_below : (n a : ℕ) → a ≤ n → bit_xor a 0 ≡ a
xor-zero_below n zero h = refl
xor-zero_below zero (suc a) h = absurd (omega arith)
xor-zero_below (suc n) (suc a) h = omega (
  arith,
  bit_xor_step (suc a) 0,
  differ-zero (suc a % 2),
  xor-zero_below n (suc a / 2) (omega arith),
)

and-zero_below : (n a : ℕ) → a ≤ n → bit_and a 0 ≡ 0
and-zero_below n zero h = refl
and-zero_below zero (suc a) h = absurd (omega arith)
and-zero_below (suc n) (suc a) h =
    omega (arith, bit_and_step (suc a) 0, and-zero_below n (suc a / 2) (omega arith))

pub bit_xor-one : (a : ℕ) → bit_xor a 1 ≡ a / 2 * 2 + (1 - a % 2)
bit_xor-one a = omega (
  arith,
  bit_xor_step a 1,
  xor-zero_below (a / 2) (a / 2) (le_refl _),
  differ-one (a % 2) (omega arith),
)

mul-two-pow-suc : (a k : ℕ) → a * 2 ^ suc k ≡ 2 * (a * 2 ^ k)
mul-two-pow-suc q k = omega (arith, sym (ap (λ n. q * n) (pow-suc 2 k)))

-- Flipping bit `k` of a multiple of `2 ^ k` flips the lowest bit of the factor.
pub bit_xor-bit : (k q : ℕ) → bit_xor (q * 2 ^ k) (2 ^ k) ≡ (q / 2 * 2 + (1 - q % 2)) * 2 ^ k
bit_xor-bit zero q = let one : q * 1 ≡ q = omega arith in rw one (omega (arith, bit_xor-one q))
bit_xor-bit (suc k) q =
    let double = mul-two-pow-suc q k in
    let half : q * 2 ^ suc k / 2 ≡ q * 2 ^ k = omega arith in
    let half' : 2 ^ suc k / 2 ≡ 2 ^ k = omega (arith, pow-suc 2 k) in
    let even : q * 2 ^ suc k % 2 ≡ 0 = omega arith in
    let even' : 2 ^ suc k % 2 ≡ 0 = omega (arith, pow-suc 2 k) in
    bit_xor_step (q * 2 ^ suc k) (2 ^ suc k)
    ∙ rw (half, half', even, even', bit_xor-bit k q)
        (omega (arith, mul-two-pow-suc (q / 2 * 2 + (1 - q % 2)) k))

pub mod_unique : (m q r : ℕ) → r < m → (q * m + r) % m ≡ r
mod_unique m q r h = mul-add-mod_self_right q m r ∙ mod-eq_of_lt h

mod-two-pow-suc : (w a : ℕ) → a / 2 % 2 ^ w * 2 + min (a % 2) 1 ≡ a % 2 ^ suc w
mod-two-pow-suc w a =
    let p = 2 ^ w in
    let q = a / 2 / p in
    let r = a / 2 % p in
    let small : r < p = mod-lt (a / 2) (one-le-pow w 2 (omega arith)) in
    let double : 2 ^ suc w ≡ 2 * p = omega (arith, pow-suc 2 w) in
    let split : a ≡ q * (2 * p) + (r * 2 + min (a % 2) 1) = omega (arith, div-add-mod' (a / 2) p) in
    rw double (sym (ap (λ t. t % (2 * p)) split ∙ mod_unique (2 * p) q _ (omega arith)))

-- `a & (2^w - 1)` keeps the low `w` bits.
pub bit_and-low : (w a : ℕ) → bit_and a (2 ^ w - 1) ≡ a % 2 ^ w
bit_and-low zero a = omega (arith, and-zero_below a a (le_refl _))
bit_and-low (suc w) a =
    let half : (2 ^ suc w - 1) / 2 ≡ 2 ^ w - 1 = omega (arith, pow-suc 2 w, one-le-pow w 2) in
    let odd : (2 ^ suc w - 1) % 2 ≡ 1 = omega (arith, pow-suc 2 w, one-le-pow w 2) in
    bit_and_step a (2 ^ suc w - 1) ∙ rw (half, odd, bit_and-low w (a / 2)) (mod-two-pow-suc w a)

-- `a & !(2^k - 1)` in a word of `w` bits clears the low `k` bits.
pub bit_and-high : (k w a : ℕ) → k ≤ w → a < 2 ^ w → bit_and a (2 ^ w - 2 ^ k) ≡ a / 2 ^ k * 2 ^ k
bit_and-high zero w a h fits = bit_and-low w a ∙ rw (mod-eq_of_lt fits) (omega arith)
bit_and-high (suc k) zero a h fits = absurd (omega arith)
bit_and-high (suc k) (suc w) a h fits =
    let half : (2 ^ suc w - 2 ^ suc k) / 2 ≡ 2 ^ w - 2 ^ k =
      omega (arith, pow-suc 2 w, pow-suc 2 k) in
    let even : (2 ^ suc w - 2 ^ suc k) % 2 ≡ 0 = omega (arith, pow-suc 2 w, pow-suc 2 k) in
    let inner = bit_and-high k w (a / 2) (omega arith) (omega (arith, pow-suc 2 w)) in
    bit_and_step a (2 ^ suc w - 2 ^ suc k)
    ∙ rw (half, even, inner, div-div-eq-div-mul a 2 (2 ^ k), ← twice)
        (omega (arith, mul-two-pow-suc (a / 2 ^ suc k) k))
  where
    twice : 2 ^ suc k ≡ 2 * 2 ^ k
    twice = omega (arith, pow-suc 2 k)

-- `a & !(1 << k)` on a multiple of `2 ^ k` clears the lowest bit of the factor.
pub bit_and-clear :
    (k w q : ℕ)
    → k < w
    → q * 2 ^ k < 2 ^ w
    → bit_and (q * 2 ^ k) (2 ^ w - 1 - 2 ^ k) ≡ q / 2 * 2 * 2 ^ k
bit_and-clear k zero q h fits = absurd (omega arith)
bit_and-clear zero (suc w) q h fits =
    let half : (2 ^ suc w - 1 - 1) / 2 ≡ 2 ^ w - 1 = omega (arith, pow-suc 2 w, one-le-pow w 2) in
    let even : (2 ^ suc w - 1 - 1) % 2 ≡ 0 = omega (arith, pow-suc 2 w, one-le-pow w 2) in
    let same : q * 1 ≡ q = omega arith in
    let small : q / 2 < 2 ^ w = omega (arith, pow-suc 2 w) in
    rw same (
      bit_and_step q (2 ^ suc w - 1 - 1)
      ∙ rw (half, even, bit_and-low w (q / 2), mod-eq_of_lt small) (omega arith))
bit_and-clear (suc k) (suc w) q h fits =
    let bound : 2 * 2 ^ k ≤ 2 ^ w = omega (
      arith,
      pow-suc 2 k,
      pow-le-pow_right {n = 2} (omega arith) {i = suc k} {j = w} (omega arith),
    ) in
    let half : (2 ^ suc w - 1 - 2 ^ suc k) / 2 ≡ 2 ^ w - 1 - 2 ^ k =
      omega (arith, pow-suc 2 w, pow-suc 2 k, one-le-pow k 2) in
    let odd : (2 ^ suc w - 1 - 2 ^ suc k) % 2 ≡ 1 =
      omega (arith, pow-suc 2 w, pow-suc 2 k, one-le-pow k 2) in
    let double = mul-two-pow-suc q k in
    let down : q * 2 ^ suc k / 2 ≡ q * 2 ^ k = omega arith in
    let even : q * 2 ^ suc k % 2 ≡ 0 = omega arith in
    let inner = bit_and-clear k w q (omega arith) (omega (arith, pow-suc 2 w)) in
    bit_and_step (q * 2 ^ suc k) (2 ^ suc w - 1 - 2 ^ suc k)
    ∙ rw (down, half, even, odd, inner) (omega (arith, mul-two-pow-suc (q / 2 * 2) k))
