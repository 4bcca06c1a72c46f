-- ===== src/Memory/Align.antt =====
-- `align_up` and `align_down` of kernel/src/mm/mod.rs.
use native.Mathlib.Nat.{one-le-pow, mod-lt, div-add-mod', pow-le-pow_right}
use prometheos.Base.{
  ℕ, ◌+◌, ◌-◌, ◌*◌, ◌/◌, ◌%◌, ◌^◌, ◌≤◌, ◌<◌, ◌≡◌, refl, ◌∙◌, ap, arith, bit_and, Bool, true, ◌&&◌,
  ltb, ◌==◌, lt→ltb, Panic, Result, ok, ◌>>=◌, ◌>>◌, check, u64_size, add64, add64-ok, sub64,
  sub64-ok,
}
use prometheos.Base.Bits.{bit_and-low, bit_and-high, mod_unique}

-- `n.is_power_of_two()`: one bit is set, so that `n - 1` shares none with `n`.
unfoldable pub is_power_of_two : ℕ → Bool
is_power_of_two n = ltb 0 n && bit_and n (n - 1) == 0

-- `!n` on `u64`
abbrev pub not64 : ℕ → ℕ
not64 n = u64_size - 1 - n

unfoldable pub align_up : (addr align : ℕ) → Result ℕ
unfolding is_power_of_two
align_up addr align = do
  check (is_power_of_two align) Panic.not_power_of_two
  sum ← add64 addr align
  top ← sub64 sum 1
  mask ← sub64 align 1
  ok (bit_and top (not64 mask))

unfoldable pub align_down : (addr align : ℕ) → Result ℕ
unfolding is_power_of_two
align_down addr align = do
  check (is_power_of_two align) Panic.not_power_of_two
  mask ← sub64 align 1
  ok (bit_and addr (not64 mask))

multiple_mod : (m q : ℕ) → 1 ≤ m → q * m % m ≡ 0
multiple_mod m q pos =
    let same : q * m ≡ q * m + 0 = omega arith in ap (λ t. t % m) same ∙ mod_unique m q 0 pos

two_pow-is_power : (k : ℕ) → is_power_of_two (2 ^ k) ≡ true
unfolding is_power_of_two
two_pow-is_power k =
    let pos = one-le-pow k 2 (omega arith) in
    let zero_bits : bit_and (2 ^ k) (2 ^ k - 1) ≡ 0 =
      let once : 2 ^ k ≡ 1 * 2 ^ k = omega arith in
      bit_and-low k (2 ^ k) ∙ ap (λ t. t % 2 ^ k) once ∙ multiple_mod (2 ^ k) 1 pos in
    rw (lt→ltb 0 (2 ^ k) (omega (arith, pos)), zero_bits) refl

-- `a / 2 ^ k * 2 ^ k` is the last multiple up to `a`.
last_multiple : (m a : ℕ) → 1 ≤ m → (a / m * m ≤ a) × (a < a / m * m + m) × (a / m * m % m ≡ 0)
last_multiple m a pos =
    let parts = div-add-mod' a m in
    let small : a % m < m = mod-lt a pos in
    (omega (arith, parts, small), omega (arith, parts, small), multiple_mod m (a / m) pos)

-- `x & !(2 ^ k - 1)`
clear_low :
    (k a : ℕ)
    → k < 64
    → a < u64_size
    → (sub64 (2 ^ k) 1 ≡ ok (2 ^ k - 1)) × (bit_and a (not64 (2 ^ k - 1)) ≡ a / 2 ^ k * 2 ^ k)
clear_low k a bound fits =
    let pos = one-le-pow k 2 (omega arith) in
    let most : 2 ^ k ≤ 2 ^ 64 =
      pow-le-pow_right {n = 2} (omega arith) {i = k} {j = 64} (omega arith) in
    let mask : not64 (2 ^ k - 1) ≡ 2 ^ 64 - 2 ^ k = omega (arith, pos, most) in
    (sub64-ok (2 ^ k) 1 pos, ap (bit_and a) mask ∙ bit_and-high k 64 a (omega arith) fits)

-- For a power of two below 2^64, `align_down` of an address returns the last multiple of it that is
-- not above the address.
pub align_down_lem :
    (k a : ℕ)
    → k < 64
    → a < u64_size
    → (r : ℕ) × (align_down a (2 ^ k) ≡ ok r) × (r ≤ a) × (a < r + 2 ^ k) × (r % 2 ^ k ≡ 0)
unfolding align_down
align_down_lem k a bound fits =
    let (mask, clear) = clear_low k a bound fits in
    let (below, close, multiple) = last_multiple (2 ^ k) a (one-le-pow k 2 (omega arith)) in
    (a / 2 ^ k * 2 ^ k, rw (two_pow-is_power k, mask, clear) refl, below, close, multiple)

-- For a power of two below 2^64 and an address whose sum with it is below 2^64, `align_up` returns
-- the first multiple of the power that is not below the address.
pub align_up_lem :
    (k a : ℕ)
    → k < 64
    → a + 2 ^ k < u64_size
    → (r : ℕ) × (align_up a (2 ^ k) ≡ ok r) × (a ≤ r) × (r < a + 2 ^ k) × (r % 2 ^ k ≡ 0)
unfolding align_up
align_up_lem k a bound fits =
    let pos = one-le-pow k 2 (omega arith) in
    let top = a + 2 ^ k - 1 in
    let (mask, clear) = clear_low k top bound (omega arith) in
    let (below, close, multiple) = last_multiple (2 ^ k) top pos in
    let sum = add64-ok a (2 ^ k) fits in
    let less = sub64-ok (a + 2 ^ k) 1 (omega (arith, pos)) in
    (
      top / 2 ^ k * 2 ^ k,
      rw (two_pow-is_power k, sum, less, mask, clear) refl,
      omega (arith, close, pos),
      omega (arith, below, pos),
      multiple,
    )
