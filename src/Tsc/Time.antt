-- ===== src/Tsc/Time.antt =====
-- The time of kernel/src/tsc.rs: what it is, and that it does not run backwards.
use native.Mathlib.Nat.{
  div-add-mod', mod-lt, mod-eq_of_lt, div-mul-le_self, le-div_iff_mul-le, div-lt_iff_lt-mul,
}
use prometheos.Base.{ℕ, ◌+◌, ◌-◌, ◌*◌, ◌/◌, ◌^◌, ◌≤◌, ◌<◌, ◌≡◌, refl, arith, ok, sub64-ok, ne→==}
use prometheos.Tsc.{Clock, current_time_ns}

module _ (c : Clock) (pos : 0 < c.tsc_frequency) where
  nanoseconds : ℕ → ℕ
  nanoseconds tsc = (tsc - c.boot_tsc) * 1000000000 / c.tsc_frequency

  returns :
      (tsc : ℕ)
      → c.boot_tsc ≤ tsc
      → nanoseconds tsc < 2 ^ 64
      → current_time_ns c tsc ≡ ok (nanoseconds tsc)
  unfolding current_time_ns nanoseconds
  returns tsc after fits =
      rw
        (
          sub64-ok tsc c.boot_tsc after,
          ne→== c.tsc_frequency 0 (omega (arith, pos)),
          mod-eq_of_lt fits,
        )
        refl

  below : (x y : ℕ) → x ≤ y → x / c.tsc_frequency ≤ y / c.tsc_frequency
  below x y h = (le-div_iff_mul-le pos).1 (omega (arith, div-mul-le_self x c.tsc_frequency, h))

  -- When the frequency is not 0, two readings of the counter in order, both from boot on and the second
  -- one before the nanoseconds since boot reach 2^64, give times in order, of which the second one is
  -- the number of whole nanoseconds since boot.
  pub current_time_ns_mono :
      (first second : ℕ) (after : c.boot_tsc ≤ first) (later : first ≤ second)
      (fits : (second - c.boot_tsc) * 1000000000 < 2 ^ 64 * c.tsc_frequency)
      → (m : ℕ) × (n : ℕ) × (current_time_ns c first ≡ ok m)
        × (current_time_ns c second ≡ ok n)
        × (m ≤ n)
        × (n * c.tsc_frequency ≤ (second - c.boot_tsc) * 1000000000)
        × ((second - c.boot_tsc) * 1000000000 < (n + 1) * c.tsc_frequency)
  unfolding nanoseconds
  current_time_ns_mono first second after later fits =
      let ordered : nanoseconds first ≤ nanoseconds second =
        below ((first - c.boot_tsc) * 1000000000) ((second - c.boot_tsc) * 1000000000)
          (omega arith) in
      let small : nanoseconds second < 2 ^ 64 = (div-lt_iff_lt-mul pos).1 fits in
      let whole = (second - c.boot_tsc) * 1000000000 in
      (
        nanoseconds first,
        nanoseconds second,
        returns first after (omega (arith, ordered, small)),
        returns second (omega (arith, after, later)) small,
        ordered,
        div-mul-le_self whole c.tsc_frequency,
        omega (arith, div-add-mod' whole c.tsc_frequency, mod-lt whole pos),
      )
