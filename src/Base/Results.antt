-- ===== src/Base/Results.antt =====
-- Panics as values, and the checked arithmetic of a build with overflow checks (the `dev` profile,
-- which kernel/GNUmakefile selects by default).
use Prim.Native.Nat.{ℕ, ◌+◌, ◌-◌, ◌*◌, ◌^◌, ◌<◌, ◌≤◌}
use mathlib.Core.Path.{◌≡◌, refl}
use mathlib.Core.Bool.{Bool, true, false}
use native.Mathlib.Omega.{arith}
use prometheos.Base.Tests.{ltb, leb, if◌then◌else◌}

-- Why the kernel stops: a failed assertion, by its message, or a check of the language.
pub data Panic : Type 0 where
  overflow out_of_bounds unwrap_none debug_assertion : Panic
  metadata_length order_out_of_range misaligned_frame free_out_of_range : Panic
  misaligned_block double_free overlap already_installed not_installed not_power_of_two : Panic
  unsupported_size division_by_zero no_region gsi_below_base : Panic

pub data Result {ℓ} (A : Type ℓ) : Type ℓ where
  ok : A → Result A
  panic : Panic → Result A

module _ {κ} {B : Type κ} where
  infixl 5 ◌>>=◌ ◌>>◌
  -- The rest of a block, after a value or not at all.
  abbrev pub ◌>>=◌ {ℓ} : {A : Type ℓ} → Result A → (A → Result B) → Result B
  panic why >>= rest = panic why
  ok value >>= rest = rest value

  abbrev pub ◌>>◌ : Result (Unit {0}) → Result B → Result B
  first >> rest = first >>= λ _. rest

-- `assert!(test)`, with the panic that its message stands for.
abbrev pub check : Bool → Panic → Result (Unit {0})
check true e = ok tt
check false e = panic e

abbrev pub u64_size : ℕ
u64_size = 2 ^ 64

-- `a + b`, `a - b` and `a * b` on `u64` (and `usize`).
unfoldable pub add64 : ℕ → ℕ → Result ℕ
add64 a b = if ltb (a + b) u64_size then ok (a + b) else panic Panic.overflow

unfoldable pub sub64 : ℕ → ℕ → Result ℕ
sub64 a b = if leb b a then ok (a - b) else panic Panic.overflow

unfoldable pub mul64 : ℕ → ℕ → Result ℕ
mul64 a b = if ltb (a * b) u64_size then ok (a * b) else panic Panic.overflow

pub add64-ok : (a b : ℕ) → a + b < u64_size → add64 a b ≡ ok (a + b)
unfolding add64
add64-ok a b h = ground arith

pub sub64-ok : (a b : ℕ) → b ≤ a → sub64 a b ≡ ok (a - b)
unfolding sub64
sub64-ok a b h = ground arith

pub mul64-ok : (a b : ℕ) → a * b < u64_size → mul64 a b ≡ ok (a * b)
unfolding mul64
mul64-ok a b h = ground arith

module _ {ℓ κ} {A : Type ℓ} {B : Type κ} where
  -- Inversion of a block that returned.
  pub >>=-eq-ok :
      (step : Result A) (rest : A → Result B) {value : B} (h : (step >>= rest) ≡ ok value)
      → (x : A) × (step ≡ ok x) × (rest x ≡ ok value)
  >>=-eq-ok (panic why) rest h = cc
  >>=-eq-ok (ok x) rest h = (x, refl, h)
