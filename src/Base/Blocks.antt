-- ===== src/Base/Blocks.antt =====
-- Aligned blocks of frames: a block of size `n` starts at a multiple of `n`.
use Prim.Native.Nat.{ℕ, ◌+◌, ◌-◌, ◌*◌, ◌/◌, ◌%◌, ◌≤◌, ◌<◌}
use mathlib.Core.Path.{◌≡◌, ap, ◌∙◌}
use native.Mathlib.Decide.{ℕ_discrete}
use native.Mathlib.Nat.{add-mod_right, div-add-mod'}
use native.Mathlib.Omega.{arith}
use prometheos.Base.Bits.{mod_unique}

module _ (n f : ℕ) (aligned : f % n ≡ 0) where
  aligned_factor : f ≡ f / n * n
  aligned_factor = omega (arith, div-add-mod' f n)

  -- Within a block the remainder is the offset.
  pub aligned_offset : (j : ℕ) → f ≤ j → j < f + n → j % n ≡ j - f
  aligned_offset j lo hi =
      let split : j ≡ f / n * n + (j - f) = omega (arith, aligned_factor) in
      ap (λ t. t % n) split ∙ mod_unique n (f / n) (j - f) (omega arith)

  -- Two aligned blocks of one size that share a frame are the same.
  pub aligned_disjoint : (g j : ℕ) → g % n ≡ 0 → f ≤ j → j < f + n → g ≤ j → j < g + n → f ≡ g
  aligned_disjoint g j even lo hi lo' hi' = omega (arith, aligned_offset j lo hi, other)
    where
      other : j % n ≡ j - g
      other =
          let split : j ≡ g / n * n + (j - g) = omega (arith, div-add-mod' g n) in
          ap (λ t. t % n) split ∙ mod_unique n (g / n) (j - g) (omega arith)

module _ (n f : ℕ) (aligned : f % (2 * n) ≡ 0) where
  -- Both halves of an aligned block are aligned.
  pub aligned_lower : f % n ≡ 0
  aligned_lower =
      let split : f ≡ 2 * (f / (2 * n)) * n + 0 = omega (arith, aligned_factor (2 * n) f aligned) in
      elim (ℕ_discrete n 0) [
        | yes e ↦ rw e (rw e at aligned)
        | no pos ↦ ap (λ t. t % n) split ∙ mod_unique n (2 * (f / (2 * n))) 0 (omega arith)
      ]

  pub aligned_upper : (f + n) % n ≡ 0
  aligned_upper = add-mod_right f n ∙ aligned_lower
