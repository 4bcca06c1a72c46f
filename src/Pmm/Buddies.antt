-- ===== src/Pmm/Buddies.antt =====
-- The bit operations of `free_pages` in kernel/src/mm/pmm.rs: `frame ^ (1 << o)` is the other half
-- of the block of order `o + 1`, and `frame & !(1 << o)` its start.
use native.Mathlib.Decide.{ℕ_discrete}
use native.Mathlib.Nat.{div-add-mod', mul-mod_left, pow-suc}
use prometheos.Base.{
  ℕ, suc, ◌+◌, ◌-◌, ◌*◌, ◌/◌, ◌%◌, ◌^◌, ◌<◌, ◌≡◌, ◌⊎◌, inl, inr, ap, ◌∙◌, arith, bit_xor, u64_size,
}
use prometheos.Base.Bits.{bit_xor-bit, bit_and-clear}
use prometheos.Pmm.{clear_bit}

module _ (o frame : ℕ) (order_in : o < 64) (fits : frame < u64_size)
    (aligned : frame % 2 ^ o ≡ 0) where
  factor : ℕ
  factor = frame / 2 ^ o

  frame_factor : frame ≡ factor * 2 ^ o
  unfolding factor
  frame_factor = omega (arith, div-add-mod' frame (2 ^ o))

  buddy_value : bit_xor frame (2 ^ o) ≡ (factor / 2 * 2 + (1 - factor % 2)) * 2 ^ o
  buddy_value = ap (λ t. bit_xor t (2 ^ o)) frame_factor ∙ bit_xor-bit o factor

  merged_value : clear_bit frame o ≡ factor / 2 * 2 * 2 ^ o
  merged_value =
      ap (λ t. clear_bit t o) frame_factor
      ∙ bit_and-clear o 64 factor order_in (omega (arith, frame_factor))

  -- The block is the lower half or the upper one.
  pub buddy_cases :
      ((bit_xor frame (2 ^ o) ≡ frame + 2 ^ o) × (clear_bit frame o ≡ frame))
      ⊎ ((bit_xor frame (2 ^ o) + 2 ^ o ≡ frame) × (clear_bit frame o ≡ bit_xor frame (2 ^ o)))
  buddy_cases = elim (ℕ_discrete (factor % 2) 0) [
    | yes even ↦
        let whole : factor * 2 ^ o ≡ (factor / 2 * 2) * 2 ^ o = ap (λ t. t * 2 ^ o) (omega arith) in
        let flipped : bit_xor frame (2 ^ o) ≡ (factor / 2 * 2 + 1) * 2 ^ o =
          buddy_value ∙ ap (λ t. (factor / 2 * 2 + (1 - t)) * 2 ^ o) even in
        inl (omega (arith, frame_factor), omega (arith, frame_factor, merged_value))
    | no odd ↦
        let one : factor % 2 ≡ 1 = omega arith in
        let whole : factor * 2 ^ o ≡ (factor / 2 * 2 + 1) * 2 ^ o =
          ap (λ t. t * 2 ^ o) (omega arith) in
        let flipped : bit_xor frame (2 ^ o) ≡ (factor / 2 * 2 + 0) * 2 ^ o =
          buddy_value ∙ ap (λ t. (factor / 2 * 2 + (1 - t)) * 2 ^ o) one in
        inr (omega (arith, frame_factor), omega (arith, merged_value))
  ]

  pub buddy_aligned : bit_xor frame (2 ^ o) % 2 ^ o ≡ 0
  buddy_aligned = rw buddy_value (mul-mod_left (factor / 2 * 2 + (1 - factor % 2)) (2 ^ o))

  pub merged_aligned : clear_bit frame o % 2 ^ suc o ≡ 0
  merged_aligned =
      let split : clear_bit frame o ≡ factor / 2 * 2 ^ suc o =
        omega (arith, merged_value, ap (λ (t : ℕ). factor / 2 * t) (pow-suc 2 o)) in
      rw split (mul-mod_left (factor / 2) (2 ^ suc o))
