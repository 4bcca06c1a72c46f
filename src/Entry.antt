-- ===== src/Entry.antt =====
-- kernel/src/main.rs: the control registers and the line on the screen of `kmain`.
use prometheos.Base.{
  ℕ, zero, suc, ◌+◌, ◌-◌, ◌*◌, bit_and, bit_or, List, Result, ok, ◌>>=◌, write, add64, mul64,
  u64_size,
}
pub mod Drawn
mod Examples

-- The x86 crate's bits of the control registers.
pub record ControlBits : Type 0 where
  pub emulate_coprocessor : ℕ
  pub monitor_coprocessor : ℕ
  pub enable_sse : ℕ
  pub unmasked_sse : ℕ

-- The new values of `cr0` and `cr4`.
unfoldable pub enable_sse : ControlBits → (cr0 cr4 : ℕ) → ℕ × ℕ
enable_sse x cr0 cr4 = (
  bit_or (bit_and cr0 (u64_size - 1 - x.emulate_coprocessor)) x.monitor_coprocessor,
  bit_or cr4 (bit_or x.enable_sse x.unmasked_sse),
)

abbrev pub white : ℕ
white = 0xFFFFFFFF

-- The loop over the rounds that are left, from round `i` on; `fb` are the pixels.
unfoldable pub draw_from : (left i pitch_pixels : ℕ) → List ℕ → Result (List ℕ)
draw_from zero i pitch_pixels fb = ok fb
draw_from (suc left) i pitch_pixels fb = do
  line ← mul64 i pitch_pixels
  pixel_offset ← add64 line i
  fb' ← write fb pixel_offset white
  draw_from left (i + 1) pitch_pixels fb'

unfoldable pub draw : (pitch_pixels : ℕ) → List ℕ → Result (List ℕ)
unfolding draw_from
draw pitch_pixels fb = draw_from 100 0 pitch_pixels fb
