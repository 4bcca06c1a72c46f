-- ===== src/Base/Words.antt =====
-- The methods of `u64` that count zero bits.
use Prim.Native.Nat.{ℕ, zero, suc, ◌-◌, ◌/◌, ◌%◌}
use prometheos.Base.Tests.{◌==◌, if◌then◌else◌}

-- The zero bits below the lowest one, of the `rounds` lowest bits.
unfoldable pub trailing_zeros_from : ℕ → ℕ → ℕ
trailing_zeros_from zero n = 0
trailing_zeros_from (suc rounds) n =
    let rest = trailing_zeros_from rounds (n / 2) in if n % 2 == 0 then suc rest else 0

-- `n.trailing_zeros()`, which is 64 at 0.
unfoldable pub trailing_zeros : ℕ → ℕ
unfolding trailing_zeros_from
trailing_zeros n = trailing_zeros_from 64 n

-- The number of binary digits, of at most `rounds`.
unfoldable pub bit_length_from : ℕ → ℕ → ℕ
bit_length_from zero n = 0
bit_length_from (suc rounds) n =
    let rest = bit_length_from rounds (n / 2) in if n == 0 then 0 else suc rest

-- `n.leading_zeros()`, which is 64 at 0.
unfoldable pub leading_zeros : ℕ → ℕ
unfolding bit_length_from
leading_zeros n = 64 - bit_length_from 64 n
