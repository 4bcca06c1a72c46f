-- ===== src/Serial/Examples.antt =====
-- The theorem about kernel/src/serial.rs on a line that is not ready at first.
use prometheos.Base.{
  ℕ, ◌+◌, ◌≡◌, refl, ne→==, arith, true, some, List, [], ◌∷◌, ◌++◌, ◌==◌, if◌then◌else◌,
}
use prometheos.Serial.{Port, write_str}
use prometheos.Serial.Written.{received, IsResponsive, write_str_lem}

abbrev line_status : ℕ → ℕ
line_status n = if n == 0 then 0 else 0x20

line_status-IsResponsive : IsResponsive line_status 2
unfolding IsResponsive
line_status-IsResponsive n = (1, omega arith, rw (ne→== (n + 1) 0 (omega arith)) refl)

abbrev port : Port
port = record { polls = 0; sent = []; interrupts = true }

write_str_lem_example :
    (q : Port) × (bytes : List ℕ) × (write_str line_status 2 (72 ∷ 10 ∷ []) port ≡ some q)
    × (q.interrupts ≡ true)
    × (q.sent ≡ [] ++ bytes)
    × (received bytes ≡ (72 ∷ 10 ∷ []))
write_str_lem_example = write_str_lem line_status 2 line_status-IsResponsive (72 ∷ 10 ∷ []) port
