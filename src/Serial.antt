-- ===== src/Serial.antt =====
-- kernel/src/serial.rs: writing to the serial port; and `critical_section` of kernel/src/utils.rs.
use prometheos.Base.{
  ℕ, zero, suc, ◌+◌, bit_and, Bool, true, false, not, Option, none, some, List, [], ◌∷◌, ◌++◌, ◌==◌,
  if◌then◌else◌,
}
pub mod Written
pub mod Examples

-- `polls` counts the reads of the line status, `sent` are the bytes written, and `interrupts` is the
-- processor's interrupt flag.
pub record Port : Type 0 where
  pub polls : ℕ
  pub sent : List ℕ
  pub interrupts : Bool

abbrev pub com1 : ℕ
com1 = 0x3F8

-- What `init` writes to which port.
abbrev pub init_writes : List (ℕ × ℕ)
init_writes =
    (com1 + 1, 0x00)
    ∷ (com1 + 3, 0x80)
    ∷ (com1 + 0, 0x03)
    ∷ (com1 + 1, 0x00)
    ∷ (com1 + 3, 0x03)
    ∷ (com1 + 2, 0xC7)
    ∷ (com1 + 4, 0x0B)
    ∷ []

abbrev pub carriage_return : ℕ
carriage_return = 13

abbrev pub newline : ℕ
newline = 10

abbrev pub and_then : Option Port → (Port → Option Port) → Option Port
and_then none next = none
and_then (some p) next = next p

abbrev pub polled : Port → Port
polled p = record p { polls = p.polls + 1 }

-- The body may run out of fuel, which is `none`.
unfoldable pub critical_section : (Port → Option Port) → Port → Option Port
critical_section body p =
    let enabled = p.interrupts in
    and_then (body (record p { interrupts = false }))
      (λ q. some (if enabled then record q { interrupts = true } else q))

-- `status` is the hardware: the line status at each read.
module _ (status : ℕ → ℕ) where
  unfoldable pub transmit_ready : Port → Bool
  transmit_ready p = not (bit_and (status p.polls) 0x20 == 0)

  -- The loop of `write_byte`.
  unfoldable pub wait : (fuel : ℕ) → Port → Option Port
  unfolding transmit_ready
  wait zero p = none
  wait (suc fuel) p =
      let rest = wait fuel (polled p) in if transmit_ready p then some (polled p) else rest

  unfoldable pub write_byte : (fuel : ℕ) → (b : ℕ) → Port → Option Port
  unfolding wait
  write_byte fuel b p = and_then (wait fuel p) (λ q. some (record q { sent = q.sent ++ (b ∷ []) }))

  unfoldable pub write_bytes : (fuel : ℕ) → List ℕ → Port → Option Port
  unfolding write_byte
  write_bytes fuel [] p = some p
  write_bytes fuel (b ∷ s) p =
      and_then (if b == newline then write_byte fuel carriage_return p else some p)
        (λ q. and_then (write_byte fuel b q) (write_bytes fuel s))

  unfoldable pub write_str : (fuel : ℕ) → List ℕ → Port → Option Port
  unfolding critical_section write_bytes
  write_str fuel s = critical_section (write_bytes fuel s)
