-- ===== src/Serial/Written.antt =====
-- What kernel/src/serial.rs sends for a string.
use mathlib.Core.List.{append_assoc, append-nil}
use prometheos.Base.{
  ℕ, zero, suc, ◌+◌, ◌-◌, ◌<◌, ◌≡◌, refl, sym, inl, inr, Bool, true, false, some, List, [], ◌∷◌,
  ◌++◌, ◌==◌, ◌&&◌, if◌then◌else◌, Bool-cases, arith, bit_and,
}
use prometheos.Serial.{
  Port, carriage_return, newline, transmit_ready, polled, wait, write_byte, write_bytes, write_str,
  critical_section,
}

-- A reader that drops each carriage return before a newline.
abbrev pub starts_line : List ℕ → Bool
starts_line [] = false
starts_line (b ∷ s) = b == newline

unfoldable pub received : List ℕ → List ℕ
received [] = []
received (b ∷ s) =
    let rest = received s in if b == carriage_return && starts_line s then rest else b ∷ rest

-- What is sent for a string.
unfoldable pub converted : List ℕ → List ℕ
converted [] = []
converted (b ∷ s) =
    let rest = converted s in if b == newline then carriage_return ∷ b ∷ rest else b ∷ rest

module _ (status : ℕ → ℕ) (fuel : ℕ) where
  -- The line becomes ready within as many reads as the fuel.
  unfoldable pub IsResponsive : Type 0
  IsResponsive = (n : ℕ) → (m : ℕ) × (m < fuel) × ((bit_and (status (n + m)) 0x20 == 0) ≡ false)

wait_lem :
    (status : ℕ → ℕ) (rounds : ℕ) (p : Port) (m : ℕ)
    → m < rounds
    → (bit_and (status (p.polls + m)) 0x20 == 0) ≡ false
    → (n : ℕ) × (wait status rounds p ≡ some (record p { polls = n }))
unfolding wait transmit_ready
wait_lem status zero p m h ready = absurd (omega arith)
wait_lem status (suc rounds) p m h ready = elim (Bool-cases (bit_and (status p.polls) 0x20 == 0)) [
  | inr now ↦ (p.polls + 1, rw now refl)
  | inl busy ↦ elim (Bool-cases (m == 0)) [
    | inl first ↦ absurd (ground arith)
    | inr later ↦
        let same : p.polls + m ≡ p.polls + 1 + (m - 1) = ground arith in
        let (n, e) = wait_lem status rounds (polled p) (m - 1) (ground arith) (rw⁻¹ same ready) in
        (n, rw (busy, e) refl)
  ]
]

kept : (t : Bool) (x y : List ℕ) → (if t && false then x else y) ≡ y
kept true x y = refl
kept false x y = refl

starts-converted : (s : List ℕ) → starts_line (converted s) ≡ false
unfolding converted
starts-converted [] = refl
starts-converted (b ∷ s) = elim (Bool-cases (b == newline)) [
  | inl line ↦ rw line refl
  | inr other ↦ rw other other
]

received-converted : (s : List ℕ) → received (converted s) ≡ s
unfolding received converted
received-converted [] = refl
received-converted (b ∷ s) = elim (Bool-cases (b == newline)) [
  | inl line ↦
      rw (line, line, starts-converted s, received-converted s)
        (kept (b == carriage_return) s (b ∷ s))
  | inr other ↦
      rw (other, starts-converted s, received-converted s) (kept (b == carriage_return) s (b ∷ s))
]

module _ (status : ℕ → ℕ) (fuel : ℕ) (responsive : IsResponsive status fuel) where
  write_byte_lem :
      (b : ℕ) (p : Port)
      → (n : ℕ) × (write_byte status fuel b p
          ≡ some (record p { polls = n; sent = p.sent ++ (b ∷ []) }))
  unfolding write_byte IsResponsive
  write_byte_lem b p =
      let (m, h, ready) = responsive p.polls in
      let (n, e) = wait_lem status fuel p m h ready in (n, rw e refl)

  write_bytes_lem :
      (s : List ℕ) (p : Port)
      → (n : ℕ) × (write_bytes status fuel s p
          ≡ some (record p { polls = n; sent = p.sent ++ converted s }))
  unfolding write_bytes converted
  write_bytes_lem [] p = (p.polls, rw (append-nil p.sent) refl)
  write_bytes_lem (b ∷ s) p = elim (Bool-cases (b == newline)) [
    | inl line ↦
        let (n1, e1) = write_byte_lem carriage_return p in
        let p1 = record p { polls = n1; sent = p.sent ++ (carriage_return ∷ []) } in
        let (n2, e2) = write_byte_lem b p1 in
        let p2 = record p1 { polls = n2; sent = p1.sent ++ (b ∷ []) } in
        let (n3, e3) = write_bytes_lem s p2 in
        (
          n3,
          rw
              (
                line,
                e1,
                e2,
                e3,
                append_assoc p1.sent (b ∷ []) (converted s),
                append_assoc p.sent (carriage_return ∷ []) (b ∷ converted s),
              )
              refl,
        )
    | inr other ↦
        let (n2, e2) = write_byte_lem b p in
        let p2 = record p { polls = n2; sent = p.sent ++ (b ∷ []) } in
        let (n3, e3) = write_bytes_lem s p2 in
        (n3, rw (other, e2, e3, append_assoc p.sent (b ∷ []) (converted s)) refl)
  ]

  -- When the line becomes ready within as many reads as the fuel, from any read on, `write_str` returns
  -- with the processor's interrupt flag as it was, and has sent bytes after those sent before from which
  -- a reader that drops each carriage return before a newline gets the string back.
  pub write_str_lem :
      (s : List ℕ) (p : Port)
      → (q : Port) × (bytes : List ℕ) × (write_str status fuel s p ≡ some q)
        × (q.interrupts ≡ p.interrupts)
        × (q.sent ≡ p.sent ++ bytes)
        × (received bytes ≡ s)
  unfolding write_str critical_section
  write_str_lem s p =
      let (n, e) = write_bytes_lem s (record p { interrupts = false }) in
      elim (Bool-cases p.interrupts) [
        | inl on ↦ (
          record p { polls = n; sent = p.sent ++ converted s; interrupts = true },
          converted s,
          rw (e, on) refl,
          sym on,
          refl,
          received-converted s,
        )
        | inr off ↦ (
          record p { polls = n; sent = p.sent ++ converted s; interrupts = false },
          converted s,
          rw (e, off) refl,
          sym off,
          refl,
          received-converted s,
        )
      ]
