-- ===== src/Tsc/Calibrate.antt =====
-- `calibrate_with_pit` of kernel/src/tsc.rs with its accesses to the timer's ports.
use prometheos.Base.{
  ℕ, zero, suc, ◌+◌, ◌-◌, ◌*◌, ◌/◌, ◌%◌, ◌≤◌, ◌<◌, ◌≡◌, refl, ap, inl, inr, arith, bit_and, bit_or,
  false, List, [], ◌∷◌, ◌++◌, ◌==◌, ok, Bool-cases, u64_size, sub64-ok, mul64-ok,
}
use prometheos.Base.Exec.{done, Exec, ◌>>=◌, ◌>>◌, raise, lift, when}
use prometheos.Tsc.{reload, pit_freq, calibrate_with_pit}

-- The loop has fuel.
pub data Cut : Type 0 where
  no_fuel : Cut

-- The numbers of reads from a port and of the counter, and what is written to which port.
pub record Timer : Type 0 where
  pub reads : ℕ
  pub stamps : ℕ
  pub sent : List (ℕ × ℕ)

-- `input` is what a port gives at each read, and `counter` the time stamp at each read.
module _ (input : (port reads : ℕ) → ℕ) (counter : ℕ → ℕ) where
  abbrev pub inb : (port : ℕ) → Exec Timer Cut ℕ
  inb port t = ok (done (input port t.reads), record t { reads = t.reads + 1 })

  abbrev pub outb : (port value : ℕ) → Exec Timer Cut (Unit {0})
  outb port value t = ok (done tt, record t { sent = t.sent ++ ((port, value) ∷ []) })

  abbrev pub rdtsc : Exec Timer Cut ℕ
  rdtsc t = ok (done (counter t.stamps), record t { stamps = t.stamps + 1 })

  -- `while inb(0x61) & 0x20 == 0 {}`
  unfoldable pub wait_output : (fuel : ℕ) → Exec Timer Cut (Unit {0})
  wait_output zero = raise no_fuel
  wait_output (suc fuel) = do status ← inb 0x61; when (bit_and status 0x20 == 0) (wait_output fuel)

  -- On `u8`, `!0x03` is `0xFC`.
  unfoldable pub calibrate : (fuel : ℕ) → Exec Timer Cut ℕ
  unfolding wait_output calibrate_with_pit
  calibrate fuel = do
    gate ← inb 0x61
    let p61 = bit_and gate 0xFC
    outb 0x61 p61
    outb 0x43 0xB0
    outb 0x42 (reload % 256)
    outb 0x42 (reload / 256)
    start ← rdtsc
    outb 0x61 (bit_or p61 0x01)
    wait_output fuel
    end ← rdtsc
    outb 0x61 p61
    lift (calibrate_with_pit start end)

  -- The output is up at one of the reads that follow.
  wait_output-ends :
      (k fuel : ℕ) (t : Timer)
      → k < fuel
      → (bit_and (input 0x61 (t.reads + k)) 0x20 == 0) ≡ false
      → (n : ℕ) × (n ≤ t.reads + k + 1)
        × (wait_output fuel t ≡ ok (done tt, record t { reads = n }))
  unfolding wait_output
  wait_output-ends k zero t h up = absurd (omega arith)
  wait_output-ends k (suc fuel) t h up =
      elim (Bool-cases (bit_and (input 0x61 t.reads) 0x20 == 0)) [
        | inr here ↦ (t.reads + 1, omega arith, rw here refl)
        | inl low ↦
            elim k
                as (λ k.
                  k < suc fuel
                  → (bit_and (input 0x61 (t.reads + k)) 0x20 == 0) ≡ false
                  → (n : ℕ) × (n ≤ t.reads + k + 1)
                    × (wait_output (suc fuel) t ≡ ok (done tt, record t { reads = n }))) [
                      | zero ↦ λ h up.
                          let same : t.reads + 0 ≡ t.reads = omega arith in
                          absurd (ground (arith, ap (input 0x61) same))
                      | suc j ↦ λ h up.
                          let same : t.reads + 1 + j ≡ t.reads + suc j = omega arith in
                          let (n, small, e) =
                            wait_output-ends j fuel (record t { reads = t.reads + 1 }) (omega arith)
                              (rw same up) in
                          (n, omega (arith, small), rw low e)
                    ]
              h up
      ]

  -- What is written to the ports, when the speaker's port had `gate`: the gate is closed, the timer is
  -- set to count down from `reload`, the gate is opened, and closed again.
  abbrev pub writes : (gate : ℕ) → List (ℕ × ℕ)
  writes gate =
      let p61 = bit_and gate 0xFC in
      (0x61, p61)
      ∷ (0x43, 0xB0)
      ∷ (0x42, 0xFF)
      ∷ (0x42, 0xFF)
      ∷ (0x61, bit_or p61 0x01)
      ∷ (0x61, p61)
      ∷ []

  -- When the timer's output is up at one of as many reads as the fuel, and the counter has not run
  -- backwards meanwhile, nor so far that the product overflows, `calibrate_with_pit` returns. The
  -- frequency is the whole number of ticks that a second has when the run takes `reload` periods of
  -- the timer, and what it writes to the ports is fixed by their state: it ends with the gate closed.
  pub calibrate_lem :
      (k fuel : ℕ)
      → k < fuel
      → (bit_and (input 0x61 (1 + k)) 0x20 == 0) ≡ false
      → counter 0 ≤ counter 1
      → (counter 1 - counter 0) * pit_freq < u64_size
      → (hz : ℕ) × (n : ℕ) × (n ≤ k + 2)
        × (calibrate fuel (record { reads = 0; stamps = 0; sent = [] })
            ≡ ok (done hz, record { reads = n; stamps = 2; sent = writes (input 0x61 0) }))
        × (hz * reload ≤ (counter 1 - counter 0) * pit_freq)
        × ((counter 1 - counter 0) * pit_freq < (hz + 1) * reload)
  unfolding calibrate calibrate_with_pit
  calibrate_lem k fuel h up forward fits =
      let p61 = bit_and (input 0x61 0) 0xFC in
      let armed : Timer = record {
        reads = 1;
        stamps = 1;
        sent =
            (0x61, p61) ∷ (0x43, 0xB0) ∷ (0x42, 0xFF) ∷ (0x42, 0xFF) ∷ (0x61, bit_or p61 0x01) ∷ [];
      } in
      let (n, small, e) = wait_output-ends k fuel armed h up in
      (
        (counter 1 - counter 0) * pit_freq / reload,
        n,
        omega (arith, small),
        rw
            (
              e,
              sub64-ok (counter 1) (counter 0) forward,
              mul64-ok (counter 1 - counter 0) pit_freq fits,
            )
            refl,
        omega arith,
        omega arith,
      )
