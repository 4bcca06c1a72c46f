-- ===== src/Acpi/Mutex.antt =====
-- How `uacpi_kernel_acquire_mutex` of kernel/src/acpi/uacpi.rs ends when it has a timeout.
use prometheos.Base.{
  ℕ, zero, suc, ◌+◌, ◌-◌, ◌*◌, ◌≤◌, ◌<◌, ◌≡◌, ◌≢◌, refl, ap, ◌∙◌, inl, inr, arith, Bool, true,
  false, ltb, ◌==◌, if◌then◌else◌, Bool-cases, ne→==, ok, u64_size, add64-ok, mul64-ok,
}
use prometheos.Base.Exec.{done, continue}
use prometheos.Acpi.Status.{success, timeout}
use prometheos.Acpi.Clock.{Waiter, sleep, acquire_until, acquire_mutex}
use prometheos.Acpi.Sleeps.{Passes, sleep_lem}

module _ (clock : ℕ → ℕ) (busy : ℕ → Bool) where
  -- The clock up to a reading: it does not run backwards, stays a minute and a half below 2^64, and a
  -- millisecond passes within some readings.
  pub record IsClock (spins last : ℕ) : Type 0 where
    pub forward : (n : ℕ) → n < last → clock n ≤ clock (n + 1)
    pub fits : (n : ℕ) → n ≤ last → clock n + 90000000000 < u64_size
    pub passes : (n : ℕ) → n < last → Passes clock busy spins 1 n

  -- What a wait did from `w` to `w'`, with the time up at `limit`.
  pub record Ended (limit : ℕ) (w : Waiter) (locked : Bool) (w' : Waiter) : Type 0 where
    pub tries : w.tries ≤ w'.tries
    pub refused : (t : ℕ) → w.tries ≤ t → (if locked then t + 1 else t) < w'.tries → busy t ≡ true
    pub won : locked ≡ true → (w.tries < w'.tries) × (busy (w'.tries - 1) ≡ false)
    pub late : locked ≡ false → limit ≤ clock (w'.reads - 1)

  module _ (spins time timeout_ms : ℕ) (small : timeout_ms < 0x10000)
      (start : time + 90000000000 < u64_size) where
    abbrev limit : ℕ
    limit = time + timeout_ms * 1000000

    acquire_late :
        (fuel : ℕ) (w : Waiter)
        → ltb (clock w.reads) limit ≡ false
        → acquire_until clock busy (suc fuel) spins time timeout_ms w
          ≡ ok (done false, record w { reads = w.reads + 1 })
    unfolding acquire_until
    acquire_late fuel w e =
        rw
          (
            acquire_until,
            mul64-ok timeout_ms 1000000 (omega arith),
            add64-ok time (timeout_ms * 1000000) (omega arith),
            e,
          )
          refl

    acquire_won :
        (fuel : ℕ) (w : Waiter)
        → ltb (clock w.reads) limit ≡ true
        → busy w.tries ≡ false
        → acquire_until clock busy (suc fuel) spins time timeout_ms w
          ≡ ok (done true, record { reads = w.reads + 1; tries = w.tries + 1 })
    unfolding acquire_until
    acquire_won fuel w e free =
        rw
          (
            acquire_until,
            mul64-ok timeout_ms 1000000 (omega arith),
            add64-ok time (timeout_ms * 1000000) (omega arith),
            e,
            free,
          )
          refl

    acquire_again :
        (fuel : ℕ) (w : Waiter)
        → ltb (clock w.reads) limit ≡ true
        → busy w.tries ≡ true
        → acquire_until clock busy (suc fuel) spins time timeout_ms w
          ≡ continue
              (sleep clock busy spins 1 (record { reads = w.reads + 1; tries = w.tries + 1 }))
              (λ _. acquire_until clock busy fuel spins time timeout_ms)
    unfolding acquire_until
    acquire_again fuel w e taken =
        rw
          (
            acquire_until,
            mul64-ok timeout_ms 1000000 (omega arith),
            add64-ok time (timeout_ms * 1000000) (omega arith),
            e,
            taken,
          )
          refl

    module _ (last : ℕ) (is_clock : IsClock spins last) where
      acquire_until_lem :
          (fuel passed : ℕ) (w : Waiter)
          → timeout_ms < passed + fuel
          → passed ≤ timeout_ms
          → w.reads + fuel * (spins + 2) ≤ last
          → time + passed * 1000000 ≤ clock w.reads
          → (locked : Bool) × (w' : Waiter) × (acquire_until clock busy fuel spins time timeout_ms w
              ≡ ok (done locked, w'))
            × Ended limit w locked w'
      acquire_until_lem zero passed w enough on_time room progress = absurd (omega arith)
      acquire_until_lem (suc fuel) passed w enough on_time room progress =
          elim (Bool-cases (ltb (clock w.reads) limit)) [
            | inr over ↦ (
              false,
              record w { reads = w.reads + 1 },
              acquire_late fuel w over,
              record {
                tries = omega arith;
                refused = λ t a b. absurd (omega arith);
                won = λ e. cc;
                late = λ _.
                    let same : w.reads + 1 - 1 ≡ w.reads = omega arith in rw same (ground arith);
              },
            )
            | inl early ↦ elim (Bool-cases (busy w.tries)) [
              | inr free ↦ (
                true,
                record { reads = w.reads + 1; tries = w.tries + 1 },
                acquire_won fuel w early free,
                record {
                  tries = omega arith;
                  refused = λ t a b. absurd (omega arith);
                  won = λ _. (
                    omega arith,
                    let same : w.tries + 1 - 1 ≡ w.tries = omega arith in rw same free,
                  );
                  late = λ e. cc;
                },
              )
              | inl taken ↦
                  let w1 : Waiter = record { reads = w.reads + 1; tries = w.tries + 1 } in
                  let (j, near, woken, slept) =
                    sleep_lem clock busy spins 1 w1
                      (omega (arith, is_clock.fits (w.reads + 1) (omega arith)))
                      (is_clock.passes (w.reads + 1) (omega arith)) in
                  let w2 : Waiter = record w1 { reads = w1.reads + 1 + j + 1 } in
                  let (locked, w', run, ended) =
                    acquire_until_lem fuel (passed + 1) w2 (omega arith) (ground arith)
                      (omega arith)
                      (omega (
                        arith,
                        progress,
                        woken,
                        is_clock.forward w.reads (omega arith),
                        is_clock.forward (w.reads + 1 + 1 + j) (omega arith),
                      )) in
                  (
                    locked,
                    w',
                    acquire_again fuel w early taken
                        ∙ ap
                            (λ r.
                              continue r (λ _. acquire_until clock busy fuel spins time timeout_ms))
                            slept
                        ∙ run,
                    record {
                      tries = omega (arith, ended.tries);
                      refused = λ t a b. elim (Bool-cases (t == w.tries)) [
                        | inl first ↦ let e : t ≡ w.tries = ground arith in rw e taken
                        | inr later ↦ ended.refused t (ground arith) b
                      ];
                      won = λ e. let (a, b) = ended.won e in (omega (arith, a), b);
                      late = ended.late;
                    },
                  )
            ]
          ]

  -- With a timeout between 0 and 0xFFFF, a clock that does not run backwards and on which a
  -- millisecond passes within some number of readings, and fuel for one round per millisecond and
  -- for that number in each sleep, `uacpi_kernel_acquire_mutex` returns. It succeeds if its last
  -- attempt found the lock free, all earlier ones having found it taken; and it times out if all
  -- attempts found it taken and its last reading of the clock is at least the timeout after the first.
  pub acquire_mutex_lem :
      (spins last : ℕ) (is_clock : IsClock spins last) (fuel timeout_ms : ℕ) (w : Waiter)
      (limited : timeout_ms < 0xFFFF) (waits : timeout_ms ≢ 0) (enough : timeout_ms < fuel)
      (room : w.reads + 1 + fuel * (spins + 2) ≤ last)
      → (locked : Bool) × (w' : Waiter) × (acquire_mutex clock busy fuel spins timeout_ms w
          ≡ ok (done (if locked then success else timeout), w'))
        × Ended (clock w.reads + timeout_ms * 1000000) w locked w'
  unfolding acquire_mutex
  acquire_mutex_lem spins last is_clock fuel timeout_ms w limited waits enough room =
      let start = is_clock.fits w.reads (omega arith) in
      let first : Waiter = record w { reads = w.reads + 1 } in
      let (locked, w', run, ended) =
        acquire_until_lem spins (clock w.reads) timeout_ms (omega arith) start last is_clock fuel 0
          first (omega arith) (omega arith) room
          (omega (arith, is_clock.forward w.reads (omega arith))) in
      (
        locked,
        w',
        rw (ne→== timeout_ms 0xFFFF (λ e. omega (arith, e, limited)), ne→== timeout_ms 0 waits, run)
            refl,
        record { tries = ended.tries; refused = ended.refused; won = ended.won; late = ended.late },
      )
