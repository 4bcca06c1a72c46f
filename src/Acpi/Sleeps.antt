-- ===== src/Acpi/Sleeps.antt =====
-- How long kernel/src/acpi/uacpi.rs waits for the clock and for a mutex.
use prometheos.Base.{
  ℕ, zero, suc, ◌+◌, ◌-◌, ◌*◌, ◌≤◌, ◌<◌, ◌≡◌, refl, ap, sym, ◌∙◌, inl, inr, arith, Bool, true,
  false, ltb, ◌==◌, if◌then◌else◌, Bool-cases, ok, u64_size, add64-ok, mul64-ok,
}
use prometheos.Base.Exec.{done}
use prometheos.Acpi.Clock.{Waiter, spin_until, sleep}

module _ (clock : ℕ → ℕ) (busy : ℕ → Bool) where
  spin_over :
      (fuel end : ℕ) (w : Waiter)
      → ltb (clock w.reads) end ≡ false
      → spin_until clock busy (suc fuel) end w ≡ ok (done tt, record w { reads = w.reads + 1 })
  unfolding spin_until
  spin_over fuel end w e = rw (spin_until, e) refl

  spin_early :
      (fuel end : ℕ) (w : Waiter)
      → ltb (clock w.reads) end ≡ true
      → spin_until clock busy (suc fuel) end w
        ≡ spin_until clock busy fuel end (record w { reads = w.reads + 1 })
  unfolding spin_until
  spin_early fuel end w e = rw (spin_until, e) refl

  -- The loop ends by the first reading that is not before the end.
  spin_until-ends :
      (k fuel end : ℕ) (w : Waiter)
      → k < fuel
      → end ≤ clock (w.reads + k)
      → (j : ℕ) × (j ≤ k)
        × (end ≤ clock (w.reads + j))
        × (spin_until clock busy fuel end w ≡ ok (done tt, record w { reads = w.reads + j + 1 }))
  spin_until-ends k zero end w h reached = absurd (omega arith)
  spin_until-ends k (suc fuel) end w h reached = elim (Bool-cases (ltb (clock w.reads) end)) [
    | inr over ↦
        let here : w.reads + 0 ≡ w.reads = omega arith in
        (
          0,
          omega arith,
          rw here (ground arith),
          spin_over fuel end w over
              ∙ (ap (λ n. ok (done tt, record w { reads = n + 1 })) (sym here)),
        )
    | inl early ↦
        let next = record w { reads = w.reads + 1 } in
        let positive : 0 < k = elim (Bool-cases (k == 0)) [
          | inl none_left ↦
              let here : w.reads + k ≡ w.reads = ground arith in
              absurd (ground (arith, ap clock here))
          | inr some_left ↦ ground arith
        ] in
        let same : w.reads + 1 + (k - 1) ≡ w.reads + k = omega arith in
        let (j, small, e, run) =
          spin_until-ends (k - 1) fuel end next (omega arith) (rw same reached) in
        let index : w.reads + 1 + j ≡ w.reads + (j + 1) = omega arith in
        (
          j + 1,
          omega arith,
          rw (← index) e,
          (spin_early fuel end w early
              ∙ run
              ∙ ap (λ n. ok (done tt, record w { reads = n + 1 })) index),
        )
  ]

  -- A reading from which on the time is up, among the next ones.
  abbrev pub Passes : (fuel msec first : ℕ) → Type 0
  Passes fuel msec first =
      (k : ℕ) × (k < fuel) × (clock first + msec * 1000000 ≤ clock (first + 1 + k))

  pub sleep_lem :
      (fuel msec : ℕ) (w : Waiter)
      → clock w.reads + msec * 1000000 < u64_size
      → Passes fuel msec w.reads
      → (j : ℕ) × (j < fuel)
        × (clock w.reads + msec * 1000000 ≤ clock (w.reads + 1 + j))
        × (sleep clock busy fuel msec w ≡ ok (done tt, record w { reads = w.reads + 1 + j + 1 }))
  unfolding sleep
  sleep_lem fuel msec w fits (k, small, passed) =
      let end = clock w.reads + msec * 1000000 in
      let (j, below, e, run) =
        spin_until-ends k fuel end (record w { reads = w.reads + 1 }) small passed in
      (
        j,
        omega arith,
        e,
        rw (mul64-ok msec 1000000 (omega arith), add64-ok (clock w.reads) (msec * 1000000) fits)
            run,
      )

  -- The clock up to a reading: it does not run backwards, stays a minute and a half below 2^64, and a
  -- millisecond passes within some readings.
  pub record IsClock (spins last : ℕ) : Type 0 where
    pub forward : (n : ℕ) → n < last → clock n ≤ clock (n + 1)
    pub fits : (n : ℕ) → n ≤ last → clock n + 90000000000 < u64_size
    pub passes : (n : ℕ) → n < last → Passes spins 1 n

  -- What a wait for a mutex did from `w` to `w'`, with the time up at `limit`.
  pub record Ended (locked : Bool) (limit : ℕ) (w w' : Waiter) : Type 0 where
    pub tries : w.tries ≤ w'.tries
    pub refused : (t : ℕ) → w.tries ≤ t → t + (if locked then 1 else 0) < w'.tries → busy t ≡ true
    pub won : locked ≡ true → (w.tries < w'.tries) × (busy (w'.tries - 1) ≡ false)
    pub late : locked ≡ false → limit ≤ clock (w'.reads - 1)
