-- ===== src/Acpi/Waits.antt =====
-- How long `uacpi_kernel_wait_for_event` of kernel/src/acpi/uacpi.rs waits.
use prometheos.Base.{
  ℕ, zero, suc, ◌+◌, ◌-◌, ◌*◌, ◌/◌, ◌%◌, u64_size, ◌≤◌, ◌<◌, ◌≡◌, ◌≢◌, refl, ap, sym, ◌∙◌, inl, inr,
  ◌⊎◌, arith, true, false, some, ◌==◌, Bool-cases, ne→==,
}
use prometheos.Acpi.Events.{wait_limited, wait_for_event}

module _ (arrive : ℕ → ℕ) (counter : ℕ) where
  -- The counter after a number of sleeps in which nothing is taken.
  unfoldable pub arrived : ℕ → ℕ
  arrived zero = counter
  arrived (suc n) = (arrived n + arrive n) % u64_size

  arrived_next : (n : ℕ) → arrived (n + 1) ≡ (arrived n + arrive n) % u64_size
  unfolding arrived
  arrived_next n = let e : n + 1 ≡ suc n = omega arith in rw e refl

  empty : {c : ℕ} → (c == 0) ≡ true → c ≡ 0
  empty h = ground arith

  wait_limited_lem :
      (fuel remaining sleeps limit : ℕ)
      → limit < sleeps + fuel
      → sleeps ≤ limit
      → remaining ≤ (limit - sleeps) * 10
      → (limit - sleeps) * 10 < remaining + 10
      → (k : ℕ) × (sleeps ≤ k)
        × (k ≤ limit)
        × ((j : ℕ) → sleeps ≤ j → j < k → arrived j ≡ 0)
        × ((arrived k ≢ 0)
              × (wait_limited arrive fuel remaining (arrived sleeps) sleeps
                  ≡ some (true, arrived k - 1, k))
            ⊎ (k ≡ limit)
              × (arrived k ≡ 0)
              × (wait_limited arrive fuel remaining (arrived sleeps) sleeps ≡ some (false, 0, k)))
  unfolding wait_limited arrived
  wait_limited_lem zero remaining sleeps limit enough below low high = absurd (omega arith)
  wait_limited_lem (suc fuel) remaining sleeps limit enough below low high =
      elim (Bool-cases (arrived sleeps == 0)) [
        | inr there ↦ (
          sleeps,
          omega arith,
          below,
          λ j a b. absurd (omega arith),
          inl (ground arith, rw there refl),
        )
        | inl none_left ↦ elim (Bool-cases (remaining == 0)) [
          | inl over ↦ (
            sleeps,
            omega arith,
            below,
            λ j a b. absurd (omega arith),
            inr (
              ground arith,
              ground arith,
              rw (none_left, over) (ap (λ t. some (false, t, sleeps)) (empty none_left)),
            ),
          )
          | inr more ↦
              let (k, lo, hi, zeros, outcome) =
                wait_limited_lem fuel (remaining - 10) (sleeps + 1) limit (omega arith)
                  (ground arith) (ground arith) (ground arith) in
              let step : wait_limited arrive fuel (remaining - 10)
                    ((arrived sleeps + arrive sleeps) % u64_size) (sleeps + 1)
                  ≡ wait_limited arrive fuel (remaining - 10) (arrived (sleeps + 1)) (sleeps + 1) =
                ap (λ c. wait_limited arrive fuel (remaining - 10) c (sleeps + 1))
                  (sym (arrived_next sleeps)) in
              (
                k,
                omega (arith, lo),
                hi,
                λ j a b. elim (Bool-cases (j == sleeps)) [
                  | inl first ↦ let e : j ≡ sleeps = ground arith in rw e (empty none_left)
                  | inr later ↦ zeros j (ground arith) b
                ],
                elim outcome [
                  | inl (some_left, e) ↦ inl (some_left, rw (none_left, more) (step ∙ e))
                  | inr (at_limit, none, e) ↦ inr (at_limit, none, rw (none_left, more) (step ∙ e))
                ],
              )
        ]
      ]

  -- The number of sleeps after which a wait with a timeout gives up: the tenths of it, rounded up.
  abbrev pub last_sleep : (timeout : ℕ) → ℕ
  last_sleep timeout = (timeout + 9) / 10

  -- With a timeout that is not 0xFFFF, and fuel above the number of sleeps that make up the timeout,
  -- `uacpi_kernel_wait_for_event` returns. It returns true after the first number of sleeps after
  -- which the counter is not 0, if it is at most that number, with one taken from the counter; and
  -- false with the counter at 0 after that number, if there is none.
  pub wait_for_event_lem :
      (fuel timeout : ℕ)
      → timeout ≢ 0xFFFF
      → last_sleep timeout < fuel
      → (k : ℕ) × (k ≤ last_sleep timeout)
        × ((j : ℕ) → j < k → arrived j ≡ 0)
        × ((arrived k ≢ 0)
              × (wait_for_event arrive fuel timeout counter ≡ some (true, arrived k - 1, k))
            ⊎ (k ≡ last_sleep timeout)
              × (arrived k ≡ 0)
              × (wait_for_event arrive fuel timeout counter ≡ some (false, 0, k)))
  unfolding wait_for_event arrived
  wait_for_event_lem fuel timeout limited enough =
      let (k, lo, hi, zeros, outcome) =
        wait_limited_lem fuel timeout 0 (last_sleep timeout) (omega arith) (omega arith)
          (omega arith) (omega arith) in
      (k, hi, λ j h. zeros j (omega arith) h, rw (ne→== timeout 0xFFFF limited) outcome)
