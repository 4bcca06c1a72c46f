-- ===== src/Acpi/Clock.antt =====
-- The functions of kernel/src/acpi/uacpi.rs that wait for the clock or for a mutex, and `SpinLock` of
-- kernel/src/utils.rs as one processor sees it.
use prometheos.Base.{
  ℕ, zero, suc, ◌+◌, Bool, true, false, not, ltb, ◌==◌, if◌then◌else◌, ok, add64, mul64,
}
use prometheos.Base.Exec.{done, Exec, ◌>>=◌, ◌>>◌, pure, raise, lift, when}
use prometheos.Acpi.Status.{Status, success, timeout}
use prometheos.Acpi.Ranges.{Cut, no_fuel}

-- How often the clock has been read, and the lock's flag been accessed.
pub record Waiter : Type 0 where
  pub reads : ℕ
  pub tries : ℕ

abbrev pub Waiting : Type 0 → Type 0
Waiting = Exec Waiter Cut

-- The rest of a loop, unless it ends with a value.
abbrev pub unless : (ends value : Bool) → Waiting Bool → Waiting Bool
unless true value rest = pure value
unless false value rest = rest

-- `clock` is what `current_time_ns` returns at each reading, and `busy` whether the lock is taken at
-- each access.
module _ (clock : ℕ → ℕ) (busy : ℕ → Bool) where
  abbrev pub now : Waiting ℕ
  now w = ok (done (clock w.reads), record w { reads = w.reads + 1 })

  -- `while current_time_ns() < end {}`
  unfoldable pub spin_until : (fuel : ℕ) → (end : ℕ) → Waiting (Unit {0})
  spin_until zero end = raise no_fuel
  spin_until (suc fuel) end = do time ← now; when (ltb time end) (spin_until fuel end)

  unfoldable pub stall : (fuel : ℕ) → (usec : ℕ) → Waiting (Unit {0})
  unfolding spin_until
  stall fuel usec = do
    start ← now
    span ← lift (mul64 usec 1000)
    end ← lift (add64 start span)
    spin_until fuel end

  unfoldable pub sleep : (fuel : ℕ) → (msec : ℕ) → Waiting (Unit {0})
  unfolding spin_until
  sleep fuel msec = do
    start ← now
    span ← lift (mul64 msec 1000000)
    end ← lift (add64 start span)
    spin_until fuel end

  abbrev pub access : Waiting Bool
  access w = ok (done (busy w.tries), record w { tries = w.tries + 1 })

  -- `SpinLock::try_lock`
  abbrev pub try_lock : Waiting Bool
  try_lock = do taken ← access; pure (not taken)

  -- `SpinLock::lock`: the accesses are a `compare_exchange_weak`, or loads while it is `spinning`.
  unfoldable pub lock : (fuel : ℕ) → (spinning : Bool) → Waiting (Unit {0})
  lock zero spinning = raise no_fuel
  lock (suc fuel) true = do taken ← access; lock fuel taken
  lock (suc fuel) false = do taken ← access; elim taken [ true ↦ lock fuel true | false ↦ pure tt ]

  -- The loop of `uacpi_kernel_acquire_mutex`, until `limit`; each sleep has its own fuel.
  unfoldable pub acquire_until : (fuel spins : ℕ) → (time timeout_ms : ℕ) → Waiting Bool
  unfolding sleep
  acquire_until zero spins time timeout_ms = raise no_fuel
  acquire_until (suc fuel) spins time timeout_ms = do
    t ← now
    span ← lift (mul64 timeout_ms 1000000)
    limit ← lift (add64 time span)
    unless (not (ltb t limit)) false (do
      locked ← try_lock
      unless locked true (do sleep spins 1; acquire_until fuel spins time timeout_ms))

  abbrev pub status_of : Bool → Status
  status_of locked = if locked then success else timeout

  unfoldable pub acquire_mutex : (fuel spins : ℕ) → (timeout_ms : ℕ) → Waiting Status
  unfolding acquire_until lock
  acquire_mutex fuel spins timeout_ms =
      if timeout_ms == 0xFFFF
      then (do lock fuel false; pure success)
      else if timeout_ms == 0
      then (do locked ← try_lock; pure (status_of locked))
      else (do
        time ← now
        locked ← acquire_until fuel spins time timeout_ms
        pure (status_of locked))
