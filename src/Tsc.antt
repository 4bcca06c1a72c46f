-- ===== src/Tsc.antt =====
-- kernel/src/tsc.rs: the frequency of the time stamp counter, and the time since boot.
use prometheos.Base.{
  ℕ, ◌+◌, ◌-◌, ◌*◌, ◌/◌, ◌%◌, ◌^◌, Bool, true, false, Option, none, some, ltb, leb, ◌==◌,
  if◌then◌else◌, Panic, Result, ok, panic, ◌>>=◌, sub64, mul64,
}
use prometheos.Base.Exec.{Outcome, done, fail}
pub mod Time
pub mod Calibrate
pub mod Examples

abbrev pub pit_freq : ℕ
pit_freq = 1193182

abbrev pub reload : ℕ
reload = 0xFFFF

pub data TscError : Type 0 where
  not_invariant : TscError

-- The statics `TSC_FREQUENCY` and `BOOT_TSC`.
pub record Clock : Type 0 where
  pub tsc_frequency : ℕ
  pub boot_tsc : ℕ

-- What `calibrate_with_pit` computes of the counter before and after the timer's run; Calibrate has
-- the run.
unfoldable pub calibrate_with_pit : (start end : ℕ) → Result ℕ
calibrate_with_pit start end = do
  ticks ← sub64 end start
  scaled ← mul64 ticks pit_freq
  ok (scaled / reload)

-- The frequency that the processor states, unless it is 0, or the one that is measured.
unfoldable pub frequency : (stated : Option ℕ) → (start end : ℕ) → Result ℕ
unfolding calibrate_with_pit
frequency none start end = calibrate_with_pit start end
frequency (some hz) start end = if ltb 0 hz then ok hz else calibrate_with_pit start end

-- `invariant` and `stated` are what the processor says, `start` and `end` the counter around the timer's
-- run, and `now` the counter at the end of `init`.
unfoldable pub init :
    (invariant : Bool) → (stated : Option ℕ) → (start end now : ℕ) → Result (Outcome TscError Clock)
unfolding frequency
init false stated start end now = ok (fail not_invariant)
init true stated start end now = do
  hz ← frequency stated start end
  ok (done (record { tsc_frequency = hz; boot_tsc = now }))

-- `tsc` is the counter. The product is one on `u128`, and the cast to `u64` drops the high bits.
unfoldable pub current_time_ns : Clock → (tsc : ℕ) → Result ℕ
current_time_ns c tsc = do
  ticks ← sub64 tsc c.boot_tsc
  if c.tsc_frequency == 0
      then panic Panic.division_by_zero
      else ok (ticks * 1000000000 / c.tsc_frequency % 2 ^ 64)
