-- ===== src/Tsc/Examples.antt =====
-- The theorems about kernel/src/tsc.rs on a counter of three gigahertz, and on a timer.
use prometheos.Base.{ℕ, ◌+◌, ◌*◌, ◌≤◌, ◌<◌, ◌≡◌, refl, arith, ok, [], ltb, if◌then◌else◌}
use prometheos.Base.Exec.{done}
use prometheos.Tsc.{Clock, current_time_ns, reload, pit_freq}
use prometheos.Tsc.Calibrate.{calibrate, writes, calibrate_lem}
use prometheos.Tsc.Time.{current_time_ns_mono}

abbrev clock : Clock
clock = record { tsc_frequency = 3000000000; boot_tsc = 1000 }

current_time_ns_mono_example :
    (m : ℕ) × (n : ℕ) × (current_time_ns clock 4000 ≡ ok m)
    × (current_time_ns clock 9000 ≡ ok n)
    × (m ≤ n)
    × (n * 3000000000 ≤ 8000 * 1000000000)
    × (8000 * 1000000000 < (n + 1) * 3000000000)
current_time_ns_mono_example =
    current_time_ns_mono clock (omega arith) 4000 9000 (omega arith) (omega arith) (omega arith)

-- A timer that is done at the fourth read of its port, and a counter of three gigahertz.
abbrev port_after : (port reads : ℕ) → ℕ
port_after port reads = if ltb reads 4 then 0xCF else 0x20

abbrev ticks : ℕ → ℕ
ticks n = n * 164775000

calibrate_lem_example :
    (hz : ℕ) × (n : ℕ) × (n ≤ 5)
    × (calibrate port_after ticks 10 (record { reads = 0; stamps = 0; sent = [] })
        ≡ ok (done hz, record { reads = n; stamps = 2; sent = writes port_after ticks 0xCF }))
    × (hz * reload ≤ 164775000 * pit_freq)
    × (164775000 * pit_freq < (hz + 1) * reload)
calibrate_lem_example =
    calibrate_lem port_after ticks 3 10 (omega arith) refl (omega arith) (omega arith)
