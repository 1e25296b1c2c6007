-- ===== src/Time/Sources.antt =====
-- The time sources of crates/ferric-unsafe-core/src/time.rs and pit.rs: the tick counters, the time stamp
-- counter, and the choice between them on x86_64. The value of the time stamp counter is an argument.
pub mod Forward
use ferric_k.Base.{ℕ, ◌+◌, ◌-◌, ◌*◌, ◌/◌, ◌%◌, ◌^◌, Option, none, some, ◌==◌, if◌then◌else◌}
use ferric_k.Time.{nanos_per_sec, ticks_to_ns}

-- `TICKS`, `IDLE_TICKS` and `TSC`.
pub record TimeState : Type 0 where
  pub ticks : ℕ
  pub idle_ticks : ℕ
  pub freq : ℕ
  pub boot_tsc : ℕ

abbrev pub at_boot : TimeState
at_boot = record { ticks = 0; idle_ticks = 0; freq = 0; boot_tsc = 0 }

unfoldable pub bump_tick : TimeState → TimeState
bump_tick s = record s { ticks = (s.ticks + 1) % 2 ^ 64 }

unfoldable pub record_idle : ℕ → TimeState → TimeState
record_idle delta s = record s { idle_ticks = (s.idle_ticks + delta) % 2 ^ 64 }

-- `wait_for_interrupt` in lib.rs, which sleeps while the other steps are taken.
unfoldable pub wait_for_interrupt : (asleep : TimeState → TimeState) → TimeState → TimeState
wait_for_interrupt asleep s = let woken = asleep s in record_idle (woken.ticks - s.ticks) woken

unfoldable pub init_tsc : (tsc : ℕ) → Option ℕ → TimeState → TimeState
init_tsc tsc none s = s
init_tsc tsc (some freq_hz) s = record s { boot_tsc = tsc; freq = freq_hz }

unfoldable pub uptime_raw : (tsc : ℕ) → TimeState → ℕ
uptime_raw tsc s = (tsc + 2 ^ 64 - s.boot_tsc) % 2 ^ 64

-- `Tsc::uptime_ns`
unfoldable pub tsc_uptime_ns : (tsc : ℕ) → TimeState → Option ℕ
tsc_uptime_ns tsc s = if s.freq == 0 then some 0 else ticks_to_ns (uptime_raw tsc s) s.freq

abbrev pub pit_oscillator_hz : ℕ
pit_oscillator_hz = 1193182

abbrev pub timer_divisor : ℕ
timer_divisor = 1193

unfoldable pub pit_ticks_to_ns : ℕ → ℕ
pit_ticks_to_ns ticks = ticks * nanos_per_sec * timer_divisor / pit_oscillator_hz % 2 ^ 64

-- `time_source().uptime_ns()`
unfoldable pub uptime_ns : (tsc : ℕ) → TimeState → Option ℕ
uptime_ns tsc s = if s.freq == 0 then some (pit_ticks_to_ns s.ticks) else tsc_uptime_ns tsc s
