-- ===== src/Time.antt =====
-- The tick conversion of crates/ferric-unsafe-core/src/time.rs and the time of day of clock.rs beside
-- it. The product is taken in `u128`, where it does not overflow, and the casts cut off.
pub mod Seconds
pub mod Sources
use ferric_k.Base.{ℕ, ◌*◌, ◌/◌, ◌%◌, ◌^◌, Option, none, some, ◌==◌, if◌then◌else◌}
use ferric_k.Api.Keys.{TimeOfDay}

abbrev pub nanos_per_sec : ℕ
nanos_per_sec = 1000000000

abbrev pub seconds_per_minute : ℕ
seconds_per_minute = 60

abbrev pub seconds_per_hour : ℕ
seconds_per_hour = 3600

abbrev pub seconds_per_day : ℕ
seconds_per_day = 86400

-- A division by zero panics.
unfoldable pub ticks_to_ns : (ticks freq_hz : ℕ) → Option ℕ
ticks_to_ns ticks freq_hz =
    if freq_hz == 0 then none else some (ticks * nanos_per_sec / freq_hz % 2 ^ 64)

unfoldable pub from_uptime_ns : ℕ → TimeOfDay
from_uptime_ns ns =
    let secs = ns / nanos_per_sec % seconds_per_day in
    record {
      hours = secs / seconds_per_hour % 2 ^ 8;
      minutes = secs % seconds_per_hour / seconds_per_minute % 2 ^ 8;
      seconds = secs % seconds_per_minute % 2 ^ 8;
    }
