-- ===== src/Time/Sources/Forward.antt =====
-- Time does not run backward, whichever source it has.
use ferric_k.Base.{
  ℕ, ◌+◌, ◌-◌, ◌*◌, ◌/◌, ◌%◌, ◌^◌, ◌<◌, ◌≤◌, ◌≡◌, refl, ap, arith, Option, some, ◌==◌, false, true,
}
use native.Mathlib.Nat.{mul-div-le, le-div_iff_mul-le}
use ferric_k.Time.{nanos_per_sec, ticks_to_ns}
use ferric_k.Time.Sources.{
  TimeState, uptime_raw, tsc_uptime_ns, pit_oscillator_hz, timer_divisor, pit_ticks_to_ns,
  uptime_ns,
}

-- Two readings, the later one not smaller.
pub record Ordered (first second : Option ℕ) : Type 0 where
  pub earlier : ℕ
  pub later : ℕ
  pub first_eq : first ≡ some earlier
  pub second_eq : second ≡ some later
  pub forward : earlier ≤ later

-- More ticks of the interval timer are not less time, while the nanoseconds fit.
pub uptime_ns_ticks :
    (s : TimeState) (tsc tsc' ticks : ℕ)
    → s.freq ≡ 0
    → s.ticks ≤ ticks
    → ticks * nanos_per_sec * timer_divisor < 2 ^ 64 * pit_oscillator_hz
    → Ordered (uptime_ns tsc s) (uptime_ns tsc' (record s { ticks = ticks }))
unfolding uptime_ns pit_ticks_to_ns
uptime_ns_ticks s tsc tsc' ticks off le fits =
    let e : (s.freq == 0) ≡ true = ground (arith, off) in
    record {
      earlier = pit_ticks_to_ns s.ticks;
      later = pit_ticks_to_ns ticks;
      first_eq = rw e refl;
      second_eq = rw e refl;
      forward = omega (arith, le, fits);
    }

div_mono : (a b k : ℕ) → 0 < k → a ≤ b → a / k ≤ b / k
div_mono a b k pos le = (le-div_iff_mul-le pos).1 (omega (arith, mul-div-le a k, le))

-- A later value of the time stamp counter is not less time, while the nanoseconds fit.
pub uptime_ns_tsc :
    (s : TimeState) (tsc tsc' : ℕ)
    → 0 < s.freq
    → s.boot_tsc ≤ tsc
    → tsc ≤ tsc'
    → tsc' < 2 ^ 64
    → (tsc' - s.boot_tsc) * nanos_per_sec / s.freq < 2 ^ 64
    → Ordered (uptime_ns tsc s) (uptime_ns tsc' s)
unfolding uptime_ns tsc_uptime_ns ticks_to_ns uptime_raw
uptime_ns_tsc s tsc tsc' on booted le small fits =
    let e : (s.freq == 0) ≡ false = ground (arith, on) in
    let raw : (tsc + 2 ^ 64 - s.boot_tsc) % 2 ^ 64 ≡ tsc - s.boot_tsc =
      omega (arith, booted, le, small) in
    let raw' : (tsc' + 2 ^ 64 - s.boot_tsc) % 2 ^ 64 ≡ tsc' - s.boot_tsc =
      omega (arith, booted, le, small) in
    let mono =
      div_mono ((tsc - s.boot_tsc) * nanos_per_sec) ((tsc' - s.boot_tsc) * nanos_per_sec) s.freq on
        (omega (arith, le)) in
    record {
      earlier = (tsc - s.boot_tsc) * nanos_per_sec / s.freq;
      later = (tsc' - s.boot_tsc) * nanos_per_sec / s.freq;
      first_eq = rw (e, raw) (ap some (omega (arith, mono, fits)));
      second_eq = rw (e, raw') (ap some (omega (arith, fits)));
      forward = mono;
    }
