-- ===== src/Time/Seconds.antt =====
-- The time of day and the whole seconds since boot.
use native.Mathlib.Nat.{mul-le-mul_right, div-mul-le_self, le-div_iff_mul-le}
use ferric_k.Base.{
  ℕ, suc, ◌+◌, ◌*◌, ◌/◌, ◌%◌, ◌^◌, ◌≤◌, ◌<◌, ◌≡◌, refl, ◌∙◌, ap, arith, some, inl, inr, leb,
  Bool-cases, ◌==◌, false,
}
use ferric_k.Api.Keys.{TimeOfDay}
use ferric_k.Time.{nanos_per_sec, ticks_to_ns, from_uptime_ns}

-- The seconds since midnight that a time of day shows.
abbrev pub since_midnight : TimeOfDay → ℕ
since_midnight t = t.hours * 3600 + t.minutes * 60 + t.seconds

-- The time of day is in range, and it shows the whole seconds of the uptime, a day's taken off.
pub from_uptime_ns-since_midnight :
    (ns : ℕ)
    → (let t = from_uptime_ns ns in
        (t.hours < 24)
        × (t.minutes < 60)
        × (t.seconds < 60)
        × (since_midnight t ≡ ns / 1000000000 % 86400))
unfolding from_uptime_ns
from_uptime_ns-since_midnight ns = (omega arith, omega arith, omega arith, omega arith)

whole_seconds :
    (k r freq : ℕ)
    → r < freq
    → (k * nanos_per_sec ≤ (k * freq + r) * nanos_per_sec / freq)
      × ((k * freq + r) * nanos_per_sec / freq < suc k * nanos_per_sec)
whole_seconds k r freq part =
    let x = (k * freq + r) * nanos_per_sec in
    let d = x / freq in
    (
      (le-div_iff_mul-le {k = freq} {x = k * nanos_per_sec} {y = x} (omega (arith, part))).1
          (omega arith),
      elim (Bool-cases (leb (suc k * nanos_per_sec) d)) [
        | inl many ↦
            (let more : suc k * nanos_per_sec * freq ≤ d * freq =
                mul-le-mul_right freq (ground (arith, many)) in
              let fewer = div-mul-le_self x freq in absurd (omega (arith, more, fewer, part)))
        | inr few ↦ ground (arith, few)
      ],
    )

-- A counter that ticks `freq` times a second and has ticked for `k` whole seconds and part of
-- another shows the time of day `k` seconds after midnight, a day's taken off, while the
-- nanoseconds fit in 64 bits.
pub ticks_to_ns-from_uptime_ns :
    (k r freq : ℕ)
    → r < freq
    → suc k * nanos_per_sec ≤ 2 ^ 64
    → (ns : ℕ) × (ticks_to_ns (k * freq + r) freq ≡ some ns)
      × (since_midnight (from_uptime_ns ns) ≡ k % 86400)
unfolding ticks_to_ns
ticks_to_ns-from_uptime_ns k r freq part bound =
    let ns = (k * freq + r) * nanos_per_sec / freq % 2 ^ 64 in
    let b = whole_seconds k r freq part in
    let running : (freq == 0) ≡ false = ground (arith, part) in
    let shown = from_uptime_ns-since_midnight ns in
    (ns, rw running refl, shown.3 ∙ ap (λ z. z % 86400) (omega (arith, b.0, b.1, bound)))
