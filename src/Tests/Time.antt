-- ===== src/Tests/Time.antt =====
-- Tests of the clock.
use ferric_k.Base.{ℕ, ◌*◌, ◌+◌, ◌<◌, ◌≡◌, refl, arith, some}
use ferric_k.Time.{ticks_to_ns, from_uptime_ns}
use ferric_k.Time.Seconds.{
  since_midnight, from_uptime_ns-since_midnight, ticks_to_ns-from_uptime_ns,
}

wraps_after_a_day : since_midnight (from_uptime_ns 90061000000000) ≡ 3661
unfolding from_uptime_ns
wraps_after_a_day = refl

second_day :
    ((from_uptime_ns 90061000000000).hours < 24)
    × ((from_uptime_ns 90061000000000).minutes < 60)
    × ((from_uptime_ns 90061000000000).seconds < 60)
    × (since_midnight (from_uptime_ns 90061000000000) ≡ 3661)
second_day = from_uptime_ns-since_midnight 90061000000000

ticks_to_ns-from_uptime_ns_example :
    (ns : ℕ) × (ticks_to_ns (90061 * 24 + 7) 24 ≡ some ns)
    × (since_midnight (from_uptime_ns ns) ≡ 3661)
ticks_to_ns-from_uptime_ns_example =
    ticks_to_ns-from_uptime_ns 90061 7 24 (omega arith) (omega arith)
