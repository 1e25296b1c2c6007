-- ===== src/Monitor/Load.antt =====
-- The load that the monitor shows.
use ferric_k.Base.{
  ℕ, ◌+◌, ◌-◌, ◌*◌, ◌/◌, ◌%◌, ◌<◌, ◌≤◌, ◌≡◌, min, refl, false, arith, ◌==◌, subst, sym,
}
use native.Mathlib.Nat.{div-add-mod, mod-lt, div-lt_iff_lt-mul}
use ferric_k.Api.Memory.{MonitorSample}
use ferric_k.Monitor.{MonitorModel, cpu_load_percent, deltas, compute, update}

-- The nearest whole number to a quotient.
nearest :
    (q n d : ℕ)
    → 0 < d
    → q ≡ (n + d / 2) / d
    → (2 * n ≤ 2 * (d * q) + d) × (2 * (d * q) ≤ 2 * n + d)
nearest q n d pos e =
    let whole : d * q + (n + d / 2) % d ≡ n + d / 2 =
      subst (λ z. d * z + (n + d / 2) % d ≡ n + d / 2) (sym e) (div-add-mod (n + d / 2) d) in
    let part = mod-lt (n + d / 2) pos in (omega (arith, whole, part), omega (arith, whole, part))

-- The share of busy ticks among all, in percent, to the nearest whole number.
abbrev pub IsBusyShare : (ticks idle percent : ℕ) → Type 0
IsBusyShare ticks idle percent =
    (percent ≤ 100)
    × (2 * ((ticks - idle) * 100) ≤ 2 * (ticks * percent) + ticks)
    × (2 * (ticks * percent) ≤ 2 * ((ticks - idle) * 100) + ticks)

cpu_load_percent-IsBusyShare :
    (ticks idle : ℕ) → 0 < ticks → IsBusyShare ticks idle (cpu_load_percent ticks idle)
unfolding cpu_load_percent
cpu_load_percent-IsBusyShare ticks idle pos =
    let n = (ticks - idle) * 100 in
    let q = (n + ticks / 2) / ticks in
    let some_ticks : (ticks == 0) ≡ false = ground (arith, pos) in
    let small : q < 101 = (div-lt_iff_lt-mul pos).1 (omega (arith, pos)) in
    let exact : min q 100 ≡ q = omega (arith, small) in
    let near = nearest q n ticks pos refl in
    rw (some_ticks, exact) (omega (arith, small), near.0, near.1)

-- The second of two updates between which ticks passed shows the busy share of the interval to the
-- nearest percent, which is at most 100; a count of idle ticks that fell counts as none.
pub update-IsBusyShare :
    (model : MonitorModel) (before after : MonitorSample)
    → before.total_ticks < after.total_ticks
    → IsBusyShare
        (after.total_ticks - before.total_ticks)
        (after.idle_ticks - before.idle_ticks)
        (update (update model before).0 after).1.load_percent
unfolding update compute deltas
update-IsBusyShare model before after later =
    cpu_load_percent-IsBusyShare (after.total_ticks - before.total_ticks)
      (after.idle_ticks - before.idle_ticks) (omega (arith, later))
