-- ===== src/Tests/Monitor.antt =====
-- The monitor on two samples.
use ferric_k.Base.{ℕ, ◌-◌, ◌^◌, ◌<◌, ◌≡◌, arith, List, [], ◌∷◌}
use ferric_k.Api.Memory.{MemoryRegion, MonitorSample, usable, reserved, bad_memory, regions}
use ferric_k.Monitor.{no_model, update}
use ferric_k.Monitor.Load.{IsBusyShare, update-IsBusyShare}
use ferric_k.Monitor.Summary.{any_kind, is_usable, is_reserved, is_other, total, update-total}

abbrev map_of_three : List MemoryRegion
map_of_three =
    record { base = 0; length = 100; kind = usable }
    ∷ record { base = 100; length = 20; kind = reserved }
    ∷ record { base = 120; length = 3; kind = bad_memory }
    ∷ []

abbrev at : (ticks idle : ℕ) → MonitorSample
at ticks idle = record {
  uptime_ns = 0;
  total_ticks = ticks;
  idle_ticks = idle;
  memory_regions = map_of_three;
  memory_region_count = 3;
}

update-IsBusyShare_example :
    IsBusyShare (30 - 10) (15 - 4) (update (update no_model (at 10 4)).0 (at 30 15)).1.load_percent
update-IsBusyShare_example = update-IsBusyShare no_model (at 10 4) (at 30 15) (omega arith)

three_fit : total any_kind (regions (at 10 4)) < 2 ^ 64
unfolding total regions
three_fit = omega arith

three_regions :
    ((update no_model (at 10 4)).1.memory_summary.usable_bytes
      ≡ total is_usable (regions (at 10 4)))
    × ((update no_model (at 10 4)).1.memory_summary.reserved_bytes
        ≡ total is_reserved (regions (at 10 4)))
    × ((update no_model (at 10 4)).1.memory_summary.other_bytes
        ≡ total is_other (regions (at 10 4)))
three_regions = update-total no_model (at 10 4) three_fit
