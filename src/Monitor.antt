-- ===== src/Monitor.antt =====
-- crates/ferric-safe-core/src/monitor.rs: what the hardware monitor shows of a sample and of the one
-- before it. A `u64` that saturates stops at its largest value. The texts are written by core::fmt; the
-- numbers in them are modelled.
pub mod Load
pub mod Summary
use ferric_k.Base.{
  ℕ, ◌+◌, ◌-◌, ◌*◌, ◌/◌, ◌%◌, ◌^◌, min, Option, none, some, List, [], ◌∷◌, ◌++◌, length, take,
  replicate, leb, ◌==◌, if◌then◌else◌,
}
use ferric_k.Api.Memory.{
  MemoryRegionKind, usable, reserved, acpi_reclaimable, acpi_nvs, bad_memory,
  bootloader_reclaimable, executable_and_modules, framebuffer, reserved_mapped, unknown,
  MemoryRegion, end, MonitorSample, regions, max_memory_regions,
}

abbrev pub nanos_per_sec : ℕ
nanos_per_sec = 1000000000

pub record RegionView : Type 0 where
  pub first : ℕ
  pub last : ℕ
  pub kind : MemoryRegionKind
  pub size : ℕ

pub record MemorySummary : Type 0 where
  pub usable_bytes : ℕ
  pub reserved_bytes : ℕ
  pub other_bytes : ℕ

pub record DisplayInfo : Type 0 where
  pub uptime_seconds : ℕ
  pub delta_seconds : ℕ
  pub load_percent : ℕ
  pub total_ticks : ℕ
  pub delta_ticks : ℕ
  pub delta_idle_ticks : ℕ
  pub memory_summary : MemorySummary
  pub region_views : List RegionView
  pub region_count : ℕ

pub record MonitorModel : Type 0 where
  pub previous : Option MonitorSample

abbrev pub no_model : MonitorModel
no_model = record { previous = none }

abbrev pub saturating_add : ℕ → ℕ → ℕ
saturating_add a b = min (a + b) (2 ^ 64 - 1)

unfoldable pub cpu_load_percent : (delta_ticks delta_idle_ticks : ℕ) → ℕ
cpu_load_percent delta_ticks delta_idle_ticks =
    if delta_ticks == 0
    then 0
    else min (((delta_ticks - delta_idle_ticks) * 100 + delta_ticks / 2) / delta_ticks) 100

abbrev pub view : MemoryRegion → RegionView
view r = record { first = r.base; last = end r; kind = r.kind; size = r.length }

abbrev pub blank_view : RegionView
blank_view = record { first = 0; last = 0; kind = unknown 0; size = 0 }

unfoldable pub views : List MemoryRegion → List RegionView
views [] = []
views (r ∷ rs) = view r ∷ views rs

unfoldable pub count_bytes : MemorySummary → MemoryRegionKind → ℕ → MemorySummary
count_bytes s usable n = record s { usable_bytes = saturating_add s.usable_bytes n }
count_bytes s reserved n = record s { reserved_bytes = saturating_add s.reserved_bytes n }
count_bytes s acpi_reclaimable n = record s { other_bytes = saturating_add s.other_bytes n }
count_bytes s acpi_nvs n = record s { other_bytes = saturating_add s.other_bytes n }
count_bytes s bad_memory n = record s { other_bytes = saturating_add s.other_bytes n }
count_bytes s bootloader_reclaimable n = record s { other_bytes = saturating_add s.other_bytes n }
count_bytes s executable_and_modules n = record s { other_bytes = saturating_add s.other_bytes n }
count_bytes s framebuffer n = record s { other_bytes = saturating_add s.other_bytes n }
count_bytes s reserved_mapped n = record s { other_bytes = saturating_add s.other_bytes n }
count_bytes s (unknown k) n = record s { other_bytes = saturating_add s.other_bytes n }

unfoldable pub summarize : List MemoryRegion → MemorySummary → MemorySummary
summarize [] s = s
summarize (r ∷ rs) s = summarize rs (count_bytes s r.kind r.length)

-- The seconds, ticks and idle ticks since the sample before.
unfoldable pub deltas : Option MonitorSample → MonitorSample → ℕ × ℕ × ℕ
deltas none sample = (0, 0, 0)
deltas (some prev) sample = (
  (sample.uptime_ns - prev.uptime_ns) / nanos_per_sec,
  sample.total_ticks - prev.total_ticks,
  sample.idle_ticks - prev.idle_ticks,
)

unfoldable pub compute : MonitorModel → MonitorSample → DisplayInfo
compute model sample =
    let d = deltas model.previous sample in
    let count = min sample.memory_region_count max_memory_regions in
    let shown = take count (regions sample) in
    record {
      uptime_seconds = sample.uptime_ns / nanos_per_sec;
      delta_seconds = d.0;
      load_percent = cpu_load_percent d.1 d.2;
      total_ticks = sample.total_ticks;
      delta_ticks = d.1;
      delta_idle_ticks = d.2;
      memory_summary =
          summarize shown (record { usable_bytes = 0; reserved_bytes = 0; other_bytes = 0 });
      region_views = views shown ++ replicate (max_memory_regions - length shown) blank_view;
      region_count = count;
    }

unfoldable pub update : MonitorModel → MonitorSample → MonitorModel × DisplayInfo
update model sample = (record { previous = some sample }, compute model sample)
