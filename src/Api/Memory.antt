-- ===== src/Api/Memory.antt =====
-- The firmware memory map and the monitor's sample of crates/ferric-api/src/lib.rs.
use ferric_k.Base.{ℕ, ◌+◌, ◌%◌, ◌^◌, List, take, min}

pub data MemoryRegionKind : Type 0 where
  usable reserved acpi_reclaimable acpi_nvs bad_memory : MemoryRegionKind
  bootloader_reclaimable executable_and_modules framebuffer reserved_mapped : MemoryRegionKind
  unknown : ℕ → MemoryRegionKind

pub record MemoryRegion : Type 0 where
  pub base : ℕ
  pub length : ℕ
  pub kind : MemoryRegionKind

-- `base.wrapping_add(length)` on `u64`
unfoldable pub end : MemoryRegion → ℕ
end r = (r.base + r.length) % 2 ^ 64

abbrev pub max_memory_regions : ℕ
max_memory_regions = 32

-- `memory_regions` is an array of `max_memory_regions` entries.
pub record MonitorSample : Type 0 where
  pub uptime_ns : ℕ
  pub total_ticks : ℕ
  pub idle_ticks : ℕ
  pub memory_regions : List MemoryRegion
  pub memory_region_count : ℕ

unfoldable pub regions : MonitorSample → List MemoryRegion
regions s = take (min s.memory_region_count max_memory_regions) s.memory_regions
