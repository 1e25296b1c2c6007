-- ===== src/Monitor/Summary.antt =====
-- The memory summary of the monitor.
use ferric_k.Base.{
  ℕ, zero, suc, ap, ◌+◌, ◌-◌, ◌^◌, ◌<◌, ◌≡◌, refl, min, Bool, true, false, not, ◌&&◌, arith, List,
  [], ◌∷◌, take, if◌then◌else◌,
}
use ferric_k.Api.Memory.{
  MemoryRegionKind, usable, reserved, acpi_reclaimable, acpi_nvs, bad_memory,
  bootloader_reclaimable, executable_and_modules, framebuffer, reserved_mapped, unknown,
  MemoryRegion, MonitorSample, regions, max_memory_regions,
}
use ferric_k.Monitor.{MonitorModel, MemorySummary, count_bytes, summarize, compute, update}

abbrev pub is_usable : MemoryRegionKind → Bool
is_usable usable = true
is_usable k = false

abbrev pub is_reserved : MemoryRegionKind → Bool
is_reserved reserved = true
is_reserved k = false

abbrev pub is_other : MemoryRegionKind → Bool
is_other k = not (is_usable k) && not (is_reserved k)

-- The bytes of the regions of some kinds.
unfoldable pub total : (MemoryRegionKind → Bool) → List MemoryRegion → ℕ
total is [] = 0
total is (r ∷ rs) = (if is r.kind then r.length else 0) + total is rs

abbrev pub any_kind : MemoryRegionKind → Bool
any_kind k = true

-- A summary of so many bytes more.
record Counts (s : MemorySummary) (rs : List MemoryRegion) (t : MemorySummary) : Type 0 where
  usable_eq : t.usable_bytes ≡ s.usable_bytes + total is_usable rs
  reserved_eq : t.reserved_bytes ≡ s.reserved_bytes + total is_reserved rs
  other_eq : t.other_bytes ≡ s.other_bytes + total is_other rs

-- A sum below the largest `u64` does not saturate.
fits_add : (a b : ℕ) → a + b < 2 ^ 64 → min (a + b) (2 ^ 64 - 1) ≡ a + b
fits_add a b lt = omega (arith, lt)

one_region :
    (s : MemorySummary) (k : MemoryRegionKind) (n : ℕ)
    → s.usable_bytes + s.reserved_bytes + s.other_bytes + n < 2 ^ 64
    → ((count_bytes s k n).usable_bytes ≡ s.usable_bytes + (if is_usable k then n else 0))
      × ((count_bytes s k n).reserved_bytes ≡ s.reserved_bytes + (if is_reserved k then n else 0))
      × ((count_bytes s k n).other_bytes ≡ s.other_bytes + (if is_other k then n else 0))
unfolding count_bytes
one_region s usable n lt = (omega (arith, lt), omega (arith, lt), omega (arith, lt))
one_region s reserved n lt = (omega (arith, lt), omega (arith, lt), omega (arith, lt))
one_region s acpi_reclaimable n lt = (omega (arith, lt), omega (arith, lt), omega (arith, lt))
one_region s acpi_nvs n lt = (omega (arith, lt), omega (arith, lt), omega (arith, lt))
one_region s bad_memory n lt = (omega (arith, lt), omega (arith, lt), omega (arith, lt))
one_region s bootloader_reclaimable n lt = (omega (arith, lt), omega (arith, lt), omega (arith, lt))
one_region s executable_and_modules n lt = (omega (arith, lt), omega (arith, lt), omega (arith, lt))
one_region s framebuffer n lt = (omega (arith, lt), omega (arith, lt), omega (arith, lt))
one_region s reserved_mapped n lt = (omega (arith, lt), omega (arith, lt), omega (arith, lt))
one_region s (unknown k) n lt = (omega (arith, lt), omega (arith, lt), omega (arith, lt))

one_kind :
    (k : MemoryRegionKind) (n : ℕ)
    → (if is_usable k then n else 0)
        + (if is_reserved k then n else 0)
        + (if is_other k then n else 0)
      ≡ n
one_kind usable n = omega arith
one_kind reserved n = omega arith
one_kind acpi_reclaimable n = omega arith
one_kind acpi_nvs n = omega arith
one_kind bad_memory n = omega arith
one_kind bootloader_reclaimable n = omega arith
one_kind executable_and_modules n = omega arith
one_kind framebuffer n = omega arith
one_kind reserved_mapped n = omega arith
one_kind (unknown k) n = omega arith

summarize-Counts :
    (rs : List MemoryRegion) (s : MemorySummary)
    → s.usable_bytes + s.reserved_bytes + s.other_bytes + total any_kind rs < 2 ^ 64
    → Counts s rs (summarize rs s)
unfolding summarize total
summarize-Counts [] s lt = record {
  usable_eq = omega arith;
  reserved_eq = omega arith;
  other_eq = omega arith;
}
summarize-Counts (r ∷ rs) s lt =
    let (u, v, w) = one_region s r.kind r.length (omega (arith, lt)) in
    let split = one_kind r.kind r.length in
    let rest =
      summarize-Counts rs (count_bytes s r.kind r.length) (omega (arith, lt, u, v, w, split)) in
    record {
      usable_eq = omega (arith, rest.usable_eq, u);
      reserved_eq = omega (arith, rest.reserved_eq, v);
      other_eq = omega (arith, rest.other_eq, w);
    }

take-take : {A : Type 0} (n : ℕ) (xs : List A) → take n (take n xs) ≡ take n xs
take-take zero xs = refl
take-take (suc n) [] = refl
take-take (suc n) (x ∷ xs) = ap (λ l. x ∷ l) (take-take n xs)

-- The regions that a sample names, at most the thirty-two that the array holds, if their bytes together
-- fit a `u64`: the summary has the bytes of the usable ones, of the reserved ones and of the others.
pub update-total :
    (model : MonitorModel) (sample : MonitorSample)
    → total any_kind (regions sample) < 2 ^ 64
    → let s = (update model sample).1.memory_summary in
      (s.usable_bytes ≡ total is_usable (regions sample))
      × (s.reserved_bytes ≡ total is_reserved (regions sample))
      × (s.other_bytes ≡ total is_other (regions sample))
unfolding update compute regions
update-total model sample lt =
    let none_yet : MemorySummary = record {
      usable_bytes = 0;
      reserved_bytes = 0;
      other_bytes = 0;
    } in
    let c = summarize-Counts (regions sample) none_yet (omega (arith, lt)) in
    rw (take-take (min sample.memory_region_count max_memory_regions) sample.memory_regions)
      (omega (arith, c.usable_eq), omega (arith, c.reserved_eq), omega (arith, c.other_eq))
