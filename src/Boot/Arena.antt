-- ===== src/Boot/Arena.antt =====
-- `install_from_boot_info` of crates/ferric-unsafe-core/src/heap.rs: the kernel's heap in the largest
-- usable region of the memory map, or in the static arena, whose address is an argument.
pub mod Installed
use ferric_k.Base.{
  ℕ, ◌+◌, ◌*◌, Bool, true, false, ◌&&◌, Option, none, some, List, [], ◌∷◌, ltb, leb, ◌==◌,
  if◌then◌else◌,
}
use ferric_k.Memory.Heap.{Heap, Run, ok, ◌>>=◌, checked, min_block, init}
use ferric_k.Boot.Limine.{MemmapEntry, BootInfo}

abbrev pub static_arena_size : ℕ
static_arena_size = 1024 * 1024

-- A region by its start and its length.
abbrev pub Region : Type 0
Region = ℕ × ℕ

abbrev pub is_better : Option Region → ℕ → Bool
is_better none len = true
is_better (some best) len = ltb best.1 len

-- A usable entry with room for a block.
abbrev pub is_candidate : MemmapEntry → Bool
is_candidate e = (e.entry_type == 0) && leb min_block e.length

-- The loop over the entries, with the best region so far.
unfoldable pub best_region : (hhdm : ℕ) → List MemmapEntry → Option Region → Run (Option Region)
best_region hhdm [] best = ok best
best_region hhdm (e ∷ entries) best =
    let keep = best_region hhdm entries best in
    let take : Run (Option Region) = (do
      start ← checked (e.base + hhdm)
      best_region hhdm entries (some (start, e.length))) in
    if is_candidate e && is_better best e.length then take else keep

-- The best region is tried first; without one, or if the heap refuses it, the static arena.
unfoldable pub try_region : Heap → Option Region → Run (Bool × Heap)
try_region h none = ok (false, h)
try_region h (some (start, len)) = init h start len

unfoldable pub install_from_boot_info : (arena : ℕ) → Heap → BootInfo → Run Heap
install_from_boot_info arena h info = do
  best ← best_region info.hhdm_offset info.memmap none
  tried ← try_region h best
  fallen ← (if tried.0 then ok tried else init tried.1 arena static_arena_size)
  ok fallen.1
