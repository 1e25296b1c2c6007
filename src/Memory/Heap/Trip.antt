-- ===== src/Memory/Heap/Trip.antt =====
-- `alloc` followed by `dealloc`, and what a payload may rely on.
use ferric_k.Base.{
  ℕ, suc, ◌+◌, ◌-◌, ◌*◌, ◌^◌, ◌≤◌, ◌<◌, ◌≡◌, ◌≢◌, ◌∙◌, arith, List, none, inl, inr, length,
}
use Prim.Native.Nat.{max}
use ferric_k.Memory.Heap.{Heap, Layout, ok, alloc, dealloc}
use ferric_k.Memory.Heap.Words.{Block, cover, holds_inside}
use ferric_k.Memory.Heap.State.{IsValid, holds-le_one, used-inside}
use ferric_k.Memory.Heap.Fit.{first_fit}
use ferric_k.Memory.Heap.Alloc.{alloc-first_fit}
use ferric_k.Memory.Heap.Dealloc.{Valid, dealloc-IsValid}

-- What one allocation hands out may be given back: with fuel for two more rounds than the free list
-- has blocks, an `alloc` that finds a block in a valid heap returns a payload that `dealloc`
-- accepts, and then the heap is valid with the same region and the same blocks in use as before,
-- their words unchanged. Alignment and region are as for first fit.
pub alloc-dealloc :
    (fuel : ℕ) (h : Heap) (layout : Layout) (free used : List Block)
    → IsValid h free used
    → suc (length free) < fuel
    → 1 ≤ layout.align
    → h.end + layout.align < 2 ^ 64
    → first_fit (max layout.size 1) layout.align free ≢ none
    → (ptr : ℕ) × (h1 : Heap) × (h2 : Heap) × (alloc fuel h layout ≡ ok (ptr, h1))
      × (dealloc fuel h1 ptr ≡ ok h2)
      × Valid (suc (length free)) h h2 used
alloc-dealloc fuel h layout free used valid enough some_align bound some_block =
    let (r, run, answer) =
      alloc-first_fit fuel h layout free used valid (omega (arith, enough)) some_align bound in
    elim answer [
      | inl (full, e) ↦ absurd (some_block full)
      | inr (a, e, place, handed) ↦
          (let (h2, back, now) =
              dealloc-IsValid fuel r.1 handed.free used a handed.kept r.0 handed.valid
                (omega (arith, handed.count, enough)) handed.low (omega (arith, handed.high))
                handed.offset in
            (
              r.0,
              r.1,
              h2,
              run,
              back,
              record {
                free = now.free;
                valid = now.valid;
                others = λ x u. now.others x u ∙ handed.others x u;
                count = omega (arith, now.count, handed.count);
                region = (now.region.0 ∙ handed.region.0, now.region.1 ∙ handed.region.1);
              },
            ))
    ]

-- On a valid heap where first fit finds a block, `alloc` answers with a new payload: its start is a
-- multiple of the alignment, and each of its addresses lies in the region and in no block that was
-- in use before. Fuel, alignment and region are as for first fit.
pub alloc-fresh :
    (fuel : ℕ) (h : Heap) (layout : Layout) (free used : List Block)
    → IsValid h free used
    → length free < fuel
    → 1 ≤ layout.align
    → h.end + layout.align < 2 ^ 64
    → first_fit (max layout.size 1) layout.align free ≢ none
    → (ptr : ℕ) × (h1 : Heap) × (q : ℕ) × (alloc fuel h layout ≡ ok (ptr, h1))
      × (ptr ≡ q * layout.align)
      × ((x : ℕ)
          → ptr ≤ x
          → x < ptr + layout.size
          → (h.start ≤ x) × (x < h.end) × (cover x used ≡ 0))
alloc-fresh fuel h layout free used valid enough some_align bound some_block =
    let (r, run, answer) = alloc-first_fit fuel h layout free used valid enough some_align bound in
    elim answer [
      | inl (full, e) ↦ absurd (some_block full)
      | inr (a, e, place, handed) ↦ (
        r.0,
        r.1,
        handed.multiple,
        run,
        handed.aligned,
        λ x lo hi.
            (let now = handed.valid in
              let one =
                holds_inside x a handed.kept (omega (arith, lo, handed.low))
                  (omega (arith, hi, handed.high)) in
              let inside = used-inside now x (omega (arith, one)) in
              (
                omega (arith, inside.0, handed.region.0),
                omega (arith, inside.1, handed.region.1),
                omega (arith, one, now.tiling x, holds-le_one x r.1.start (r.1.end - r.1.start)),
              )),
      )
    ]
