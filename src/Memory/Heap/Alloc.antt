-- ===== src/Memory/Heap/Alloc.antt =====
-- `Heap::alloc` on a valid state.
use ferric_k.Base.{
  ℕ, ◌+◌, ◌-◌, ◌^◌, ◌≤◌, ◌<◌, ◌≡◌, ◌⊎◌, refl, subst, sym, arith, List, [], ◌∷◌, Option, none, some,
  inl, inr, length,
}
use Prim.Native.Nat.{max}
use ferric_k.Memory.Heap.{Mem, Heap, Layout, ok, find_fit, alloc}
use ferric_k.Memory.Heap.Words.{Block, cover, holds_inside}
use ferric_k.Memory.Heap.Links.{Chain}
use ferric_k.Memory.Heap.State.{IsValid, free-inside}
use ferric_k.Memory.Heap.Fit.{payload_at, first_fit, first_fit_split, find_fit-first, Below}
use ferric_k.Memory.Heap.Carve.{Handed, carve_lem}

pub Below-cover :
    (m : Mem) (prev p e : ℕ) (bs : List Block)
    → Chain m prev p bs
    → ((x : ℕ) → 1 ≤ cover x bs → x < e)
    → Below e bs
Below-cover m prev p e [] c inside = tt
Below-cover m prev p e ((a, s) ∷ bs) c inside =
    let n = c.0 in
    let x = a + s - 1 in
    let one = holds_inside x a s (omega (arith, n.room)) (omega (arith, n.room)) in
    (
      omega (arith, n.room, inside x (omega (arith, one))),
      Below-cover m a (m (a + 8)) e bs c.1 (λ y many. inside y (omega (arith, many))),
    )

pub find_fit-free :
    (fuel : ℕ) (h : Heap) (free used : List Block) (size align : ℕ)
    → IsValid h free used
    → length free < fuel
    → h.end + align < 2 ^ 64
    → find_fit fuel h.mem size align h.free ≡ ok (first_fit size align free)
find_fit-free fuel h free used size align valid enough bound =
    find_fit-first fuel h.mem 0 h.free free size align h.end valid.chain
      (Below-cover h.mem 0 h.free h.end free valid.chain (λ x c. (free-inside valid x c).1)) bound
      enough

-- What `alloc` answers: null and an unchanged heap if no free block takes the payload, and otherwise
-- a payload in the first block that does.
abbrev pub Answer : Heap → (free used : List Block) → Layout → ℕ × Heap → Type 0
Answer h free used layout r =
    (first_fit (max layout.size 1) layout.align free ≡ none) × (r ≡ (0, h))
    ⊎ ((a : ℕ) × (first_fit (max layout.size 1) layout.align free ≡ some a)
        × (r.0 ≡ payload_at a layout.align)
        × Handed h r.1 used (length free) (max layout.size 1) layout.align a r.0)

-- On a valid heap, with fuel for one more round than the free list has blocks, `alloc` returns. It
-- answers null with the heap unchanged if first fit finds no block, and otherwise the first aligned
-- address in the block that first fit finds; then the heap is valid again with that block, or its
-- front part, in use, the payload lies inside and leads back to the block's header, and no word of
-- a block that was in use before has changed. The alignment is not 0, and the region ends at least
-- that far below the end of the address space.
pub alloc-first_fit :
    (fuel : ℕ) (h : Heap) (layout : Layout) (free used : List Block)
    → IsValid h free used
    → length free < fuel
    → 1 ≤ layout.align
    → h.end + layout.align < 2 ^ 64
    → (r : ℕ × Heap) × (alloc fuel h layout ≡ ok r) × Answer h free used layout r
unfolding alloc
alloc-first_fit fuel h layout free used valid enough some_align bound =
    let size = max layout.size 1 in
    let found = find_fit-free fuel h free used size layout.align valid enough bound in
    answer found (first_fit size layout.align free) refl
  where
    answer :
        (found : find_fit fuel h.mem (max layout.size 1) layout.align h.free
          ≡ ok (first_fit (max layout.size 1) layout.align free))
        (o : Option ℕ)
        → first_fit (max layout.size 1) layout.align free ≡ o
        → (r : ℕ × Heap) × (alloc fuel h layout ≡ ok r) × Answer h free used layout r
    answer found none e = ((0, h), rw (found, e) refl, inl (e, refl))
    answer found (some a) e =
        let (pre, s, post, shape, fit) =
          first_fit_split (max layout.size 1) layout.align free a e in
        let (h', run, handed) =
          carve_lem h pre post used a s (subst (λ bs. IsValid h bs used) shape valid)
            (max layout.size 1) layout.align (omega arith) some_align bound fit in
        (
          (payload_at a layout.align, h'),
          rw (found, e) run,
          inr (
            a,
            e,
            refl,
            subst
                (λ bs.
                  Handed h h' used (length bs) (max layout.size 1) layout.align a
                    (payload_at a layout.align))
                (sym shape) handed,
          ),
        )
