-- ===== src/Memory/Heap/Null.antt =====
-- When `alloc` answers null.
use ferric_k.Base.{
  ℕ, ◌+◌, ◌*◌, ◌^◌, ◌≤◌, ◌<◌, ◌≡◌, sym, subst, ◌∙◌, ap, arith, List, [], ◌∷◌, none, Bool-cases,
  false, inl, inr, length,
}
use Prim.Native.Nat.{max}
use ferric_k.Memory.Heap.{Heap, Layout, Run, ok, header_size, header_gap, alloc}
use ferric_k.Memory.Heap.Words.{Block}
use ferric_k.Memory.Heap.Alignment.{round_up_least}
use ferric_k.Memory.Heap.State.{IsValid}
use ferric_k.Memory.Heap.Fit.{usable, first_fit}
use ferric_k.Memory.Heap.Alloc.{alloc-first_fit}
use ferric_k.Memory.Heap.Neighbors.{In}

first_fit-none :
    (size align : ℕ) (bs : List Block) (a s q : ℕ)
    → 1 ≤ align
    → first_fit size align bs ≡ none
    → In a s bs
    → a + 32 ≤ q * align
    → a + s < q * align + size
first_fit-none size align [] a s q pos none_fits there low = absurd there
first_fit-none size align ((b, t) ∷ bs) a s q pos none_fits there low =
    elim (Bool-cases (usable size align b t)) [
      | inl fits ↦ absurd (ground (arith, none_fits, fits))
      | inr misses ↦ elim there [
        | inl (e, f) ↦
            (let least =
                round_up_least (a + header_size + header_gap) align q pos (omega (arith, low)) in
              let misses' : usable size align a s ≡ false =
                subst (λ z. usable size align z s ≡ false) e
                  (subst (λ z. usable size align b z ≡ false) f misses) in
              ground (arith, misses', least))
        | inr later ↦
            first_fit-none size align bs a s q pos (ground (arith, none_fits, misses)) later low
      ]
    ]

address : Run (ℕ × Heap) → ℕ
address (ok r) = r.0
address r = 1

-- Null is the answer only where it has to be: if `alloc` answers null on a valid heap, no free
-- block has room for the payload at any multiple of the alignment that leaves place for the header
-- and the padding. Fuel, alignment and region are as for first fit.
pub alloc-null :
    (fuel : ℕ) (h h' : Heap) (layout : Layout) (free used : List Block) (a s q : ℕ)
    → IsValid h free used
    → length free < fuel
    → 1 ≤ layout.align
    → h.end + layout.align < 2 ^ 64
    → alloc fuel h layout ≡ ok (0, h')
    → In a s free
    → a + 32 ≤ q * layout.align
    → a + s < q * layout.align + max layout.size 1
unfolding address
alloc-null fuel h h' layout free used a s q valid enough pos bound null there low =
    let (r, run, answer) = alloc-first_fit fuel h layout free used valid enough pos bound in
    elim answer [
      | inl (full, e) ↦
          first_fit-none (max layout.size 1) layout.align free a s q pos full there low
      | inr (b, e, place, handed) ↦
          (let zero_ptr : r.0 ≡ 0 = ap address (sym run ∙ null) in
            absurd (omega (arith, zero_ptr, handed.low)))
    ]
