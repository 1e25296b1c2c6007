-- ===== src/Memory/Heap/State.antt =====
-- The states of the allocator: a free list and the blocks in use, which tile the region.
use ferric_k.Base.{
  ℕ, ◌+◌, ◌-◌, ◌%◌, ◌^◌, ◌≤◌, ◌<◌, ◌≡◌, subst, sym, ◌∙◌, arith, List, [], ◌∷◌, ◌++◌,
}
use ferric_k.Memory.Heap.{Mem, write, Heap}
use ferric_k.Memory.Heap.Words.{Block, holds, cover, cover-append, holds_inside, write_other}
use ferric_k.Memory.Heap.Links.{Apart, Chain, Chain-write}

-- A block in use: of its header only the size still counts.
pub record Taken (m : Mem) (a s : ℕ) : Type 0 where
  pub nonnull : 0 < a
  pub room : 32 ≤ s
  pub aligned : (a % 8 ≡ 0) × (s % 8 ≡ 0)
  pub size_word : m a ≡ s

abbrev pub AllTaken : Mem → List Block → Type 0
AllTaken m [] = Unit {0}
AllTaken m ((a, s) ∷ bs) = Taken m a s × AllTaken m bs

-- The free list is `free`, the blocks in use are `used`, and every address of the region lies in
-- exactly one of them.
pub record IsValid (h : Heap) (free used : List Block) : Type 0 where
  pub chain : Chain h.mem 0 h.free free
  pub taken : AllTaken h.mem used
  pub tiling : (x : ℕ) → cover x free + cover x used ≡ holds x h.start (h.end - h.start)
  pub bound : h.end < 2 ^ 64

pub holds-le_one : (x a s : ℕ) → holds x a s ≤ 1
holds-le_one x a s = ground arith

module _ {h : Heap} {free used : List Block} (valid : IsValid h free used) where
  pub free-Apart : Apart free
  free-Apart x = omega (arith, valid.tiling x, holds-le_one x h.start (h.end - h.start))

  pub used_not_free : (x : ℕ) → 1 ≤ cover x used → cover x free ≡ 0
  used_not_free x u = omega (arith, u, valid.tiling x, holds-le_one x h.start (h.end - h.start))

  -- What lies in a block lies in the region.
  pub free-inside : (x : ℕ) → 1 ≤ cover x free → (h.start ≤ x) × (x < h.end)
  free-inside x f = let t = valid.tiling x in (ground (arith, t, f), ground (arith, t, f))

  pub used-inside : (x : ℕ) → 1 ≤ cover x used → (h.start ≤ x) × (x < h.end)
  used-inside x f = let t = valid.tiling x in (ground (arith, t, f), ground (arith, t, f))

  pub free_block_end :
      (pre post : List Block) (a s : ℕ) → free ≡ pre ++ ((a, s) ∷ post) → 1 ≤ s → a + s ≤ h.end
  free_block_end pre post a s e pos =
      let x = a + s - 1 in
      let one = holds_inside x a s (omega arith) (omega (arith, pos)) in
      let many : 1 ≤ cover x free =
        subst (λ bs. 1 ≤ cover x bs) (sym e)
          (omega (arith, one, cover-append x pre ((a, s) ∷ post))) in
      omega (arith, (free-inside x many).1, pos)

-- The second memory agrees with the first in the blocks.
abbrev pub Kept : Mem → Mem → List Block → Type 0
Kept m k bs = (x : ℕ) → 1 ≤ cover x bs → k x ≡ m x

pub Taken-same : (m k : Mem) (a s : ℕ) → k a ≡ m a → Taken m a s → Taken k a s
Taken-same m k a s e t = record {
  nonnull = t.nonnull;
  room = t.room;
  aligned = t.aligned;
  size_word = e ∙ t.size_word;
}

-- Blocks in use stay so where their words are kept.
pub AllTaken-same : (m k : Mem) (bs : List Block) → Kept m k bs → AllTaken m bs → AllTaken k bs
AllTaken-same m k [] same t = t
AllTaken-same m k ((a, s) ∷ bs) same t = (
  Taken-same m k a s
      (same a (omega (arith, holds_inside a a s (omega arith) (omega (arith, t.0.room))))) t.0,
  AllTaken-same m k bs (λ x c. same x (omega (arith, c))) t.1,
)

-- A write into a block in use, behind its size word, keeps the state valid.
pub IsValid-write :
    (h : Heap) (free used : List Block) (a s x v : ℕ)
    → IsValid h free ((a, s) ∷ used)
    → a < x
    → x < a + s
    → IsValid (record h { mem = write h.mem x v }) free ((a, s) ∷ used)
IsValid-write h free used a s x v valid lo hi =
    let here = holds_inside x a s (omega (arith, lo)) hi in
    let not_free = used_not_free valid x (omega (arith, here)) in
    let not_used : cover x used ≡ 0 =
      omega (arith, here, valid.tiling x, holds-le_one x h.start (h.end - h.start)) in
    record {
      chain = Chain-write h.mem x v 0 h.free free not_free valid.chain;
      taken = (
        Taken-same h.mem (write h.mem x v) a s (write_other h.mem x v a (omega (arith, lo)))
            valid.taken.0,
        AllTaken-same h.mem (write h.mem x v) used
            (λ y c.
              write_other h.mem x v y
                (λ e. absurd (omega (arith, not_used, (subst (λ z. 1 ≤ cover z used) e c)))))
            valid.taken.1,
      );
      tiling = valid.tiling;
      bound = valid.bound;
    }
