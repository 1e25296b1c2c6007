-- ===== src/Memory/Heap/Client.antt =====
-- A client of the allocator: its calls, and the payloads that it holds.
use ferric_k.Base.{
  ℕ, zero, suc, ◌+◌, ◌-◌, ◌≤◌, ◌<◌, ◌≡◌, refl, subst, ◌∙◌, arith, List, [], ◌∷◌, none, some,
  get_elem?, ◌==◌, if◌then◌else◌,
}
use ferric_k.Memory.Heap.{Mem, Heap, Layout, Run, ok, ◌>>=◌, alloc, dealloc}
use ferric_k.Memory.Heap.Words.{Block, cover, holds_inside}
use ferric_k.Memory.Heap.State.{Kept, AllTaken}

-- A call of the client: `release` gives back a payload by its place among those that it holds.
pub data Call : Type 0 where
  allocate : Layout → Call
  release : ℕ → Call

abbrev pub remove_at : List ℕ → ℕ → List ℕ
remove_at [] i = []
remove_at (p ∷ ps) zero = ps
remove_at (p ∷ ps) (suc i) = p ∷ remove_at ps i

-- The client keeps the payloads that it was given; null is no payload.
abbrev pub keep : ℕ → List ℕ → List ℕ
keep p ps = if p == 0 then ps else p ∷ ps

unfoldable pub call : ℕ → Call → Heap × List ℕ → Run (Heap × List ℕ)
call fuel (allocate layout) (h, ps) = do (p, h') ← alloc fuel h layout; ok (h', keep p ps)
call fuel (release i) (h, ps) = elim (get_elem? ps i) [
  | none ↦ ok (h, ps)
  | some p ↦ do h' ← dealloc fuel h p; ok (h', remove_at ps i)
]

unfoldable pub calls : ℕ → List Call → Heap × List ℕ → Run (Heap × List ℕ)
calls fuel [] s = ok s
calls fuel (c ∷ cs) s = do s' ← call fuel c s; calls fuel cs s'

-- The payload lies in the block and leads back to its header.
pub record Leads (m : Mem) (a s p : ℕ) : Type 0 where
  pub low : a + 32 ≤ p
  pub high : p < a + s
  pub offset : m (p - 8) ≡ p - (a + 24)

-- The payloads lead to the blocks, one to each.
abbrev pub Owns : Mem → List Block → List ℕ → Type 0
Owns m [] [] = Unit {0}
Owns m [] (p ∷ ps) = ⊥
Owns m ((a, s) ∷ bs) [] = ⊥
Owns m ((a, s) ∷ bs) (p ∷ ps) = Leads m a s p × Owns m bs ps

pub Owns-same :
    (m k : Mem) (bs : List Block) (ps : List ℕ) → Kept m k bs → Owns m bs ps → Owns k bs ps
Owns-same m k [] [] same o = o
Owns-same m k [] (p ∷ ps) same o = o
Owns-same m k ((a, s) ∷ bs) [] same o = o
Owns-same m k ((a, s) ∷ bs) (p ∷ ps) same o =
    let l = o.0 in
    let one = holds_inside (p - 8) a s (omega (arith, l.low)) (omega (arith, l.high)) in
    (
      record { low = l.low; high = l.high; offset = same (p - 8) (omega (arith, one)) ∙ l.offset },
      Owns-same m k bs ps (λ x c. same x (omega (arith, c))) o.1,
    )

-- The block that a payload leads to, and the other ones.
pub record Picked (m : Mem) (bs : List Block) (ps : List ℕ) (i p : ℕ) : Type 0 where
  pub block : ℕ
  pub size : ℕ
  pub others : List Block
  pub leads : Leads m block size p
  pub owns : Owns m others (remove_at ps i)
  pub same_cover : (x : ℕ) → cover x ((block, size) ∷ others) ≡ cover x bs
  pub taken : AllTaken m bs → AllTaken m ((block, size) ∷ others)

pub pick :
    (m : Mem) (bs : List Block) (ps : List ℕ) (i p : ℕ)
    → Owns m bs ps
    → get_elem? ps i ≡ some p
    → Picked m bs ps i p
pick m [] [] i p o e = absurd (ground (arith, e))
pick m [] (q ∷ ps) i p o e = absurd o
pick m ((a, s) ∷ bs) [] i p o e = absurd o
pick m ((a, s) ∷ bs) (q ∷ ps) zero p o e = record {
  block = a;
  size = s;
  others = bs;
  leads = (let same : q ≡ p = ground (arith, e) in subst (λ z. Leads m a s z) same o.0);
  owns = o.1;
  same_cover = λ x. refl;
  taken = λ t. t;
}
pick m ((a, s) ∷ bs) (q ∷ ps) (suc i) p o e =
    let r = pick m bs ps i p o.1 e in
    record {
      block = r.block;
      size = r.size;
      others = (a, s) ∷ r.others;
      leads = r.leads;
      owns = (o.0, r.owns);
      same_cover = λ x. omega (arith, r.same_cover x);
      taken = λ t. (let u = r.taken t.1 in (u.0, (t.0, u.1)));
    }
