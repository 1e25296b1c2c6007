-- ===== src/Memory/Heap/Links.antt =====
-- The doubly linked free list in memory.
use ferric_k.Base.{ℕ, ◌+◌, ◌%◌, ◌≤◌, ◌<◌, ◌≡◌, refl, ◌∙◌, arith, List, [], ◌∷◌, ◌++◌}
use ferric_k.Memory.Heap.{Mem, write}
use ferric_k.Memory.Heap.Words.{Block, holds, cover, write_other}

-- The header at `a`, reached by the pointer `p` from the node at `prev`.
pub record Node (m : Mem) (prev p a s : ℕ) : Type 0 where
  pub here : p ≡ a
  pub nonnull : 0 < a
  pub room : 32 ≤ s
  pub aligned : (a % 8 ≡ 0) × (s % 8 ≡ 0)
  pub size_word : m a ≡ s
  pub prev_word : m (a + 16) ≡ prev

-- The list from the pointer `p` on, behind the node at `prev`.
abbrev pub Chain : Mem → ℕ → ℕ → List Block → Type 0
Chain m prev p [] = p ≡ 0
Chain m prev p ((a, s) ∷ bs) = Node m prev p a s × Chain m a (m (a + 8)) bs

-- A part of the list, from the pointer `p` behind `prev` to the pointer `q` behind `last`.
abbrev pub Segment : Mem → ℕ → ℕ → List Block → ℕ → ℕ → Type 0
Segment m prev p [] q last = (p ≡ q) × (prev ≡ last)
Segment m prev p ((a, s) ∷ bs) q last = Node m prev p a s × Segment m a (m (a + 8)) bs q last

-- No address lies in two blocks of the list.
abbrev pub Apart : List Block → Type 0
Apart bs = (x : ℕ) → cover x bs ≤ 1

pub split-Chain :
    (m : Mem) (prev p : ℕ) (bs cs : List Block)
    → Chain m prev p (bs ++ cs)
    → (q : ℕ) × (last : ℕ) × Segment m prev p bs q last × Chain m last q cs
split-Chain m prev p [] cs c = (p, prev, (refl, refl), c)
split-Chain m prev p ((a, s) ∷ bs) cs c =
    let (q, last, seg, rest) = split-Chain m a (m (a + 8)) bs cs c.1 in (q, last, (c.0, seg), rest)

pub join-Chain :
    (m : Mem) (prev p q last : ℕ) (bs cs : List Block)
    → Segment m prev p bs q last
    → Chain m last q cs
    → Chain m prev p (bs ++ cs)
join-Chain m prev p q last [] cs s c = rw (s.0, s.1) c
join-Chain m prev p q last ((a, t) ∷ bs) cs s c =
    (s.0, join-Chain m a (m (a + 8)) q last bs cs s.1 c)

module _ (m : Mem) (x v : ℕ) where
  pub Node-write :
      (prev p a s : ℕ) → holds x a s ≡ 0 → Node m prev p a s → Node (write m x v) prev p a s
  Node-write prev p a s out n = record {
    here = n.here;
    nonnull = n.nonnull;
    room = n.room;
    aligned = n.aligned;
    size_word = write_other m x v a (ground (arith, n.room)) ∙ n.size_word;
    prev_word = write_other m x v (a + 16) (ground (arith, n.room)) ∙ n.prev_word;
  }

  pub next-write : (a s : ℕ) → holds x a s ≡ 0 → 32 ≤ s → write m x v (a + 8) ≡ m (a + 8)
  next-write a s out room = write_other m x v (a + 8) (ground arith)

  -- A list survives a write outside its blocks.
  pub Chain-write :
      (prev p : ℕ) (bs : List Block)
      → cover x bs ≡ 0
      → Chain m prev p bs
      → Chain (write m x v) prev p bs
  Chain-write prev p [] out c = c
  Chain-write prev p ((a, s) ∷ bs) out c = (
    Node-write prev p a s (omega arith) c.0,
    rw (next-write a s (omega arith) c.0.room) (Chain-write a (m (a + 8)) bs (omega arith) c.1),
  )

  pub Segment-write :
      (prev p q last : ℕ) (bs : List Block)
      → cover x bs ≡ 0
      → Segment m prev p bs q last
      → Segment (write m x v) prev p bs q last
  Segment-write prev p q last [] out c = c
  Segment-write prev p q last ((a, s) ∷ bs) out c = (
    Node-write prev p a s (omega arith) c.0,
    rw (next-write a s (omega arith) c.0.room)
        (Segment-write a (m (a + 8)) q last bs (omega arith) c.1),
  )
