-- ===== src/Memory/Heap/Words.antt =====
-- Words of memory, and how many blocks of a list hold an address.
use ferric_k.Base.{ℕ, ◌+◌, ◌≤◌, ◌<◌, ◌≡◌, ◌≢◌, arith, List, [], ◌∷◌, ◌++◌, ltb, leb, if◌then◌else◌}
use ferric_k.Memory.Heap.{Mem, write}

-- A block: its address and its size.
abbrev pub Block : Type 0
Block = ℕ × ℕ

-- 1 if the block at `a` of size `s` holds the address, 0 if not.
abbrev pub holds : ℕ → ℕ → ℕ → ℕ
holds x a s = if leb a x then (if ltb x (a + s) then 1 else 0) else 0

-- How many blocks of a list hold the address.
abbrev pub cover : ℕ → List Block → ℕ
cover x [] = 0
cover x ((a, s) ∷ bs) = holds x a s + cover x bs

pub cover-append : (x : ℕ) (bs cs : List Block) → cover x (bs ++ cs) ≡ cover x bs + cover x cs
cover-append x [] cs = omega arith
cover-append x ((a, s) ∷ bs) cs = omega (arith, cover-append x bs cs)

pub holds_inside : (x a s : ℕ) → a ≤ x → x < a + s → holds x a s ≡ 1
holds_inside x a s h k = ground arith

pub outside_of_holds : (x a s : ℕ) → holds x a s ≡ 0 → a ≤ x → a + s ≤ x
outside_of_holds x a s h k = ground arith

-- A block falls into two at any place inside.
pub holds-add : (x a s t : ℕ) → holds x a (s + t) ≡ holds x a s + holds x (a + s) t
holds-add x a s t = ground arith

pub write_self : (m : Mem) (a v : ℕ) → write m a v a ≡ v
unfolding write
write_self m a v = ground arith

pub write_other : (m : Mem) (a v x : ℕ) → x ≢ a → write m a v x ≡ m x
unfolding write
write_other m a v x n = ground arith
