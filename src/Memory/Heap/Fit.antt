-- ===== src/Memory/Heap/Fit.antt =====
-- The walk of `alloc`, against first fit on the list of blocks.
use ferric_k.Base.{
  ℕ, zero, suc, ◌+◌, ◌-◌, ◌^◌, ◌≤◌, ◌<◌, ◌≡◌, refl, subst, ap, arith, List, [], ◌∷◌, ◌++◌, Bool,
  true, false, Option, none, some, if◌then◌else◌, inl, inr, Bool-cases, length, leb, ◌==◌,
}
use ferric_k.Memory.Heap.{
  Mem, ok, checked, header_size, header_gap, round_down, align_up, fits, find_fit,
}
use ferric_k.Memory.Heap.Words.{Block}
use ferric_k.Memory.Heap.Links.{Chain}

-- The first address behind a block's header and gap at which a payload may start.
abbrev pub payload_at : (a align : ℕ) → ℕ
payload_at a align = round_down (a + header_size + header_gap + (align - 1)) align

-- Whether a payload of that size and alignment fits into the block at `a` of size `s`.
abbrev pub usable : (size align a s : ℕ) → Bool
usable size align a s = leb (payload_at a align + size) (a + s)

-- The first block of the list that a payload fits into.
abbrev pub first_fit : (size align : ℕ) → List Block → Option ℕ
first_fit size align [] = none
first_fit size align ((a, s) ∷ bs) =
    if usable size align a s then some a else first_fit size align bs

-- Every block ends by the address `e`.
abbrev pub Below : ℕ → List Block → Type 0
Below e [] = Unit {0}
Below e ((a, s) ∷ bs) = (a + s ≤ e) × Below e bs

pub checked_small : (n : ℕ) → n < 2 ^ 64 → checked n ≡ ok n
unfolding checked
checked_small n lt = ground arith

pub align_up_small :
    (v align : ℕ)
    → v + (align - 1) < 2 ^ 64
    → align_up v align ≡ ok (round_down (v + (align - 1)) align)
unfolding align_up
align_up_small v align lt = rw (checked_small (v + (align - 1)) lt)

-- The guard against an overflow agrees with the comparison that it protects.
guarded :
    (x y : ℕ) → y < 2 ^ 64 → (if leb (2 ^ 64) x then ok false else ok (leb x y)) ≡ ok (leb x y)
guarded x y lt = ground arith

fits_usable :
    (m : Mem) (a s size align e : ℕ)
    → m a ≡ s
    → a + s ≤ e
    → 32 ≤ s
    → e + align < 2 ^ 64
    → fits m a size align ≡ ok (usable size align a s)
unfolding fits
fits_usable m a s size align e word below room bound =
    rw
      (
        word,
        align_up_small (a + header_size + header_gap) align (omega (arith, below, room, bound)),
        checked_small (a + s) (omega (arith, below, bound)),
      )
      (guarded (round_down (a + header_size + header_gap + (align - 1)) align + size) (a + s)
        (omega (arith, below, bound)))

pub find_fit-first :
    (fuel : ℕ) (m : Mem) (prev p : ℕ) (bs : List Block) (size align e : ℕ)
    → Chain m prev p bs
    → Below e bs
    → e + align < 2 ^ 64
    → length bs < fuel
    → find_fit fuel m size align p ≡ ok (first_fit size align bs)
unfolding find_fit
find_fit-first zero m prev p bs size align e c below bound enough = absurd (omega (arith, enough))
find_fit-first (suc fuel) m prev p [] size align e c below bound enough = rw c refl
find_fit-first (suc fuel) m prev p ((a, s) ∷ bs) size align e c below bound enough =
    let n = c.0 in
    let some_node : (a == 0) ≡ false = ground (arith, n.nonnull) in
    let rest =
      find_fit-first fuel m a (m (a + 8)) bs size align e c.1 below.1 bound
        (omega (arith, enough)) in
    rw (n.here, some_node, fits_usable m a s size align e n.size_word below.0 n.room bound, rest)
      (elim (Bool-cases (usable size align a s)) [ inl y ↦ rw y refl | inr n ↦ rw n refl ])

pub first_fit_split :
    (size align : ℕ) (bs : List Block) (a : ℕ)
    → first_fit size align bs ≡ some a
    → (pre : List Block) × (s : ℕ) × (post : List Block) × (bs ≡ pre ++ ((a, s) ∷ post))
      × (usable size align a s ≡ true)
first_fit_split size align [] a found = absurd (ground (arith, found))
first_fit_split size align ((b, t) ∷ bs) a found = elim (Bool-cases (usable size align b t)) [
  | inl here ↦
      (let e : b ≡ a = ground (arith, found, here) in
        ([], t, bs, ap (λ z. (z, t) ∷ bs) e, subst (λ z. usable size align z t ≡ true) e here))
  | inr not_here ↦
      (let later : first_fit size align bs ≡ some a = ground (arith, found, not_here) in
        let (pre, s, post, e, fit) = first_fit_split size align bs a later in
        ((b, t) ∷ pre, s, post, ap (λ cs. (b, t) ∷ cs) e, fit))
]
