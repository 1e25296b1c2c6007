-- ===== src/Memory/Heap/Neighbors.antt =====
-- The walk of `dealloc` for the free neighbours of a block.
use ferric_k.Base.{
  ℕ, zero, suc, ◌+◌, ◌^◌, ◌<◌, ◌≡◌, ◌≢◌, ◌⊎◌, refl, subst, sym, ◌∙◌, ap, arith, List, [], ◌∷◌, ◌++◌,
  Bool, true, false, inl, inr, length, Bool-cases, ◌==◌, if◌then◌else◌,
}
use ferric_k.Memory.Heap.{Mem, ok, neighbors}
use ferric_k.Memory.Heap.Words.{Block}
use ferric_k.Memory.Heap.Links.{Chain}
use ferric_k.Memory.Heap.Unlink.{found}
use ferric_k.Memory.Heap.Fit.{Below, checked_small}

-- The block is in the list.
abbrev pub In : ℕ → ℕ → List Block → Type 0
In a s [] = ⊥
In a s ((b, t) ∷ bs) = ((b ≡ a) × (t ≡ s)) ⊎ In a s bs

pub split-In :
    (a s : ℕ) (bs : List Block)
    → In a s bs
    → (pre : List Block) × (post : List Block) × (bs ≡ pre ++ ((a, s) ∷ post))
split-In a s [] h = absurd h
split-In a s ((b, t) ∷ bs) (inl (e, f)) = ([], bs, rw (e, f) refl)
split-In a s ((b, t) ∷ bs) (inr h) =
    let (pre, post, e) = split-In a s bs h in ((b, t) ∷ pre, post, ap (λ cs. (b, t) ∷ cs) e)

pub In-remove :
    (a s b t : ℕ) (pre post : List Block)
    → a ≢ b
    → In a s (pre ++ ((b, t) ∷ post))
    → In a s (pre ++ post)
In-remove a s b t [] post n (inl (e, f)) = absurd (n (sym e))
In-remove a s b t [] post n (inr h) = h
In-remove a s b t ((c, u) ∷ pre) post n (inl e) = inl e
In-remove a s b t ((c, u) ∷ pre) post n (inr h) = inr (In-remove a s b t pre post n h)

-- The last block of the list that ends at the address, and the last one that starts there.
abbrev pub left_of : ℕ → List Block → ℕ → ℕ
left_of b [] left = left
left_of b ((a, s) ∷ bs) left = left_of b bs (if a + s == b then a else left)

abbrev pub right_of : ℕ → List Block → ℕ → ℕ
right_of e [] right = right
right_of e ((a, s) ∷ bs) right = right_of e bs (if a == e then a else right)

pub neighbors_lem :
    (fuel : ℕ) (m : Mem) (prev p : ℕ) (bs : List Block) (b e left right top : ℕ)
    → Chain m prev p bs
    → Below top bs
    → top < 2 ^ 64
    → length bs < fuel
    → neighbors fuel m b e p left right ≡ ok (left_of b bs left, right_of e bs right)
unfolding neighbors
neighbors_lem zero m prev p bs b e left right top c below bound enough =
    absurd (omega (arith, enough))
neighbors_lem (suc fuel) m prev p [] b e left right top c below bound enough = rw c refl
neighbors_lem (suc fuel) m prev p ((a, s) ∷ bs) b e left right top c below bound enough =
    let n = c.0 in
    let some_node : (a == 0) ≡ false = ground (arith, n.nonnull) in
    rw (n.here, some_node, n.size_word, checked_small (a + s) (omega (arith, below.0, bound)))
      (neighbors_lem fuel m a (m (a + 8)) bs b e (if a + s == b then a else left)
        (if a == e then a else right) top c.1 below.1 bound (omega (arith, enough)))

pub left_of_cases :
    (b : ℕ) (bs : List Block) (left x : ℕ)
    → left_of b bs left ≡ x
    → (x ≡ left) ⊎ ((s : ℕ) × (x + s ≡ b) × In x s bs)
left_of_cases b [] left x h = inl (sym h)
left_of_cases b ((a, s) ∷ bs) left x h =
    let step : (c : Bool) → (a + s == b) ≡ c → left_of b bs (if c then a else left) ≡ x =
      λ c e. subst (λ z. left_of b bs (if z then a else left) ≡ x) e h in
    elim (Bool-cases (a + s == b)) [
      | inl meets ↦ elim (left_of_cases b bs a x (step true meets)) [
        | inl e ↦ inr (s, rw e (ground (arith, meets)), inl (sym e, refl))
        | inr (t, meet, found) ↦ inr (t, meet, inr found)
      ]
      | inr misses ↦ elim (left_of_cases b bs left x (step false misses)) [
        | inl e ↦ inl e
        | inr (t, meet, found) ↦ inr (t, meet, inr found)
      ]
    ]

pub right_of_cases :
    (e : ℕ) (bs : List Block) (right x : ℕ)
    → right_of e bs right ≡ x
    → (x ≡ right) ⊎ ((s : ℕ) × (x ≡ e) × In e s bs)
right_of_cases e [] right x h = inl (sym h)
right_of_cases e ((a, s) ∷ bs) right x h =
    let step : (c : Bool) → (a == e) ≡ c → right_of e bs (if c then a else right) ≡ x =
      λ c f. subst (λ z. right_of e bs (if z then a else right) ≡ x) f h in
    elim (Bool-cases (a == e)) [
      | inl meets ↦
          (let same : a ≡ e = ground (arith, meets) in
            elim (right_of_cases e bs a x (step true meets)) [
              | inl f ↦ inr (s, f ∙ same, inl (same, refl))
              | inr (t, meet, found) ↦ inr (t, meet, inr found)
            ])
      | inr misses ↦ elim (right_of_cases e bs right x (step false misses)) [
        | inl f ↦ inl f
        | inr (t, meet, found) ↦ inr (t, meet, inr found)
      ]
    ]
