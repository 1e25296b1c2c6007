-- ===== src/Memory/Heap/Dealloc.antt =====
-- `Heap::dealloc` on a valid state.
use ferric_k.Base.{
  ℕ, suc, ◌+◌, ◌-◌, ◌^◌, ◌≤◌, ◌<◌, ◌≡◌, ◌⊎◌, refl, subst, sym, ◌∙◌, ap, arith, List, ◌∷◌, ◌++◌,
  false, ◌||◌, inl, inr, Bool-cases, length, length-append, leb, ltb, ◌==◌,
}
use ferric_k.Memory.Heap.{
  Heap, write, ok, header_size, merged_size, merge_right, merge_left, give_back, dealloc_at,
  dealloc,
}
use ferric_k.Memory.Heap.Words.{Block, holds_inside}
use ferric_k.Memory.Heap.Links.{Chain}
use ferric_k.Memory.Heap.Unlink.{found, relink-region, unlink-region}
use ferric_k.Memory.Heap.State.{IsValid, Kept, free_block_end, free-inside, used-inside}
use ferric_k.Memory.Heap.Fit.{checked_small}
use ferric_k.Memory.Heap.Alloc.{Below-cover}
use ferric_k.Memory.Heap.Merge.{merge_right-IsValid, merge_left-IsValid, push-IsValid}
use ferric_k.Memory.Heap.Neighbors.{
  In, split-In, In-remove, left_of, right_of, neighbors_lem, left_of_cases, right_of_cases,
}

used_block_end :
    (h : Heap) (free used : List Block) (a s : ℕ) → IsValid h free ((a, s) ∷ used) → a + s ≤ h.end
used_block_end h free used a s valid =
    let t = valid.taken.0 in
    let x = a + s - 1 in
    let one = holds_inside x a s (omega (arith, t.room)) (omega (arith, t.room)) in
    omega (arith, (used-inside valid x (omega (arith, one))).1, t.room)

-- The state is valid with the given blocks in use, whatever its free list, the words of these blocks
-- are as before, the free list has at most `most` blocks, and the region is the same.
pub record Valid (most : ℕ) (h h' : Heap) (used : List Block) : Type 0 where
  pub free : List Block
  pub valid : IsValid h' free used
  pub others : Kept h.mem h'.mem used
  pub count : length free ≤ most
  pub region : (h'.start ≡ h.start) × (h'.end ≡ h.end)

merge_left-region :
    (h : Heap) (a l : ℕ) → ((merge_left h a l).start ≡ h.start) × ((merge_left h a l).end ≡ h.end)
unfolding merge_left
merge_left-region h a l =
    let m = write (write h.mem (a + 8) h.free) (a + 16) 0 in
    let pushed = relink-region (record h { mem = m }) 0 h.free a in
    elim (Bool-cases (l == 0)) [
      | inl null ↦ rw null (pushed.2, pushed.3)
      | inr some ↦ rw some (refl, refl)
    ]

merge_right-region :
    (h : Heap) (a r : ℕ) → ((merge_right h a r).start ≡ h.start) × ((merge_right h a r).end ≡ h.end)
unfolding merge_right
merge_right-region h a r = elim (Bool-cases (r == 0)) [
  | inl null ↦ rw null (refl, refl)
  | inr some ↦ rw some (unlink-region (record h { mem = write h.mem a (h.mem a + h.mem r) }) r)
]

merge_left_lem :
    (h : Heap) (used : List Block) (a s : ℕ) (free : List Block) (l : ℕ)
    → IsValid h free ((a, s) ∷ used)
    → (l ≡ 0) ⊎ ((ls : ℕ) × (l + ls ≡ a) × In l ls free)
    → Valid (suc (length free)) h (merge_left h a l) used
merge_left_lem h used a s free l valid (inl e) =
    let (now, others) = push-IsValid h used a s free valid in
    rw e record {
      free = (a, s) ∷ free;
      valid = now;
      others = others;
      count = omega arith;
      region = merge_left-region h a 0;
    }
merge_left_lem h used a s free l valid (inr (ls, meet, there)) =
    let (pre, post, e) = split-In l ls free there in
    let (now, others) =
      merge_left-IsValid h used a s pre post l ls meet
        (subst (λ bs. IsValid h bs ((a, s) ∷ used)) e valid) in
    record {
      free = pre ++ ((l, ls + s) ∷ post);
      valid = now;
      others = others;
      count = omega (
        arith,
        ap length e,
        length-append pre ((l, ls) ∷ post),
        length-append pre ((l, ls + s) ∷ post),
      );
      region = merge_left-region h a l;
    }

-- A merge with a free neighbour adds up to no more than the region.
merged_size_small :
    (h : Heap) (used : List Block) (a s : ℕ) (free : List Block) (b : ℕ)
    → IsValid h free ((a, s) ∷ used)
    → (b ≡ 0) ⊎ ((t : ℕ) × ((b + t ≡ a) ⊎ (b ≡ a + s)) × In b t free)
    → merged_size h.mem a b < 2 ^ 64
unfolding merged_size
merged_size_small h used a s free b valid (inl e) = rw e (omega arith)
merged_size_small h used a s free b valid (inr (t, meet, there)) =
    let (pre, post, shape) = split-In b t free there in
    let n = (found h pre post b t (subst (λ bs. Chain h.mem 0 h.free bs) shape valid.chain)).node in
    let some_block : (b == 0) ≡ false = ground (arith, n.nonnull) in
    let low = free_block_end valid pre post b t shape (omega (arith, n.room)) in
    let high = used_block_end h free used a s valid in
    rw (some_block, valid.taken.0.size_word, n.size_word)
      (elim meet [
        | inl e ↦ omega (arith, e, high, valid.bound)
        | inr e ↦ omega (arith, e, low, valid.bound)
      ])

-- The state behind the merge with the right neighbour; the left one is where it was.
merge_right_lem :
    (h : Heap) (used : List Block) (a s : ℕ) (free : List Block) (l r : ℕ)
    → IsValid h free ((a, s) ∷ used)
    → (l ≡ 0) ⊎ ((ls : ℕ) × (l + ls ≡ a) × In l ls free)
    → (r ≡ 0) ⊎ ((rs : ℕ) × (r ≡ a + s) × In (a + s) rs free)
    → (free' : List Block) × (s' : ℕ) × IsValid (merge_right h a r) free' ((a, s') ∷ used)
      × Kept h.mem (merge_right h a r).mem used
      × (length free' ≤ length free)
      × ((l ≡ 0) ⊎ ((ls : ℕ) × (l + ls ≡ a) × In l ls free'))
unfolding merge_right
merge_right_lem h used a s free l r valid left (inl e) =
    rw e (free, s, valid, (λ x u. refl), omega arith, left)
merge_right_lem h used a s free l r valid left (inr (rs, e, there)) =
    let (pre, post, shape) = split-In (a + s) rs free there in
    let (valid', others) =
      merge_right-IsValid h used a s pre post rs
        (subst (λ bs. IsValid h bs ((a, s) ∷ used)) shape valid) in
    let still : (ls : ℕ) → l + ls ≡ a → In l ls free → In l ls (pre ++ post) = λ ls meet at.
      In-remove l ls (a + s) rs pre post
        (λ same. absurd (omega (arith, meet, same, valid.taken.0.room)))
        (subst (λ bs. In l ls bs) shape at) in
    let left' : (l ≡ 0) ⊎ ((ls : ℕ) × (l + ls ≡ a) × In l ls (pre ++ post)) = elim left [
      | inl null ↦ inl null
      | inr (ls, meet, at) ↦ inr (ls, meet, still ls meet at)
    ] in
    let shorter : length (pre ++ post) ≤ length free =
      omega
        (arith, ap length shape, length-append pre ((a + s, rs) ∷ post), length-append pre post) in
    rw e (pre ++ post, s + rs, valid', others, shorter, left')

-- On a valid heap, with fuel for one more round than the free list has blocks, giving back an
-- address in a block in use, behind its header and padding word, whose word below leads to the
-- header, returns: the heap is valid with the remaining blocks in use, no word of them has changed,
-- the region is the same, and the free list is longer by one block at most.
pub dealloc-IsValid :
    (fuel : ℕ) (h : Heap) (free used : List Block) (a s ptr : ℕ)
    → IsValid h free ((a, s) ∷ used)
    → length free < fuel
    → a + 32 ≤ ptr
    → ptr < a + s
    → h.mem (ptr - 8) ≡ ptr - (a + 24)
    → (h' : Heap) × (dealloc fuel h ptr ≡ ok h') × Valid (suc (length free)) h h' used
unfolding dealloc dealloc_at give_back
dealloc-IsValid fuel h free used a s ptr valid enough low high offset =
    let t = valid.taken.0 in
    let first =
      used-inside valid a
        (omega (arith, holds_inside a a s (omega arith) (omega (arith, t.room)))) in
    let x = a + s - 1 in
    let last =
      used-inside valid x
        (omega (arith, holds_inside x a s (omega (arith, t.room)) (omega (arith, t.room)))) in
    let l = left_of a free 0 in
    let r = right_of (a + s) free 0 in
    let below =
      Below-cover h.mem 0 h.free h.end free valid.chain (λ y c. (free-inside valid y c).1) in
    let walk =
      neighbors_lem fuel h.mem 0 h.free free a (a + s) 0 0 h.end valid.chain below valid.bound
        enough in
    let some_ptr : (ptr == 0) ≡ false = ground (arith, low) in
    let in_region : ltb ptr (h.start + 24) || leb h.end ptr ≡ false =
      ground (arith, low, high, first.0, last.1, t.room) in
    let deep : ltb ptr (24 + (ptr - (a + 24))) ≡ false = ground (arith, low) in
    let back : ptr - 24 - (ptr - (a + 24)) ≡ a = omega (arith, low) in
    let in_region' : ltb a h.start || leb h.end a ≡ false = ground (arith, first.0, first.1) in
    let left = left_of_cases a free 0 l refl in
    let right = right_of_cases (a + s) free 0 r refl in
    let h1 = merge_right h a r in
    let (free1, s1, valid1, others1, shorter, left1) =
      merge_right_lem h used a s free l r valid left right in
    let end_state = merge_left_lem h1 used a s1 free1 l valid1 left1 in
    let right_sum = checked_small (merged_size h.mem a r) (
      merged_size_small h used a s free r valid (elim right [
        | inl e ↦ inl e
        | inr (t, e, at) ↦ inr (t, inr e, subst (λ z. In z t free) (sym e) at)
      ])) in
    let left_sum = checked_small (merged_size h1.mem a l) (
      merged_size_small h1 used a s1 free1 l valid1
        (elim left1 [ inl e ↦ inl e | inr (t, e, at) ↦ inr (t, inl e, at) ])) in
    (
      merge_left h1 a l,
      rw
          (
            some_ptr,
            checked_small (h.start + header_size)
                (omega (arith, first.0, last.1, t.room, valid.bound)),
            in_region,
            offset,
            deep,
            back,
            in_region',
            t.size_word,
            checked_small (a + s) (omega (arith, last.1, valid.bound, t.room)),
            walk,
          )
          (rw (right_sum, left_sum) refl),
      record {
        free = end_state.free;
        valid = end_state.valid;
        others = λ x u. end_state.others x u ∙ others1 x u;
        count = omega (arith, end_state.count, shorter);
        region = (
          end_state.region.0 ∙ (merge_right-region h a r).0,
          end_state.region.1 ∙ (merge_right-region h a r).1,
        );
      },
    )
