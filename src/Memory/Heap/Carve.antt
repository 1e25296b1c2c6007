-- ===== src/Memory/Heap/Carve.antt =====
-- `carve`: what `alloc` does with the block that fits.
use ferric_k.Base.{
  ℕ, ◌+◌, ◌-◌, ◌*◌, ◌/◌, ◌%◌, ◌^◌, ◌≤◌, ◌<◌, ◌≡◌, refl, subst, ◌∙◌, arith, List, ◌∷◌, ◌++◌, Bool,
  true, if◌then◌else◌, inl, inr, Bool-cases, leb, ◌&&◌, length, length-append,
}
use ferric_k.Memory.Heap.{
  write, Heap, ok, header_size, header_gap, min_block, round_down, unlink, split, splits, carve,
}
use ferric_k.Memory.Heap.Words.{Block, cover, holds_inside, write_self, write_other}
use ferric_k.Memory.Heap.Alignment.{round_up_low}
use ferric_k.Memory.Heap.Unlink.{found, unlink-region, split-region}
use ferric_k.Memory.Heap.State.{IsValid, free_block_end, IsValid-write, Kept, holds-le_one}
use ferric_k.Memory.Heap.Fit.{payload_at, usable, align_up_small}
use ferric_k.Memory.Heap.Take.{unlink-IsValid, split-IsValid}

-- A payload of that size and alignment at `ptr`, in the block at `a` that is now in use.
pub record Handed (h h' : Heap) (used : List Block) (most size align a ptr : ℕ) : Type 0 where
  pub kept : ℕ
  pub free : List Block
  pub valid : IsValid h' free ((a, kept) ∷ used)
  pub multiple : ℕ
  pub aligned : ptr ≡ multiple * align
  pub low : a + 32 ≤ ptr
  pub high : ptr + size ≤ a + kept
  pub offset : h'.mem (ptr - 8) ≡ ptr - (a + 24)
  pub region : (h'.start ≡ h.start) × (h'.end ≡ h.end)
  pub others : Kept h.mem h'.mem used
  pub count : length free ≤ most

splits_small :
    (need_end block_end : ℕ)
    → block_end < 2 ^ 64
    → splits need_end block_end
      ≡ ok (
          leb min_block (block_end - need_end)
          && leb min_block (block_end - round_down (need_end + 7) 8))
unfolding splits
splits_small n e bound = elim (Bool-cases (leb min_block (e - n))) [
  | inl wide ↦ rw (wide, align_up_small n 8 (ground (arith, wide, bound))) refl
  | inr narrow ↦ rw narrow refl
]

-- The state behind the choice between splitting and taking the whole block.
choose : Heap → (a t ts : ℕ) → Bool → Heap
choose h a t ts two = if two then split h a t ts else unlink h a

module _ (h : Heap) (pre post used : List Block) (a s : ℕ)
    (valid : IsValid h (pre ++ ((a, s) ∷ post)) used) where
  record Chosen (h' : Heap) (need_end : ℕ) : Type 0 where
    kept : ℕ
    free : List Block
    valid' : IsValid h' free ((a, kept) ∷ used)
    enough : need_end ≤ a + kept
    region : (h'.start ≡ h.start) × (h'.end ≡ h.end)
    others : Kept h.mem h'.mem used
    count : length free ≤ length (pre ++ ((a, s) ∷ post))

  choose_lem :
      (need_end : ℕ)
      → a + 32 ≤ need_end
      → need_end ≤ a + s
      → (let t = round_down (need_end + 7) 8 in
          Chosen
            (choose h a t
              (a + s - t)
              (leb min_block (a + s - need_end) && leb min_block (a + s - t)))
            need_end)
  unfolding choose
  choose_lem need_end low high =
      let t = round_down (need_end + 7) 8 in
      let n = (found h pre post a s valid.chain).node in
      let even : leb min_block (a + s - need_end) && leb min_block (a + s - t) ≡ true
          → (a + s - t) % 8 ≡ 0 =
        λ two.
          (let wide : 48 ≤ a + s - t = ground (arith, two) in
            omega (arith, wide, n.aligned.0, n.aligned.1)) in
      let split_kept =
        λ (two : leb min_block (a + s - need_end) && leb min_block (a + s - t) ≡ true).
          split-IsValid h pre post used a s valid t (a + s - t) (omega (arith, low))
            (ground (arith, two)) (ground (arith, two)) (omega arith, even two) in
      let taken = unlink-IsValid h pre post used a s valid in
      elim (Bool-cases (leb min_block (a + s - need_end) && leb min_block (a + s - t))) [
        | inl two ↦ rw two record {
          kept = t - a;
          free = pre ++ ((t, a + s - t) ∷ post);
          valid' = (split_kept two).0;
          enough = omega (arith, low);
          region = split-region h a t (a + s - t);
          others = (split_kept two).1;
          count =
              omega (
                arith,
                length-append pre ((a, s) ∷ post),
                length-append pre ((t, a + s - t) ∷ post),
              );
        }
        | inr one ↦ rw one record {
          kept = s;
          free = pre ++ post;
          valid' = taken.0;
          enough = high;
          region = unlink-region h a;
          others = taken.1;
          count = omega (arith, length-append pre ((a, s) ∷ post), length-append pre post);
        }
      ]

  pub carve_lem :
      (size align : ℕ)
      → 1 ≤ size
      → 1 ≤ align
      → h.end + align < 2 ^ 64
      → usable size align a s ≡ true
      → (h' : Heap) × (carve h a size align ≡ ok (payload_at a align, h'))
        × Handed h h' used (length (pre ++ ((a, s) ∷ post))) size align a (payload_at a align)
  unfolding carve choose
  carve_lem size align pos some_align bound fit =
      let n = (found h pre post a s valid.chain).node in
      let below : a + s ≤ h.end = free_block_end valid pre post a s refl (omega (arith, n.room)) in
      let ptr = payload_at a align in
      let t = round_down (ptr + size + 7) 8 in
      let low : a + 32 ≤ ptr =
        omega (arith, round_up_low (a + header_size + header_gap) align some_align) in
      let high : ptr + size ≤ a + s = ground (arith, fit) in
      let chosen = choose_lem (ptr + size) (omega (arith, low)) high in
      let two = leb min_block (a + s - (ptr + size)) && leb min_block (a + s - t) in
      let k = choose h a t (a + s - t) two in
      let h' : Heap = record k { mem = write k.mem (ptr - 8) (ptr - (a + 24)) } in
      (
        h',
        rw
            (
              n.size_word,
              align_up_small (a + header_size + header_gap) align
                  (omega (arith, n.room, below, bound)),
              splits_small (ptr + size) (a + s) (omega (arith, below, bound)),
            )
            refl,
        record {
          kept = chosen.kept;
          free = chosen.free;
          valid =
              IsValid-write k chosen.free used a chosen.kept (ptr - 8) (ptr - (a + 24))
                chosen.valid' (omega (arith, low)) (omega (arith, low, pos, chosen.enough));
          multiple = (a + header_size + header_gap + (align - 1)) / align;
          aligned = refl;
          low = low;
          high = chosen.enough;
          offset = write_self k.mem (ptr - 8) (ptr - (a + 24));
          region = chosen.region;
          others = λ x u.
              write_other k.mem (ptr - 8) (ptr - (a + 24)) x (λ e.
                let now = chosen.valid'.tiling (ptr - 8) in
                let one =
                  holds_inside (ptr - 8) a chosen.kept (omega (arith, low))
                    (omega (arith, low, chosen.enough, pos)) in
                absurd (
                  omega (
                    arith,
                    (subst (λ z. 1 ≤ cover z used) e u),
                    now,
                    one,
                    holds-le_one (ptr - 8) k.start (k.end - k.start),
                  )))
              ∙ chosen.others x u;
          count = chosen.count;
        },
      )
