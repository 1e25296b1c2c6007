-- ===== src/Memory/Heap/Take.antt =====
-- Handing out a free block, whole or its front part.
use ferric_k.Base.{ℕ, ◌+◌, ◌-◌, ◌%◌, ◌≤◌, ◌≡◌, ◌∙◌, arith, List, ◌∷◌, ◌++◌}
use ferric_k.Memory.Heap.{Heap, unlink, split}
use ferric_k.Memory.Heap.Words.{Block, holds, cover-append}
use ferric_k.Memory.Heap.Unlink.{found, outside, unlink_lem, unlink-region, split-region}
use ferric_k.Memory.Heap.Split.{split_lem}
use ferric_k.Memory.Heap.State.{IsValid, AllTaken-same, free-Apart, Kept, used_not_free}

module _ (h : Heap) (pre post used : List Block) (a s : ℕ)
    (valid : IsValid h (pre ++ ((a, s) ∷ post)) used) where
  pub unlink-IsValid :
      IsValid (unlink h a) (pre ++ post) ((a, s) ∷ used) × Kept h.mem (unlink h a).mem used
  unlink-IsValid =
      let apart = free-Apart valid in
      let n = (found h pre post a s valid.chain).node in
      let (chain, frame) = unlink_lem h pre post a s apart valid.chain in
      let region = unlink-region h a in
      let others : Kept h.mem (unlink h a).mem used = λ x u. frame x (
        omega (
          arith,
          used_not_free valid x u,
          cover-append x pre ((a, s) ∷ post),
          cover-append x pre post,
        )) in
      (
        record {
          chain = chain;
          taken = (
            record {
              nonnull = n.nonnull;
              room = n.room;
              aligned = n.aligned;
              size_word =
                  frame a (outside pre post a s a apart (omega arith) (omega (arith, n.room)))
                  ∙ n.size_word;
            },
            AllTaken-same h.mem (unlink h a).mem used others valid.taken,
          );
          tiling = λ x.
              rw (region.0, region.1)
                (omega (
                  arith,
                  valid.tiling x,
                  cover-append x pre ((a, s) ∷ post),
                  cover-append x pre post,
                ));
          bound = rw (region.1) valid.bound;
        },
        others,
      )

  pub split-IsValid :
      (t ts : ℕ)
      → a + 32 ≤ t
      → 32 ≤ ts
      → t + ts ≡ a + s
      → (t % 8 ≡ 0) × (ts % 8 ≡ 0)
      → IsValid (split h a t ts) (pre ++ ((t, ts) ∷ post)) ((a, t - a) ∷ used)
        × Kept h.mem (split h a t ts).mem used
  split-IsValid t ts low room total even =
      let n = (found h pre post a s valid.chain).node in
      let (chain, word, frame) =
        split_lem h pre post a s t ts (free-Apart valid) low room total even valid.chain in
      let region = split-region h a t ts in
      let others : Kept h.mem (split h a t ts).mem used =
        λ x u. frame x (used_not_free valid x u) in
      (
        record {
          chain = chain;
          taken = (
            record {
              nonnull = n.nonnull;
              room = omega (arith, low);
              aligned = (n.aligned.0, omega (arith, n.aligned.0, even.0, low));
              size_word = word;
            },
            AllTaken-same h.mem (split h a t ts).mem used others valid.taken,
          );
          tiling = λ x.
              rw (region.0, region.1)
                (let parts : holds x a s ≡ holds x a (t - a) + holds x t ts =
                    ground (arith, low, room, total) in
                  omega (
                    arith,
                    valid.tiling x,
                    parts,
                    cover-append x pre ((a, s) ∷ post),
                    cover-append x pre ((t, ts) ∷ post),
                  ));
          bound = rw (region.1) valid.bound;
        },
        others,
      )
