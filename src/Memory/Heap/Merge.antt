-- ===== src/Memory/Heap/Merge.antt =====
-- The merges of `dealloc`.
use ferric_k.Base.{
  ℕ, ◌+◌, ◌-◌, ◌%◌, ◌≤◌, ◌<◌, ◌≡◌, ◌≢◌, refl, subst, sym, ◌∙◌, arith, List, ◌∷◌, ◌++◌, false, ◌==◌,
}
use ferric_k.Memory.Heap.{Mem, write, Heap, relink_prev, unlink, merge_right, merge_left}
use ferric_k.Memory.Heap.Words.{
  Block, holds, holds-add, cover, cover-append, holds_inside, write_self, write_other,
}
use ferric_k.Memory.Heap.Links.{Chain, Chain-write, Segment-write, split-Chain, join-Chain}
use ferric_k.Memory.Heap.Rewire.{relink_prev-mem, relink_prev-Chain, next_case}
use ferric_k.Memory.Heap.Unlink.{found, unlink_lem, unlink-region, relink-region}
use ferric_k.Memory.Heap.State.{
  IsValid, AllTaken-same, Kept, free-Apart, used_not_free, holds-le_one,
}

-- A block of the free list that grows or shrinks: only its size word changes.
resize :
    (m : Mem) (p : ℕ) (pre post : List Block) (a s v : ℕ)
    → cover a pre ≡ 0
    → cover a post ≡ 0
    → 32 ≤ v
    → v % 8 ≡ 0
    → Chain m 0 p (pre ++ ((a, s) ∷ post))
    → Chain (write m a v) 0 p (pre ++ ((a, v) ∷ post))
resize m p pre post a s v out_pre out_post room even c =
    let (q, last, seg, rest) = split-Chain m 0 p pre ((a, s) ∷ post) c in
    let n = rest.0 in
    join-Chain (write m a v) 0 p q last pre ((a, v) ∷ post)
      (Segment-write m a v 0 p q last pre out_pre seg)
      (
        record {
          here = n.here;
          nonnull = n.nonnull;
          room = room;
          aligned = (n.aligned.0, even);
          size_word = write_self m a v;
          prev_word = write_other m a v (a + 16) (omega arith) ∙ n.prev_word;
        },
        rw (write_other m a v (a + 8) (omega arith))
            (Chain-write m a v a (m (a + 8)) post out_post rest.1),
      )

module _ (h : Heap) (used : List Block) (a s : ℕ) where
  pub merge_right-IsValid :
      (pre post : List Block) (rs : ℕ)
      → IsValid h (pre ++ ((a + s, rs) ∷ post)) ((a, s) ∷ used)
      → IsValid (merge_right h a (a + s)) (pre ++ post) ((a, s + rs) ∷ used)
        × Kept h.mem (merge_right h a (a + s)).mem used
  unfolding merge_right
  merge_right-IsValid pre post rs valid =
      let r = a + s in
      let free = pre ++ ((r, rs) ∷ post) in
      let n = (found h pre post r rs valid.chain).node in
      let t = valid.taken.0 in
      let h1 : Heap = record h { mem = write h.mem a (s + rs) } in
      let here = holds_inside a a s (omega arith) (omega (arith, t.room)) in
      let not_free : cover a free ≡ 0 = used_not_free valid a (omega (arith, here)) in
      let not_used : cover a used ≡ 0 =
        omega (arith, here, valid.tiling a, holds-le_one a h.start (h.end - h.start)) in
      let (chain, frame) =
        unlink_lem h1 pre post r rs (free-Apart valid)
          (Chain-write h.mem a (s + rs) 0 h.free free not_free valid.chain) in
      let region = unlink-region h1 r in
      let less : (x : ℕ) → cover x free ≡ 0 → cover x (pre ++ post) ≡ 0 =
        λ x out. omega (arith, out, cover-append x pre ((r, rs) ∷ post), cover-append x pre post) in
      let others : Kept h.mem (unlink h1 r).mem used = λ x u.
        frame x (less x (used_not_free valid x (omega (arith, u))))
        ∙ write_other h.mem a (s + rs) x
            (λ e. absurd (omega (arith, not_used, (subst (λ z. 1 ≤ cover z used) e u)))) in
      let some_block : (r == 0) ≡ false = ground (arith, t.nonnull) in
      let valid' : IsValid (unlink h1 r) (pre ++ post) ((a, s + rs) ∷ used) = record {
        chain = chain;
        taken = (
          record {
            nonnull = t.nonnull;
            room = omega (arith, t.room);
            aligned = (t.aligned.0, omega (arith, t.aligned.1, n.aligned.1));
            size_word = frame a (less a not_free) ∙ write_self h.mem a (s + rs);
          },
          AllTaken-same h.mem (unlink h1 r).mem used others valid.taken.1,
        );
        tiling = λ x.
            rw (region.0, region.1)
              (omega (
                arith,
                valid.tiling x,
                holds-add x a s rs,
                cover-append x pre ((r, rs) ∷ post),
                cover-append x pre post,
              ));
        bound = rw (region.1) valid.bound;
      } in
      rw (some_block, t.size_word, n.size_word) (valid', others)

  pub merge_left-IsValid :
      (pre post : List Block) (l ls : ℕ)
      → l + ls ≡ a
      → IsValid h (pre ++ ((l, ls) ∷ post)) ((a, s) ∷ used)
      → IsValid (merge_left h a l) (pre ++ ((l, ls + s) ∷ post)) used
        × Kept h.mem (merge_left h a l).mem used
  unfolding merge_left
  merge_left-IsValid pre post l ls meet valid =
      let free = pre ++ ((l, ls) ∷ post) in
      let n = (found h pre post l ls valid.chain).node in
      let t = valid.taken.0 in
      let one = holds_inside l l ls (omega arith) (omega (arith, n.room)) in
      let sum = cover-append l pre ((l, ls) ∷ post) in
      let only = valid.tiling l in
      let most = holds-le_one l h.start (h.end - h.start) in
      let h1 : Heap = record h { mem = write h.mem l (ls + s) } in
      let not_used : cover l used ≡ 0 = omega (arith, one, sum, only, most) in
      let others : Kept h.mem h1.mem used = λ x u.
        write_other h.mem l (ls + s) x
          (λ e. absurd (omega (arith, not_used, (subst (λ z. 1 ≤ cover z used) e u)))) in
      let some_block : (l == 0) ≡ false = ground (arith, n.nonnull) in
      let valid' : IsValid h1 (pre ++ ((l, ls + s) ∷ post)) used = record {
        chain =
            resize h.mem h.free pre post l ls (ls + s) (omega (arith, one, sum, only, most))
              (omega (arith, one, sum, only, most)) (omega (arith, n.room))
              (omega (arith, n.aligned.1, t.aligned.1)) valid.chain;
        taken = AllTaken-same h.mem h1.mem used others valid.taken.1;
        tiling = λ x.
            (let parts : holds x l (ls + s) ≡ holds x l ls + holds x a s = ground (arith, meet) in
              omega (
                arith,
                valid.tiling x,
                parts,
                cover-append x pre ((l, ls) ∷ post),
                cover-append x pre ((l, ls + s) ∷ post),
              ));
        bound = valid.bound;
      } in
      rw (some_block, t.size_word, n.size_word) (valid', others)

  pub push-IsValid :
      (free : List Block)
      → IsValid h free ((a, s) ∷ used)
      → IsValid (merge_left h a 0) ((a, s) ∷ free) used × Kept h.mem (merge_left h a 0).mem used
  unfolding merge_left
  push-IsValid free valid =
      let t = valid.taken.0 in
      let m1 = write h.mem (a + 8) h.free in
      let m2 = write m1 (a + 16) 0 in
      let h2 : Heap = record h { mem = m2 } in
      let h3 = relink_prev h2 h.free a in
      let out : (x : ℕ) → a ≤ x → x < a + 32 → cover x free ≡ 0 = λ x lo hi.
        used_not_free valid x
          (omega (arith, (holds_inside x a s lo (omega (arith, hi, t.room))))) in
      let chain2 : Chain m2 0 h.free free =
        Chain-write m1 (a + 16) 0 0 h.free free (out (a + 16) (omega arith) (omega arith)) (
          Chain-write h.mem (a + 8) h.free 0 h.free free (out (a + 8) (omega arith) (omega arith))
            valid.chain) in
      let keep : (x : ℕ) → cover x free ≡ 0 → h3.mem x ≡ m2 x = λ x none.
        relink_prev-mem h2 h.free a x (λ some e.
          let there : 1 ≤ cover x free =
            subst (λ z. 1 ≤ cover z free) (sym e) (next_case m2 0 h.free free chain2 some) in
          absurd (omega (arith, none, there))) in
      let e8 : h3.mem (a + 8) ≡ h.free =
        keep (a + 8) (out (a + 8) (omega arith) (omega arith))
        ∙ write_other m1 (a + 16) 0 (a + 8) (omega arith)
        ∙ write_self h.mem (a + 8) h.free in
      let others : Kept h.mem h3.mem used = λ x u.
        let away : holds x a s ≡ 0 =
          omega (arith, u, valid.tiling x, holds-le_one x h.start (h.end - h.start)) in
        let far : (x ≢ a + 8) × (x ≢ a + 16) =
          (λ e. ground (arith, away, t.room), λ e. ground (arith, away, t.room)) in
        keep x (used_not_free valid x (omega (arith, u)))
        ∙ write_other m1 (a + 16) 0 x far.1
        ∙ write_other h.mem (a + 8) h.free x far.0 in
      let region = relink-region h2 0 h.free a in
      (
        record {
          chain = (
            record {
              here = refl;
              nonnull = t.nonnull;
              room = t.room;
              aligned = t.aligned;
              size_word =
                  keep a (out a (omega arith) (omega arith))
                  ∙ write_other m1 (a + 16) 0 a (omega arith)
                  ∙ write_other h.mem (a + 8) h.free a (omega arith)
                  ∙ t.size_word;
              prev_word =
                  keep (a + 16) (out (a + 16) (omega arith) (omega arith))
                  ∙ write_self m1 (a + 16) 0;
            },
            subst (λ z. Chain h3.mem a z free) (sym e8)
                (relink_prev-Chain h2 0 h.free a free chain2 (free-Apart valid (h.free + 16))),
          );
          taken = AllTaken-same h.mem h3.mem used others valid.taken.1;
          tiling = λ x. rw (region.2, region.3) (omega (arith, valid.tiling x));
          bound = rw (region.3) valid.bound;
        },
        others,
      )
