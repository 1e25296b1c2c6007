-- ===== src/Memory/Heap/Rewire.antt =====
-- The two pointer writes around a place of the free list.
use ferric_k.Base.{
  ℕ, ◌+◌, ◌≤◌, ◌<◌, ◌≡◌, ◌≢◌, refl, subst, sym, ◌∙◌, false, arith, List, [], ◌∷◌, ◌++◌, ◌==◌, inl,
  inr, Bool-cases,
}
use ferric_k.Memory.Heap.{Mem, write, Heap, relink_next, relink_prev}
use ferric_k.Memory.Heap.Words.{
  Block, holds, cover, cover-append, holds_inside, write_self, write_other,
}
use ferric_k.Memory.Heap.Links.{
  Apart, Node, Chain, Segment, Chain-write, Segment-write, next-write, Node-write,
}

module _ {m : Mem} where
  -- The last node of a segment that is not empty.
  Segment-last :
      (prev p a s : ℕ) (bs : List Block) (q last : ℕ)
      → Segment m prev p ((a, s) ∷ bs) q last
      → (0 < last) × (1 ≤ cover (last + 8) ((a, s) ∷ bs))
  Segment-last prev p a s [] q last seg =
      let n = seg.0 in let e = seg.1.1 in rw (← e) (n.nonnull, ground (arith, n.room))
  Segment-last prev p a s ((b, t) ∷ bs) q last seg =
      let ih = Segment-last a (m (a + 8)) b t bs q last seg.1 in (ih.0, omega (arith, ih.1))

  Node-write_next :
      (v : ℕ) {prev p a s : ℕ} → Node m prev p a s → Node (write m (a + 8) v) prev p a s
  Node-write_next v {a} n = record {
    here = n.here;
    nonnull = n.nonnull;
    room = n.room;
    aligned = n.aligned;
    size_word = write_other m (a + 8) v a (omega arith) ∙ n.size_word;
    prev_word = write_other m (a + 8) v (a + 16) (omega arith) ∙ n.prev_word;
  }

  retarget :
      (prev p a s : ℕ) (bs : List Block) (q last target : ℕ)
      → Segment m prev p ((a, s) ∷ bs) q last
      → cover (last + 8) ((a, s) ∷ bs) ≤ 1
      → Segment (write m (last + 8) target) prev p ((a, s) ∷ bs) target last
  retarget prev p a s [] q last target seg apart =
      rw (← seg.1.1) (Node-write_next target seg.0, (write_self m (a + 8) target, refl))
  retarget prev p a s ((b, t) ∷ bs) q last target seg apart =
      let in_tail = Segment-last a (m (a + 8)) b t bs q last seg.1 in
      let out : holds (last + 8) a s ≡ 0 = omega (arith, in_tail.1) in
      (
        Node-write m (last + 8) target prev p a s out seg.0,
        rw (next-write m (last + 8) target a s out seg.0.room)
            (retarget a (m (a + 8)) b t bs q last target seg.1 (omega arith)),
      )

-- Null tells an empty front part from one that is not.
pub last_case :
    (m : Mem) (p : ℕ) (bs : List Block) (q last : ℕ)
    → Segment m 0 p bs q last
    → last ≢ 0
    → 1 ≤ cover (last + 8) bs
last_case m p [] q last seg n = absurd (n (sym seg.1))
last_case m p ((a, s) ∷ bs) q last seg n = (Segment-last 0 p a s bs q last seg).1

relink_next_some :
    (h : Heap) (last target : ℕ)
    → 0 < last
    → relink_next h last target ≡ record h { mem = write h.mem (last + 8) target }
unfolding relink_next
relink_next_some h last target pos = let test : (last == 0) ≡ false = ground (arith, pos) in rw test

relink_prev_some :
    (h : Heap) (next target : ℕ)
    → 0 < next
    → relink_prev h next target ≡ record h { mem = write h.mem (next + 16) target }
unfolding relink_prev
relink_prev_some h next target pos = let test : (next == 0) ≡ false = ground (arith, pos) in rw test

relink_next_null : (h : Heap) (target : ℕ) → relink_next h 0 target ≡ record h { free = target }
unfolding relink_next
relink_next_null h target = refl

pub relink_next-Segment :
    (h : Heap) (bs : List Block) (q last target : ℕ)
    → Segment h.mem 0 h.free bs q last
    → cover (last + 8) bs ≤ 1
    → Segment (relink_next h last target).mem 0 (relink_next h last target).free bs target last
relink_next-Segment h [] q last target seg apart =
    rw (← seg.1, relink_next_null h target) (refl, refl)
relink_next-Segment h ((a, s) ∷ bs) q last target seg apart =
    subst (λ (k : Heap). Segment k.mem 0 k.free ((a, s) ∷ bs) target last)
      (sym (relink_next_some h last target (Segment-last 0 h.free a s bs q last seg).0))
      (retarget 0 h.free a s bs q last target seg apart)

pub relink_next-mem :
    (h : Heap) (last target x : ℕ)
    → (last ≢ 0 → x ≢ last + 8)
    → (relink_next h last target).mem x ≡ h.mem x
unfolding relink_next
relink_next-mem h last target x n = elim (Bool-cases (last == 0)) [
  | inl null ↦ rw null
  | inr some ↦ rw some (write_other h.mem (last + 8) target x (n (ground (arith, some))))
]

pub relink_prev-mem :
    (h : Heap) (next target x : ℕ)
    → (next ≢ 0 → x ≢ next + 16)
    → (relink_prev h next target).mem x ≡ h.mem x
unfolding relink_prev
relink_prev-mem h next target x n = elim (Bool-cases (next == 0)) [
  | inl null ↦ rw null
  | inr some ↦ rw some (write_other h.mem (next + 16) target x (n (ground (arith, some))))
]

relink_next-Chain :
    (h : Heap) (last target : ℕ) (prev p : ℕ) (cs : List Block)
    → (last ≢ 0 → cover (last + 8) cs ≡ 0)
    → Chain h.mem prev p cs
    → Chain (relink_next h last target).mem prev p cs
unfolding relink_next
relink_next-Chain h last target prev p cs out c = elim (Bool-cases (last == 0)) [
  | inl null ↦ rw null c
  | inr some ↦
      rw some (Chain-write h.mem (last + 8) target prev p cs (out (ground (arith, some))) c)
]

relink_prev-Segment :
    (h : Heap) (next target : ℕ) (q last : ℕ) (bs : List Block)
    → (next ≢ 0 → cover (next + 16) bs ≡ 0)
    → Segment h.mem 0 h.free bs q last
    → Segment (relink_prev h next target).mem 0 (relink_prev h next target).free bs q last
unfolding relink_prev
relink_prev-Segment h next target q last bs out c = elim (Bool-cases (next == 0)) [
  | inl null ↦ rw null c
  | inr some ↦
      rw some
        (Segment-write h.mem (next + 16) target 0 h.free q last bs (out (ground (arith, some))) c)
]

pub next_case :
    (m : Mem) (prev q : ℕ) (cs : List Block) → Chain m prev q cs → q ≢ 0 → 1 ≤ cover (q + 16) cs
next_case m prev q [] c n = absurd (n c)
next_case m prev q ((b, t) ∷ cs) c n = ground (arith, c.0.here, c.0.room)

pub relink_prev-Chain :
    (h : Heap) (prev q target : ℕ) (cs : List Block)
    → Chain h.mem prev q cs
    → cover (q + 16) cs ≤ 1
    → Chain (relink_prev h q target).mem target q cs
relink_prev-Chain h prev q target [] c apart = c
relink_prev-Chain h prev q target ((b, t) ∷ cs) c apart =
    let n = c.0 in
    let inside = holds_inside (b + 16) b t (omega arith) (omega (arith, n.room)) in
    let apart' : cover (b + 16) ((b, t) ∷ cs) ≤ 1 =
      subst (λ z. cover (z + 16) ((b, t) ∷ cs) ≤ 1) n.here apart in
    subst (λ z. Chain (relink_prev h z target).mem target z ((b, t) ∷ cs)) (sym n.here)
      (subst (λ (k : Heap). Chain k.mem target b ((b, t) ∷ cs))
        (sym (relink_prev_some h b target n.nonnull))
        (
          record {
            here = refl;
            nonnull = n.nonnull;
            room = n.room;
            aligned = n.aligned;
            size_word = write_other h.mem (b + 16) target b (omega arith) ∙ n.size_word;
            prev_word = write_self h.mem (b + 16) target;
          },
          rw (write_other h.mem (b + 16) target (b + 8) (omega arith)) (
              Chain-write h.mem (b + 16) target b (h.mem (b + 8)) cs (omega (arith, inside, apart'))
                c.1),
        ))

-- A place in the list: the segment in front of it, and the rest behind it, whose own `prev` word
-- may still name another node.
pub record Place (h : Heap) (pre post : List Block) (p last o next : ℕ) : Type 0 where
  pub front : Segment h.mem 0 h.free pre p last
  pub back : Chain h.mem o next post

-- The two pointer writes make `target` follow the front part and `prev` precede the rest, and they
-- write into no other block.
pub rewire_lem :
    (h : Heap) (pre post : List Block) (p last o next target prev : ℕ)
    → Apart (pre ++ post)
    → Place h pre post p last o next
    → Place (relink_prev (relink_next h last target) next prev) pre post target last prev next
rewire_lem h pre post p last o next target prev apart place =
    let h1 = relink_next h last target in
    let front1 =
      relink_next-Segment h pre p last target place.front
        (omega (arith, cover-append (last + 8) pre post, apart (last + 8))) in
    let back1 =
      relink_next-Chain h last target o next post
        (λ n. omega (
          arith,
          cover-append (last + 8) pre post,
          apart (last + 8),
          last_case h.mem h.free pre p last place.front n,
        ))
        place.back in
    let at_next = cover-append (next + 16) pre post in
    record {
      front =
          relink_prev-Segment h1 next prev target last pre
            (λ n.
              omega (arith, at_next, apart (next + 16), next_case h.mem o next post place.back n))
            front1;
      back =
          relink_prev-Chain h1 o next prev post back1 (omega (arith, at_next, apart (next + 16)));
    }

pub rewire-mem :
    (h : Heap) (pre post : List Block) (p last o next target prev x : ℕ)
    → Place h pre post p last o next
    → cover x (pre ++ post) ≡ 0
    → (relink_prev (relink_next h last target) next prev).mem x ≡ h.mem x
rewire-mem h pre post p last o next target prev x place out =
    let sum = cover-append x pre post in
    relink_prev-mem (relink_next h last target) next prev x (λ n e.
      let there : 1 ≤ cover x post =
        subst (λ z. 1 ≤ cover z post) (sym e) (next_case h.mem o next post place.back n) in
      absurd (omega (arith, sum, out, there)))
    ∙ relink_next-mem h last target x (λ n e.
      let there : 1 ≤ cover x pre =
        subst (λ z. 1 ≤ cover z pre) (sym e) (last_case h.mem h.free pre p last place.front n) in
      absurd (omega (arith, sum, out, there)))
