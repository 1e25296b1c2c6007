-- ===== src/Memory/Heap/Unlink.antt =====
-- Taking a block out of the free list, as a change of the list of blocks.
use ferric_k.Base.{ℕ, ◌+◌, ◌≤◌, ◌<◌, ◌≡◌, subst, sym, ◌∙◌, arith, List, ◌∷◌, ◌++◌}
use ferric_k.Memory.Heap.{Heap, set_header, relink_next, relink_prev, unlink, split}
use ferric_k.Memory.Heap.Words.{Block, cover, cover-append, holds_inside}
use ferric_k.Memory.Heap.Links.{Apart, Node, Chain, Segment, split-Chain, join-Chain}
use ferric_k.Memory.Heap.Rewire.{Place, rewire_lem, rewire-mem, relink_next-mem, last_case}

-- A block of the free list with what stands in front of it and behind it.
pub record Found (h : Heap) (pre post : List Block) (a s : ℕ) : Type 0 where
  pub last : ℕ
  pub place : Place h pre post a last a (h.mem (a + 8))
  pub node : Node h.mem last a a s

pub found :
    (h : Heap) (pre post : List Block) (a s : ℕ)
    → Chain h.mem 0 h.free (pre ++ ((a, s) ∷ post))
    → Found h pre post a s
found h pre post a s c =
    let (q, last, seg, rest) = split-Chain h.mem 0 h.free pre ((a, s) ∷ post) c in
    record {
      last = last;
      place = record {
        front = subst (λ z. Segment h.mem 0 h.free pre z last) rest.0.here seg;
        back = rest.1;
      };
      node = subst (λ z. Node h.mem last z a s) rest.0.here rest.0;
    }

pub Apart-remove :
    (pre post : List Block) (a s : ℕ) → Apart (pre ++ ((a, s) ∷ post)) → Apart (pre ++ post)
Apart-remove pre post a s apart x =
    omega (arith, apart x, cover-append x pre ((a, s) ∷ post), cover-append x pre post)

-- An address of the block lies in no other one.
pub outside :
    (pre post : List Block) (a s x : ℕ)
    → Apart (pre ++ ((a, s) ∷ post))
    → a ≤ x
    → x < a + s
    → cover x (pre ++ post) ≡ 0
outside pre post a s x apart h k = omega (
  arith,
  apart x,
  cover-append x pre ((a, s) ∷ post),
  cover-append x pre post,
  holds_inside x a s h k,
)

-- In the list, the two words that `unlink` reads again are those it has read before.
unlink-Found :
    (h : Heap) (pre post : List Block) (a s : ℕ)
    → Apart (pre ++ ((a, s) ∷ post))
    → (f : Found h pre post a s)
    → unlink h a ≡ relink_prev (relink_next h f.last (h.mem (a + 8))) (h.mem (a + 8)) f.last
unfolding unlink
unlink-Found h pre post a s apart f =
    let next = h.mem (a + 8) in
    let h1 = relink_next h f.last next in
    let n = f.node in
    let elsewhere : (x : ℕ) → cover x (pre ++ post) ≡ 0 → h1.mem x ≡ h.mem x = λ x out.
      relink_next-mem h f.last next x (λ some e.
        let there : 1 ≤ cover x pre =
          subst (λ z. 1 ≤ cover z pre) (sym e)
            (last_case h.mem h.free pre a f.last f.place.front some) in
        absurd (omega (arith, cover-append x pre post, out, there))) in
    let kept : (x : ℕ) → a ≤ x → x < a + 32 → h1.mem x ≡ h.mem x =
      λ x lo hi. elsewhere x (outside pre post a s x apart lo (omega (arith, hi, n.room))) in
    let e8 : h1.mem (a + 8) ≡ next = kept (a + 8) (omega arith) (omega arith) in
    let e16 : h1.mem (a + 16) ≡ f.last = kept (a + 16) (omega arith) (omega arith) ∙ n.prev_word in
    subst
      (λ z.
        relink_prev (relink_next h z next) ((relink_next h z next).mem (a + 8))
          ((relink_next h z next).mem (a + 16))
        ≡ relink_prev h1 next f.last)
      (sym n.prev_word) (λ i. relink_prev h1 (e8 i) (e16 i))

-- `unlink` takes the block out of the list, and writes into no block that was not in the list.
pub unlink_lem :
    (h : Heap) (pre post : List Block) (a s : ℕ)
    → Apart (pre ++ ((a, s) ∷ post))
    → Chain h.mem 0 h.free (pre ++ ((a, s) ∷ post))
    → Chain (unlink h a).mem 0 (unlink h a).free (pre ++ post)
      × ((x : ℕ) → cover x (pre ++ post) ≡ 0 → (unlink h a).mem x ≡ h.mem x)
unlink_lem h pre post a s apart c =
    let f = found h pre post a s c in
    let next = h.mem (a + 8) in
    let place =
      rewire_lem h pre post a f.last a next next f.last (Apart-remove pre post a s apart) f.place in
    subst
      (λ (k : Heap).
        Chain k.mem 0 k.free (pre ++ post)
        × ((x : ℕ) → cover x (pre ++ post) ≡ 0 → k.mem x ≡ h.mem x))
      (sym (unlink-Found h pre post a s apart f))
      (
        join-Chain _ 0 _ next f.last pre post place.front place.back,
        λ x. rewire-mem h pre post a f.last a next next f.last x f.place,
      )

pub relink-region :
    (h : Heap) (a b t : ℕ)
    → ((relink_next h a t).start ≡ h.start)
      × ((relink_next h a t).end ≡ h.end)
      × ((relink_prev h b t).start ≡ h.start)
      × ((relink_prev h b t).end ≡ h.end)
unfolding relink_next relink_prev
relink-region h a b t = (ground arith, ground arith, ground arith, ground arith)

pub unlink-region : (h : Heap) (a : ℕ) → ((unlink h a).start ≡ h.start) × ((unlink h a).end ≡ h.end)
unfolding unlink
unlink-region h a =
    let h1 = relink_next h (h.mem (a + 16)) (h.mem (a + 8)) in
    let one = relink-region h (h.mem (a + 16)) 0 (h.mem (a + 8)) in
    let two = relink-region h1 0 (h1.mem (a + 8)) (h1.mem (a + 16)) in
    (two.2 ∙ one.0, two.3 ∙ one.1)

pub split-region :
    (h : Heap) (a t ts : ℕ) → ((split h a t ts).start ≡ h.start) × ((split h a t ts).end ≡ h.end)
unfolding split
split-region h a t ts =
    let m = set_header h.mem t ts (h.mem (a + 8)) (h.mem (a + 16)) in
    let h1 : Heap = record h { mem = m } in
    let h2 = relink_next h1 (m (a + 16)) t in
    let one = relink-region h1 (m (a + 16)) 0 t in
    let two = relink-region h2 0 (h2.mem (a + 8)) t in (two.2 ∙ one.0, two.3 ∙ one.1)
