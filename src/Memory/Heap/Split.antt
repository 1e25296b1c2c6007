-- ===== src/Memory/Heap/Split.antt =====
-- Splitting a free block, as a change of the list of blocks.
use ferric_k.Base.{
  ℕ, ◌+◌, ◌-◌, ◌%◌, ◌≤◌, ◌<◌, ◌≡◌, ◌≢◌, refl, subst, sym, ◌∙◌, ap, arith, List, ◌∷◌, ◌++◌,
}
use ferric_k.Memory.Heap.{Mem, write, Heap, set_header, relink_next, relink_prev, split}
use ferric_k.Memory.Heap.Words.{Block, holds, cover, cover-append, write_self, write_other}
use ferric_k.Memory.Heap.Links.{Apart, Node, Chain, Segment, Chain-write, Segment-write, join-Chain}
use ferric_k.Memory.Heap.Rewire.{Place, rewire_lem, rewire-mem, relink_next-mem, last_case}
use ferric_k.Memory.Heap.Unlink.{Found, found, outside, Apart-remove}

pub set_header_other :
    (m : Mem) (b size next prev x : ℕ)
    → x ≢ b
    → x ≢ b + 8
    → x ≢ b + 16
    → set_header m b size next prev x ≡ m x
unfolding set_header write
set_header_other m b size next prev x n0 n8 n16 = ground arith

pub set_header_words :
    (m : Mem) (b size next prev : ℕ)
    → (set_header m b size next prev b ≡ size)
      × (set_header m b size next prev (b + 8) ≡ next)
      × (set_header m b size next prev (b + 16) ≡ prev)
unfolding set_header write
set_header_words m b size next prev = (ground arith, ground arith, ground arith)

-- An address outside the block is no word that `split` writes.
holds_apart :
    (x a s t ts : ℕ)
    → a + 32 ≤ t
    → 32 ≤ ts
    → t + ts ≡ a + s
    → holds x a s ≡ 0
    → (x ≢ a) × (x ≢ t) × (x ≢ t + 8) × (x ≢ t + 16)
holds_apart x a s t ts low room total away =
    (λ e. ground arith, λ e. ground arith, λ e. ground arith, λ e. ground arith)

pub set_header-Chain :
    (m : Mem) (b size next prev o p : ℕ) (bs : List Block)
    → cover b bs ≡ 0
    → cover (b + 8) bs ≡ 0
    → cover (b + 16) bs ≡ 0
    → Chain m o p bs
    → Chain (set_header m b size next prev) o p bs
unfolding set_header
set_header-Chain m b size next prev o p bs n0 n8 n16 c =
    Chain-write (write (write m b size) (b + 8) next) (b + 16) prev o p bs n16
      (Chain-write (write m b size) (b + 8) next o p bs n8 (Chain-write m b size o p bs n0 c))

set_header-Segment :
    (m : Mem) (b size next prev o p q last : ℕ) (bs : List Block)
    → cover b bs ≡ 0
    → cover (b + 8) bs ≡ 0
    → cover (b + 16) bs ≡ 0
    → Segment m o p bs q last
    → Segment (set_header m b size next prev) o p bs q last
unfolding set_header
set_header-Segment m b size next prev o p q last bs n0 n8 n16 c =
    Segment-write (write (write m b size) (b + 8) next) (b + 16) prev o p q last bs n16 (
      Segment-write (write m b size) (b + 8) next o p q last bs n8
        (Segment-write m b size o p q last bs n0 c))

-- `split` with the words that it reads from the list.
split-Found :
    (h : Heap) (pre post : List Block) (a s t ts : ℕ)
    → Apart (pre ++ ((a, s) ∷ post))
    → a + 32 ≤ t
    → 32 ≤ ts
    → t + ts ≡ a + s
    → (f : Found h pre post a s)
    → (let next = h.mem (a + 8) in
        let h1 = record h { mem = set_header h.mem t ts next f.last } in
        let h3 = relink_prev (relink_next h1 f.last t) next t in
        Place h1 pre post a f.last a next
        × (split h a t ts ≡ record h3 { mem = write h3.mem a (t - a) }))
unfolding split
split-Found h pre post a s t ts apart low room total f =
    let n = f.node in
    let next = h.mem (a + 8) in
    let m = set_header h.mem t ts next f.last in
    let h1 : Heap = record h { mem = m } in
    let out : (x : ℕ) → t ≤ x → x < t + 32 → cover x (pre ++ post) ≡ 0 = λ x lo hi.
      outside pre post a s x apart (omega (arith, lo, low)) (omega (arith, hi, room, total)) in
    let front_out : (x : ℕ) → t ≤ x → x < t + 32 → cover x pre ≡ 0 =
      λ x lo hi. omega (arith, out x lo hi, cover-append x pre post) in
    let back_out : (x : ℕ) → t ≤ x → x < t + 32 → cover x post ≡ 0 =
      λ x lo hi. omega (arith, out x lo hi, cover-append x pre post) in
    let place1 : Place h1 pre post a f.last a next = record {
      front =
          set_header-Segment h.mem t ts next f.last 0 h.free a f.last pre
            (front_out t (omega arith) (omega arith))
            (front_out (t + 8) (omega arith) (omega arith))
            (front_out (t + 16) (omega arith) (omega arith)) f.place.front;
      back =
          set_header-Chain h.mem t ts next f.last a next post
            (back_out t (omega arith) (omega arith)) (back_out (t + 8) (omega arith) (omega arith))
            (back_out (t + 16) (omega arith) (omega arith)) f.place.back;
    } in
    let e8 : m (a + 8) ≡ next =
      set_header_other h.mem t ts next f.last (a + 8) (omega (arith, low)) (omega (arith, low))
        (omega (arith, low)) in
    let e16 : m (a + 16) ≡ f.last =
      set_header_other h.mem t ts next f.last (a + 16) (omega (arith, low)) (omega (arith, low))
        (omega (arith, low))
      ∙ n.prev_word in
    let h2 = relink_next h1 f.last t in
    let e8' : h2.mem (a + 8) ≡ next =
      relink_next-mem h1 f.last t (a + 8) (λ some e.
        let there : 1 ≤ cover (a + 8) pre =
          subst (λ z. 1 ≤ cover z pre) (sym e)
            (last_case m h.free pre a f.last place1.front some) in
        absurd (
          omega (
            arith,
            cover-append (a + 8) pre post,
            outside pre post a s (a + 8) apart (omega arith) (omega (arith, n.room)),
            there,
          )))
      ∙ e8 in
    let shrunk : Heap → Heap = λ k. (record k { mem = write k.mem a (t - a) }) in
    let relinked : Heap → Heap = λ k. relink_prev k (k.mem (a + 8)) t in
    (
      place1,
      subst
          (λ z.
            (let hz : Heap = record h { mem = set_header h.mem t ts next z } in
              shrunk (relinked (relink_next hz (hz.mem (a + 16)) t))
              ≡ shrunk (relink_prev h2 next t)))
          (sym n.prev_word)
          (ap (λ z. shrunk (relinked (relink_next h1 z t))) e16
            ∙ ap (λ z. shrunk (relink_prev h2 z t)) e8'),
    )

-- `split` leaves the block's head out of the list and puts the tail in the block's place; the head's
-- size is what it keeps, and nothing changes outside the list.
pub split_lem :
    (h : Heap) (pre post : List Block) (a s t ts : ℕ)
    → Apart (pre ++ ((a, s) ∷ post))
    → a + 32 ≤ t
    → 32 ≤ ts
    → t + ts ≡ a + s
    → (t % 8 ≡ 0) × (ts % 8 ≡ 0)
    → Chain h.mem 0 h.free (pre ++ ((a, s) ∷ post))
    → Chain (split h a t ts).mem 0 (split h a t ts).free (pre ++ ((t, ts) ∷ post))
      × ((split h a t ts).mem a ≡ t - a)
      × ((x : ℕ) → cover x (pre ++ ((a, s) ∷ post)) ≡ 0 → (split h a t ts).mem x ≡ h.mem x)
split_lem h pre post a s t ts apart low room total even c =
    let f = found h pre post a s c in
    let next = h.mem (a + 8) in
    let m = set_header h.mem t ts next f.last in
    let h1 : Heap = record h { mem = m } in
    let h3 = relink_prev (relink_next h1 f.last t) next t in
    let (place1, e) = split-Found h pre post a s t ts apart low room total f in
    let less = Apart-remove pre post a s apart in
    let place3 = rewire_lem h1 pre post a f.last a next t t less place1 in
    let out : (x : ℕ) → a ≤ x → x < a + s → cover x (pre ++ post) ≡ 0 =
      λ x. outside pre post a s x apart in
    let same : (x : ℕ) → cover x (pre ++ post) ≡ 0 → h3.mem x ≡ m x =
      λ x. rewire-mem h1 pre post a f.last a next t t x place1 in
    let words = set_header_words h.mem t ts next f.last in
    let at : (k : ℕ) → k < 32 → cover (t + k) (pre ++ post) ≡ 0 =
      λ k lt. out (t + k) (omega (arith, low)) (omega (arith, lt, total, room)) in
    let e8 : h3.mem (t + 8) ≡ next = same (t + 8) (at 8 (omega arith)) ∙ words.1 in
    let node : Node h3.mem f.last t t ts = record {
      here = refl;
      nonnull = omega (arith, low);
      room = room;
      aligned = even;
      size_word = same t (out t (omega (arith, low)) (omega (arith, total, room))) ∙ words.0;
      prev_word = same (t + 16) (at 16 (omega arith)) ∙ words.2;
    } in
    let chain3 =
      join-Chain h3.mem 0 h3.free t f.last pre ((t, ts) ∷ post) place3.front
        (node, subst (λ z. Chain h3.mem t z post) (sym e8) place3.back) in
    let before : holds a t ts ≡ 0 = ground (arith, low) in
    let alone : cover a (pre ++ ((t, ts) ∷ post)) ≡ 0 = omega (
      arith,
      cover-append a pre ((t, ts) ∷ post),
      cover-append a pre post,
      out a (omega arith) (omega (arith, low, total)),
      before,
    ) in
    subst
      (λ (k : Heap).
        Chain k.mem 0 k.free (pre ++ ((t, ts) ∷ post))
        × (k.mem a ≡ t - a)
        × ((x : ℕ) → cover x (pre ++ ((a, s) ∷ post)) ≡ 0 → k.mem x ≡ h.mem x))
      (sym e)
      (
        Chain-write h3.mem a (t - a) 0 h3.free (pre ++ ((t, ts) ∷ post)) alone chain3,
        write_self h3.mem a (t - a),
        λ x free.
            (let away : holds x a s ≡ 0 = omega (arith, free, cover-append x pre ((a, s) ∷ post)) in
              let none : cover x (pre ++ post) ≡ 0 =
                omega (arith, free, cover-append x pre ((a, s) ∷ post), cover-append x pre post) in
              let far : (x ≢ a) × (x ≢ t) × (x ≢ t + 8) × (x ≢ t + 16) =
                holds_apart x a s t ts low room total away in
              write_other h3.mem a (t - a) x far.0
              ∙ same x none
              ∙ set_header_other h.mem t ts next f.last x far.1 far.2 far.3),
      )
