-- ===== src/Memory/Heap/Init.antt =====
-- `Heap::init`: the first state.
use ferric_k.Base.{
  ℕ, ◌+◌, ◌-◌, ◌%◌, ◌^◌, ◌≤◌, ◌<◌, ◌≡◌, ◌≢◌, ◌⊎◌, refl, sym, ◌∙◌, ap, arith, [], ◌∷◌, Bool, true,
  false, ◌||◌, inl, inr, Bool-cases, leb, ltb, ◌==◌,
}
use ferric_k.Memory.Heap.{Heap, Run, ok, round_down, set_header, init_at, init}
use ferric_k.Memory.Heap.Split.{set_header_words}
use ferric_k.Memory.Heap.State.{IsValid}
use ferric_k.Memory.Heap.Fit.{align_up_small}

-- The region that `init` makes of the one that it is given.
abbrev pub head_of : ℕ → ℕ
head_of start = round_down (start + 7) 8

abbrev pub end_of : ℕ → ℕ → ℕ
end_of start size = round_down (head_of start + size) 8

init_run :
    (h : Heap) (start size : ℕ)
    → start + 7 < 2 ^ 64
    → init h start size ≡ ok (init_at h (head_of start) size)
unfolding init
init_run h start size bound = rw (align_up_small start 8 bound) refl

pub single :
    (h : Heap) (head end : ℕ)
    → 0 < head
    → head % 8 ≡ 0
    → end % 8 ≡ 0
    → head + 48 ≤ end
    → end < 2 ^ 64
    → IsValid
        record {
          free = head;
          start = head;
          end = end;
          mem = set_header h.mem head (end - head) 0 0;
        }
        ((head, end - head) ∷ [])
        []
single h head end pos even even' room bound =
    let words = set_header_words h.mem head (end - head) 0 0 in
    record {
      chain = (
        record {
          here = refl;
          nonnull = pos;
          room = omega (arith, room);
          aligned = (even, omega (arith, even, even', room));
          size_word = words.0;
          prev_word = words.2;
        },
        words.1,
      );
      taken = tt;
      tiling = λ x. omega arith;
      bound = bound;
    }

-- Why a region is refused: it ends behind the address space, or it has no room for a block.
abbrev pub Unfit : (start size : ℕ) → Type 0
Unfit start size = (2 ^ 64 ≤ head_of start + size) ⊎ (end_of start size < head_of start + 48)

-- A region that does not start at null, whose start can be aligned, is refused and the heap is unchanged,
-- and then the aligned start plus the size overflows, or that sum, rounded down to a multiple of 8, lies
-- less than two headers behind the aligned start; or it becomes a valid heap with one free block, from the
-- aligned start to that rounded sum, and then neither is so, and the block reaches less than 8 bytes behind
-- the region, and not behind it if the region's start is aligned.
pub init-IsValid :
    (h : Heap) (start size : ℕ)
    → 0 < start
    → start + 7 < 2 ^ 64
    → ((init h start size ≡ ok (false, h)) × Unfit start size)
      ⊎ ((h' : Heap) × (init h start size ≡ ok (true, h'))
          × (h'.start ≡ head_of start)
          × (h'.end ≡ end_of start size)
          × IsValid h' ((head_of start, end_of start size - head_of start) ∷ []) []
          × (head_of start + size < 2 ^ 64)
          × (head_of start + 48 ≤ end_of start size)
          × (start ≤ h'.start)
          × (h'.end < start + size + 8)
          × ((start % 8 ≢ 0) ⊎ (h'.end ≤ start + size)))
unfolding init_at
init-IsValid h start size pos bound =
    let head = head_of start in
    let end = end_of start size in
    let run = init_run h start size bound in
    elim (Bool-cases (leb (2 ^ 64) (head + size) || ltb (end - head) 48)) [
      | inl refused ↦ inl (
        run ∙ rw refused refl,
        elim (Bool-cases (leb (2 ^ 64) (head + size))) [
          | inl over ↦ inl (ground (arith, over))
          | inr fine ↦ inr (ground (arith, refused, fine))
        ],
      )
      | inr taken ↦ inr (
        record {
          free = head;
          start = head;
          end = end;
          mem = set_header h.mem head (end - head) 0 0;
        },
        run ∙ rw taken refl,
        refl,
        refl,
        single h head end (omega (arith, pos)) (omega arith) (omega arith) (ground (arith, taken))
            (ground (arith, taken)),
        ground (arith, taken),
        ground (arith, taken),
        omega arith,
        omega arith,
        elim (Bool-cases (start % 8 == 0)) [
          | inl even ↦ inr (ground (arith, even))
          | inr odd ↦ inl (λ e. ground (arith, e, odd))
        ],
      )
    ]

flag : Run (Bool × Heap) → Bool
flag (ok r) = r.0
flag r = false

end_in : Run (Bool × Heap) → ℕ
end_in (ok r) = r.1.end
end_in r = 0

-- Where the region's start is not a multiple of 8 and its size is one, the heap that `init` makes
-- ends behind the region.
pub init_past_region :
    (h : Heap) (start size : ℕ) (h' : Heap)
    → start + 7 < 2 ^ 64
    → start % 8 ≢ 0
    → size % 8 ≡ 0
    → init h start size ≡ ok (true, h')
    → start + size < h'.end
unfolding init_at flag end_in
init_past_region h start size h' bound odd even run =
    let end_taken : leb (2 ^ 64) (head_of start + size)
            || ltb (end_of start size - head_of start) 48
          ≡ false
        → end_in (ok (init_at h (head_of start) size)) ≡ end_of start size =
      λ taken. rw taken refl in
    let run' = sym (init_run h start size bound) ∙ run in
    elim (Bool-cases
      (leb (2 ^ 64) (head_of start + size) || ltb (end_of start size - head_of start) 48)) [
        | inl refused ↦
            (let f : flag (ok (init_at h (head_of start) size)) ≡ false = rw refused refl in
              let g : false ≡ true = sym f ∙ ap flag run' in cc)
        | inr taken ↦
            (let e : end_of start size ≡ h'.end = sym (end_taken taken) ∙ ap end_in run' in
              omega (arith, e, odd, even))
      ]
