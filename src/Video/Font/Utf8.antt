-- ===== src/Video/Font/Utf8.antt =====
-- `decode_utf8` against the encoding of a code point.
use ferric_k.Base.{
  ℕ, suc, ◌+◌, ◌-◌, ◌*◌, ◌/◌, ◌%◌, ◌^◌, ◌≤◌, ◌<◌, ◌≡◌, refl, ◌∙◌, ap, arith, bit_and, bit_or,
  bit_xor, Bool, true, false, ◌&&◌, some, List, [], ◌∷◌, ◌++◌, length, take, ltb, ◌==◌,
  if◌then◌else◌, inl, inr, Bool-cases, every, passes_of_every,
}
use ferric_k.Base.Bits.{bit_or_below}
use ferric_k.Video.Font.{utf8_head, utf8_tail, decode_utf8}

-- The encoding of a code point below 0x110000 in one to four bytes.
abbrev pub utf8 : ℕ → List ℕ
utf8 c =
    if ltb c 0x80
    then c ∷ []
    else (if ltb c 0x800
        then (0xC0 + c / 64) ∷ (0x80 + c % 64) ∷ []
        else (if ltb c 0x10000
            then (0xE0 + c / 4096) ∷ (0x80 + c / 64 % 64) ∷ (0x80 + c % 64) ∷ []
            else (0xF0 + c / 262144)
              ∷ (0x80 + c / 4096 % 64)
              ∷ (0x80 + c / 64 % 64)
              ∷ (0x80 + c % 64)
              ∷ []))

-- A first byte of a longer encoding marks its length, and `^` takes the mark away.
abbrev marks : (mark len : ℕ) → ℕ → Bool
marks mark len n =
    ((utf8_head (mark + n)).0 == len)
    && (((utf8_head (mark + n)).1 == mark) && (bit_xor (mark + n) mark == n))

marks_two : every 32 (marks 0xC0 2) ≡ true
unfolding every utf8_head
marks_two = refl

marks_three : every 16 (marks 0xE0 3) ≡ true
unfolding every utf8_head
marks_three = refl

marks_four : every 8 (marks 0xF0 4) ≡ true
unfolding every utf8_head
marks_four = refl

head_of_marks :
    (mark len n : ℕ)
    → marks mark len n ≡ true
    → ((utf8_head (mark + n)).0 ≡ len) × (bit_xor (mark + n) (utf8_head (mark + n)).1 ≡ n)
head_of_marks mark len n h =
    let e : (utf8_head (mark + n)).1 ≡ mark = ground (arith, h) in
    (ground (arith, h), rw e (ground (arith, h)))

low_six : every 64 (λ m. bit_and (0x80 + m) 0x3F == m) ≡ true
unfolding every
low_six = refl

no_mark : every 128 (λ k. bit_xor k 0 == k) ≡ true
unfolding every
no_mark = refl

tail_byte :
    (cp m : ℕ)
    → cp < 2 ^ 20
    → m < 64
    → bit_or (cp * 2 ^ 6 % 2 ^ 32) (bit_and (0x80 + m) 0x3F) ≡ cp * 64 + m
tail_byte cp m small lt =
    let passed = passes_of_every 64 (λ k. bit_and (0x80 + k) 0x3F == k) m lt low_six in
    let e : bit_and (0x80 + m) 0x3F ≡ m = ground (arith, passed) in
    let f : cp * 2 ^ 6 % 2 ^ 32 ≡ cp * 2 ^ 6 = omega (arith, small) in
    rw (e, f) (bit_or_below 20 6 cp m small (omega (arith, lt)))

-- What `decode_utf8` does behind the first byte.
decode_step :
    (first : ℕ) (b : List ℕ) (len cp : ℕ)
    → (utf8_head first).0 ≡ len
    → bit_xor first (utf8_head first).1 ≡ cp
    → len ≤ suc (length b)
    → decode_utf8 (first ∷ b) ≡ some (utf8_tail (take (len - 1) b) cp, len)
unfolding decode_utf8
decode_step first b len cp e f enough =
    let long : ltb (suc (length b)) len ≡ false = ground (arith, enough) in rw (e, f, long) refl

module _ (rest : List ℕ) where
  one_byte : (c : ℕ) → c < 0x80 → decode_utf8 (c ∷ rest) ≡ some (c, 1)
  unfolding utf8_head utf8_tail
  one_byte c lt =
      let e : ltb c 0x80 ≡ true = ground (arith, lt) in
      let passed = passes_of_every 128 (λ k. bit_xor k 0 == k) c lt no_mark in
      let plain : bit_xor c 0 ≡ c = ground (arith, passed) in
      decode_step c rest 1 c (rw e refl) (rw e plain) (omega arith)

  two_bytes :
      (n m : ℕ)
      → n < 32
      → m < 64
      → decode_utf8 ((0xC0 + n) ∷ (0x80 + m) ∷ rest) ≡ some (n * 64 + m, 2)
  unfolding utf8_tail
  two_bytes n m first second =
      let (e, f) = head_of_marks 0xC0 2 n (passes_of_every 32 (marks 0xC0 2) n first marks_two) in
      decode_step (0xC0 + n) ((0x80 + m) ∷ rest) 2 n e f (omega arith)
      ∙ rw (tail_byte n m (omega (arith, first)) second) refl

  three_bytes :
      (n m k : ℕ)
      → n < 16
      → m < 64
      → k < 64
      → decode_utf8 ((0xE0 + n) ∷ (0x80 + m) ∷ (0x80 + k) ∷ rest) ≡ some ((n * 64 + m) * 64 + k, 3)
  unfolding utf8_tail
  three_bytes n m k first second third =
      let (e, f) = head_of_marks 0xE0 3 n (passes_of_every 16 (marks 0xE0 3) n first marks_three) in
      decode_step (0xE0 + n) ((0x80 + m) ∷ (0x80 + k) ∷ rest) 3 n e f (omega arith)
      ∙ rw
          (
            tail_byte n m (omega (arith, first)) second,
            tail_byte (n * 64 + m) k (omega (arith, first, second)) third,
          )
          refl

  four_bytes :
      (n m k j : ℕ)
      → n < 8
      → m < 64
      → k < 64
      → j < 64
      → decode_utf8 ((0xF0 + n) ∷ (0x80 + m) ∷ (0x80 + k) ∷ (0x80 + j) ∷ rest)
        ≡ some (((n * 64 + m) * 64 + k) * 64 + j, 4)
  unfolding utf8_tail
  four_bytes n m k j first second third fourth =
      let (e, f) = head_of_marks 0xF0 4 n (passes_of_every 8 (marks 0xF0 4) n first marks_four) in
      decode_step (0xF0 + n) ((0x80 + m) ∷ (0x80 + k) ∷ (0x80 + j) ∷ rest) 4 n e f (omega arith)
      ∙ rw
          (
            tail_byte n m (omega (arith, first)) second,
            tail_byte (n * 64 + m) k (omega (arith, first, second)) third,
            tail_byte ((n * 64 + m) * 64 + k) j (omega (arith, first, second, third)) fourth,
          )
          refl

-- Decoding takes the encoding of a code point off the front, whatever follows.
pub decode_utf8-utf8 :
    (c : ℕ) (rest : List ℕ)
    → c < 0x110000
    → decode_utf8 (utf8 c ++ rest) ≡ some (c, length (utf8 c))
decode_utf8-utf8 c rest small = elim (Bool-cases (ltb c 0x80)) [
  | inl one ↦ rw one (one_byte rest c (ground (arith, one)))
  | inr more ↦ elim (Bool-cases (ltb c 0x800)) [
    | inl two ↦
        (let e : c / 64 * 64 + c % 64 ≡ c = omega arith in
          rw (more, two)
            (two_bytes rest (c / 64) (c % 64) (ground (arith, two)) (omega arith)
              ∙ ap (λ z. some (z, 2)) e))
    | inr more' ↦ elim (Bool-cases (ltb c 0x10000)) [
      | inl three ↦
          (let e : (c / 4096 * 64 + c / 64 % 64) * 64 + c % 64 ≡ c = omega arith in
            rw (more, more', three)
              (three_bytes rest (c / 4096) (c / 64 % 64) (c % 64) (ground (arith, three))
                  (omega arith) (omega arith)
                ∙ ap (λ z. some (z, 3)) e))
      | inr four ↦
          (let e : ((c / 262144 * 64 + c / 4096 % 64) * 64 + c / 64 % 64) * 64 + c % 64 ≡ c =
              omega arith in
            rw (more, more', four)
              (four_bytes rest (c / 262144) (c / 4096 % 64) (c / 64 % 64) (c % 64)
                  (omega (arith, small)) (omega arith) (omega arith) (omega arith)
                ∙ ap (λ z. some (z, 4)) e))
    ]
  ]
]
