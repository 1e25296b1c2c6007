-- ===== src/Video/Font/Table.antt =====
-- The first kind of Unicode table, against its records.
use ferric_k.Base.{
  ℕ, ◌+◌, ◌*◌, ◌/◌, ◌%◌, ◌≤◌, ◌<◌, ◌≡◌, refl, ◌∙◌, arith, Bool, true, false, Option, none, some,
  List, [], ◌∷◌, length, leb, ◌==◌, if◌then◌else◌, inl, inr, Bool-cases,
}
use ferric_k.Video.Font.{unicode_lookup_v1}

-- The record of a glyph: code points, and sequences of code points.
pub record Entry : Type 0 where
  pub codes : List ℕ
  pub sequences : List (List ℕ)

abbrev pub words : List ℕ → List ℕ → List ℕ
words [] rest = rest
words (w ∷ ws) rest = (w % 256) ∷ (w / 256) ∷ words ws rest

abbrev pub print_sequences : List (List ℕ) → List ℕ → List ℕ
print_sequences [] rest = rest
print_sequences (s ∷ ss) rest = 0xFE ∷ 0xFF ∷ words s (print_sequences ss rest)

-- The bytes of a table: each record ends with the word 0xFFFF.
abbrev pub print : List Entry → List ℕ → List ℕ
print [] rest = rest
print (e ∷ es) rest = words e.codes (print_sequences e.sequences (0xFF ∷ 0xFF ∷ print es rest))

-- No word is a mark.
abbrev pub Plain : List ℕ → Type 0
Plain [] = Unit {0}
Plain (w ∷ ws) = (w < 0xFFFE) × Plain ws

abbrev pub AllPlain : List (List ℕ) → Type 0
AllPlain [] = Unit {0}
AllPlain (s ∷ ss) = Plain s × AllPlain ss

abbrev pub PlainTable : List Entry → Type 0
PlainTable [] = Unit {0}
PlainTable (e ∷ es) = Plain e.codes × AllPlain e.sequences × PlainTable es

abbrev pub contains : ℕ → List ℕ → Bool
contains t [] = false
contains t (c ∷ cs) = if c == t then true else contains t cs

-- The number of the first record that has the code point by itself.
abbrev pub first_record : (target : ℕ) → List Entry → (glyph : ℕ) → Option ℕ
first_record t [] g = none
first_record t (e ∷ es) g = if contains t e.codes then some g else first_record t es (g + 1)

module _ (count t : ℕ) where
  plain_word :
      (w g : ℕ) (rest : List ℕ)
      → w < 0xFFFE
      → g < count
      → unicode_lookup_v1 ((w % 256) ∷ (w / 256) ∷ rest) false g count t
        ≡ (if w == t then some g else unicode_lookup_v1 rest false g count t)
  unfolding unicode_lookup_v1
  plain_word w g rest plain lt =
      let e : w % 256 + 256 * (w / 256) ≡ w = omega arith in
      let a : (w == 0xFFFF) ≡ false = ground (arith, plain) in
      let b : (w == 0xFFFE) ≡ false = ground (arith, plain) in
      let c : leb count g ≡ false = ground (arith, lt) in rw (e, a, b, c) refl

  skipped_word :
      (w g : ℕ) (rest : List ℕ)
      → w < 0xFFFE
      → unicode_lookup_v1 ((w % 256) ∷ (w / 256) ∷ rest) true g count t
        ≡ unicode_lookup_v1 rest true g count t
  unfolding unicode_lookup_v1
  skipped_word w g rest plain =
      let e : w % 256 + 256 * (w / 256) ≡ w = omega arith in
      let a : (w == 0xFFFF) ≡ false = ground (arith, plain) in
      let b : (w == 0xFFFE) ≡ false = ground (arith, plain) in rw (e, a, b) refl

  start_mark :
      (skipping : Bool) (g : ℕ) (rest : List ℕ)
      → g < count
      → unicode_lookup_v1 (0xFE ∷ 0xFF ∷ rest) skipping g count t
        ≡ unicode_lookup_v1 rest true g count t
  unfolding unicode_lookup_v1
  start_mark true g rest lt = let c : leb count g ≡ false = ground (arith, lt) in rw c refl
  start_mark false g rest lt = let c : leb count g ≡ false = ground (arith, lt) in rw c refl

  end_mark :
      (skipping : Bool) (g : ℕ) (rest : List ℕ)
      → g < count
      → unicode_lookup_v1 (0xFF ∷ 0xFF ∷ rest) skipping g count t
        ≡ unicode_lookup_v1 rest false (g + 1) count t
  unfolding unicode_lookup_v1
  end_mark true g rest lt = let c : leb count g ≡ false = ground (arith, lt) in rw c refl
  end_mark false g rest lt = let c : leb count g ≡ false = ground (arith, lt) in rw c refl

  lookup-words :
      (ws : List ℕ) (g : ℕ) (rest : List ℕ)
      → Plain ws
      → g < count
      → unicode_lookup_v1 (words ws rest) false g count t
        ≡ (if contains t ws then some g else unicode_lookup_v1 rest false g count t)
  lookup-words [] g rest plain lt = refl
  lookup-words (w ∷ ws) g rest plain lt =
      plain_word w g (words ws rest) plain.0 lt ∙ elim (Bool-cases (w == t)) [
        | inl here ↦ rw here refl
        | inr other ↦ rw other (lookup-words ws g rest plain.1 lt)
      ]

  skip-words :
      (ws : List ℕ) (g : ℕ) (rest : List ℕ)
      → Plain ws
      → unicode_lookup_v1 (words ws rest) true g count t ≡ unicode_lookup_v1 rest true g count t
  skip-words [] g rest plain = refl
  skip-words (w ∷ ws) g rest plain =
      skipped_word w g (words ws rest) plain.0 ∙ skip-words ws g rest plain.1

  skip-print_sequences :
      (ss : List (List ℕ)) (skipping : Bool) (g : ℕ) (rest : List ℕ)
      → AllPlain ss
      → g < count
      → unicode_lookup_v1 (print_sequences ss (0xFF ∷ 0xFF ∷ rest)) skipping g count t
        ≡ unicode_lookup_v1 rest false (g + 1) count t
  skip-print_sequences [] skipping g rest plain lt = end_mark skipping g rest lt
  skip-print_sequences (s ∷ ss) skipping g rest plain lt =
      start_mark skipping g (words s (print_sequences ss (0xFF ∷ 0xFF ∷ rest))) lt
      ∙ skip-words s g (print_sequences ss (0xFF ∷ 0xFF ∷ rest)) plain.0
      ∙ skip-print_sequences ss true g rest plain.1 lt

  -- In a table of at most as many records as the font has glyphs, the lookup finds the first record
  -- that has the code point by itself, whatever its sequences are, and nothing if there is none.
  pub unicode_lookup_v1-print :
      (es : List Entry) (g : ℕ)
      → PlainTable es
      → g + length es ≤ count
      → unicode_lookup_v1 (print es []) false g count t ≡ first_record t es g
  unfolding unicode_lookup_v1
  unicode_lookup_v1-print [] g plain few = refl
  unicode_lookup_v1-print (e ∷ es) g plain few =
      lookup-words e.codes g (print_sequences e.sequences (0xFF ∷ 0xFF ∷ print es [])) plain.0
        (omega (arith, few))
      ∙ elim (Bool-cases (contains t e.codes)) [
        | inl here ↦ rw here refl
        | inr other ↦ rw other (
            skip-print_sequences e.sequences false g (print es []) plain.1 (omega (arith, few))
            ∙ unicode_lookup_v1-print es (g + 1) plain.2 (omega (arith, few)))
      ]
