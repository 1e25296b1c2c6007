-- ===== src/Video/Font/Parse.antt =====
-- What `parse` makes sure of.
use ferric_k.Base.{
  ℕ, zero, suc, [], ◌∷◌, ◌+◌, ◌*◌, ◌/◌, ◌^◌, ◌≤◌, ◌<◌, ◌≡◌, refl, arith, bit_and, Bool, true, ◌||◌,
  ◌&&◌, not, some, List, length, get_elem?, get_elem?_total, ltb, ◌==◌, if◌then◌else◌, inl, inr,
  Bool-cases,
}
use native.Mathlib.Nat.{mul-le-mul}
use ferric_k.Base.Checked.{fits_in_small, Safely, Safely-bind}
use ferric_k.Video.Font.{
  Font, u16le, u32le, glyphs_end, within, psf1_font, psf2_font, parse_psf1, build_psf2, parse_psf2,
  parse_rest, parse,
}

abbrev pub AllBytes : List ℕ → Type 0
AllBytes b = (i v : ℕ) → get_elem? b i ≡ some v → v < 256

-- The glyphs lie in the data, and so do the rows of a glyph; nothing overflows.
pub record Sound (b : List ℕ) (font : Font) : Type 0 where
  pub same : font.bytes ≡ b
  pub inside : font.glyph_data_offset + font.glyph_count * font.glyph_bytes ≤ length b
  pub small : font.glyph_data_offset + font.glyph_count * font.glyph_bytes < 2 ^ 64
  pub rows : font.height * font.bytes_per_row ≤ font.glyph_bytes
  pub narrow : font.width < 2 ^ 32
  pub glyph_small : font.glyph_bytes < 2 ^ 32
  pub table : font.unicode_offset ≡ font.glyph_data_offset + font.glyph_count * font.glyph_bytes

module _ (b : List ℕ) (bytes : AllBytes b) where
  read : (i : ℕ) → i < length b → (v : ℕ) × (get_elem? b i ≡ some v) × (v < 256)
  read i lt = let (v, e) = get_elem?_total b i lt in (v, e, bytes i v e)

  read_u16 : (i : ℕ) → i + 1 < length b → (v : ℕ) × (u16le b i ≡ some v) × (v < 2 ^ 16)
  unfolding u16le
  read_u16 i lt =
      let (x, e, p) = read i (omega (arith, lt)) in
      let (y, f, q) = read (i + 1) lt in (x + 256 * y, rw (e, f) refl, omega (arith, p, q))

  read_u32 : (i : ℕ) → i + 3 < length b → (v : ℕ) × (u32le b i ≡ some v) × (v < 2 ^ 32)
  unfolding u32le
  read_u32 i lt =
      let (x, e, p) = read_u16 i (omega (arith, lt)) in
      let (y, f, q) = read_u16 (i + 2) (omega (arith, lt)) in
      (x + 65536 * y, rw (e, f) refl, omega (arith, p, q))

  glyphs_end-Safely :
      (offset count size : ℕ)
      → count < 2 ^ 32
      → size < 2 ^ 32
      → Safely
          (λ end. (end ≡ offset + count * size) × (end < 2 ^ 64))
          (glyphs_end offset count size)
  unfolding glyphs_end
  glyphs_end-Safely offset count size few small =
      let product : count * size ≤ 4294967295 * 4294967295 =
        mul-le-mul {n₁ = count} {m₁ = size} {n₂ = 4294967295} {m₂ = 4294967295} (omega (arith, few))
          (omega (arith, small)) in
      rw (fits_in_small 64 (count * size) (omega (arith, product)))
        (elim (Bool-cases (ltb (offset + count * size) (2 ^ 64))) [
          | inl fits ↦ rw fits (refl, ground (arith, fits))
          | inr over ↦ rw over tt
        ])

  within-Safely :
      (end : ℕ) (font : Font)
      → (end ≤ length b → Sound b font)
      → Safely (Sound b) (within b end font)
  unfolding within
  within-Safely end font sound = elim (Bool-cases (ltb (length b) end)) [
    | inl short ↦ rw short tt
    | inr fits ↦ rw fits (sound (ground (arith, fits)))
  ]

  build_psf2-Safely :
      (headersize flags numglyph bytesperglyph height width : ℕ)
      → numglyph < 2 ^ 32
      → bytesperglyph < 2 ^ 32
      → width < 2 ^ 32
      → Safely (Sound b) (build_psf2 b headersize flags numglyph bytesperglyph height width)
  unfolding build_psf2
  build_psf2-Safely hs flags n size height width few small narrow =
      elim (Bool-cases
        (ltb hs 32 || ((n == 0) || ((size == 0) || ((height == 0) || (width == 0)))))) [
          | inl bad ↦ rw bad tt
          | inr good ↦ rw good (
              Safely-bind _ (Sound b) _ _ (glyphs_end-Safely hs n size few small) (λ end p.
                within-Safely end (psf2_font b hs flags n size height width end) (λ fits. record {
                  same = refl;
                  inside = omega (arith, fits, p.0);
                  small = omega (arith, p.0, p.1);
                  rows = rows_fit height size;
                  narrow = narrow;
                  glyph_small = small;
                  table = p.0;
                })))
        ]
    where
      rows_fit : (h s : ℕ) → h * (s / h) ≤ s
      rows_fit h s = omega arith

  parse_psf2-Safely : Safely (Sound b) (parse_psf2 b)
  unfolding parse_psf2
  parse_psf2-Safely = elim (Bool-cases (ltb (length b) 32)) [
    | inl short ↦ rw short tt
    | inr long ↦
        (let enough : 32 ≤ length b = ground (arith, long) in
          let headersize = read_u32 8 (omega (arith, enough)) in
          let flags = read_u32 12 (omega (arith, enough)) in
          let numglyph = read_u32 16 (omega (arith, enough)) in
          let size = read_u32 20 (omega (arith, enough)) in
          let height = read_u32 24 (omega (arith, enough)) in
          let width = read_u32 28 (omega (arith, enough)) in
          rw (long, headersize.1, flags.1, numglyph.1, size.1, height.1, width.1)
            (build_psf2-Safely headersize.0 flags.0 numglyph.0 size.0 height.0 width.0 numglyph.2
              size.2 width.2))
  ]

  parse_psf1-Safely : Safely (Sound b) (parse_psf1 b)
  unfolding parse_psf1
  parse_psf1-Safely = elim (Bool-cases (ltb (length b) 4)) [
    | inl short ↦ rw short tt
    | inr long ↦
        (let enough : 4 ≤ length b = ground (arith, long) in
          let mode = read 2 (omega (arith, enough)) in
          let size = read 3 (omega (arith, enough)) in
          let count : ℕ = (if not (bit_and mode.0 1 == 0) then 512 else 256) in
          let few : count < 2 ^ 32 = ground arith in
          rw (long, mode.1, size.1)
            (Safely-bind _ (Sound b) _ _
              (glyphs_end-Safely 4 count size.0 few (omega (arith, size.2)))
              (λ end p. within-Safely end (psf1_font b mode.0 size.0 count end) (λ fits. record {
                same = refl;
                inside = omega (arith, fits, p.0);
                small = omega (arith, p.0, p.1);
                rows = omega arith;
                narrow = omega arith;
                glyph_small = omega (arith, size.2);
                table = p.0;
              }))))
  ]

  -- `parse` does not panic, and a font that it accepts is sound.
  pub parse-Safely : Safely (Sound b) (parse b)
  unfolding parse parse_rest
  parse-Safely = elim (Bool-cases (ltb (length b) 2)) [
    | inl short ↦ rw short tt
    | inr long ↦
        (let enough : 2 ≤ length b = ground (arith, long) in
          let first = read_u16 0 (omega (arith, enough)) in
          rw (long, first.1)
            (elim (Bool-cases (first.0 == 0x0436)) [
              | inl one ↦ rw one parse_psf1-Safely
              | inr other ↦ rw other (elim (Bool-cases (ltb (length b) 4)) [
                | inl short ↦ rw short tt
                | inr long' ↦
                    (let enough' : 4 ≤ length b = ground (arith, long') in
                      let magic = read_u32 0 (omega (arith, enough')) in
                      rw (long', magic.1)
                        (elim (Bool-cases (magic.0 == 0x864ab572)) [
                          | inl two ↦ rw two parse_psf2-Safely
                          | inr neither ↦ rw neither tt
                        ]))
              ])
            ]))
  ]

abbrev pub all_bytes : List ℕ → Bool
all_bytes [] = true
all_bytes (v ∷ b) = ltb v 256 && all_bytes b

-- The bytes of a given list can be checked by evaluation.
pub AllBytes-all_bytes : (b : List ℕ) → all_bytes b ≡ true → AllBytes b
AllBytes-all_bytes [] ok i v e = absurd (ground (arith, e))
AllBytes-all_bytes (x ∷ b) ok zero v e = ground (arith, ok, e)
AllBytes-all_bytes (x ∷ b) ok (suc i) v e = AllBytes-all_bytes b (ground (arith, ok)) i v e
