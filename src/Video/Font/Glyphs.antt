-- ===== src/Video/Font/Glyphs.antt =====
-- The pixels of a sound font.
use ferric_k.Base.{
  ℕ, suc, ◌+◌, ◌-◌, ◌*◌, ◌/◌, ◌^◌, ◌≤◌, ◌<◌, ◌≡◌, ◌↔◌, refl, ◌∙◌, arith, true, false, ◌||◌, ◌&&◌,
  none, some, List, length, get_elem?_total, get_elem?-none, take, drop, length-take, length-drop,
  leb, inl, inr, Bool-cases,
}
use native.Mathlib.Nat.{mul-le-mul_right}
use ferric_k.Base.Checked.{done, fits_in_small, Safely-done}
use ferric_k.Video.Font.{Font, parse, slice, glyph, pixel_at, glyph_pixel}
use ferric_k.Video.Font.Parse.{AllBytes, Sound, parse-Safely}

module _ (b : List ℕ) (font : Font) (sound : Sound b font) where
  -- Every glyph is a slice of the data, of the size that the header says.
  pub glyph-length :
      (index : ℕ)
      → index < font.glyph_count
      → (bits : List ℕ) × (glyph font index ≡ some (some bits)) × (length bits ≡ font.glyph_bytes)
  unfolding glyph slice
  glyph-length index lt =
      let n = font.glyph_bytes in
      let start = font.glyph_data_offset + index * n in
      let room : suc index * n ≤ font.glyph_count * n = mul-le-mul_right n (omega arith) in
      let e = sound.same in
      let inside : leb font.glyph_count index ≡ false = ground (arith, lt) in
      let fits : leb start (start + n) && leb (start + n) (length b) ≡ true =
        ground (arith, room, sound.inside) in
      (
        take (start + n - start) (drop start b),
        rw (inside, fits_in_small 64 start (omega (arith, room, sound.small)), e, fits) refl,
        length-take (start + n - start) (drop start b)
            ∙ omega (arith, length-drop start b, room, sound.inside),
      )

  -- Inside a glyph and its size, the pixel is there exactly if its byte lies in the glyph; the code
  -- panics if not.
  pub glyph_pixel-cases :
      (index x y : ℕ)
      → index < font.glyph_count
      → x < font.width
      → y < font.height
      → (glyph_pixel font index x y ≡ none) ↔ (font.glyph_bytes ≤ y * font.bytes_per_row + x / 8)
  unfolding glyph_pixel pixel_at
  glyph_pixel-cases index x y in_font in_row in_rows =
      let row = y * font.bytes_per_row + x / 8 in
      let guard : leb font.glyph_count index || (leb font.width x || leb font.height y) ≡ false =
        ground (arith, in_font, in_row, in_rows) in
      let (bits, e, size) = glyph-length index in_font in
      let rows : suc y * font.bytes_per_row ≤ font.height * font.bytes_per_row =
        mul-le-mul_right font.bytes_per_row (omega arith) in
      let small : row < 2 ^ 64 =
        omega (arith, rows, sound.rows, sound.glyph_small, sound.narrow, in_row) in
      elim (Bool-cases (leb font.glyph_bytes row)) [
        | inl out ↦
            (let missing = get_elem?-none bits row (ground (arith, out, size)) in
              (
                λ _. ground (arith, out),
                λ _. rw (guard, fits_in_small 64 row small, e, missing) refl,
              ))
        | inr inside ↦
            (let (v, there) = get_elem?_total bits row (ground (arith, inside, size)) in
              (
                λ p. absurd (some_pixel (rw (guard, fits_in_small 64 row small, e, there) at p)),
                λ out. absurd (ground (arith, inside, out)),
              ))
      ]
    where
      some_pixel : {A : Type 0} {a : A} → some a ≡ none → ⊥
      some_pixel p = cc

-- In a font that `parse` accepts, asking for a pixel inside a glyph panics exactly if the byte that
-- holds the pixel lies behind the glyph's bytes.
pub parse-glyph_pixel :
    (b : List ℕ) (font : Font) (index x y : ℕ)
    → AllBytes b
    → parse b ≡ done font
    → index < font.glyph_count
    → x < font.width
    → y < font.height
    → (glyph_pixel font index x y ≡ none) ↔ (font.glyph_bytes ≤ y * font.bytes_per_row + x / 8)
parse-glyph_pixel b font index x y bytes e =
    glyph_pixel-cases b font (Safely-done (Sound b) (parse b) font e (parse-Safely b bytes)) index x
      y
