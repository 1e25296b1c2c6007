-- ===== src/Text/Console/Blit.antt =====
-- Drawing a cell does not panic.
use ferric_k.Base.{
  ℕ, zero, suc, ◌+◌, ◌*◌, ◌^◌, ◌<◌, ◌≤◌, ◌≡◌, refl, sym, ◌∙◌, ap, Bool, true, false, ◌||◌, arith,
  Option, none, some, List, length, get_elem?, get_elem?_total, drop, length-drop, ltb, leb, ◌==◌,
  if◌then◌else◌, inl, inr, Bool-cases, Option-cases,
}
use native.Mathlib.Nat.{mul-le-mul_right}
use ferric_k.Base.Checked.{fits_in_small}
use ferric_k.Api.Keys.{Rgb}
use ferric_k.Text.Grid.{Cell}
use ferric_k.Text.Grid.Valid.{cell_in_range}
use ferric_k.Video.Framebuffer.{FrameBuffer, write_word}
use ferric_k.Video.Framebuffer.Encode.{encode-fits}
use ferric_k.Video.Framebuffer.Fill.{Alike, write-Alike}
use ferric_k.Video.Font.{
  Walked, Font, glyph_pixel, glyph_index_for, unicode_lookup, unicode_lookup_v1, direct_index,
  or_direct, answered,
}
use ferric_k.Video.Font.Parse.{Sound}
use ferric_k.Video.Font.Glyphs.{glyph_pixel-cases}
use ferric_k.Video.Font.Walk.{unicode_lookup_v2-ends}
use ferric_k.Text.Console.{Console}
use ferric_k.Text.Console.Valid.{Fits}
use ferric_k.Text.Console.Draw.{unwrap_or, blit_pixel, blit_row, blit_rows, blit_cell}

-- A color of three bytes.
abbrev pub IsColor : Rgb → Type 0
IsColor c = (c.r < 256) × (c.g < 256) × (c.b < 256)

-- Cells in such colors.
abbrev pub AllColored : List Cell → Type 0
AllColored cells =
    (i : ℕ) (cell : Cell) → get_elem? cells i ≡ some cell → IsColor cell.fg × IsColor cell.bg

-- A call that returns a framebuffer of the same kind.
pub record Ran (fb : FrameBuffer) (result : Option FrameBuffer) : Type 0 where
  pub next : FrameBuffer
  pub returned : result ≡ some next
  pub alike : Alike fb next

some-none : {A : Type 0} {a : A} → some a ≡ none → ⊥
some-none e = cc

unicode_lookup-ends :
    (font : Font) (c : ℕ)
    → length font.bytes < 2 ^ 32
    → (r : Option ℕ) × (unicode_lookup (length font.bytes) font c ≡ answered r)
unfolding unicode_lookup
unicode_lookup-ends font c few =
    let table = drop font.unicode_offset font.bytes in
    let size = length-drop font.unicode_offset font.bytes in
    elim (Bool-cases (ltb (length font.bytes) font.unicode_offset)) [
      | inl short ↦ (none, rw short refl)
      | inr long ↦ elim (Bool-cases (font.version == 1)) [
        | inl one ↦ (unicode_lookup_v1 table false 0 font.glyph_count c, rw (long, one) refl)
        | inr two ↦
            elim (unicode_lookup_v2-ends (length font.bytes) table 0 c (omega (arith, size))) [
              | inl (r, e) ↦ (r, rw (long, two) e)
              | inr (e, huge) ↦ absurd (omega (arith, huge, size, few))
            ]
      ]
    ]

or_direct-ends :
    (font : Font) (c : ℕ) (table : Bool) (walk : Walked (Option ℕ)) (r : Option ℕ)
    → walk ≡ answered r
    → (r' : Option ℕ) × ((if table then or_direct font c walk else answered (direct_index font c))
        ≡ answered r')
or_direct-ends font c true walk none e = (direct_index font c, ap (or_direct font c) e)
or_direct-ends font c true walk (some glyph) e = (some glyph, ap (or_direct font c) e)
or_direct-ends font c false walk r e = (direct_index font c, refl)

-- In a font of fewer than 2^32 bytes the lookup of a glyph answers.
pub glyph_index_for-ends :
    (font : Font) (c : ℕ)
    → length font.bytes < 2 ^ 32
    → (r : Option ℕ) × (glyph_index_for (length font.bytes) font c ≡ answered r)
unfolding glyph_index_for
glyph_index_for-ends font c few =
    let (r, e) = unicode_lookup-ends font c few in
    or_direct-ends font c font.has_unicode (unicode_lookup (length font.bytes) font c) r e

module _ (fb0 : FrameBuffer) (font : Font) (b : List ℕ) (sound : Sound b font)
    (wide : font.width ≤ 8 * font.bytes_per_row) where
  pixel_returns :
      (index x y : ℕ)
      → x < font.width
      → y < font.height
      → (r : Option Bool) × (glyph_pixel font index x y ≡ some r)
  unfolding glyph_pixel
  pixel_returns index x y in_row in_rows = elim (Option-cases (glyph_pixel font index x y)) [
    | inr (r, e) ↦ (r, e)
    | inl bad ↦ elim (Bool-cases (leb font.glyph_count index)) [
      | inl out ↦
          (let guard : leb font.glyph_count index || (leb font.width x || leb font.height y)
                ≡ true =
              ground (arith, out) in
            let answered : glyph_pixel font index x y ≡ some none = rw guard refl in
            absurd (some-none (sym answered ∙ bad)))
      | inr inside ↦
          (let rows : suc y * font.bytes_per_row ≤ font.height * font.bytes_per_row =
              mul-le-mul_right font.bytes_per_row (omega (arith, in_rows)) in
            let far =
              (glyph_pixel-cases b font sound index x y (ground (arith, inside)) in_row in_rows).0
                bad in
            absurd (omega (arith, far, rows, sound.rows, in_row, wide)))
    ]
  ]

  blit_pixel-Ran :
      (fb : FrameBuffer) (index gx gy px py fg_word bg_word : ℕ)
      → Alike fb0 fb
      → gx < font.width
      → gy < font.height
      → px + font.width ≤ 2 ^ 32
      → py + font.height ≤ 2 ^ 32
      → Ran fb0 (blit_pixel fb font index gx gy px py fg_word bg_word)
  unfolding blit_pixel write_word
  blit_pixel-Ran fb index gx gy px py fg_word bg_word alike in_row in_rows right below =
      let (r, e) = pixel_returns index gx gy in_row in_rows in
      let x = fits_in_small 32 (px + gx) (omega (arith, in_row, right)) in
      let y = fits_in_small 32 (py + gy) (omega (arith, in_rows, below)) in
      let word = if unwrap_or r false then fg_word else bg_word in
      elim (Bool-cases (leb fb.width (px + gx) || leb fb.height (py + gy))) [
        | inl out ↦ record { next = fb; returned = rw (e, x, y, out) refl; alike = alike }
        | inr inside ↦ record {
          next = _;
          returned = rw (e, x, y, inside) refl;
          alike = write-Alike fb0 fb (px + gx) (py + gy) word alike;
        }
      ]

  blit_row-Ran :
      (n : ℕ) (fb : FrameBuffer) (index gy px py fg_word bg_word : ℕ)
      → Alike fb0 fb
      → n ≤ font.width
      → gy < font.height
      → px + font.width ≤ 2 ^ 32
      → py + font.height ≤ 2 ^ 32
      → Ran fb0 (blit_row n fb font index gy px py fg_word bg_word)
  unfolding blit_row
  blit_row-Ran zero fb index gy px py fg_word bg_word alike le in_rows right below = record {
    next = fb;
    returned = refl;
    alike = alike;
  }
  blit_row-Ran (suc n) fb index gy px py fg_word bg_word alike le in_rows right below =
      let rest =
        blit_row-Ran n fb index gy px py fg_word bg_word alike (omega (arith, le)) in_rows right
          below in
      let one =
        blit_pixel-Ran rest.next index n gy px py fg_word bg_word rest.alike (omega (arith, le))
          in_rows right below in
      record { next = one.next; returned = rw rest.returned one.returned; alike = one.alike }

  blit_rows-Ran :
      (n : ℕ) (fb : FrameBuffer) (index px py fg_word bg_word : ℕ)
      → Alike fb0 fb
      → n ≤ font.height
      → px + font.width ≤ 2 ^ 32
      → py + font.height ≤ 2 ^ 32
      → Ran fb0 (blit_rows n fb font index px py fg_word bg_word)
  unfolding blit_rows
  blit_rows-Ran zero fb index px py fg_word bg_word alike le right below = record {
    next = fb;
    returned = refl;
    alike = alike;
  }
  blit_rows-Ran (suc n) fb index px py fg_word bg_word alike le right below =
      let rest =
        blit_rows-Ran n fb index px py fg_word bg_word alike (omega (arith, le)) right below in
      let one =
        blit_row-Ran font.width rest.next index n px py fg_word bg_word rest.alike (omega arith)
          (omega (arith, le)) right below in
      record { next = one.next; returned = rw rest.returned one.returned; alike = one.alike }

  -- Any cell of a console whose cells have colors, on a surface that its pixels can number.
  pub blit_cell-Ran :
      (c : Console) (fb : FrameBuffer) (row col : ℕ)
      → length font.bytes < 2 ^ 32
      → Fits c
      → AllColored c.cells
      → (fb0.red.size ≤ 56) × (fb0.green.size ≤ 56) × (fb0.blue.size ≤ 56)
      → c.cols * font.width < 2 ^ 32
      → c.rows * font.height < 2 ^ 32
      → Alike fb0 fb
      → row < c.rows
      → col < c.cols
      → Ran fb0 (blit_cell c fb font row col)
  unfolding blit_cell
  blit_cell-Ran c fb row col few f colored narrow right below alike in_rows in_cols =
      let inside = cell_in_range row col c.cols c.rows in_rows in_cols in
      let comm : c.rows * c.cols ≡ c.cols * c.rows = omega arith in
      let first = fits_in_small 32 (row * c.cols) (omega (arith, inside, comm, f.within)) in
      let index = fits_in_small 32 (row * c.cols + col) (omega (arith, inside, comm, f.within)) in
      let (cell, there) =
        get_elem?_total c.cells (row * c.cols + col)
          (omega (arith, inside, comm, f.within, f.buffer)) in
      let (found, found_eq) = glyph_index_for-ends font cell.glyph few in
      let colors = colored (row * c.cols + col) cell there in
      let still : (fb.red.size ≤ 56) × (fb.green.size ≤ 56) × (fb.blue.size ≤ 56) =
        rw (alike.red, alike.green, alike.blue) narrow in
      let fg = encode-fits fb cell.fg alike.valid still colors.0 in
      let bg = encode-fits fb cell.bg alike.valid still colors.1 in
      let wide_enough : suc col * font.width ≤ c.cols * font.width =
        mul-le-mul_right font.width (omega (arith, in_cols)) in
      let high_enough : suc row * font.height ≤ c.rows * font.height =
        mul-le-mul_right font.height (omega (arith, in_rows)) in
      let px = fits_in_small 32 (col * font.width) (omega (arith, wide_enough, right)) in
      let py = fits_in_small 32 (row * font.height) (omega (arith, high_enough, below)) in
      let r =
        blit_rows-Ran font.height fb (unwrap_or found 0) (col * font.width) (row * font.height) fg.0
          bg.0 alike (omega arith) (omega (arith, wide_enough, right))
          (omega (arith, high_enough, below)) in
      record {
        next = r.next;
        returned = rw (first, index, there, found_eq, fg.1, bg.1, px, py) r.returned;
        alike = r.alike;
      }
