-- ===== src/Text/Console/Render.antt =====
-- The console's methods that draw do not panic, and `set_edit_line` as a whole.
use ferric_k.Base.{
  length, ap, ℕ, zero, suc, ◌+◌, ◌-◌, ◌*◌, ◌/◌, ◌%◌, ◌^◌, ◌<◌, ◌≤◌, ◌≡◌, refl, arith, some, List,
  ltb, inl, inr, Bool-cases,
}
use native.Mathlib.Nat.{mod-lt, div-lt_iff_lt-mul, mul-le-mul_right}
use ferric_k.Base.Checked.{done, fits_in_small, Safely-done}
use ferric_k.Video.Framebuffer.{FrameBuffer}
use ferric_k.Video.Framebuffer.Capture.{Captured}
use ferric_k.Video.Framebuffer.Fill.{Alike}
use ferric_k.Video.Font.{Font, parse}
use ferric_k.Video.Font.Parse.{AllBytes, Sound, parse-Safely}
use ferric_k.Text.Console.{Console, load}
use ferric_k.Text.Console.Valid.{Fits, has_geometry}
use ferric_k.Text.Console.Blit.{AllColored, Ran, blit_cell-Ran}
use ferric_k.Text.Console.Draw.{
  blit_cell, blit_cols, blit_block, blit_run, render, clamp_range, render_range,
}

-- What drawing asks of the font, the framebuffer and the console: the font was parsed from fewer than
-- 2^32 bytes, and its rows have the bytes for their pixels; the surface was captured, with channels of at most 56 bits; the
-- grid fits the buffer, the cells have colors, and the grid's pixels can be numbered.
pub record Drawable (font_data : List ℕ) (font : Font) (fb : FrameBuffer) (c : Console)
    : Type 0 where
  pub bytes : AllBytes font_data
  pub short : length font_data < 2 ^ 32
  pub parsed : parse font_data ≡ done font
  pub wide : font.width ≤ 8 * font.bytes_per_row
  pub captured : Captured fb
  pub narrow : (fb.red.size ≤ 56) × (fb.green.size ≤ 56) × (fb.blue.size ≤ 56)
  pub grid : Fits c
  pub colored : AllColored c.cells
  pub right : c.cols * font.width < 2 ^ 32
  pub below : c.rows * font.height < 2 ^ 32

pub load_lem :
    (font_data : List ℕ) (font : Font) → parse font_data ≡ done font → load font_data ≡ some font
unfolding load
load_lem font_data font e = rw (load, e) refl

module _ (font_data : List ℕ) (font : Font) (fb0 : FrameBuffer) (c : Console)
    (d : Drawable font_data font fb0 c) where
  cell-Ran :
      (fb : FrameBuffer) (row col : ℕ)
      → Alike fb0 fb
      → row < c.rows
      → col < c.cols
      → Ran fb0 (blit_cell c fb font row col)
  cell-Ran fb row col alike in_rows in_cols =
      let sound =
        Safely-done (Sound font_data) (parse font_data) font d.parsed
          (parse-Safely font_data d.bytes) in
      blit_cell-Ran fb0 font font_data sound d.wide c fb row col
        (omega (arith, ap length sound.same, d.short)) d.grid d.colored d.narrow d.right d.below
        alike in_rows in_cols

  blit_cols-Ran :
      (n : ℕ) (fb : FrameBuffer) (row col : ℕ)
      → Alike fb0 fb
      → row < c.rows
      → col + n ≤ c.cols
      → Ran fb0 (blit_cols n c fb font row col)
  unfolding blit_cols
  blit_cols-Ran zero fb row col alike in_rows le = record {
    next = fb;
    returned = refl;
    alike = alike;
  }
  blit_cols-Ran (suc n) fb row col alike in_rows le =
      let one = cell-Ran fb row col alike in_rows (omega (arith, le)) in
      let rest = blit_cols-Ran n one.next row (col + 1) one.alike in_rows (omega (arith, le)) in
      record { next = rest.next; returned = rw one.returned rest.returned; alike = rest.alike }

  pub blit_block-Ran :
      (n : ℕ) (fb : FrameBuffer) (row col width : ℕ)
      → Alike fb0 fb
      → row + n ≤ c.rows
      → col + width ≤ c.cols
      → Ran fb0 (blit_block n c fb font row col width)
  unfolding blit_block
  blit_block-Ran zero fb row col width alike le in_cols = record {
    next = fb;
    returned = refl;
    alike = alike;
  }
  blit_block-Ran (suc n) fb row col width alike le in_cols =
      let one = blit_cols-Ran width fb row col alike (omega (arith, le)) in_cols in
      let rest =
        blit_block-Ran n one.next (row + 1) col width one.alike (omega (arith, le)) in_cols in
      record { next = rest.next; returned = rw one.returned rest.returned; alike = rest.alike }

  blit_run-Ran :
      (n : ℕ) (fb : FrameBuffer) (index : ℕ)
      → Alike fb0 fb
      → index + n ≤ c.rows * c.cols
      → Ran fb0 (blit_run n c fb font index)
  unfolding blit_run
  blit_run-Ran zero fb index alike le = record { next = fb; returned = refl; alike = alike }
  blit_run-Ran (suc n) fb index alike le =
      let one =
        cell-Ran fb (index / c.cols) (index % c.cols) alike
          ((div-lt_iff_lt-mul d.grid.cols_pos).1 (omega (arith, le)))
          (mod-lt index d.grid.cols_pos) in
      let rest = blit_run-Ran n one.next (index + 1) one.alike (omega (arith, le)) in
      record { next = rest.next; returned = rw one.returned rest.returned; alike = rest.alike }

  -- Drawing the whole grid returns.
  pub render-Ran : (fb : FrameBuffer) → Alike fb0 fb → Ran fb0 (render font_data c fb)
  unfolding render
  render-Ran fb alike =
      let r = blit_block-Ran c.rows fb 0 0 c.cols alike (omega arith) (omega arith) in
      record {
        next = r.next;
        returned =
            rw (has_geometry c d.grid.cols_pos d.grid.rows_pos, load_lem font_data font d.parsed)
              r.returned;
        alike = r.alike;
      }

  -- The range that is drawn lies in the grid.
  clamp_range-inside :
      (first last total : ℕ) → 0 < total → ((clamp_range first last total).1 < total)
  unfolding clamp_range
  clamp_range-inside first last total pos = ground (arith, pos)

  -- Drawing any range of cells returns.
  pub render_range-Ran :
      (fb : FrameBuffer) (first last : ℕ)
      → Alike fb0 fb
      → Ran fb0 (render_range font_data c fb first last)
  unfolding render_range
  render_range-Ran fb first last alike =
      let total = c.rows * c.cols in
      let comm : c.rows * c.cols ≡ c.cols * c.rows = omega arith in
      let some_cells : 1 * c.cols ≤ c.rows * c.cols =
        mul-le-mul_right c.cols (omega (arith, d.grid.rows_pos)) in
      let range = clamp_range first last total in
      let inside =
        clamp_range-inside first last total (omega (arith, some_cells, d.grid.cols_pos)) in
      let fits = fits_in_small 32 total (omega (arith, comm, d.grid.within)) in
      let known = has_geometry c d.grid.cols_pos d.grid.rows_pos in
      elim (Bool-cases (ltb range.1 range.0)) [
        | inl empty ↦ record { next = fb; returned = rw (known, fits, empty) refl; alike = alike }
        | inr some_range ↦
            (let r =
                blit_run-Ran (range.1 + 1 - range.0) fb range.0 alike
                  (ground (arith, some_range, inside)) in
              record {
                next = r.next;
                returned =
                    rw (known, fits, some_range, load_lem font_data font d.parsed) r.returned;
                alike = r.alike;
              })
      ]
