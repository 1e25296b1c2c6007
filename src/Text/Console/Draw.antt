-- ===== src/Text/Console/Draw.antt =====
-- The parts of `Console` that draw, the methods that combine them with the edits of the grid, and
-- `repaint_rect`. The lookup of a glyph has as much fuel as the font has bytes.
use ferric_k.Base.{
  ℕ, zero, suc, ◌+◌, ◌-◌, ◌*◌, ◌/◌, ◌%◌, ◌^◌, min, ◌&&◌, ◌||◌, Bool, false, Option, none, some,
  List, [], ◌∷◌, ◌++◌, ltb, leb, ◌==◌, if◌then◌else◌, length, get_elem?,
}
use ferric_k.Base.Checked.{Outcome, done, failed, panicked, fits_in}
use ferric_k.Text.Grid.{◌>>=◌}
use ferric_k.Video.Font.{
  Font, Walked, answered, overflowed, out_of_fuel, glyph_pixel, glyph_index_for,
}
use ferric_k.Video.Framebuffer.{FrameBuffer, FramebufferError, encode, write_word, fill_rect}
use ferric_k.Text.Console.{
  Console, load, quotient, no_geometry, put_text, begin_edit, edit_origin, edit_cells, clear_cells,
}

-- The global framebuffer, once it is set, and what was sent to the serial line.
pub record Devices : Type 0 where
  pub screen : Option FrameBuffer
  pub serial : List ℕ

-- `let _ =` before a call on the framebuffer: an error leaves it as it was.
abbrev pub ignore : FrameBuffer → Outcome FramebufferError FrameBuffer → Option FrameBuffer
ignore fb (done fb') = some fb'
ignore fb (failed e) = some fb
ignore fb panicked = none

abbrev pub unwrap_or : {A : Type 0} → Option A → A → A
unwrap_or none a = a
unwrap_or (some b) a = b

-- The answer of a walk; a walk that panics is a panic here.
abbrev pub settled : {A : Type 0} → Walked A → Option A
settled (answered a) = some a
settled overflowed = none
settled out_of_fuel = none

-- One pixel of a cell.
unfoldable pub blit_pixel :
    FrameBuffer → Font → (glyph gx gy px py fg_word bg_word : ℕ) → Option FrameBuffer
blit_pixel fb font glyph gx gy px py fg_word bg_word = do
  found ← glyph_pixel font glyph gx gy
  x ← fits_in 32 (px + gx)
  y ← fits_in 32 (py + gy)
  ignore fb (write_word fb x y (if unwrap_or found false then fg_word else bg_word))

-- The first `n` pixels of a row of a cell, and its first `n` rows.
unfoldable pub blit_row :
    (n : ℕ) → FrameBuffer → Font → (glyph gy px py fg_word bg_word : ℕ) → Option FrameBuffer
blit_row zero fb font glyph gy px py fg_word bg_word = some fb
blit_row (suc n) fb font glyph gy px py fg_word bg_word = do
  fb' ← blit_row n fb font glyph gy px py fg_word bg_word
  blit_pixel fb' font glyph n gy px py fg_word bg_word

unfoldable pub blit_rows :
    (n : ℕ) → FrameBuffer → Font → (glyph px py fg_word bg_word : ℕ) → Option FrameBuffer
blit_rows zero fb font glyph px py fg_word bg_word = some fb
blit_rows (suc n) fb font glyph px py fg_word bg_word = do
  fb' ← blit_rows n fb font glyph px py fg_word bg_word
  blit_row font.width fb' font glyph n px py fg_word bg_word

unfoldable pub blit_cell : Console → FrameBuffer → Font → (row col : ℕ) → Option FrameBuffer
blit_cell c fb font row col = do
  first ← fits_in 32 (row * c.cols)
  index ← fits_in 32 (first + col)
  cell ← get_elem? c.cells index
  found ← settled (glyph_index_for (length font.bytes) font cell.glyph)
  fg_word ← encode fb cell.fg
  bg_word ← encode fb cell.bg
  px ← fits_in 32 (col * font.width)
  py ← fits_in 32 (row * font.height)
  blit_rows font.height fb font (unwrap_or found 0) px py fg_word bg_word

-- `n` cells from a column on, and `n` rows of so many cells.
unfoldable pub blit_cols :
    (n : ℕ) → Console → FrameBuffer → Font → (row col : ℕ) → Option FrameBuffer
blit_cols zero c fb font row col = some fb
blit_cols (suc n) c fb font row col = do
  fb' ← blit_cell c fb font row col
  blit_cols n c fb' font row (col + 1)

unfoldable pub blit_block :
    (n : ℕ) → Console → FrameBuffer → Font → (row col width : ℕ) → Option FrameBuffer
blit_block zero c fb font row col width = some fb
blit_block (suc n) c fb font row col width = do
  fb' ← blit_cols width c fb font row col
  blit_block n c fb' font (row + 1) col width

unfoldable pub render : List ℕ → Console → FrameBuffer → Option FrameBuffer
render font_data c fb =
    if no_geometry c
    then some fb
    else (do font ← load font_data; blit_block c.rows c fb font 0 0 c.cols)

-- `n` cells of the grid from an index on, in row-major order.
unfoldable pub blit_run : (n : ℕ) → Console → FrameBuffer → Font → (index : ℕ) → Option FrameBuffer
blit_run zero c fb font index = some fb
blit_run (suc n) c fb font index = do
  fb' ← blit_cell c fb font (index / c.cols) (index % c.cols)
  blit_run n c fb' font (index + 1)

-- The range of `render_range` behind its clamp.
unfoldable pub clamp_range : (first last total : ℕ) → ℕ × ℕ
clamp_range first last total =
    if leb total first || leb total last
    then (min first (total - 1), min last (total - 1))
    else (first, last)

unfoldable pub render_range : List ℕ → Console → FrameBuffer → (first last : ℕ) → Option FrameBuffer
render_range font_data c fb first last = if no_geometry c then some fb else (do
  total ← fits_in 32 (c.rows * c.cols)
  let range = clamp_range first last total
  if ltb range.1 range.0
      then some fb
      else (do font ← load font_data; blit_run (range.1 + 1 - range.0) c fb font range.0))

-- `with_framebuffer`: nothing happens before the framebuffer is set.
unfoldable pub with_framebuffer : Devices → (FrameBuffer → Option FrameBuffer) → Option Devices
with_framebuffer d f = elim d.screen [
  | none ↦ some d
  | some fb ↦ (do fb' ← f fb; some (record d { screen = some fb' }))
]

unfoldable pub mirror_to_serial : Devices → List ℕ → Devices
mirror_to_serial d s = record d { serial = d.serial ++ s }

unfoldable pub ends_with : List ℕ → ℕ → Bool
ends_with [] c = false
ends_with (x ∷ []) c = x == c
ends_with (x ∷ y ∷ s) c = ends_with (y ∷ s) c

unfoldable pub write_str : List ℕ → Console → Devices → List ℕ → Option (Console × Devices)
write_str font_data c d s = do
  c' ← put_text c s
  d' ← (if ends_with s 0x0A then with_framebuffer d (render font_data c') else some d)
  some (c', mirror_to_serial d' s)

unfoldable pub render_now : List ℕ → Console → Devices → Option Devices
render_now font_data c d = if no_geometry c then some d else with_framebuffer d (render font_data c)

-- The end of `set_edit_line`: after a scroll the origin moves up and everything is drawn.
unfoldable pub draw_edit :
    List ℕ
    → Console
    → FrameBuffer
    → (scrolled origin old_cells : ℕ) → Option (Console × FrameBuffer)
draw_edit font_data c fb scrolled origin old_cells =
    if ltb 0 scrolled
    then (do
      let moved = record c { edit_row = c.edit_row - scrolled }
      fb' ← render font_data moved fb
      some (moved, fb'))
    else (do
      let reach = if leb old_cells c.edited_cells then c.edited_cells else old_cells
      fb' ← render_range font_data c fb origin (origin + reach - 1)
      some (c, fb'))

unfoldable pub set_edit_line : List ℕ → Console → Devices → List ℕ → Option (Console × Devices)
set_edit_line font_data c d s = if no_geometry c then some (c, d) else (do
  origin ← edit_origin c
  if (length s == 0) && (c.edited_cells == 0) then some (c, d) else (do
    edited ← edit_cells c origin s
    elim d.screen [
      | none ↦ some (edited.0, d)
      | some fb ↦ (do
        drawn ← draw_edit font_data edited.0 fb edited.1 origin c.edited_cells
        some (drawn.0, record d { screen = some drawn.1 }))
    ]))

unfoldable pub clear_screen : List ℕ → Console → Devices → Option (Console × Devices)
clear_screen font_data c d =
    if no_geometry c
    then some (c, d)
    else (do c' ← clear_cells c; d' ← with_framebuffer d (render font_data c'); some (c', d'))

abbrev pub prompt : List ℕ
prompt = b'f' ∷ b'e' ∷ b'r' ∷ b'r' ∷ b'i' ∷ b'c' ∷ b'-' ∷ b'k' ∷ b'$' ∷ b' ' ∷ []

unfoldable pub new_prompt : List ℕ → Console → Devices → Option (Console × Devices)
new_prompt font_data c d = do
  written ← write_str font_data c d prompt
  d' ← render_now font_data written.0 written.1
  some (begin_edit written.0, d')

-- The first and the last of the cells of some size that a range of pixels meets.
unfoldable pub meets : (at extent size count : ℕ) → Option (ℕ × ℕ)
meets at extent size count = do
  first ← quotient at size
  last ← quotient (min (at + extent) (2 ^ 64 - 1) - 1) size
  some (min first (count - 1), min last (count - 1))

unfoldable pub repaint_rect : List ℕ → Console → Devices → (x y w h : ℕ) → Option Devices
repaint_rect font_data c d x y w h = if no_geometry c || ((w == 0) || (h == 0)) then some d else (do
  font ← load font_data
  row ← meets y h font.height c.rows
  col ← meets x w font.width c.cols
  with_framebuffer d (λ fb. do
    filled ← ignore fb (fill_rect fb x y w h c.bg)
    blit_block (row.1 + 1 - row.0) c filled font row.0 col.0 (col.1 + 1 - col.0)))
