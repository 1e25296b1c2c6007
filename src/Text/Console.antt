-- ===== src/Text/Console.antt =====
-- `Console` of crates/ferric-unsafe-core/src/console.rs: the cells and the cursor of the kernel's text
-- console, drawn through a font onto the framebuffer and mirrored to the serial line. The font's bytes
-- and the global framebuffer are arguments; `none` is a panic.
pub mod Draw
pub mod Valid
pub mod Geometry
pub mod Edit
pub mod Line
pub mod Shown
pub mod Blit
pub mod Render
pub mod Redraw
pub mod Repaint
use ferric_k.Base.{
  ℕ, zero, suc, ◌+◌, ◌-◌, ◌*◌, ◌/◌, ◌%◌, min, ◌&&◌, ◌||◌, Bool, Option, none, some, List, [], ◌∷◌,
  ◌++◌, ltb, leb, ◌==◌, if◌then◌else◌, replicate, length,
}
use ferric_k.Base.Checked.{Outcome, done, failed, panicked, fits_in}
use ferric_k.Api.Keys.{Rgb, rgb}
use ferric_k.Text.Grid.{Cell, blank, TextGrid, new, clear, set_cursor, set_cell, put, ◌>>=◌}
use ferric_k.Video.Font.{Font, parse}

abbrev pub max_cols : ℕ
max_cols = 256

abbrev pub max_rows : ℕ
max_rows = 128

abbrev pub cell_count : ℕ
cell_count = max_cols * max_rows

pub record Console : Type 0 where
  pub cells : List Cell
  pub cols : ℕ
  pub rows : ℕ
  pub cursor_row : ℕ
  pub cursor_col : ℕ
  pub fg : Rgb
  pub bg : Rgb
  pub edit_row : ℕ
  pub edit_col : ℕ
  pub edited_cells : ℕ

unfoldable pub initial : Console
initial = record {
  cells = replicate cell_count (blank (rgb 0xC0 0xC0 0xC0) (rgb 0 0 0));
  cols = 0;
  rows = 0;
  cursor_row = 0;
  cursor_col = 0;
  fg = rgb 0xC0 0xC0 0xC0;
  bg = rgb 0 0 0;
  edit_row = 0;
  edit_col = 0;
  edited_cells = 0;
}

-- `Font::parse(FONT_DATA).expect(..)`
unfoldable pub load : List ℕ → Option Font
load font_data = elim (parse font_data) [
  | done font ↦ some font
  | failed e ↦ none
  | panicked ↦ none
]

-- `a / b`, which panics if `b` is zero.
unfoldable pub quotient : (a b : ℕ) → Option ℕ
quotient a b = if b == 0 then none else some (a / b)

unfoldable pub set_geometry : List ℕ → Console → (fb_width fb_height : ℕ) → Option Console
set_geometry font_data c fb_width fb_height = do
  font ← load font_data
  cols ← quotient fb_width font.width
  rows ← quotient fb_height font.height
  some (record c { cols = cols; rows = rows })

abbrev pub no_geometry : Console → Bool
no_geometry c = (c.cols == 0) || (c.rows == 0)

unfoldable pub put_all : TextGrid → List ℕ → (fg bg : Rgb) → Option TextGrid
put_all g [] fg bg = some g
put_all g (c ∷ s) fg bg = do g' ← put g c fg bg; put_all g' s fg bg

unfoldable pub put_text : Console → List ℕ → Option Console
put_text c s = if no_geometry c then some c else (do
  grid ← new c.cells c.cols c.rows
  g ← put_all (set_cursor grid c.cursor_row c.cursor_col) s c.fg c.bg
  some (record c { cells = g.cells; cursor_row = g.row; cursor_col = g.col }))

unfoldable pub begin_edit : Console → Console
begin_edit c = record c { edit_row = c.cursor_row; edit_col = c.cursor_col; edited_cells = 0 }

-- Blanks so many cells from an index on, up to the end of the grid.
unfoldable pub blank_cells : (n : ℕ) → TextGrid → (index total : ℕ) → Cell → Option TextGrid
blank_cells zero g index total value = some g
blank_cells (suc n) g index total value = if leb total index then some g else (do
  g' ← set_cell g (index / g.cols) (index % g.cols) value
  blank_cells n g' (index + 1) total value)

unfoldable pub edit_origin : Console → Option ℕ
edit_origin c = do first ← fits_in 32 (c.edit_row * c.cols); fits_in 32 (first + c.edit_col)

-- What `set_edit_line` does before it draws: the console, and the count of scrolls.
unfoldable pub edit_cells : Console → (origin : ℕ) → List ℕ → Option (Console × ℕ)
edit_cells c origin s = do
  total ← fits_in 32 (c.rows * c.cols)
  grid ← new c.cells c.cols c.rows
  blanked ← blank_cells c.edited_cells grid origin total (blank c.fg c.bg)
  g ← put_all (set_cursor blanked c.edit_row c.edit_col) s c.fg c.bg
  start ← fits_in 32 (g.row * c.cols)
  end ← fits_in 32 (start + g.col)
  some (
    record c {
      cells = g.cells;
      cursor_row = g.row;
      cursor_col = g.col;
      edited_cells = end - origin;
    },
    g.scroll_count,
  )

unfoldable pub end_edit : Console → Console
end_edit c = record c { edited_cells = 0 }

-- `clear_screen` before it draws.
unfoldable pub clear_cells : Console → Option Console
clear_cells c = do
  grid ← new c.cells c.cols c.rows
  some (record c {
    cells = (clear grid c.fg c.bg).cells;
    cursor_row = 0;
    cursor_col = 0;
    edited_cells = 0;
  })

unfoldable pub put_lines : TextGrid → List (List ℕ) → (fg bg : Rgb) → Option TextGrid
put_lines g [] fg bg = some g
put_lines g (line ∷ lines) fg bg = do
  written ← put_all g line fg bg
  fed ← put written 0x0A fg bg
  put_lines fed lines fg bg

unfoldable pub panic_grid : Console → List (List ℕ) → (fg bg : Rgb) → Option Console
panic_grid c lines fg bg = if no_geometry c then some c else (do
  grid ← new c.cells c.cols c.rows
  g ← put_lines (clear grid fg bg) lines fg bg
  some (record c { cells = g.cells; fg = fg; bg = bg; cursor_row = g.row; cursor_col = g.col }))
