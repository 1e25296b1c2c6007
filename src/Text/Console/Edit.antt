-- ===== src/Text/Console/Edit.antt =====
-- The edited line of the console: `set_edit_line` before it draws.
use ferric_k.Base.{
  ℕ, zero, suc, ◌+◌, ◌-◌, ◌*◌, ◌/◌, ◌%◌, ◌^◌, ◌<◌, ◌≤◌, ◌≡◌, refl, ◌∙◌, false, arith, Option, some,
  List, leb, length, length-set, set, inl, inr, Bool-cases,
}
use native.Mathlib.Nat.{mod-lt, div-lt_iff_lt-mul}
use ferric_k.Base.Checked.{fits_in, fits_in_small}
use ferric_k.Text.Grid.{Cell, TextGrid, blank, set_cell, set_cursor}
use ferric_k.Text.Grid.Valid.{Shape, IsShaped, index_lem, write_lem, cell_in_range}
use ferric_k.Text.Grid.Put.{set-Shape}
use ferric_k.Text.Console.{Console, blank_cells, edit_origin, edit_cells}
use ferric_k.Text.Console.Valid.{
  NoTab, Fits, IsPlaced, fresh, fresh_lem, fresh-Shape, put_all-Written, set_cursor-IsValid,
}

pub set_cell_lem :
    (g : TextGrid) (r c : ℕ) (v : Cell)
    → IsShaped g
    → r < g.rows
    → c < g.cols
    → set_cell g r c v ≡ some (record g { cells = set g.cells (r * g.cols + c) v })
unfolding set_cell
set_cell_lem g r c v shaped in_rows in_cols =
    let inside : r * g.cols + c < length g.cells =
      omega (arith, cell_in_range r c g.cols g.rows in_rows in_cols, shaped.fits) in
    let a : leb g.rows r ≡ false = ground (arith, in_rows) in
    let b : leb g.cols c ≡ false = ground (arith, in_cols) in
    rw (a, b, index_lem g r c shaped in_rows in_cols, write_lem g.cells (r * g.cols + c) v inside)
      refl

-- A loop that only changes cells.
pub record Recolored (g : TextGrid) (result : Option TextGrid) : Type 0 where
  pub cells : List Cell
  pub returned : result ≡ some (record g { cells = cells })
  pub shaped : Shape g.cols g.rows cells
  pub same_buffer : length cells ≡ length g.cells

pub blank_cells-Recolored :
    (n : ℕ) (g : TextGrid) (index total : ℕ) (v : Cell)
    → IsShaped g
    → total ≤ g.rows * g.cols
    → Recolored g (blank_cells n g index total v)
unfolding blank_cells
blank_cells-Recolored zero g index total v shaped le = record {
  cells = g.cells;
  returned = refl;
  shaped = shaped;
  same_buffer = refl;
}
blank_cells-Recolored (suc n) g index total v shaped le = elim (Bool-cases (leb total index)) [
  | inl stop ↦
      rw stop (record { cells = g.cells; returned = refl; shaped = shaped; same_buffer = refl })
  | inr go ↦
      (let row = index / g.cols in
        let col = index % g.cols in
        let lt : index < g.rows * g.cols = ground (arith, go, le) in
        let one =
          set_cell_lem g row col v shaped ((div-lt_iff_lt-mul shaped.cols_pos).1 lt)
            (mod-lt index shaped.cols_pos) in
        let i = row * g.cols + col in
        let rest =
          blank_cells-Recolored n (record g { cells = set g.cells i v }) (index + 1) total v
            (set-Shape g.cells i v shaped) le in
        rw (go, one)
          (record {
            cells = rest.cells;
            returned = rest.returned;
            shaped = rest.shaped;
            same_buffer = rest.same_buffer ∙ length-set g.cells i v;
          }))
]

-- The edited line, drawn into the grid.
pub record Edited (c : Console) (s : List ℕ) : Type 0 where
  pub next : Console
  pub scrolled : ℕ
  pub origin : edit_origin c ≡ some (c.edit_row * c.cols + c.edit_col)
  pub returned : edit_cells c (c.edit_row * c.cols + c.edit_col) s ≡ some (next, scrolled)
  pub placed : IsPlaced next
  pub few_scrolls : scrolled ≤ length s
  pub reaches :
      next.edited_cells
      ≡ next.cursor_row * c.cols + next.cursor_col - (c.edit_row * c.cols + c.edit_col)

-- Editing a line whose origin lies in the grid, with a text without a tab, does not panic, and it
-- leaves the cursor in the grid. There is at most one scroll for each character, and the count of
-- edited cells runs from the origin as it was before any scroll to the cursor.
pub edit_cells-Edited :
    (c : Console) (s : List ℕ)
    → Fits c
    → c.edit_row < c.rows
    → c.edit_col < c.cols
    → NoTab s
    → length s < 2 ^ 32
    → Edited c s
unfolding edit_origin edit_cells set_cursor
edit_cells-Edited c s f in_rows in_cols plain few =
    let comm : c.rows * c.cols ≡ c.cols * c.rows = omega arith in
    let inside : c.edit_row * c.cols + c.edit_col < c.rows * c.cols =
      cell_in_range c.edit_row c.edit_col c.cols c.rows in_rows in_cols in
    let fit : (n : ℕ) → n ≤ c.rows * c.cols → fits_in 32 n ≡ some n =
      λ n le. fits_in_small 32 n (omega (arith, le, comm, f.within)) in
    let blanked =
      blank_cells-Recolored c.edited_cells (fresh c) (c.edit_row * c.cols + c.edit_col)
        (c.rows * c.cols) (blank c.fg c.bg) (fresh-Shape c f) (omega arith) in
    let g = record (fresh c) { cells = blanked.cells } in
    let w =
      put_all-Written (set_cursor g c.edit_row c.edit_col) s c.fg c.bg
        (set_cursor-IsValid g c.edit_row c.edit_col blanked.shaped) plain (omega (arith, few)) in
    let row_in : w.next.row < c.rows = omega (arith, w.valid.row_in, w.same_rows) in
    let col_in : w.next.col < c.cols = omega (arith, w.valid.col_in, w.same_cols) in
    let there : w.next.row * c.cols + w.next.col < c.rows * c.cols =
      cell_in_range w.next.row w.next.col c.cols c.rows row_in col_in in
    record {
      next = record c {
        cells = w.next.cells;
        cursor_row = w.next.row;
        cursor_col = w.next.col;
        edited_cells = w.next.row * c.cols + w.next.col - (c.edit_row * c.cols + c.edit_col);
      };
      scrolled = w.next.scroll_count;
      origin =
          rw
            (
              fit (c.edit_row * c.cols) (omega (arith, inside)),
              fit (c.edit_row * c.cols + c.edit_col) (omega (arith, inside)),
            )
            refl;
      returned =
          rw
            (
              fit (c.rows * c.cols) (omega arith),
              fresh_lem c f,
              blanked.returned,
              w.returned,
              fit (w.next.row * c.cols) (omega (arith, there)),
              fit (w.next.row * c.cols + w.next.col) (omega (arith, there)),
            )
            refl;
      placed = record {
        fits = record {
          cols_pos = f.cols_pos;
          rows_pos = f.rows_pos;
          within = f.within;
          buffer = w.same_buffer ∙ blanked.same_buffer ∙ f.buffer;
        };
        row_in = row_in;
        col_in = col_in;
      };
      few_scrolls = omega (arith, w.scrolls);
      reaches = refl;
    }
