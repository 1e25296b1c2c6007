-- ===== src/Text/Console/Valid.antt =====
-- The console's writes keep its cursor in its grid.
use ferric_k.Base.{
  ℕ, ◌+◌, ◌*◌, ◌^◌, ◌<◌, ◌≤◌, ◌≡◌, ◌≢◌, refl, ◌∙◌, true, false, arith, Option, some, List, [], ◌∷◌,
  ltb, ◌==◌, length,
}
use ferric_k.Api.Keys.{Rgb}
use ferric_k.Text.Grid.{TextGrid, new, set_cursor}
use ferric_k.Text.Grid.Valid.{IsShaped, IsValid}
use ferric_k.Text.Grid.Put.{put-Kept}
use ferric_k.Text.Console.{Console, cell_count, no_geometry, put_all, put_text}

-- A text without a tab.
unfoldable pub NoTab : List ℕ → Type 0
NoTab [] = Unit
NoTab (c ∷ s) = (c ≢ 0x09) × NoTab s

-- A console whose grid fits its buffer.
pub record Fits (c : Console) : Type 0 where
  pub cols_pos : 0 < c.cols
  pub rows_pos : 0 < c.rows
  pub within : c.cols * c.rows ≤ cell_count
  pub buffer : length c.cells ≡ cell_count

-- And whose cursor stands in the grid.
pub record IsPlaced (c : Console) : Type 0 where
  pub fits : Fits c
  pub row_in : c.cursor_row < c.rows
  pub col_in : c.cursor_col < c.cols

abbrev pub fresh : Console → TextGrid
fresh c = record {
  cells = c.cells;
  cols = c.cols;
  rows = c.rows;
  row = 0;
  col = 0;
  default_fg = record { r = 0xC0; g = 0xC0; b = 0xC0 };
  default_bg = record { r = 0; g = 0; b = 0 };
  scroll_count = 0;
}

pub fresh_lem : (c : Console) → Fits c → new c.cells c.cols c.rows ≡ some (fresh c)
unfolding new
fresh_lem c f =
    let nonzero : (n : ℕ) → 0 < n → (n == 0) ≡ false = λ n p. ground (arith, p) in
    let a : ltb (c.cols * c.rows) (2 ^ 64) ≡ true = ground (arith, f.within) in
    let b : ltb (length c.cells) (c.cols * c.rows) ≡ false = ground (arith, f.within, f.buffer) in
    rw (a, nonzero c.cols f.cols_pos, nonzero c.rows f.rows_pos, b) refl

factor_le : (a b : ℕ) → 0 < b → a ≤ a * b
factor_le a b pos = grind arith

pub fresh-Shape : (c : Console) → Fits c → IsShaped (fresh c)
fresh-Shape c f = record {
  cols_pos = f.cols_pos;
  rows_pos = f.rows_pos;
  fits = omega (arith, f.within, f.buffer);
  small = omega (arith, f.within);
  cols_u32 = omega (arith, factor_le c.cols c.rows f.rows_pos, f.within);
  rows_u32 = omega (arith, factor_le c.rows c.cols f.cols_pos, f.within);
}

-- Every character of a text put on a valid grid.
pub record Written (g : TextGrid) (n : ℕ) (result : Option TextGrid) : Type 0 where
  pub next : TextGrid
  pub returned : result ≡ some next
  pub valid : IsValid next
  pub same_cols : next.cols ≡ g.cols
  pub same_rows : next.rows ≡ g.rows
  pub same_buffer : length next.cells ≡ length g.cells
  pub scrolls : next.scroll_count ≤ g.scroll_count + n

pub put_all-Written :
    (g : TextGrid) (s : List ℕ) (fg bg : Rgb)
    → IsValid g
    → NoTab s
    → g.scroll_count + length s < 2 ^ 32
    → Written g (length s) (put_all g s fg bg)
unfolding put_all NoTab
put_all-Written g [] fg bg v plain few = record {
  next = g;
  returned = refl;
  valid = v;
  same_cols = refl;
  same_rows = refl;
  same_buffer = refl;
  scrolls = omega arith;
}
put_all-Written g (c ∷ s) fg bg v plain few =
    let k = put-Kept g c fg bg v plain.0 (omega (arith, few)) in
    let w = put_all-Written k.next s fg bg k.valid plain.1 (omega (arith, few, k.scrolls)) in
    record {
      next = w.next;
      returned = rw k.returned w.returned;
      valid = w.valid;
      same_cols = w.same_cols ∙ k.same_cols;
      same_rows = w.same_rows ∙ k.same_rows;
      same_buffer = w.same_buffer ∙ k.same_buffer;
      scrolls = omega (arith, w.scrolls, k.scrolls);
    }

pub set_cursor-IsValid : (g : TextGrid) (row col : ℕ) → IsShaped g → IsValid (set_cursor g row col)
unfolding set_cursor
set_cursor-IsValid g row col v = record {
  shaped = v;
  row_in = omega (arith, v.rows_pos);
  col_in = omega (arith, v.cols_pos);
}

pub has_geometry : (c : Console) → 0 < c.cols → 0 < c.rows → no_geometry c ≡ false
has_geometry c p q = ground (arith, p, q)

-- A write that succeeds, leaves the cursor in the grid, and keeps the grid's size.
pub record Placed (c : Console) (result : Option Console) : Type 0 where
  pub next : Console
  pub returned : result ≡ some next
  pub placed : IsPlaced next
  pub same_cols : next.cols ≡ c.cols
  pub same_rows : next.rows ≡ c.rows

-- In a console whose grid is not empty and fits its buffer, a text of fewer than 2^32 characters and
-- without a tab is put without a panic, wherever the cursor stands; the cursor then stands in the grid,
-- and the grid has the size it had.
pub put_text-Placed :
    (c : Console) (s : List ℕ) → Fits c → NoTab s → length s < 2 ^ 32 → Placed c (put_text c s)
unfolding put_text set_cursor
put_text-Placed c s f plain few =
    let start = set_cursor (fresh c) c.cursor_row c.cursor_col in
    let valid = set_cursor-IsValid (fresh c) c.cursor_row c.cursor_col (fresh-Shape c f) in
    let w = put_all-Written start s c.fg c.bg valid plain (omega (arith, few)) in
    record {
      next = record c { cells = w.next.cells; cursor_row = w.next.row; cursor_col = w.next.col };
      returned = rw (has_geometry c f.cols_pos f.rows_pos, fresh_lem c f, w.returned) refl;
      placed = record {
        fits = record {
          cols_pos = f.cols_pos;
          rows_pos = f.rows_pos;
          within = f.within;
          buffer = w.same_buffer ∙ f.buffer;
        };
        row_in = omega (arith, w.valid.row_in, w.same_rows);
        col_in = omega (arith, w.valid.col_in, w.same_cols);
      };
      same_cols = refl;
      same_rows = refl;
    }
