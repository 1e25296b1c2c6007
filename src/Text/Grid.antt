-- ===== src/Text/Grid.antt =====
-- `TextGrid` of crates/ferric-safe-core/src/grid.rs: a console over a buffer of cells, with cursor,
-- wrapping and scrolling. `none` is a panic: an index or a slice out of range, or a `u32` overflow,
-- which the debug profile that the kernel is built with checks. A `usize` has 64 bits.
pub mod Valid
pub mod Put
pub mod Tab
pub mod Scroll
use ferric_k.Base.{
  ℕ, zero, suc, ◌+◌, ◌-◌, ◌*◌, ◌/◌, ◌%◌, ◌^◌, min, ◌||◌, Option, none, some, List, [], ◌∷◌, ◌++◌,
  ltb, leb, ◌==◌, if◌then◌else◌, length, get_elem?, set, take, drop, replicate,
}
use ferric_k.Api.Keys.{Rgb, rgb}

pub record Cell : Type 0 where
  pub glyph : ℕ
  pub fg : Rgb
  pub bg : Rgb

abbrev pub blank : Rgb → Rgb → Cell
blank fg bg = record { glyph = 0x20; fg = fg; bg = bg }

abbrev pub tab_width : ℕ
tab_width = 8

pub record TextGrid : Type 0 where
  pub cells : List Cell
  pub cols : ℕ
  pub rows : ℕ
  pub row : ℕ
  pub col : ℕ
  pub default_fg : Rgb
  pub default_bg : Rgb
  pub scroll_count : ℕ

-- The end of an expression that may panic.
infixl 5 ◌>>=◌
abbrev pub ◌>>=◌ {ℓ κ} : {A : Type ℓ} {B : Type κ} → Option A → (A → Option B) → Option B
none >>= f = none
some a >>= f = f a

-- A `u32` sum or product that must not overflow.
unfoldable pub checked_u32 : ℕ → Option ℕ
checked_u32 n = if ltb n (2 ^ 32) then some n else none

-- An assignment through an index that must be in range.
unfoldable pub write {ℓ} : {A : Type ℓ} → List A → ℕ → A → Option (List A)
write l i v = if ltb i (length l) then some (set l i v) else none

-- The refusal of a buffer that is too small is `none` here, as it is in the source.
unfoldable pub new : List Cell → ℕ → ℕ → Option TextGrid
new cells cols rows =
    if ltb (cols * rows) (2 ^ 64)
    then (if cols == 0 || rows == 0 || ltb (length cells) (cols * rows)
        then none
        else some (record {
          cells = cells;
          cols = cols;
          rows = rows;
          row = 0;
          col = 0;
          default_fg = rgb 0xC0 0xC0 0xC0;
          default_bg = rgb 0 0 0;
          scroll_count = 0;
        }))
    else none

unfoldable pub clear : TextGrid → Rgb → Rgb → TextGrid
clear g fg bg = record g {
  cells = replicate (length g.cells) (blank fg bg);
  row = 0;
  col = 0;
  default_fg = fg;
  default_bg = bg;
  scroll_count = 0;
}

-- `saturating_sub` is the subtraction of ℕ.
unfoldable pub set_cursor : TextGrid → ℕ → ℕ → TextGrid
set_cursor g row col = record g { row = min row (g.rows - 1); col = min col (g.cols - 1) }

-- `row * self.cols + col` in `u32`
unfoldable pub index : TextGrid → ℕ → ℕ → Option ℕ
index g row col = do p ← checked_u32 (row * g.cols); checked_u32 (p + col)

-- The outer option is the panic, the inner one the method's result.
unfoldable pub cell : TextGrid → ℕ → ℕ → Option (Option Cell)
cell g row col =
    if leb g.rows row || leb g.cols col
    then some none
    else do i ← index g row col; c ← get_elem? g.cells i; some (some c)

unfoldable pub set_cell : TextGrid → ℕ → ℕ → Cell → Option TextGrid
set_cell g row col value =
    if leb g.rows row || leb g.cols col
    then some g
    else do i ← index g row col; cells ← write g.cells i value; some (record g { cells = cells })

-- `copy_within(cols.., 0)`: the cells from `cols` on move to the front, and the last ones stay.
unfoldable pub copy_down : List Cell → ℕ → Option (List Cell)
copy_down cells cols =
    if leb cols (length cells)
    then some (drop cols cells ++ drop (length cells - cols) cells)
    else none

-- The loop over `cells[start..start + cols]`.
unfoldable pub fill : List Cell → ℕ → ℕ → Cell → Option (List Cell)
fill cells start n v =
    if leb (start + n) (length cells)
    then some (take start cells ++ (replicate n v ++ drop (start + n) cells))
    else none

-- `rows - 1` must not underflow; `scroll_count` must not overflow.
unfoldable pub scroll_up : TextGrid → Option TextGrid
scroll_up g = do
  moved ← copy_down g.cells g.cols
  cells ←
      (if g.rows == 0
        then none
        else fill moved ((g.rows - 1) * g.cols) g.cols (blank g.default_fg g.default_bg))
  n ← checked_u32 (g.scroll_count + 1)
  some (record g { cells = cells; scroll_count = n })

unfoldable pub linefeed : TextGrid → Option TextGrid
linefeed g = do
  below ← checked_u32 (g.row + 1)
  if leb g.rows below
      then scroll_up (record g { col = 0 })
      else some (record g { row = below; col = 0 })

-- The arm of `put` for a character that is drawn.
unfoldable pub put_glyph : TextGrid → ℕ → Rgb → Rgb → Option TextGrid
put_glyph g c fg bg = do
  i ← index g g.row g.col
  cells ← write g.cells i (record { glyph = c; fg = fg; bg = bg })
  right ← checked_u32 (g.col + 1)
  let g' = record g { cells = cells; col = right }
  if leb g.cols right then linefeed g' else some g'

-- `\n` is 0x0A, `\r` is 0x0D and `\t` is 0x09.
unfoldable pub put : TextGrid → ℕ → Rgb → Rgb → Option TextGrid
put g c fg bg =
    if c == 0x0A
    then linefeed g
    else if c == 0x0D
    then some (record g { col = 0 })
    else if c == 0x09
    then (do
      next ← checked_u32 ((g.col / tab_width + 1) * tab_width)
      some (record g { col = min next g.cols }))
    else put_glyph g c fg bg

-- The writes of `set_text`: the characters at columns `col`, `col + 1`, …, at most `room` of them.
unfoldable pub write_row : TextGrid → ℕ → ℕ → ℕ → List ℕ → Rgb → Rgb → Option TextGrid
write_row g row col zero s fg bg = some g
write_row g row col (suc room) [] fg bg = some g
write_row g row col (suc room) (c ∷ cs) fg bg = do
  i ← index g row col
  cells ← write g.cells i (record { glyph = c; fg = fg; bg = bg })
  write_row (record g { cells = cells }) row (suc col) room cs fg bg

-- The count of characters is cut to 32 bits.
unfoldable pub set_text : TextGrid → ℕ → List ℕ → Rgb → Rgb → Option TextGrid
unfolding write_row set_cursor
set_text g row s fg bg = do
  let r = min row (g.rows - 1)
  g' ← write_row g r 0 g.cols s fg bg
  some (set_cursor g' r (min (length s % 2 ^ 32) g.cols))
