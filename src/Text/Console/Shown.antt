-- ===== src/Text/Console/Shown.antt =====
-- What the console shows of an edited line that does not reach the end of the grid.
use ferric_k.Base.{
  ℕ, zero, suc, ◌+◌, ◌-◌, ◌*◌, ◌<◌, ◌≤◌, ◌≡◌, refl, subst, ◌∙◌, ap, arith, some, List, [], ◌∷◌,
  length, get_elem?, get_or, replicate, length-replicate, get_elem?-replicate, min,
}
use ferric_k.Base.Overlay.{
  overlay, length-overlay, get_elem?-overlay_before, get_elem?-overlay_behind,
  get_elem?-overlay_inside,
}
use ferric_k.Base.Checked.{fits_in, fits_in_small}
use ferric_k.Api.Keys.{Rgb}
use ferric_k.Text.Grid.{Cell, blank, set_cursor}
use ferric_k.Text.Console.{Console, edit_cells}
use ferric_k.Text.Console.Valid.{Fits, IsPlaced, fresh, fresh_lem, fresh-Shape, set_cursor-IsValid}
use ferric_k.Text.Console.Line.{AllDrawn, cells_of, place, put_all-Drawn, blank_cells-Blanked}

-- The index of the cell that the edited line starts at.
abbrev pub origin_of : Console → ℕ
origin_of c = c.edit_row * c.cols + c.edit_col

-- The edited line and the blanks behind it.
abbrev pub repainted : Console → List ℕ → List Cell
repainted c s =
    overlay
      (overlay c.cells (origin_of c)
        (replicate (min c.edited_cells (c.rows * c.cols - origin_of c)) (blank c.fg c.bg)))
      (origin_of c) (cells_of s c.fg c.bg)

record Painted (c : Console) (s : List ℕ) : Type 0 where
  next : Console
  returned : edit_cells c (origin_of c) s ≡ some (next, 0)
  placed : IsPlaced next
  cells_eq : next.cells ≡ repainted c s
  cursor_eq : next.cursor_row * c.cols + next.cursor_col ≡ origin_of c + length s
  count_eq : next.edited_cells ≡ length s
  frame :
      record next {
        cells = c.cells;
        cursor_row = c.cursor_row;
        cursor_col = c.cursor_col;
        edited_cells = c.edited_cells;
      }
      ≡ c

edit_cells-Painted :
    (c : Console) (s : List ℕ)
    → Fits c
    → c.edit_row < c.rows
    → c.edit_col < c.cols
    → AllDrawn s
    → origin_of c + length s < c.rows * c.cols
    → Painted c s
unfolding edit_cells set_cursor
edit_cells-Painted c s f in_rows in_cols plain room =
    let comm : c.rows * c.cols ≡ c.cols * c.rows = omega arith in
    let fit : (n : ℕ) → n ≤ c.rows * c.cols → fits_in 32 n ≡ some n =
      λ n le. fits_in_small 32 n (omega (arith, le, comm, f.within)) in
    let b =
      blank_cells-Blanked c.edited_cells (fresh c) (origin_of c) (c.rows * c.cols) (blank c.fg c.bg)
        (fresh-Shape c f) (omega arith) in
    let g = record (fresh c) { cells = b.cells } in
    let start = set_cursor g c.edit_row c.edit_col in
    let valid = set_cursor-IsValid g c.edit_row c.edit_col b.shaped in
    let row_eq : min c.edit_row (c.rows - 1) ≡ c.edit_row = omega (arith, in_rows) in
    let col_eq : min c.edit_col (c.cols - 1) ≡ c.edit_col = omega (arith, in_cols) in
    let there : start.row * c.cols + start.col ≡ origin_of c = rw (row_eq, col_eq) refl in
    let d =
      put_all-Drawn start s c.fg c.bg valid plain (omega (arith, there, room)) (omega arith) in
    let ended : d.next.row * c.cols + d.next.col ≡ origin_of c + length s =
      subst (λ w. d.next.row * w + d.next.col ≡ origin_of c + length s) d.cols_eq
        (d.place_eq ∙ ap (λ p. p + length s) there) in
    let row_in : d.next.row < c.rows = omega (arith, d.valid.row_in, d.rows_eq) in
    let col_in : d.next.col < c.cols = omega (arith, d.valid.col_in, d.cols_eq) in
    record {
      next = record c {
        cells = d.next.cells;
        cursor_row = d.next.row;
        cursor_col = d.next.col;
        edited_cells = d.next.row * c.cols + d.next.col - origin_of c;
      };
      returned =
          rw
            (
              fit (c.rows * c.cols) (omega arith),
              fresh_lem c f,
              b.returned,
              d.returned,
              fit (d.next.row * c.cols) (omega (arith, ended, room)),
              fit (d.next.row * c.cols + d.next.col) (omega (arith, ended, room)),
              d.scroll_eq,
            )
            refl;
      placed = record {
        fits = record {
          cols_pos = f.cols_pos;
          rows_pos = f.rows_pos;
          within = f.within;
          buffer =
              ap length d.cells_eq
              ∙ length-overlay b.cells (place start) (cells_of s c.fg c.bg)
              ∙ ap length b.cells_eq
              ∙ length-overlay c.cells (origin_of c)
                  (replicate (min c.edited_cells (c.rows * c.cols - origin_of c)) (blank c.fg c.bg))
              ∙ f.buffer;
        };
        row_in = row_in;
        col_in = col_in;
      };
      cells_eq = d.cells_eq ∙ rw (b.cells_eq, there) refl;
      cursor_eq = ended;
      count_eq = omega (arith, ended);
      frame = refl;
    }

pub length-cells_of : (s : List ℕ) (fg bg : Rgb) → length (cells_of s fg bg) ≡ length s
unfolding cells_of
length-cells_of [] fg bg = refl
length-cells_of (c ∷ s) fg bg = ap suc (length-cells_of s fg bg)

pub get_elem?-cells_of :
    (s : List ℕ) (fg bg : Rgb) (i : ℕ)
    → i < length s
    → get_elem? (cells_of s fg bg) i ≡ some (record { glyph = get_or s i 0x20; fg = fg; bg = bg })
unfolding cells_of
get_elem?-cells_of [] fg bg i lt = absurd (omega (arith, lt))
get_elem?-cells_of (c ∷ s) fg bg zero lt = refl
get_elem?-cells_of (c ∷ s) fg bg (suc i) lt = get_elem?-cells_of s fg bg i (omega (arith, lt))

-- A console that shows an edited line, beside one before it.
pub record Shown (c : Console) (s : List ℕ) : Type 0 where
  pub next : Console
  pub returned : edit_cells c (origin_of c) s ≡ some (next, 0)
  pub placed : IsPlaced next
  pub cells_eq : next.cells ≡ repainted c s
  pub cursor_eq : next.cursor_row * c.cols + next.cursor_col ≡ origin_of c + length s
  pub count_eq : next.edited_cells ≡ length s
  pub frame :
      record next {
        cells = c.cells;
        cursor_row = c.cursor_row;
        cursor_col = c.cursor_col;
        edited_cells = c.edited_cells;
      }
      ≡ c
  pub line :
      (i : ℕ)
      → i < length s
      → get_elem? next.cells (origin_of c + i)
        ≡ some (record { glyph = get_or s i 0x20; fg = c.fg; bg = c.bg })
  pub erased :
      (i : ℕ)
      → length s ≤ i
      → i < c.edited_cells
      → origin_of c + i < c.rows * c.cols
      → get_elem? next.cells (origin_of c + i) ≡ some (blank c.fg c.bg)
  pub before : (i : ℕ) → i < origin_of c → get_elem? next.cells i ≡ get_elem? c.cells i
  pub behind :
      (i : ℕ)
      → origin_of c + length s ≤ i
      → origin_of c + c.edited_cells ≤ i
      → get_elem? next.cells i ≡ get_elem? c.cells i

-- Editing a line of drawn characters that ends before the last cell does not scroll. The cells from the
-- origin on then show the line; those of the line before it that are behind its end are blank; no other
-- cell has changed; and the cursor stands behind the line.
pub edit_cells-Shown :
    (c : Console) (s : List ℕ)
    → Fits c
    → c.edit_row < c.rows
    → c.edit_col < c.cols
    → AllDrawn s
    → origin_of c + length s < c.rows * c.cols
    → Shown c s
edit_cells-Shown c s f in_rows in_cols plain room =
    let p = edit_cells-Painted c s f in_rows in_cols plain room in
    let o = origin_of c in
    let n = min c.edited_cells (c.rows * c.cols - o) in
    let b = blank c.fg c.bg in
    let spaces = replicate n b in
    let under = overlay c.cells o spaces in
    let text = cells_of s c.fg c.bg in
    let size = length-cells_of s c.fg c.bg in
    let comm : c.rows * c.cols ≡ c.cols * c.rows = omega arith in
    let all : length under ≡ length c.cells = length-overlay c.cells o spaces in
    let same : (i : ℕ) → get_elem? p.next.cells i ≡ get_elem? (overlay under o text) i =
      λ i. ap (λ l. get_elem? l i) p.cells_eq in
    record {
      next = p.next;
      returned = p.returned;
      placed = p.placed;
      cells_eq = p.cells_eq;
      cursor_eq = p.cursor_eq;
      count_eq = p.count_eq;
      frame = p.frame;
      line = λ i lt.
          same (o + i)
          ∙ get_elem?-overlay_inside under o text i (o + i) refl (omega (arith, lt, size))
              (omega (arith, size, room, all, f.buffer, f.within, comm))
          ∙ get_elem?-cells_of s c.fg c.bg i lt;
      erased = λ i ge lt inside.
          same (o + i)
          ∙ get_elem?-overlay_behind under o text (o + i) (omega (arith, ge, size))
          ∙ get_elem?-overlay_inside c.cells o spaces i (o + i) refl
              (omega (arith, lt, inside, length-replicate n b))
              (omega (arith, length-replicate n b, f.buffer, f.within, comm, inside))
          ∙ get_elem?-replicate n b i (omega (arith, lt, inside));
      before = λ i lt.
          same i
          ∙ get_elem?-overlay_before under o text i lt
          ∙ get_elem?-overlay_before c.cells o spaces i lt;
      behind = λ i ge past.
          same i
          ∙ get_elem?-overlay_behind under o text i (omega (arith, ge, size))
          ∙ get_elem?-overlay_behind c.cells o spaces i (omega (arith, past, length-replicate n b));
    }
