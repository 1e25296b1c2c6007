-- ===== src/Text/Console/Line.antt =====
-- Drawn characters that run on over the rows of a grid, and blanks written over such a run.
use ferric_k.Base.{
  ℕ, zero, suc, ◌+◌, ◌-◌, ◌*◌, ◌/◌, ◌%◌, ◌^◌, ◌<◌, ◌≤◌, ◌≡◌, ◌≢◌, refl, ◌∙◌, false, arith, some,
  List, [], ◌∷◌, leb, length, set, inl, inr, Bool-cases, replicate, min, ◌==◌,
}
use ferric_k.Base.Overlay.{overlay}
use native.Mathlib.Nat.{mod-lt, div-lt_iff_lt-mul, div-add-mod', mul-le-mul_right}
use ferric_k.Api.Keys.{Rgb}
use ferric_k.Text.Grid.{Cell, TextGrid, put}
use ferric_k.Text.Grid.Valid.{Shape, IsShaped, IsValid}
use ferric_k.Text.Grid.Put.{written, put_glyph_lem, set-Shape}
use ferric_k.Text.Console.{put_all, blank_cells}
use ferric_k.Text.Console.Edit.{set_cell_lem}

-- A text whose characters are all drawn.
unfoldable pub AllDrawn : List ℕ → Type 0
AllDrawn [] = Unit
AllDrawn (c ∷ s) = ((c ≢ 0x0A) × (c ≢ 0x0D) × (c ≢ 0x09)) × AllDrawn s

-- The cells of a text.
unfoldable pub cells_of : List ℕ → (fg bg : Rgb) → List Cell
cells_of [] fg bg = []
cells_of (c ∷ s) fg bg = record { glyph = c; fg = fg; bg = bg } ∷ cells_of s fg bg

-- The index of the cell under the cursor.
abbrev pub place : TextGrid → ℕ
place g = g.row * g.cols + g.col

-- The last cell of a row is not the last cell if there is room behind it.
row_below : (r c w h : ℕ) → c + 1 ≡ w → r * w + c + 1 < h * w → r + 1 < h
row_below r c w h full room = elim (Bool-cases (leb h (r + 1))) [
  | inl out ↦
      let le : h * w ≤ (r + 1) * w = mul-le-mul_right w (ground (arith, out)) in
      absurd (omega (arith, le, full, room))
  | inr inside ↦ ground (arith, inside)
]

-- A drawn character with room behind it: no scroll, and the cursor is on the next cell.
record Stepped (g : TextGrid) (c : ℕ) (fg bg : Rgb) : Type 0 where
  next : TextGrid
  returned : put g c fg bg ≡ some next
  valid : IsValid next
  cells_eq : next.cells ≡ set g.cells (place g) (record { glyph = c; fg = fg; bg = bg })
  place_eq : place next ≡ place g + 1
  cols_eq : next.cols ≡ g.cols
  rows_eq : next.rows ≡ g.rows
  scroll_eq : next.scroll_count ≡ g.scroll_count

put-Stepped :
    (g : TextGrid) (c : ℕ) (fg bg : Rgb)
    → IsValid g
    → (c ≢ 0x0A) × (c ≢ 0x0D) × (c ≢ 0x09)
    → place g + 1 < g.rows * g.cols
    → g.scroll_count + 1 < 2 ^ 32
    → Stepped g c fg bg
unfolding put
put-Stepped g c fg bg v plain room few =
    let lf : (c == 0x0A) ≡ false = ground (arith, plain.0) in
    let cr : (c == 0x0D) ≡ false = ground (arith, plain.1) in
    let tab : (c == 0x09) ≡ false = ground (arith, plain.2) in
    let drawn = put_glyph_lem g c fg bg v few in
    let shaped = set-Shape g.cells (place g) (record { glyph = c; fg = fg; bg = bg }) v.shaped in
    elim (Bool-cases (leb g.cols (g.col + 1))) [
      | inl wrap ↦
          (let full : g.col + 1 ≡ g.cols = ground (arith, wrap, v.col_in) in
            let more : leb g.rows (g.row + 1) ≡ false =
              ground (arith, row_below g.row g.col g.cols g.rows full room) in
            record {
              next = record (written g c fg bg) { row = g.row + 1; col = 0 };
              returned = rw (lf, cr, tab, drawn, wrap, more) refl;
              valid = record {
                shaped = shaped;
                row_in = ground (arith, more);
                col_in = v.shaped.cols_pos;
              };
              cells_eq = refl;
              place_eq = omega (arith, full);
              cols_eq = refl;
              rows_eq = refl;
              scroll_eq = refl;
            })
      | inr stay ↦ record {
        next = written g c fg bg;
        returned = rw (lf, cr, tab, drawn, stay) refl;
        valid = record { shaped = shaped; row_in = v.row_in; col_in = ground (arith, stay) };
        cells_eq = refl;
        place_eq = omega arith;
        cols_eq = refl;
        rows_eq = refl;
        scroll_eq = refl;
      }
    ]

-- A text with room behind it stands in the cells from the cursor on.
pub record Drawn (g : TextGrid) (s : List ℕ) (fg bg : Rgb) : Type 0 where
  pub next : TextGrid
  pub returned : put_all g s fg bg ≡ some next
  pub valid : IsValid next
  pub cells_eq : next.cells ≡ overlay g.cells (place g) (cells_of s fg bg)
  pub place_eq : place next ≡ place g + length s
  pub cols_eq : next.cols ≡ g.cols
  pub rows_eq : next.rows ≡ g.rows
  pub scroll_eq : next.scroll_count ≡ g.scroll_count

pub put_all-Drawn :
    (g : TextGrid) (s : List ℕ) (fg bg : Rgb)
    → IsValid g
    → AllDrawn s
    → place g + length s < g.rows * g.cols
    → g.scroll_count + 1 < 2 ^ 32
    → Drawn g s fg bg
unfolding put_all AllDrawn cells_of overlay
put_all-Drawn g [] fg bg v plain room few = record {
  next = g;
  returned = refl;
  valid = v;
  cells_eq = refl;
  place_eq = omega arith;
  cols_eq = refl;
  rows_eq = refl;
  scroll_eq = refl;
}
put_all-Drawn g (c ∷ s) fg bg v plain room few =
    let one = put-Stepped g c fg bg v plain.0 (omega (arith, room)) few in
    let size : one.next.rows * one.next.cols ≡ g.rows * g.cols =
      rw (one.rows_eq, one.cols_eq) refl in
    let rest =
      put_all-Drawn one.next s fg bg one.valid plain.1 (omega (arith, one.place_eq, room, size))
        (omega (arith, one.scroll_eq, few)) in
    record {
      next = rest.next;
      returned = rw one.returned rest.returned;
      valid = rest.valid;
      cells_eq = rest.cells_eq ∙ rw (one.cells_eq, one.place_eq) refl;
      place_eq = omega (arith, rest.place_eq, one.place_eq);
      cols_eq = rest.cols_eq ∙ one.cols_eq;
      rows_eq = rest.rows_eq ∙ one.rows_eq;
      scroll_eq = rest.scroll_eq ∙ one.scroll_eq;
    }

-- The blanks that `blank_cells` writes.
pub record Blanked (g : TextGrid) (n index total : ℕ) (v : Cell) : Type 0 where
  pub cells : List Cell
  pub returned : blank_cells n g index total v ≡ some (record g { cells = cells })
  pub shaped : Shape g.cols g.rows cells
  pub cells_eq : cells ≡ overlay g.cells index (replicate (min n (total - index)) v)

pub blank_cells-Blanked :
    (n : ℕ) (g : TextGrid) (index total : ℕ) (v : Cell)
    → IsShaped g
    → total ≤ g.rows * g.cols
    → Blanked g n index total v
unfolding blank_cells overlay
blank_cells-Blanked zero g index total v shaped le =
    let none_left : min 0 (total - index) ≡ 0 = omega arith in
    record { cells = g.cells; returned = refl; shaped = shaped; cells_eq = rw none_left refl }
blank_cells-Blanked (suc n) g index total v shaped le = elim (Bool-cases (leb total index)) [
  | inl stop ↦
      let none_left : min (suc n) (total - index) ≡ 0 = ground (arith, stop) in
      record {
        cells = g.cells;
        returned = rw stop refl;
        shaped = shaped;
        cells_eq = rw none_left refl;
      }
  | inr go ↦
      (let lt : index < g.rows * g.cols = ground (arith, go, le) in
        let one =
          set_cell_lem g (index / g.cols) (index % g.cols) v shaped
            ((div-lt_iff_lt-mul shaped.cols_pos).1 lt) (mod-lt index shaped.cols_pos) in
        let rest =
          blank_cells-Blanked n (record g { cells = set g.cells index v }) (index + 1) total v
            (set-Shape g.cells index v shaped) le in
        let left : min (suc n) (total - index) ≡ suc (min n (total - (index + 1))) =
          ground (arith, go) in
        record {
          cells = rest.cells;
          returned = rw (go, one, div-add-mod' index g.cols) rest.returned;
          shaped = rest.shaped;
          cells_eq = rest.cells_eq ∙ rw left refl;
        })
]
