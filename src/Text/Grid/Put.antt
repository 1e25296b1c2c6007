-- ===== src/Text/Grid/Put.antt =====
-- `TextGrid::put` of grid.rs on a valid grid.
use ferric_k.Base.{
  ℕ, ◌+◌, ◌*◌, ◌^◌, ◌<◌, ◌≤◌, ◌≡◌, ◌≢◌, refl, ◌∙◌, Bool, true, false, arith, Option, some, List,
  leb, ◌==◌, if◌then◌else◌, length, set, length-set, inl, inr, Bool-cases,
}
use ferric_k.Api.Keys.{Rgb}
use ferric_k.Text.Grid.{Cell, TextGrid, linefeed, put_glyph, put}
use ferric_k.Text.Grid.Valid.{
  Shape, IsShaped, IsValid, cell_in_range, checked_u32_lem, index_lem, write_lem, scrolled,
  scroll_up_lem, scrolled-Shape, length-scrolled,
}

-- The grid after `linefeed`: the next row, or the last one of a scrolled grid.
abbrev pub fed : TextGrid → TextGrid
fed g =
    if leb g.rows (g.row + 1)
    then record g { cells = scrolled g; col = 0; scroll_count = g.scroll_count + 1 }
    else record g { row = g.row + 1; col = 0 }

pub linefeed_lem :
    (g : TextGrid)
    → IsShaped g
    → g.row < g.rows
    → g.scroll_count + 1 < 2 ^ 32
    → linefeed g ≡ some (fed g)
unfolding linefeed
linefeed_lem g v hr h = elim (Bool-cases (leb g.rows (g.row + 1))) [
  | inl last ↦
      rw (checked_u32_lem (g.row + 1) (omega (arith, v.rows_u32)), last)
        (scroll_up_lem (record g { col = 0 }) v h)
  | inr more ↦ rw (checked_u32_lem (g.row + 1) (omega (arith, v.rows_u32)), more)
]

pub fed-IsValid : (g : TextGrid) → IsShaped g → g.row < g.rows → IsValid (fed g)
fed-IsValid g v hr = elim (Bool-cases (leb g.rows (g.row + 1))) [
  | inl last ↦ rw last (record { shaped = scrolled-Shape g v; row_in = hr; col_in = v.cols_pos })
  | inr more ↦ rw more (record { shaped = v; row_in = ground (arith, more); col_in = v.cols_pos })
]

-- The grid with a cell written and the cursor moved on.
abbrev pub written : TextGrid → ℕ → Rgb → Rgb → TextGrid
written g c fg bg = record g {
  cells = set g.cells (g.row * g.cols + g.col) (record { glyph = c; fg = fg; bg = bg });
  col = g.col + 1;
}

pub set-Shape :
    {cols rows : ℕ} (cells : List Cell) (i : ℕ) (v : Cell)
    → Shape cols rows cells
    → Shape cols rows (set cells i v)
set-Shape cells i v s = record {
  cols_pos = s.cols_pos;
  rows_pos = s.rows_pos;
  fits = rw (length-set cells i v) s.fits;
  small = s.small;
  cols_u32 = s.cols_u32;
  rows_u32 = s.rows_u32;
}

-- The grid after a drawn character.
abbrev pub advanced : TextGrid → ℕ → Rgb → Rgb → TextGrid
advanced g c fg bg = if leb g.cols (g.col + 1) then fed (written g c fg bg) else written g c fg bg

some-if {ℓ} :
    {A : Type ℓ} (b : Bool) (o : Option A) (x y : A)
    → o ≡ some x
    → (if b then o else some y) ≡ some (if b then x else y)
some-if true o x y e = e
some-if false o x y e = refl

pub put_glyph_lem :
    (g : TextGrid) (c : ℕ) (fg bg : Rgb)
    → IsValid g
    → g.scroll_count + 1 < 2 ^ 32
    → put_glyph g c fg bg ≡ some (advanced g c fg bg)
unfolding put_glyph
put_glyph_lem g c fg bg v h =
    let inside = cell_in_range g.row g.col g.cols g.rows v.row_in v.col_in in
    let i = g.row * g.cols + g.col in
    rw
      (
        index_lem g g.row g.col v.shaped v.row_in v.col_in,
        write_lem g.cells i (record { glyph = c; fg = fg; bg = bg }) (omega (arith, v.shaped.fits)),
        checked_u32_lem (g.col + 1) (omega (arith, v.shaped.cols_u32, v.col_in)),
      )
      (some-if (leb g.cols (g.col + 1)) _ _ _
        (linefeed_lem (written g c fg bg) (set-Shape g.cells i _ v.shaped) v.row_in h))

advanced-IsValid : (g : TextGrid) (c : ℕ) (fg bg : Rgb) → IsValid g → IsValid (advanced g c fg bg)
advanced-IsValid g c fg bg v = elim (Bool-cases (leb g.cols (g.col + 1))) [
  | inl wrap ↦ rw wrap (fed-IsValid (written g c fg bg) (set-Shape g.cells _ _ v.shaped) v.row_in)
  | inr stay ↦ rw stay (record {
    shaped = set-Shape g.cells _ _ v.shaped;
    row_in = v.row_in;
    col_in = ground (arith, stay);
  })
]

-- A call that does not panic, leaves a valid grid of the same size, and counts at most one scroll.
pub record Kept (g : TextGrid) (result : Option TextGrid) : Type 0 where
  pub next : TextGrid
  pub returned : result ≡ some next
  pub valid : IsValid next
  pub same_cols : next.cols ≡ g.cols
  pub same_rows : next.rows ≡ g.rows
  pub same_buffer : length next.cells ≡ length g.cells
  pub scrolls : next.scroll_count ≤ g.scroll_count + 1

record Sized (g h : TextGrid) : Type 0 where
  cols_eq : h.cols ≡ g.cols
  rows_eq : h.rows ≡ g.rows
  buffer_eq : length h.cells ≡ length g.cells
  scroll_le : h.scroll_count ≤ g.scroll_count + 1

fed-Sized : (g : TextGrid) → IsShaped g → Sized g (fed g)
fed-Sized g v = elim (Bool-cases (leb g.rows (g.row + 1))) [
  | inl last ↦ rw last (record {
    cols_eq = refl;
    rows_eq = refl;
    buffer_eq = length-scrolled g v;
    scroll_le = omega arith;
  })
  | inr more ↦
      rw more (record { cols_eq = refl; rows_eq = refl; buffer_eq = refl; scroll_le = omega arith })
]

advanced-Sized : (g : TextGrid) (c : ℕ) (fg bg : Rgb) → IsValid g → Sized g (advanced g c fg bg)
advanced-Sized g c fg bg v = elim (Bool-cases (leb g.cols (g.col + 1))) [
  | inl wrap ↦
      let w = written g c fg bg in
      let sized = fed-Sized w (set-Shape g.cells _ _ v.shaped) in
      rw wrap (record {
        cols_eq = sized.cols_eq;
        rows_eq = sized.rows_eq;
        buffer_eq = sized.buffer_eq ∙ length-set g.cells _ _;
        scroll_le = sized.scroll_le;
      })
  | inr stay ↦ rw stay (record {
    cols_eq = refl;
    rows_eq = refl;
    buffer_eq = length-set g.cells _ _;
    scroll_le = omega arith;
  })
]

kept : {g h : TextGrid} {r : Option TextGrid} → r ≡ some h → IsValid h → Sized g h → Kept g r
kept {h} e v s = record {
  next = h;
  returned = e;
  valid = v;
  same_cols = s.cols_eq;
  same_rows = s.rows_eq;
  same_buffer = s.buffer_eq;
  scrolls = s.scroll_le;
}

-- On a valid grid `put` of any character but a tab does not panic, if fewer than 2^32 - 1 scrolls
-- were counted; it keeps the cursor inside the grid, and the grid's size; it counts at most one scroll.
pub put-Kept :
    (g : TextGrid) (c : ℕ) (fg bg : Rgb)
    → IsValid g
    → c ≢ 0x09
    → g.scroll_count + 1 < 2 ^ 32
    → Kept g (put g c fg bg)
unfolding put
put-Kept g c fg bg v n h = elim (Bool-cases (c == 0x0A)) [
  | inl lf ↦ rw lf (
      kept (linefeed_lem g v.shaped v.row_in h) (fed-IsValid g v.shaped v.row_in)
        (fed-Sized g v.shaped))
  | inr lf ↦ elim (Bool-cases (c == 0x0D)) [
    | inl cr ↦
        rw (lf, cr)
          (kept refl (record { shaped = v.shaped; row_in = v.row_in; col_in = v.shaped.cols_pos })
            (record { cols_eq = refl; rows_eq = refl; buffer_eq = refl; scroll_le = omega arith }))
    | inr cr ↦
        let no_tab : (c == 0x09) ≡ false = ground arith in
        rw (lf, cr, no_tab)
          (kept (put_glyph_lem g c fg bg v h) (advanced-IsValid g c fg bg v)
            (advanced-Sized g c fg bg v))
  ]
]
