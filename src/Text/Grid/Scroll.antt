-- ===== src/Text/Grid/Scroll.antt =====
-- What `scroll_up` of grid.rs does to the cells.
use ferric_k.Base.{
  ℕ, suc, ◌+◌, ◌-◌, ◌*◌, ◌^◌, ◌≤◌, ◌<◌, ◌≡◌, ap, ◌∙◌, arith, Option, some, List, ◌++◌, length,
  get_elem?, Bool-cases, inl, inr, ◌==◌, if◌then◌else◌, take, drop, replicate, length-take,
  length-drop, length-replicate, get_elem?-append_left, get_elem?-append_right, get_elem?-take,
  get_elem?-drop, get_elem?-replicate,
}
use ferric_k.Text.Grid.{Cell, blank, TextGrid, ◌>>=◌, scroll_up}
use ferric_k.Text.Grid.Valid.{
  IsShaped, cell_in_range, scrolled, scroll_up_lem, length-copied, last_row,
}

-- The cell at a row and a column.
abbrev pub at : TextGrid → ℕ → ℕ → Option Cell
at g r c = get_elem? g.cells (r * g.cols + c)

-- What a cell of the grid is to show after one scroll: the cell below it, or a blank in the last row.
abbrev pub below : TextGrid → ℕ → ℕ → Option Cell
below g r c = if suc r == g.rows then some (blank g.default_fg g.default_bg) else at g (suc r) c

module _ (g : TextGrid) (v : IsShaped g) where
  abbrev moved_cells : List Cell
  moved_cells = drop g.cols g.cells ++ drop (length g.cells - g.cols) g.cells

  abbrev start : ℕ
  start = (g.rows - 1) * g.cols

  wide : g.cols ≤ length g.cells
  wide = grind (arith, v.fits, v.rows_pos)

  length-top : length (take start moved_cells) ≡ start
  length-top = omega (
    arith,
    length-take start moved_cells,
    length-copied g.cells g.cols wide,
    last_row g v,
    v.fits,
  )

  scrolled_moved :
      (r c : ℕ)
      → suc r < g.rows
      → c < g.cols
      → get_elem? (scrolled g) (r * g.cols + c) ≡ get_elem? g.cells (suc r * g.cols + c)
  scrolled_moved r c hr hc =
      let i = r * g.cols + c in
      let above : i < start = cell_in_range r c g.cols (g.rows - 1) (omega arith) hc in
      let there : suc r * g.cols + c < g.rows * g.cols =
        cell_in_range (suc r) c g.cols g.rows hr hc in
      get_elem?-append_left (take start moved_cells) _ i (omega (arith, length-top))
      ∙ get_elem?-take start moved_cells i above
      ∙ get_elem?-append_left (drop g.cols g.cells) _ i
          (omega (arith, length-drop g.cols g.cells, v.fits))
      ∙ get_elem?-drop g.cols g.cells i (suc r * g.cols + c) (omega arith)

  scrolled-blank :
      (r c : ℕ)
      → suc r ≡ g.rows
      → c < g.cols
      → get_elem? (scrolled g) (r * g.cols + c) ≡ some (blank g.default_fg g.default_bg)
  scrolled-blank r c hr hc =
      let b = blank g.default_fg g.default_bg in
      let row : r * g.cols ≡ start = ap (λ k. k * g.cols) (omega arith) in
      get_elem?-append_right (take start moved_cells) _ (r * g.cols + c) c
        (omega (arith, length-top, row))
      ∙ get_elem?-append_left (replicate g.cols b) _ c (omega (arith, length-replicate g.cols b))
      ∙ get_elem?-replicate g.cols b c hc

  -- `scroll_up` does not panic on a well-shaped grid with fewer than 2^32 - 1 scrolls counted. Then
  -- every row but the last shows what the row below showed, and the last row is blank in the default
  -- colors.
  pub scroll_up-below :
      (r c : ℕ)
      → g.scroll_count + 1 < 2 ^ 32
      → r < g.rows
      → c < g.cols
      → (scroll_up g >>= λ h. some (at h r c)) ≡ some (below g r c)
  scroll_up-below r c few hr hc = elim (Bool-cases (suc r == g.rows)) [
    | inl last ↦
        rw (scroll_up_lem g v few, last) (ap some (scrolled-blank r c (ground (arith, last)) hc))
    | inr more ↦
        rw (scroll_up_lem g v few, more) (ap some (scrolled_moved r c (ground (arith, more)) hc))
  ]
