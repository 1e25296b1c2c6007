-- ===== src/Text/Grid/Valid.antt =====
-- Well-formed grids of grid.rs: the shape of the buffer and the cursor's place, and what indexing
-- and scrolling do on them.
use ferric_k.Base.{
  ℕ, zero, suc, ◌+◌, ◌-◌, ◌*◌, ◌^◌, ◌≤◌, ◌<◌, ◌≡◌, ◌∙◌, false, arith, some, List, ◌++◌, ◌==◌,
  length, set, take, drop, replicate, length-append, length-take, length-drop, length-replicate,
  lt→ltb, le→leb,
}
use ferric_k.Text.Grid.{
  Cell, blank, TextGrid, checked_u32, write, index, copy_down, fill, scroll_up,
}

-- The shape of a grid: it has cells, they fit the buffer, and `u32` indices reach them all.
pub record Shape (cols rows : ℕ) (cells : List Cell) : Type 0 where
  pub cols_pos : 0 < cols
  pub rows_pos : 0 < rows
  pub fits : rows * cols ≤ length cells
  pub small : rows * cols ≤ 2 ^ 32
  pub cols_u32 : cols < 2 ^ 32
  pub rows_u32 : rows < 2 ^ 32

abbrev pub IsShaped : TextGrid → Type 0
IsShaped g = Shape g.cols g.rows g.cells

pub record IsValid (g : TextGrid) : Type 0 where
  pub shaped : IsShaped g
  pub row_in : g.row < g.rows
  pub col_in : g.col < g.cols

pub cell_in_range : (r c w h : ℕ) → r < h → c < w → r * w + c < h * w
cell_in_range r c w h p q = grind arith

pub checked_u32_lem : (n : ℕ) → n < 2 ^ 32 → checked_u32 n ≡ some n
unfolding checked_u32
checked_u32_lem n h = rw (lt→ltb n _ h)

pub index_lem :
    (g : TextGrid) (r c : ℕ)
    → IsShaped g
    → r < g.rows
    → c < g.cols
    → index g r c ≡ some (r * g.cols + c)
unfolding index
index_lem g r c v hr hc =
    let inside = cell_in_range r c g.cols g.rows hr hc in
    rw (checked_u32_lem (r * g.cols) (omega (arith, v.small)))
      (checked_u32_lem (r * g.cols + c) (omega (arith, v.small)))

pub write_lem {ℓ} :
    {A : Type ℓ} (l : List A) (i : ℕ) (v : A) → i < length l → write l i v ≡ some (set l i v)
unfolding write
write_lem l i v h = rw (lt→ltb i _ h)

copy_down_lem :
    (l : List Cell) (n : ℕ)
    → n ≤ length l
    → copy_down l n ≡ some (drop n l ++ drop (length l - n) l)
unfolding copy_down
copy_down_lem l n h = rw (le→leb n _ h)

pub length-copied :
    (l : List Cell) (n : ℕ) → n ≤ length l → length (drop n l ++ drop (length l - n) l) ≡ length l
length-copied l n h = omega (
  arith,
  length-append (drop n l) (drop (length l - n) l),
  length-drop n l,
  length-drop (length l - n) l,
)

fill_lem :
    (l : List Cell) (start n : ℕ) (v : Cell)
    → start + n ≤ length l
    → fill l start n v ≡ some (take start l ++ (replicate n v ++ drop (start + n) l))
unfolding fill
fill_lem l start n v h = rw (le→leb (start + n) _ h)

length-filled :
    (l : List Cell) (start n : ℕ) (v : Cell)
    → start + n ≤ length l
    → length (take start l ++ (replicate n v ++ drop (start + n) l)) ≡ length l
length-filled l start n v h = omega (
  arith,
  length-append (take start l) (replicate n v ++ drop (start + n) l),
  length-append (replicate n v) (drop (start + n) l),
  length-take start l,
  length-drop (start + n) l,
  length-replicate n v,
)

pub last_row : (g : TextGrid) → IsShaped g → (g.rows - 1) * g.cols + g.cols ≡ g.rows * g.cols
last_row g v = last g.rows v.rows_pos
  where
    last : (r : ℕ) → 0 < r → (r - 1) * g.cols + g.cols ≡ r * g.cols
    last zero h = absurd (omega arith)
    last (suc r) h = let e : suc r - 1 ≡ r = omega arith in rw e (omega arith)

-- The cells after `scroll_up`.
abbrev pub scrolled : TextGrid → List Cell
scrolled g =
    let moved = drop g.cols g.cells ++ drop (length g.cells - g.cols) g.cells in
    let start = (g.rows - 1) * g.cols in
    take start moved
    ++ (replicate g.cols (blank g.default_fg g.default_bg) ++ drop (start + g.cols) moved)

pub scroll_up_lem :
    (g : TextGrid)
    → IsShaped g
    → g.scroll_count + 1 < 2 ^ 32
    → scroll_up g ≡ some (record g { cells = scrolled g; scroll_count = g.scroll_count + 1 })
unfolding scroll_up
scroll_up_lem g v h =
    let moved = drop g.cols g.cells ++ drop (length g.cells - g.cols) g.cells in
    let wide : g.cols ≤ length g.cells = grind (arith, v.fits) in
    let there : (g.rows - 1) * g.cols + g.cols ≤ length moved =
      omega (arith, length-copied g.cells g.cols wide, last_row g v, v.fits) in
    let some_rows : (g.rows == 0) ≡ false = ground (arith, v.rows_pos) in
    rw (copy_down_lem g.cells g.cols wide, some_rows)
      (rw (fill_lem moved ((g.rows - 1) * g.cols) g.cols (blank g.default_fg g.default_bg) there)
        (rw (checked_u32_lem (g.scroll_count + 1) h)))

pub length-scrolled : (g : TextGrid) → IsShaped g → length (scrolled g) ≡ length g.cells
length-scrolled g v =
    let moved = drop g.cols g.cells ++ drop (length g.cells - g.cols) g.cells in
    let wide : g.cols ≤ length g.cells = grind (arith, v.fits) in
    length-filled moved ((g.rows - 1) * g.cols) g.cols (blank g.default_fg g.default_bg)
      (omega (arith, length-copied g.cells g.cols wide, last_row g v, v.fits))
    ∙ length-copied g.cells g.cols wide

pub scrolled-Shape : (g : TextGrid) → IsShaped g → Shape g.cols g.rows (scrolled g)
scrolled-Shape g v = record {
  cols_pos = v.cols_pos;
  rows_pos = v.rows_pos;
  fits = rw (length-scrolled g v) v.fits;
  small = v.small;
  cols_u32 = v.cols_u32;
  rows_u32 = v.rows_u32;
}
