-- ===== src/Text/Grid/Tab.antt =====
-- The tab arm of `TextGrid::put` in grid.rs, which can leave the cursor one column past the grid.
use ferric_k.Base.{
  ℕ, ◌+◌, ◌*◌, ◌/◌, ◌^◌, ◌≤◌, ◌<◌, min, ◌≡◌, ◌≢◌, ap, ◌∙◌, true, false, arith, none, some, List,
  leb, ◌==◌, length, set, le→leb, lt→leb, le→ltb,
}
use ferric_k.Api.Keys.{Rgb}
use ferric_k.Text.Grid.{tab_width, TextGrid, ◌>>=◌, write, index, linefeed, put_glyph, put}
use ferric_k.Text.Grid.Valid.{IsValid, cell_in_range, checked_u32_lem, write_lem}

-- A character that `put` draws.
pub record IsDrawn (c : ℕ) : Type 0 where
  pub no_newline : c ≢ 0x0A
  pub no_return : c ≢ 0x0D
  pub no_tab : c ≢ 0x09

abbrev pub tab_stop : TextGrid → ℕ
tab_stop g = (g.col / tab_width + 1) * tab_width

put_drawn : (g : TextGrid) (c : ℕ) (fg bg : Rgb) → IsDrawn c → put g c fg bg ≡ put_glyph g c fg bg
unfolding put
put_drawn g c fg bg d =
    let lf : (c == 0x0A) ≡ false = ground (arith, d.no_newline) in
    let cr : (c == 0x0D) ≡ false = ground (arith, d.no_return) in
    let ht : (c == 0x09) ≡ false = ground (arith, d.no_tab) in rw (lf, cr, ht)

-- The grid after a tab.
abbrev pub tabbed : TextGrid → TextGrid
tabbed g = record g { col = min (tab_stop g) g.cols }

put_tab :
    (g : TextGrid) (fg bg : Rgb)
    → IsValid g
    → g.cols + 8 ≤ 2 ^ 32
    → put g 0x09 fg bg ≡ some (tabbed g)
unfolding put
put_tab g fg bg v h = rw (checked_u32_lem (tab_stop g) (omega (arith, v.col_in)))

-- A tab moves the cursor to the next multiple of eight while that is a column of the grid, and the
-- grid stays valid.
pub tab_inside :
    (g : TextGrid) (fg bg : Rgb)
    → IsValid g
    → g.cols + 8 ≤ 2 ^ 32
    → tab_stop g < g.cols
    → (put g 0x09 fg bg ≡ some (record g { col = tab_stop g }))
      × IsValid (record g { col = tab_stop g })
tab_inside g fg bg v h inside = (
  put_tab g fg bg v h ∙ ap (λ n. some (record g { col = n })) (omega arith),
  record { shaped = v.shaped; row_in = v.row_in; col_in = inside },
)

tab_past_end :
    (g : TextGrid) (fg bg : Rgb)
    → IsValid g
    → g.cols + 8 ≤ 2 ^ 32
    → g.cols ≤ tab_stop g
    → put g 0x09 fg bg ≡ some (record g { col = g.cols })
tab_past_end g fg bg v h past =
    put_tab g fg bg v h ∙ ap (λ n. some (record g { col = n })) (omega arith)

index_past_end :
    (g : TextGrid)
    → (g.row + 1) * g.cols < 2 ^ 32
    → index (record g { col = g.cols }) g.row g.cols ≡ some ((g.row + 1) * g.cols)
unfolding index
index_past_end g h =
    let e : g.row * g.cols + g.cols ≡ (g.row + 1) * g.cols = omega arith in
    rw (checked_u32_lem (g.row * g.cols) (omega arith), e) (checked_u32_lem _ h)

write_out {ℓ} : {A : Type ℓ} (l : List A) (i : ℕ) (v : A) → length l ≤ i → write l i v ≡ none
unfolding write
write_out l i v h = rw (le→ltb i _ h)

-- A tab with no tab stop left in the row, in the last row of a grid that fills its buffer, makes
-- the next drawn character panic: the cursor stands one cell past the buffer.
pub tab_then_put_panics :
    (g : TextGrid) (c : ℕ) (fg bg : Rgb)
    → IsValid g
    → g.cols + 8 ≤ 2 ^ 32
    → g.cols ≤ tab_stop g
    → g.row + 1 ≡ g.rows
    → length g.cells ≡ g.rows * g.cols
    → g.rows * g.cols < 2 ^ 32
    → IsDrawn c
    → (put g 0x09 fg bg >>= λ g'. put g' c fg bg) ≡ none
unfolding put_glyph
tab_then_put_panics g c fg bg v h past last full small d =
    let g' = record g { col = g.cols } in
    let at : (g.row + 1) * g.cols ≡ g.rows * g.cols = ap (λ r. r * g.cols) last in
    rw (tab_past_end g fg bg v h past, put_drawn g' c fg bg d)
      (rw (index_past_end g (omega (arith, at))) (
        rw (
          write_out g.cells ((g.row + 1) * g.cols) (record { glyph = c; fg = fg; bg = bg })
            (omega (arith, at, full)))))

-- In any other row such a tab makes the next drawn character stand in the first cell of the row
-- below, with the cursor on that same cell, where the character after it overwrites it.
pub tab_then_put_overwritten :
    (g : TextGrid) (c : ℕ) (fg bg : Rgb)
    → IsValid g
    → g.cols + 8 ≤ 2 ^ 32
    → g.cols ≤ tab_stop g
    → g.row + 1 < g.rows
    → IsDrawn c
    → (put g 0x09 fg bg >>= λ g'. put g' c fg bg)
      ≡ some (record g {
        cells = set g.cells ((g.row + 1) * g.cols) (record { glyph = c; fg = fg; bg = bg });
        row = g.row + 1;
        col = 0;
      })
unfolding put_glyph linefeed
tab_then_put_overwritten g c fg bg v h past more d =
    let g' = record g { col = g.cols } in
    let below : (g.row + 1) * g.cols < g.rows * g.cols =
      omega (arith, cell_in_range (g.row + 1) 0 g.cols g.rows more v.shaped.cols_pos) in
    let wraps : leb g.cols (g.cols + 1) ≡ true = le→leb _ _ (omega arith) in
    let stays : leb g.rows (g.row + 1) ≡ false = lt→leb _ _ more in
    rw (tab_past_end g fg bg v h past, put_drawn g' c fg bg d)
      (rw (index_past_end g (omega (arith, below, v.shaped.small))) (
        rw (
          write_lem g.cells ((g.row + 1) * g.cols) (record { glyph = c; fg = fg; bg = bg })
              (omega (arith, below, v.shaped.fits)),
          checked_u32_lem (g.cols + 1) (omega arith),
          wraps,
          checked_u32_lem (g.row + 1) (omega (arith, v.shaped.rows_u32)),
          stays,
        )))
