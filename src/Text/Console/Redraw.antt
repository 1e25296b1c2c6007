-- ===== src/Text/Console/Redraw.antt =====
-- The edited line and the screen in step: `set_edit_line` from one line to the next.
use ferric_k.Base.{
  ℕ, zero, suc, ◌+◌, ◌-◌, ◌*◌, ◌^◌, ◌<◌, ◌≤◌, ◌≡◌, refl, sym, ◌∙◌, ap, subst, ◌&&◌, arith, none,
  some, List, [], ◌∷◌, length, get_elem?, get_or, set, leb, ◌==◌, if◌then◌else◌, inl, inr,
  Bool-cases, replicate, min,
}
use ferric_k.Base.Overlay.{overlay}
use ferric_k.Base.Checked.{fits_in_small}
use ferric_k.Api.Keys.{Rgb}
use ferric_k.Text.Grid.{Cell, blank}
use ferric_k.Text.Grid.Valid.{cell_in_range}
use ferric_k.Video.Framebuffer.{FrameBuffer}
use ferric_k.Video.Framebuffer.Fill.{Alike}
use ferric_k.Video.Font.{Font}
use ferric_k.Text.Console.{Console, edit_origin}
use ferric_k.Text.Console.Valid.{Fits, has_geometry}
use ferric_k.Text.Console.Line.{AllDrawn, cells_of}
use ferric_k.Text.Console.Shown.{origin_of, repainted, Shown, edit_cells-Shown}
use ferric_k.Text.Console.Blit.{IsColor, AllColored}
use ferric_k.Text.Console.Render.{Drawable, render_range-Ran}
use ferric_k.Text.Console.Draw.{Devices, draw_edit, set_edit_line}

nothing : {A : Type 0} {a : A} → none ≡ some a → ⊥
nothing e = cc

set-AllColored :
    (cells : List Cell) (at : ℕ) (v : Cell)
    → IsColor v.fg × IsColor v.bg
    → AllColored cells
    → AllColored (set cells at v)
set-AllColored [] at v good all i cell e = all i cell e
set-AllColored (x ∷ cells) zero v good all zero cell e =
    let same : v ≡ cell = cc in subst (λ z. IsColor z.fg × IsColor z.bg) same good
set-AllColored (x ∷ cells) zero v good all (suc i) cell e = all (suc i) cell e
set-AllColored (x ∷ cells) (suc at) v good all zero cell e = all zero cell e
set-AllColored (x ∷ cells) (suc at) v good all (suc i) cell e =
    set-AllColored cells at v good (λ j. all (suc j)) i cell e

-- Every element of a list of cells.
EachColored : List Cell → Type 0
EachColored [] = Unit
EachColored (v ∷ vs) = (IsColor v.fg × IsColor v.bg) × EachColored vs

overlay-AllColored :
    (cells : List Cell) (at : ℕ) (vs : List Cell)
    → EachColored vs
    → AllColored cells
    → AllColored (overlay cells at vs)
unfolding overlay EachColored
overlay-AllColored cells at [] each all = all
overlay-AllColored cells at (v ∷ vs) each all =
    overlay-AllColored (set cells at v) (at + 1) vs each.1 (set-AllColored cells at v each.0 all)

replicate-EachColored :
    (n : ℕ) (v : Cell) → IsColor v.fg × IsColor v.bg → EachColored (replicate n v)
unfolding EachColored
replicate-EachColored zero v good = tt
replicate-EachColored (suc n) v good = (good, replicate-EachColored n v good)

cells_of-EachColored :
    (s : List ℕ) (fg bg : Rgb) → IsColor fg × IsColor bg → EachColored (cells_of s fg bg)
unfolding EachColored cells_of
cells_of-EachColored [] fg bg good = tt
cells_of-EachColored (c ∷ s) fg bg good = (good, cells_of-EachColored s fg bg good)

-- A console that shows a line at its origin, with the cursor behind it, and can be drawn.
pub record InSync (font_data : List ℕ) (font : Font) (fb : FrameBuffer) (c : Console) (s : List ℕ)
    : Type 0 where
  pub drawable : Drawable font_data font fb c
  pub colors : IsColor c.fg × IsColor c.bg
  pub in_rows : c.edit_row < c.rows
  pub in_cols : c.edit_col < c.cols
  pub count_eq : c.edited_cells ≡ length s
  pub cursor_eq : c.cursor_row * c.cols + c.cursor_col ≡ origin_of c + length s
  pub line :
      (i : ℕ)
      → i < length s
      → get_elem? c.cells (origin_of c + i)
        ≡ some (record { glyph = get_or s i 0x20; fg = c.fg; bg = c.bg })

-- A line redrawn: nothing but the two lines' cells has changed, and the old line's rest is blank.
pub record Redrawn (font_data : List ℕ) (font : Font) (fb0 : FrameBuffer) (c : Console)
    (d : Devices) (s : List ℕ) : Type 0 where
  pub next : Console
  pub screen : FrameBuffer
  pub returned : set_edit_line font_data c d s ≡ some (next, record d { screen = some screen })
  pub alike : Alike fb0 screen
  pub in_sync : InSync font_data font fb0 next s
  pub same_origin : origin_of next ≡ origin_of c
  pub same_cols : next.cols ≡ c.cols
  pub same_rows : next.rows ≡ c.rows
  pub before : (i : ℕ) → i < origin_of c → get_elem? next.cells i ≡ get_elem? c.cells i
  pub erased :
      (i : ℕ)
      → length s ≤ i
      → i < c.edited_cells
      → get_elem? next.cells (origin_of c + i) ≡ some (blank c.fg c.bg)
  pub behind :
      (i : ℕ)
      → origin_of c + length s ≤ i
      → origin_of c + c.edited_cells ≤ i
      → get_elem? next.cells i ≡ get_elem? c.cells i

edit_origin_lem :
    (c : Console)
    → Fits c
    → c.edit_row < c.rows
    → c.edit_col < c.cols
    → edit_origin c ≡ some (origin_of c)
unfolding edit_origin
edit_origin_lem c f in_rows in_cols =
    let inside = cell_in_range c.edit_row c.edit_col c.cols c.rows in_rows in_cols in
    let comm : c.rows * c.cols ≡ c.cols * c.rows = omega arith in
    rw
      (
        fits_in_small 32 (c.edit_row * c.cols) (omega (arith, inside, comm, f.within)),
        fits_in_small 32 (origin_of c) (omega (arith, inside, comm, f.within)),
      )
      refl

repainted-AllColored :
    (c : Console) (s : List ℕ)
    → IsColor c.fg × IsColor c.bg
    → AllColored c.cells
    → AllColored (repainted c s)
repainted-AllColored c s colors all =
    let n = min c.edited_cells (c.rows * c.cols - origin_of c) in
    overlay-AllColored _ (origin_of c) (cells_of s c.fg c.bg)
      (cells_of-EachColored s c.fg c.bg colors)
      (overlay-AllColored c.cells (origin_of c) (replicate n (blank c.fg c.bg))
        (replicate-EachColored n (blank c.fg c.bg) colors) all)

module _ (font_data : List ℕ) (font : Font) (fb0 : FrameBuffer) where
  -- What `edit_cells` leaves is in step with the new line.
  Shown-InSync :
      (c : Console) (old s : List ℕ)
      → InSync font_data font fb0 c old
      → (p : Shown c s) → InSync font_data font fb0 p.next s
  Shown-InSync c old s sync p =
      let fg_eq = ap (λ z. z.fg) p.frame in
      let bg_eq = ap (λ z. z.bg) p.frame in
      let cols_eq = ap (λ z. z.cols) p.frame in
      let rows_eq = ap (λ z. z.rows) p.frame in
      let row_eq = ap (λ z. z.edit_row) p.frame in
      let col_eq = ap (λ z. z.edit_col) p.frame in
      let start : origin_of p.next ≡ origin_of c = rw (row_eq, col_eq, cols_eq) refl in
      let d = sync.drawable in
      record {
        drawable = record {
          bytes = d.bytes;
          short = d.short;
          parsed = d.parsed;
          wide = d.wide;
          captured = d.captured;
          narrow = d.narrow;
          grid = p.placed.fits;
          colored =
              subst AllColored (sym p.cells_eq) (repainted-AllColored c s sync.colors d.colored);
          right = subst (λ n. n * font.width < 2 ^ 32) (sym cols_eq) d.right;
          below = subst (λ n. n * font.height < 2 ^ 32) (sym rows_eq) d.below;
        };
        colors = (subst IsColor (sym fg_eq) sync.colors.0, subst IsColor (sym bg_eq) sync.colors.1);
        in_rows = omega (arith, row_eq, rows_eq, sync.in_rows);
        in_cols = omega (arith, col_eq, cols_eq, sync.in_cols);
        count_eq = p.count_eq;
        cursor_eq =
            subst (λ w. p.next.cursor_row * w + p.next.cursor_col ≡ origin_of p.next + length s)
              (sym cols_eq) (p.cursor_eq ∙ ap (λ n. n + length s) (sym start));
        line = λ i lt.
            ap (λ n. get_elem? p.next.cells (n + i)) start ∙ p.line i lt ∙ rw (fg_eq, bg_eq) refl;
      }

  -- From a console in step with one line, whose font has fewer than 2^32 bytes, to any line of drawn
  -- characters that ends before the last cell: `set_edit_line` returns, in step with the new line. The rest of the old line is blank, and no other
  -- cell of the grid has changed.
  pub set_edit_line-Redrawn :
      (c : Console) (d : Devices) (fb : FrameBuffer) (old s : List ℕ)
      → InSync font_data font fb0 c old
      → d.screen ≡ some fb
      → Alike fb0 fb
      → AllDrawn s
      → origin_of c + length old ≤ c.rows * c.cols
      → origin_of c + length s < c.rows * c.cols
      → Redrawn font_data font fb0 c d s
  unfolding set_edit_line draw_edit
  set_edit_line-Redrawn c d fb old s sync on alike plain was room =
      let f = sync.drawable.grid in
      let known = has_geometry c f.cols_pos f.rows_pos in
      let start = edit_origin_lem c f sync.in_rows sync.in_cols in
      elim (Bool-cases ((length s == 0) && (c.edited_cells == 0))) [
        | inl idle ↦
            (let no_text : length s ≡ 0 = ground (arith, idle) in
              let no_cells : c.edited_cells ≡ 0 = ground (arith, idle) in
              record {
                next = c;
                screen = fb;
                returned = rw (known, start, idle) (ap (λ z. some (c, record d { screen = z })) on);
                alike = alike;
                in_sync = record {
                  drawable = sync.drawable;
                  colors = sync.colors;
                  in_rows = sync.in_rows;
                  in_cols = sync.in_cols;
                  count_eq = no_cells ∙ sym no_text;
                  cursor_eq = omega (arith, sync.cursor_eq, sync.count_eq, no_text, no_cells);
                  line = λ i lt. absurd (omega (arith, lt, no_text));
                };
                same_origin = refl;
                same_cols = refl;
                same_rows = refl;
                before = λ i lt. refl;
                erased = λ i ge lt. absurd (omega (arith, lt, no_cells));
                behind = λ i ge past. refl;
              })
        | inr busy ↦
            (let p = edit_cells-Shown c s f sync.in_rows sync.in_cols plain room in
              let next_sync = Shown-InSync c old s sync p in
              let reach =
                if leb c.edited_cells p.next.edited_cells
                then p.next.edited_cells
                else c.edited_cells in
              let r =
                render_range-Ran font_data font fb0 p.next next_sync.drawable fb (origin_of c)
                  (origin_of c + reach - 1) alike in
              record {
                next = p.next;
                screen = r.next;
                returned = rw (known, start, busy, p.returned, on, r.returned) refl;
                alike = r.alike;
                in_sync = next_sync;
                same_origin =
                    rw
                      (
                        ap (λ z. z.edit_row) p.frame,
                        ap (λ z. z.edit_col) p.frame,
                        ap (λ z. z.cols) p.frame,
                      )
                      refl;
                same_cols = ap (λ z. z.cols) p.frame;
                same_rows = ap (λ z. z.rows) p.frame;
                before = p.before;
                erased = λ i ge lt. p.erased i ge lt (omega (arith, lt, was, sync.count_eq));
                behind = p.behind;
              })
      ]
