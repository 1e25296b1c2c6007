-- ===== src/Text/Console/Geometry.antt =====
-- Which geometries the console accepts: `put_text` against the buffer's capacity, and `set_geometry`.
use ferric_k.Base.{
  ℕ, ◌*◌, ◌/◌, ◌^◌, ◌<◌, ◌≤◌, ◌≡◌, ◌↔◌, refl, ◌∙◌, sym, true, false, arith, none, some, List, ltb,
  ◌==◌, length, length-replicate, inl, inr, Bool-cases,
}
use native.Mathlib.Nat.{le-div_iff_mul-le}
use ferric_k.Api.Keys.{rgb}
use ferric_k.Text.Grid.{new, blank, ◌>>=◌}
use ferric_k.Video.Font.{Font}
use ferric_k.Text.Console.{Console, cell_count, put_text, load, quotient, set_geometry, initial}
use ferric_k.Text.Console.Valid.{NoTab, put_text-Placed, has_geometry}

refused :
    (c : Console) (s : List ℕ)
    → 0 < c.cols
    → 0 < c.rows
    → length c.cells ≡ cell_count
    → cell_count < c.cols * c.rows
    → put_text c s ≡ none
unfolding put_text new
refused c s p q buffer lt =
    let over : ltb (length c.cells) (c.cols * c.rows) ≡ true = ground (arith, lt, buffer) in
    elim (Bool-cases (ltb (c.cols * c.rows) (2 ^ 64))) [
      | inl small ↦ rw (has_geometry c p q, small, over) refl
      | inr huge ↦ rw (has_geometry c p q, huge) refl
    ]

-- A text of fewer than 2^32 characters and without a tab panics exactly if the grid has more cells than
-- the buffer, wherever the cursor stands.
pub put_text-none :
    (c : Console) (s : List ℕ)
    → 0 < c.cols
    → 0 < c.rows
    → length c.cells ≡ cell_count
    → NoTab s
    → length s < 2 ^ 32
    → (put_text c s ≡ none) ↔ (cell_count < c.cols * c.rows)
put_text-none c s p q buffer plain few = elim (Bool-cases (ltb cell_count (c.cols * c.rows))) [
  | inl over ↦ (λ e. ground (arith, over), λ lt. refused c s p q buffer lt)
  | inr under ↦
      let w =
        put_text-Placed c s
          (record { cols_pos = p; rows_pos = q; within = ground (arith, under); buffer = buffer })
          plain few in
      (λ e. absurd (some-none (sym w.returned ∙ e)), λ lt. ground (arith, lt, under))
]
  where
    some-none : {A : Type 0} {a : A} → some a ≡ none → ⊥
    some-none e = cc

-- The kernel's console after `set_geometry`, for a framebuffer that has room for a cell: a text of
-- fewer than 2^32 characters and without a tab panics exactly if the grid that fills the framebuffer has more than 32768 cells.
pub set_geometry-put_text :
    (font_data : List ℕ) (font : Font) (fb_width fb_height : ℕ) (s : List ℕ)
    → load font_data ≡ some font
    → 0 < font.width
    → font.width ≤ fb_width
    → 0 < font.height
    → font.height ≤ fb_height
    → NoTab s
    → length s < 2 ^ 32
    → (set_geometry font_data initial fb_width fb_height >>= (λ c. put_text c s) ≡ none)
      ↔ (32768 < fb_width / font.width * (fb_height / font.height))
unfolding set_geometry quotient initial
set_geometry-put_text font_data font fb_width fb_height s e wide fits_w high fits_h plain few =
    let cols = fb_width / font.width in
    let rows = fb_height / font.height in
    let a : 0 < cols = (le-div_iff_mul-le wide).1 (omega (arith, fits_w)) in
    let b : 0 < rows = (le-div_iff_mul-le high).1 (omega (arith, fits_h)) in
    let n : font.width == 0 ≡ false = ground (arith, wide) in
    let m : font.height == 0 ≡ false = ground (arith, high) in
    rw (e, n, m)
      (put_text-none (record initial { cols = cols; rows = rows }) s a b
        (length-replicate cell_count (blank (rgb 0xC0 0xC0 0xC0) (rgb 0 0 0))) plain few)
