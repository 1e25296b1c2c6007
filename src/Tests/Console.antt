-- ===== src/Tests/Console.antt =====
-- The console at concrete geometries.
use ferric_k.Base.{
  ℕ, ◌*◌, ◌/◌, ◌<◌, ◌≡◌, ◌↔◌, refl, arith, none, some, List, [], ◌∷◌, replicate, length-replicate,
}
use ferric_k.Base.Checked.{fits_in}
use ferric_k.Api.Keys.{rgb}
use ferric_k.Text.Grid.{blank, ◌>>=◌}
use ferric_k.Video.Font.{Font, parse, parse_psf1, within, glyphs_end, u16le, psf1_font}
use ferric_k.Text.Console.{Console, initial, load, set_geometry, put_text}
use ferric_k.Text.Console.Valid.{NoTab, Fits, Placed, put_text-Placed}
use ferric_k.Text.Console.Edit.{Edited, edit_cells-Edited}
use ferric_k.Text.Console.Geometry.{set_geometry-put_text}

-- Four columns and two rows, with a line that is edited in the last row.
abbrev narrow : Console
narrow = record initial { cols = 4; rows = 2; edit_row = 1; edit_col = 2; edited_cells = 2 }

narrow-Fits : Fits narrow
unfolding initial
narrow-Fits = record {
  cols_pos = omega arith;
  rows_pos = omega arith;
  within = omega arith;
  buffer = length-replicate 32768 (blank (rgb 0xC0 0xC0 0xC0) (rgb 0 0 0));
}

abbrev greeting : List ℕ
greeting = b'h' ∷ b'e' ∷ b'y' ∷ []

greeting-NoTab : NoTab greeting
unfolding NoTab
greeting-NoTab = ((λ e. omega (arith, e)), ((λ e. omega (arith, e)), ((λ e. omega (arith, e)), tt)))

put_text-Placed_example : Placed narrow (put_text narrow greeting)
put_text-Placed_example = put_text-Placed narrow greeting narrow-Fits greeting-NoTab (omega arith)

narrow_edit : Edited narrow greeting
narrow_edit =
    edit_cells-Edited narrow greeting narrow-Fits (omega arith) (omega arith) greeting-NoTab
      (omega arith)

-- A font of the first kind: 256 glyphs of sixteen rows.
abbrev flat_bytes : List ℕ
flat_bytes = 0x36 ∷ 0x04 ∷ 0 ∷ 16 ∷ replicate 4096 0xFF

abbrev flat : Font
flat = psf1_font flat_bytes 0 16 256 4100

flat_loads : load flat_bytes ≡ some flat
unfolding load parse parse_psf1 within glyphs_end u16le fits_in
flat_loads = refl

set_geometry-put_text_example :
    (set_geometry flat_bytes initial 3840 2160 >>= (λ c. put_text c greeting) ≡ none)
    ↔ (32768 < 3840 / 8 * (2160 / 16))
set_geometry-put_text_example =
    set_geometry-put_text flat_bytes flat 3840 2160 greeting flat_loads (omega arith) (omega arith)
      (omega arith) (omega arith) greeting-NoTab (omega arith)
