-- ===== src/Text/Console/Repaint.antt =====
-- The repair of the console behind a window does not panic.
use ferric_k.Base.{
  ℕ, ◌+◌, ◌-◌, ◌/◌, ◌^◌, ◌<◌, ◌≤◌, ◌≡◌, refl, ◌∙◌, false, arith, Option, some, List, min, ◌==◌,
  ◌||◌,
}
use ferric_k.Video.Framebuffer.{FrameBuffer}
use ferric_k.Video.Framebuffer.Fill.{Alike, fill_rect-Filled}
use ferric_k.Video.Font.{Font}
use ferric_k.Text.Console.{Console, quotient, no_geometry}
use ferric_k.Text.Console.Blit.{IsColor}
use ferric_k.Text.Console.Render.{Drawable, blit_block-Ran, load_lem}
use ferric_k.Text.Console.Draw.{Devices, meets, repaint_rect, with_framebuffer}

meets-inside :
    (at extent size count : ℕ)
    → 0 < size
    → 0 < count
    → (r : ℕ × ℕ) × (meets at extent size count ≡ some r) × (r.0 + (r.1 + 1 - r.0) ≤ count)
unfolding meets quotient
meets-inside at extent size count pos some_cells =
    let e : (size == 0) ≡ false = ground (arith, pos) in
    (
      (min (at / size) (count - 1), min ((min (at + extent) (2 ^ 64 - 1) - 1) / size) (count - 1)),
      rw e refl,
      omega (arith, some_cells),
    )

pub trans-Alike : (a b c : FrameBuffer) → Alike a b → Alike b c → Alike a c
trans-Alike a b c p q = record {
  valid = q.valid;
  width = q.width ∙ p.width;
  height = q.height ∙ p.height;
  bytes = q.bytes ∙ p.bytes;
  red = q.red ∙ p.red;
  green = q.green ∙ p.green;
  blue = q.blue ∙ p.blue;
}

-- The devices after a call that returns, with a framebuffer of the same kind.
pub record Painted (fb0 : FrameBuffer) (d : Devices) (result : Option Devices) : Type 0 where
  pub screen : FrameBuffer
  pub returned : result ≡ some (record d { screen = some screen })
  pub alike : Alike fb0 screen

module _ (font_data : List ℕ) (font : Font) (fb0 : FrameBuffer) (c : Console)
    (drawable : Drawable font_data font fb0 c) (back : IsColor c.bg) (cell_wide : 0 < font.width)
    (cell_high : 0 < font.height) where
  -- Repainting a rectangle that is not empty and lies on the surface returns.
  pub repaint_rect-Painted :
      (d : Devices) (fb : FrameBuffer) (x y w h : ℕ)
      → d.screen ≡ some fb
      → Alike fb0 fb
      → 0 < w
      → 0 < h
      → x + w ≤ fb0.width
      → y + h ≤ fb0.height
      → Painted fb0 d (repaint_rect font_data c d x y w h)
  unfolding repaint_rect with_framebuffer
  repaint_rect-Painted d fb x y w h on alike some_w some_h cols rows =
      let g = drawable.grid in
      let known : no_geometry c || ((w == 0) || (h == 0)) ≡ false =
        ground (arith, g.cols_pos, g.rows_pos, some_w, some_h) in
      let still : (fb.red.size ≤ 56) × (fb.green.size ≤ 56) × (fb.blue.size ≤ 56) =
        rw (alike.red, alike.green, alike.blue) drawable.narrow in
      let filled =
        fill_rect-Filled fb x y w h c.bg alike.valid still back some_w some_h
          (omega (arith, alike.width, cols)) (omega (arith, alike.height, rows)) in
      let (row, row_eq, row_in) = meets-inside y h font.height c.rows cell_high g.rows_pos in
      let (col, col_eq, col_in) = meets-inside x w font.width c.cols cell_wide g.cols_pos in
      let r =
        blit_block-Ran font_data font fb0 c drawable (row.1 + 1 - row.0) filled.next row.0 col.0
          (col.1 + 1 - col.0) (trans-Alike fb0 fb filled.next alike filled.alike) row_in col_in in
      record {
        screen = r.next;
        returned =
            rw
              (
                known,
                load_lem font_data font drawable.parsed,
                row_eq,
                col_eq,
                on,
                filled.returned,
                r.returned,
              )
              refl;
        alike = r.alike;
      }
