-- ===== src/Video/Framebuffer/Bars.antt =====
-- The color bars of framebuffer.rs, which the boot-time self-test paints and reads back.
pub mod Paint
pub mod Test
use ferric_k.Base.{
  ℕ, suc, ◌+◌, ◌-◌, ◌*◌, ◌/◌, min, Bool, true, false, Option, none, some, List, [], ◌∷◌, ◌==◌,
  if◌then◌else◌,
}
use ferric_k.Base.Checked.{Outcome, done, failed, panicked, and_then, fits_in}
use ferric_k.Api.Keys.{Rgb, rgb}
use ferric_k.Video.Framebuffer.{FrameBuffer, FramebufferError, fill_rect, encode, read_raw_pixel}

abbrev pub bar_colors : List Rgb
bar_colors =
    rgb 255 255 255
    ∷ rgb 255 255 0
    ∷ rgb 0 255 255
    ∷ rgb 0 255 0
    ∷ rgb 255 0 255
    ∷ rgb 255 0 0
    ∷ rgb 0 0 255
    ∷ []

-- The first column of a bar, and the first one behind it.
abbrev pub bar_start : (index width : ℕ) → ℕ
bar_start index width = width * index / 7

-- The bars from an index on.
unfoldable pub draw_bars : List Rgb → (index : ℕ) → FrameBuffer → Option (FrameBuffer × Bool)
draw_bars [] index fb = some (fb, true)
draw_bars (color ∷ colors) index fb =
    let start = bar_start index fb.width in
    let end = bar_start (index + 1) fb.width in
    elim (fill_rect fb start 0 (end - start) fb.height color) [
      | done fb' ↦ draw_bars colors (index + 1) fb'
      | failed e ↦ some (fb, false)
      | panicked ↦ none
    ]

abbrev pub draw_color_bars : FrameBuffer → Option (FrameBuffer × Bool)
draw_color_bars fb = draw_bars bar_colors 0 fb

abbrev pub shows : Option ℕ → ℕ → Bool
shows none word = false
shows (some pixel) word = pixel == word

-- A column at each of the heights; the first pixel that differs ends the test.
unfoldable pub verify_column : FrameBuffer → (x : ℕ) → Rgb → (ys : List ℕ) → Option Bool
verify_column fb x color [] = some true
verify_column fb x color (y ∷ ys) =
    let rest = verify_column fb x color ys in
    and_then (encode fb color)
      (λ word. if shows (read_raw_pixel fb x y) word then rest else some false)

unfoldable pub verify_bars : List Rgb → (index : ℕ) → FrameBuffer → (ys : List ℕ) → Option Bool
verify_bars [] index fb ys = some true
verify_bars (color ∷ colors) index fb ys =
    let start = bar_start index fb.width in
    let end = bar_start (index + 1) fb.width in
    let rest = verify_bars colors (index + 1) fb ys in
    and_then (verify_column fb (start + (end - start) / 2) color ys)
      (λ shown. if shown then rest else some false)

-- `height * 3` must not overflow, and `height - 1` must not underflow.
unfoldable pub verify_color_bars : FrameBuffer → Option Bool
verify_color_bars fb =
    if fb.height == 0
    then none
    else and_then (fits_in 32 (fb.height * 3)) (λ three. verify_bars bar_colors 0 fb (
        min (fb.height / 4) (fb.height - 1)
        ∷ min (fb.height / 2) (fb.height - 1)
        ∷ min (three / 4) (fb.height - 1)
        ∷ []))
