-- ===== src/Clock/Surface.antt =====
-- `DrawTarget` of crates/ferric-unsafe-core/src/app.rs: how a drawing library sets pixels.
pub mod Drawn
use ferric_k.Base.{Bool, true, false, ◌||◌, Option, none, some, List, [], ◌∷◌, if◌then◌else◌}
use ferric_k.Base.Checked.{done, failed, panicked}
use ferric_k.Base.Int.{ℤ, pos, negsuc, as_u32}
use ferric_k.Api.Keys.{Rgb}
use ferric_k.Video.Framebuffer.{FrameBuffer, FramebufferError, write_pixel}

-- A pixel that the library asks for; the point may lie outside the surface.
pub record Pixel : Type 0 where
  pub x : ℤ
  pub y : ℤ
  pub color : Rgb

abbrev pub is_negative : ℤ → Bool
is_negative (pos n) = false
is_negative (negsuc n) = true

-- What the pixels leave of the framebuffer, and the error that ended them, if any; a panic is `none`.
unfoldable pub draw_iter : FrameBuffer → List Pixel → Option (FrameBuffer × Option FramebufferError)
draw_iter fb [] = some (fb, none)
draw_iter fb (p ∷ pixels) =
    let skipped = draw_iter fb pixels in
    if is_negative p.x || is_negative p.y
    then skipped
    else elim (write_pixel fb (as_u32 p.x) (as_u32 p.y) p.color) [
      | done fb' ↦ draw_iter fb' pixels
      | failed e ↦ some (fb, some e)
      | panicked ↦ none
    ]
