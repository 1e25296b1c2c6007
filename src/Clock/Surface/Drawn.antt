-- ===== src/Clock/Surface/Drawn.antt =====
-- Setting pixels does not panic, wherever they lie.
use ferric_k.Base.{
  ℕ, ◌≤◌, ◌≡◌, refl, ◌||◌, Option, none, some, List, [], ◌∷◌, leb, inl, inr, Bool-cases, ◌⊎◌,
}
use ferric_k.Base.Checked.{done, failed}
use ferric_k.Base.Int.{as_u32}
use ferric_k.Api.Keys.{Rgb}
use ferric_k.Video.Framebuffer.{
  FrameBuffer, FramebufferError, out_of_bounds, write_pixel, write_unchecked,
}
use ferric_k.Video.Framebuffer.Encode.{encode-fits}
use ferric_k.Video.Framebuffer.Fill.{Alike, write-Alike}
use ferric_k.Text.Console.Blit.{IsColor}
use ferric_k.Clock.Surface.{Pixel, is_negative, draw_iter}

-- Pixels in colors of three bytes.
unfoldable pub AllBright : List Pixel → Type 0
AllBright [] = Unit
AllBright (p ∷ pixels) = IsColor p.color × AllBright pixels

module _ (fb0 : FrameBuffer)
    (narrow : (fb0.red.size ≤ 56) × (fb0.green.size ≤ 56) × (fb0.blue.size ≤ 56)) where
  -- A pixel is set, or refused because it lies outside.
  write_pixel-cases :
      (fb : FrameBuffer) (x y : ℕ) (color : Rgb)
      → Alike fb0 fb
      → IsColor color
      → (write_pixel fb x y color ≡ failed out_of_bounds)
        ⊎ ((word : ℕ) × (write_pixel fb x y color ≡ done (write_unchecked fb x y word)))
  unfolding write_pixel
  write_pixel-cases fb x y color alike bright =
      elim (Bool-cases (leb fb.width x || leb fb.height y)) [
        | inl outside ↦ inl (rw outside refl)
        | inr inside ↦
            (let still : (fb.red.size ≤ 56) × (fb.green.size ≤ 56) × (fb.blue.size ≤ 56) =
                rw (alike.red, alike.green, alike.blue) narrow in
              let (word, e, _, _) = encode-fits fb color alike.valid still bright in
              inr (word, rw (inside, e) refl))
      ]

  pub draw_iter-Alike :
      (fb : FrameBuffer) (pixels : List Pixel)
      → Alike fb0 fb
      → AllBright pixels
      → (r : FrameBuffer × Option FramebufferError) × (draw_iter fb pixels ≡ some r) × Alike fb0 r.0
  unfolding draw_iter AllBright
  draw_iter-Alike fb [] alike bright = ((fb, none), refl, alike)
  draw_iter-Alike fb (p ∷ pixels) alike (color, bright) =
      elim (Bool-cases (is_negative p.x || is_negative p.y)) [
        | inl below ↦
            (let (r, e, a) = draw_iter-Alike fb pixels alike bright in
              (r, rw (draw_iter, below) e, a))
        | inr inside ↦ elim (write_pixel-cases fb (as_u32 p.x) (as_u32 p.y) p.color alike color) [
          | inl outside ↦ ((fb, some out_of_bounds), rw (draw_iter, inside, outside) refl, alike)
          | inr (word, e) ↦
              (let next = write_unchecked fb (as_u32 p.x) (as_u32 p.y) word in
                let (r, f, a) =
                  draw_iter-Alike next pixels
                    (write-Alike fb0 fb (as_u32 p.x) (as_u32 p.y) word alike) bright in
                (r, rw (draw_iter, inside, e) f, a))
        ]
      ]
