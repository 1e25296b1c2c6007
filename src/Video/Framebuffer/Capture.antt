-- ===== src/Video/Framebuffer/Capture.antt =====
-- What `from_layout` makes sure of.
use ferric_k.Base.{
  ℕ, ◌+◌, ◌*◌, ◌/◌, ◌%◌, ◌^◌, ◌≤◌, ◌<◌, ◌≡◌, arith, Bool, ◌||◌, not, ltb, leb, ◌==◌, inl, inr,
  Bool-cases,
}
use ferric_k.Base.Checked.{done, Ensures, Ensures-bind, Ensures-done, Ensures-or_panic}
use ferric_k.Video.Framebuffer.{
  FramebufferError, ChannelMask, FrameLayout, FrameBuffer, Surface, new, disjoint_masks, accept,
  from_layout,
}

-- The mask is not empty and lies inside so many bits.
abbrev pub Inside : ℕ → ChannelMask → Type 0
Inside bits mask = (1 ≤ mask.size) × (mask.shift + mask.size ≤ bits)

-- A pixel has at most eight bytes, a row holds its pixels, the surface's size does not overflow, and
-- the channels lie inside a pixel.
pub record Captured (fb : FrameBuffer) : Type 0 where
  pub some_bytes : 1 ≤ fb.bytes_per_pixel
  pub few_bytes : fb.bytes_per_pixel ≤ 8
  pub row : fb.width * fb.bytes_per_pixel ≤ fb.pitch
  pub total : fb.pitch * fb.height < 2 ^ 64
  pub red_inside : Inside (8 * fb.bytes_per_pixel) fb.red
  pub green_inside : Inside (8 * fb.bytes_per_pixel) fb.green
  pub blue_inside : Inside (8 * fb.bytes_per_pixel) fb.blue

new-Inside : (size shift bpp : ℕ) → Ensures (Inside bpp) (new size shift bpp)
unfolding new
new-Inside size shift bpp = elim (Bool-cases ((size == 0) || ltb bpp (shift + size))) [
  | inl bad ↦ rw bad tt
  | inr good ↦ rw good (ground (arith, good), ground (arith, good))
]

module _ (s : Surface) (layout : FrameLayout) where
  accept-Captured :
      (red green blue : ChannelMask) (disjoint : Bool)
      → 8 ≤ layout.bpp
      → layout.bpp ≤ 64
      → layout.bpp % 8 ≡ 0
      → Inside layout.bpp red
      → Inside layout.bpp green
      → Inside layout.bpp blue
      → Ensures Captured (accept s layout red green blue disjoint)
  unfolding accept
  accept-Captured red green blue disjoint low high whole r g b =
      let n = layout.bpp / 8 in
      let bits : 8 * n ≡ layout.bpp = omega arith in
      elim (Bool-cases (
        not disjoint
        || (ltb layout.pitch (layout.width * n) || leb (2 ^ 64) (layout.pitch * layout.height)))) [
          | inl bad ↦ rw bad tt
          | inr good ↦ rw good record {
            some_bytes = omega arith;
            few_bytes = omega arith;
            row = ground (arith, good);
            total = ground (arith, good);
            red_inside = (r.0, omega (arith, r.1));
            green_inside = (g.0, omega (arith, g.1));
            blue_inside = (b.0, omega (arith, b.1));
          }
        ]

  from_layout-Ensures : Ensures Captured (from_layout s layout)
  unfolding from_layout
  from_layout-Ensures =
      elim (Bool-cases ((layout.bpp == 0) || (not (layout.bpp % 8 == 0) || ltb 64 layout.bpp))) [
        | inl bad ↦ rw bad tt
        | inr good ↦
            (let low : 8 ≤ layout.bpp = ground (arith, good) in
              let high : layout.bpp ≤ 64 = ground (arith, good) in
              let whole : layout.bpp % 8 ≡ 0 = ground (arith, good) in
              rw good (
                Ensures-bind _ Captured _ _ (new-Inside layout.red.size layout.red.shift layout.bpp)
                  (λ red r.
                    Ensures-bind _ Captured _ _
                      (new-Inside layout.green.size layout.green.shift layout.bpp)
                      (λ green g.
                        Ensures-bind _ Captured _ _
                          (new-Inside layout.blue.size layout.blue.shift layout.bpp)
                          (λ blue b.
                            Ensures-bind _ Captured _ _
                              (Ensures-or_panic FramebufferError (disjoint_masks red green blue))
                              (λ disjoint e.
                                accept-Captured red green blue disjoint low high whole r g b))))))
      ]

  pub from_layout-Captured : (fb : FrameBuffer) → from_layout s layout ≡ done fb → Captured fb
  from_layout-Captured fb e = Ensures-done Captured (from_layout s layout) fb e from_layout-Ensures
