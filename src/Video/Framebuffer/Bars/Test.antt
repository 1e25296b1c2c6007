-- ===== src/Video/Framebuffer/Bars/Test.antt =====
-- The bars that are drawn pass the test.
use ferric_k.Base.{
  ℕ, ◌+◌, ◌-◌, ◌*◌, ◌/◌, ◌^◌, ◌<◌, ◌≤◌, ◌≡◌, refl, arith, true, false, some, List, [], ◌∷◌, ◌==◌,
}
use ferric_k.Base.Checked.{fits_in, fits_in_small}
use ferric_k.Api.Keys.{Rgb}
use ferric_k.Video.Framebuffer.{FrameBuffer}
use ferric_k.Video.Framebuffer.Capture.{Captured}
use ferric_k.Video.Framebuffer.Bars.Paint.{
  Narrow, AllBytes, Painted, AllPainted, bar_start-less, draw_bars-Drawn,
}
use ferric_k.Video.Framebuffer.Bars.{
  bar_colors, bar_start, draw_color_bars, verify_column, verify_bars, verify_color_bars,
}

AllRows : FrameBuffer → List ℕ → Type 0
AllRows fb [] = Unit
AllRows fb (y ∷ ys) = (y < fb.height) × AllRows fb ys

verify_column-Painted :
    (fb : FrameBuffer) (x index : ℕ) (color : Rgb) (ys : List ℕ)
    → Painted fb index color
    → bar_start index fb.width ≤ x
    → x < bar_start (index + 1) fb.width
    → AllRows fb ys
    → verify_column fb x color ys ≡ some true
unfolding verify_column AllRows
verify_column-Painted fb x index color [] p from below rows = refl
verify_column-Painted fb x index color (y ∷ ys) p from below rows =
    rw (p.encoded, p.reads x y from below rows.0, itself p.word)
      (verify_column-Painted fb x index color ys p from below rows.1)
  where
    itself : (n : ℕ) → (n == n) ≡ true
    itself n = ground arith

verify_bars-AllPainted :
    (colors : List Rgb) (index : ℕ) (fb : FrameBuffer) (ys : List ℕ)
    → 7 ≤ fb.width
    → AllPainted fb index colors
    → AllRows fb ys
    → verify_bars colors index fb ys ≡ some true
unfolding verify_bars AllPainted
verify_bars-AllPainted [] index fb ys wide painted rows = refl
verify_bars-AllPainted (color ∷ colors) index fb ys wide painted rows =
    let start = bar_start index fb.width in
    let end = bar_start (index + 1) fb.width in
    let less : start < end = bar_start-less index fb.width wide in
    let center = start + (end - start) / 2 in
    rw
      (verify_column-Painted fb center index color ys painted.0 (omega arith) (omega (arith, less))
        rows)
      (verify_bars-AllPainted colors (index + 1) fb ys wide painted.1 rows)

-- On a captured surface of at least seven columns and of some rows, fewer than 2^32 / 3, the bars are
-- drawn, and the test that reads them back then passes. Channels have at most 56 bits.
pub draw_color_bars-verify_color_bars :
    (fb : FrameBuffer)
    → Captured fb
    → Narrow fb
    → 7 ≤ fb.width
    → 0 < fb.height
    → fb.height * 3 < 2 ^ 32
    → (fb' : FrameBuffer) × (draw_color_bars fb ≡ some (fb', true))
      × (verify_color_bars fb' ≡ some true)
unfolding verify_color_bars AllBytes AllRows
draw_color_bars-verify_color_bars fb valid narrow wide high short =
    let on : 255 < 256 = omega arith in
    let off : 0 < 256 = omega arith in
    let bytes : AllBytes bar_colors = (
      (on, on, on),
      (
        (on, on, off),
        ((off, on, on), ((off, on, off), ((on, off, on), ((on, off, off), ((off, off, on), tt))))),
      ),
    ) in
    let d = draw_bars-Drawn bar_colors 0 fb valid narrow bytes (omega arith) wide high in
    let tall : (d.next.height == 0) ≡ false = ground (arith, d.alike.height, high) in
    let three : fits_in 32 (d.next.height * 3) ≡ some (d.next.height * 3) =
      fits_in_small 32 (d.next.height * 3) (omega (arith, d.alike.height, short)) in
    (
      d.next,
      d.returned,
      rw (tall, three)
          (verify_bars-AllPainted bar_colors 0 d.next _ (omega (arith, wide, d.alike.width))
            d.painted
            (
              omega (arith, high, d.alike.height),
              (omega (arith, high, d.alike.height), (omega (arith, high, d.alike.height), tt)),
            )),
    )
