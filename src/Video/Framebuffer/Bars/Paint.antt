-- ===== src/Video/Framebuffer/Bars/Paint.antt =====
-- Drawing the bars.
use ferric_k.Base.{
  ℕ, ◌+◌, ◌-◌, ◌*◌, ◌<◌, ◌≤◌, ◌≡◌, refl, ◌∙◌, sym, subst, arith, true, false, some, List, [], ◌∷◌,
  ltb, leb, ◌&&◌, length,
}
use native.Mathlib.Nat.{mul-le-mul_right}
use ferric_k.Base.Checked.{done}
use ferric_k.Api.Keys.{Rgb}
use ferric_k.Video.Framebuffer.{FrameBuffer, fill_rect, encode, read_raw_pixel}
use ferric_k.Video.Framebuffer.Capture.{Captured}
use ferric_k.Video.Framebuffer.Fill.{Alike, self-Alike, Filled, fill_rect-Filled}
use ferric_k.Video.Framebuffer.Bars.{bar_start, draw_bars}

-- Channels of at most 56 bits.
abbrev pub Narrow : FrameBuffer → Type 0
Narrow fb = (fb.red.size ≤ 56) × (fb.green.size ≤ 56) × (fb.blue.size ≤ 56)

unfoldable pub AllBytes : List Rgb → Type 0
AllBytes [] = Unit
AllBytes (color ∷ colors) = ((color.r < 256) × (color.g < 256) × (color.b < 256)) × AllBytes colors

encode-Alike :
    (fb fb' : FrameBuffer) (color : Rgb) → Alike fb fb' → encode fb' color ≡ encode fb color
unfolding encode
encode-Alike fb fb' color a = rw (a.red, a.green, a.blue) refl

-- A bar that reads as its color from top to bottom.
pub record Painted (fb : FrameBuffer) (index : ℕ) (color : Rgb) : Type 0 where
  pub word : ℕ
  pub encoded : encode fb color ≡ some word
  pub reads :
      (a b : ℕ)
      → bar_start index fb.width ≤ a
      → a < bar_start (index + 1) fb.width
      → b < fb.height
      → read_raw_pixel fb a b ≡ some word

unfoldable pub AllPainted : FrameBuffer → (index : ℕ) → List Rgb → Type 0
AllPainted fb index [] = Unit
AllPainted fb index (color ∷ colors) = Painted fb index color × AllPainted fb (index + 1) colors

pub record Drawn (fb : FrameBuffer) (colors : List Rgb) (index : ℕ) : Type 0 where
  pub next : FrameBuffer
  pub returned : draw_bars colors index fb ≡ some (next, true)
  pub alike : Alike fb next
  pub before :
      (a b : ℕ) → a < bar_start index fb.width → read_raw_pixel next a b ≡ read_raw_pixel fb a b
  pub painted : AllPainted next index colors

-- A bar on a surface of at least seven columns has a column.
pub bar_start-less :
    (index width : ℕ) → 7 ≤ width → bar_start index width < bar_start (index + 1) width
bar_start-less index width wide = omega (arith, wide)

bar_start-inside : (index width : ℕ) → index < 7 → bar_start (index + 1) width ≤ width
bar_start-inside index width lt =
    let le : (index + 1) * width ≤ 7 * width = mul-le-mul_right width (omega arith) in
    omega (arith, le)

trans-Alike : (fb g h : FrameBuffer) → Alike fb g → Alike g h → Alike fb h
trans-Alike fb g h a b = record {
  valid = b.valid;
  width = b.width ∙ a.width;
  height = b.height ∙ a.height;
  bytes = b.bytes ∙ a.bytes;
  red = b.red ∙ a.red;
  green = b.green ∙ a.green;
  blue = b.blue ∙ a.blue;
}

draw_bars_step :
    (color : Rgb) (colors : List Rgb) (index : ℕ) (fb fb' : FrameBuffer)
    → fill_rect fb
        (bar_start index fb.width)
        0
        (bar_start (index + 1) fb.width - bar_start index fb.width)
        fb.height
        color
      ≡ done fb'
    → draw_bars (color ∷ colors) index fb ≡ draw_bars colors (index + 1) fb'
unfolding draw_bars
draw_bars_step color colors index fb fb' e = rw (draw_bars, e) refl

-- The pixels in front of a filled rectangle of full height, and the pixels in it.
module _ (fb : FrameBuffer) (start end : ℕ) (color : Rgb) (less : start < end)
    (f : Filled fb start 0 (end - start) fb.height color) where
  filled_before : (a b : ℕ) → a < start → read_raw_pixel f.next a b ≡ read_raw_pixel fb a b
  filled_before a b lt =
      let out : (leb 0 b && ltb b (0 + fb.height)) && (leb start a && ltb a (start + (end - start)))
          ≡ false =
        ground (arith, lt) in
      f.reads a b ∙ rw out refl

  filled_inside :
      (a b : ℕ) → start ≤ a → a < end → b < fb.height → read_raw_pixel f.next a b ≡ some f.word
  filled_inside a b from below high =
      let there : (leb 0 b && ltb b (0 + fb.height))
            && (leb start a && ltb a (start + (end - start)))
          ≡ true =
        ground (arith, from, below, high, less) in
      f.reads a b ∙ rw there refl

-- A bar painted, and the bars behind it.
paint-Drawn :
    (color : Rgb) (colors : List Rgb) (index : ℕ) (fb : FrameBuffer)
    → 7 ≤ fb.width
    → (f : Filled fb
        (bar_start index fb.width)
        0
        (bar_start (index + 1) fb.width - bar_start index fb.width)
        fb.height
        color)
    → Drawn f.next colors (index + 1)
    → Drawn fb (color ∷ colors) index
unfolding AllPainted
paint-Drawn color colors index fb wide f rest =
    let start = bar_start index fb.width in
    let end = bar_start (index + 1) fb.width in
    let less : start < end = bar_start-less index fb.width wide in
    let all = trans-Alike fb f.next rest.next f.alike rest.alike in
    let same : (a b : ℕ) → a < end → read_raw_pixel rest.next a b ≡ read_raw_pixel f.next a b =
      λ a b lt. rest.before a b (subst (λ w. a < bar_start (index + 1) w) (sym f.alike.width) lt) in
    record {
      next = rest.next;
      returned = draw_bars_step color colors index fb f.next f.returned ∙ rest.returned;
      alike = all;
      before = λ a b lt.
          same a b (omega (arith, lt, less)) ∙ filled_before fb start end color less f a b lt;
      painted = (
        record {
          word = f.word;
          encoded = encode-Alike fb rest.next color all ∙ f.encoded;
          reads = λ a b from below high.
              let from' = subst (λ w. bar_start index w ≤ a) all.width from in
              let below' = subst (λ w. a < bar_start (index + 1) w) all.width below in
              same a b below'
              ∙ filled_inside fb start end color less f a b from' below'
                  (subst (λ h. b < h) all.height high);
        },
        rest.painted,
      );
    }

pub draw_bars-Drawn :
    (colors : List Rgb) (index : ℕ) (fb : FrameBuffer)
    → Captured fb
    → Narrow fb
    → AllBytes colors
    → index + length colors ≤ 7
    → 7 ≤ fb.width
    → 0 < fb.height
    → Drawn fb colors index
unfolding draw_bars AllBytes AllPainted
draw_bars-Drawn [] index fb valid narrow bytes few wide high = record {
  next = fb;
  returned = refl;
  alike = self-Alike fb valid;
  before = λ a b lt. refl;
  painted = tt;
}
draw_bars-Drawn (color ∷ colors) index fb valid narrow bytes few wide high =
    let start = bar_start index fb.width in
    let end = bar_start (index + 1) fb.width in
    let less : start < end = bar_start-less index fb.width wide in
    let inside : end ≤ fb.width = bar_start-inside index fb.width (omega (arith, few)) in
    let f =
      fill_rect-Filled fb start 0 (end - start) fb.height color valid narrow bytes.0
        (omega (arith, less)) high (omega (arith, less, inside)) (omega arith) in
    let still : Narrow f.next = rw (f.alike.red, f.alike.green, f.alike.blue) narrow in
    let rest =
      draw_bars-Drawn colors (index + 1) f.next f.alike.valid still bytes.1 (omega (arith, few))
        (omega (arith, wide, f.alike.width)) (omega (arith, high, f.alike.height)) in
    paint-Drawn color colors index fb wide f rest
