-- ===== src/Tests/Video.antt =====
-- Tests of the framebuffer and of the font.
use ferric_k.Base.{
  ℕ, ◌+◌, ◌*◌, ◌/◌, ◌≤◌, ◌≡◌, ◌↔◌, ◌⊎◌, ◌^◌, refl, arith, true, false, ◌&&◌, Option, none, some,
  List, [], ◌∷◌, ltb, leb, ◌==◌, if◌then◌else◌,
}
use ferric_k.Base.Checked.{done, failed, fits_in, shift_left}
use ferric_k.Api.Keys.{rgb}
use ferric_k.Video.Framebuffer.{
  Surface, ChannelMask, FrameLayout, FrameBuffer, write_unchecked, read_raw_pixel, from_layout, new,
  ones, bit_mask, apart, disjoint_masks, accept, fill_rect, encode, unsupported_layout,
}
use ferric_k.Video.Framebuffer.Capture.{Captured, from_layout-Captured}
use ferric_k.Video.Framebuffer.Pixels.{read-write, offset_of-bound}
use ferric_k.Video.Framebuffer.Fill.{fill_rect-read}
use ferric_k.Video.Framebuffer.Bars.{draw_color_bars, verify_color_bars}
use ferric_k.Video.Framebuffer.Bars.Test.{draw_color_bars-verify_color_bars}
use ferric_k.Video.Font.{
  Font, parse, parse_psf2, parse_rest, build_psf2, within, glyphs_end, psf2_font, u16le, u32le,
  glyph_pixel, unicode_lookup_v1, unicode_lookup_v2, answered, overflowed, decode_utf8,
}
use ferric_k.Video.Font.Parse.{AllBytes-all_bytes}
use ferric_k.Video.Font.Glyphs.{parse-glyph_pixel}
use ferric_k.Video.Font.Utf8.{decode_utf8-utf8}
use ferric_k.Video.Font.Table.{Entry, print, unicode_lookup_v1-print}
use ferric_k.Video.Font.Walk.{unicode_lookup_v2-ends}

abbrev pub dark : Surface
dark o = 0

abbrev mask : ℕ → ChannelMask
mask shift = record { size = 8; shift = shift }

-- Four columns and three rows of 32 bits, with four bytes behind each row.
abbrev pub layout : FrameLayout
layout = record {
  ptr = 4096;
  width = 4;
  height = 3;
  pitch = 20;
  bpp = 32;
  red = mask 16;
  green = mask 8;
  blue = mask 0;
}

abbrev small : FrameBuffer
small = record {
  surface = dark;
  width = 4;
  height = 3;
  pitch = 20;
  bytes_per_pixel = 4;
  red = mask 16;
  green = mask 8;
  blue = mask 0;
}

captures : from_layout dark layout ≡ done small
unfolding from_layout new disjoint_masks apart bit_mask ones shift_left accept
captures = refl

-- Rows of fifteen bytes do not hold four pixels of four.
refuses_short_rows : from_layout dark (record layout { pitch = 15 }) ≡ failed unsupported_layout
unfolding from_layout new disjoint_masks apart bit_mask ones shift_left accept
refuses_short_rows = refl

small-Captured : Captured small
small-Captured = from_layout-Captured dark layout small captures

read-write_example :
    read_raw_pixel (write_unchecked small 1 2 0xABCDEF) 1 2
    ≡ (if (1 == 1) && (2 == 2) then some 0xABCDEF else read_raw_pixel small 1 2)
read-write_example =
    read-write small small-Captured 1 2 0xABCDEF 1 2 (omega arith) (omega arith) (omega arith)

last_pixel : (3 * 4 + 4 ≤ 20) × (2 * 20 + 3 * 4 + 4 ≤ 20 * 3)
last_pixel = offset_of-bound small small-Captured 3 2 (omega arith) (omega arith)

fill_rect-read_example :
    (fb' : FrameBuffer) × (word : ℕ) × (encode small (rgb 1 2 255) ≡ some word)
    × (fill_rect small 1 1 2 2 (rgb 1 2 255) ≡ done fb')
    × ((a b : ℕ)
        → read_raw_pixel fb' a b ≡ (
            if (leb 1 b && ltb b 3) && (leb 1 a && ltb a 3)
            then some word
            else read_raw_pixel small a b))
fill_rect-read_example =
    fill_rect-read small 1 1 2 2 (rgb 1 2 255) small-Captured
      (omega arith, omega arith, omega arith) (omega arith, omega arith, omega arith) (omega arith)
      (omega arith) (omega arith) (omega arith)

-- A font of one glyph of sixteen columns and one row, which says that the glyph has one byte.
abbrev wide_bytes : List ℕ
wide_bytes =
    0x72 ∷ 0xb5 ∷ 0x4a ∷ 0x86 ∷ 0 ∷ 0 ∷ 0 ∷ 0 ∷ 32 ∷ 0 ∷ 0 ∷ 0 ∷ 0 ∷ 0 ∷ 0 ∷ 0 ∷ 1 ∷ 0 ∷ 0 ∷ 0 ∷ 1
    ∷ 0 ∷ 0 ∷ 0 ∷ 1 ∷ 0 ∷ 0 ∷ 0 ∷ 16 ∷ 0 ∷ 0 ∷ 0 ∷ 0x80 ∷ []

abbrev wide : Font
wide = psf2_font wide_bytes 32 0 1 1 1 16 33

wide_parses : parse wide_bytes ≡ done wide
unfolding parse parse_rest parse_psf2 build_psf2 within glyphs_end u16le u32le fits_in
wide_parses = refl

parse-glyph_pixel_example : (glyph_pixel wide 0 8 0 ≡ none) ↔ (1 ≤ 0 * 1 + 8 / 8)
parse-glyph_pixel_example =
    parse-glyph_pixel wide_bytes wide 0 8 0 (AllBytes-all_bytes wide_bytes refl) wide_parses
      (omega arith) (omega arith) (omega arith)

decode_utf8-utf8_example : decode_utf8 (0xE2 ∷ 0x82 ∷ 0xAC ∷ 0x41 ∷ []) ≡ some (0x20AC, 3)
decode_utf8-utf8_example = decode_utf8-utf8 0x20AC (0x41 ∷ []) (omega arith)

-- Two glyphs: `A`, also in the sequence `B`, `C`; and `B`.
abbrev entries : List Entry
entries =
    record { codes = 0x41 ∷ []; sequences = (0x42 ∷ 0x43 ∷ []) ∷ [] }
    ∷ record { codes = 0x42 ∷ []; sequences = [] }
    ∷ []

unicode_lookup_v1-print_example : unicode_lookup_v1 (print entries []) false 0 2 0x42 ≡ some 1
unicode_lookup_v1-print_example =
    unicode_lookup_v1-print 2 0x42 entries 0
      ((omega arith, tt), ((omega arith, (omega arith, tt)), tt), ((omega arith, tt), tt, tt))
      (omega arith)

unicode_lookup_v2-ends_example :
    ((r : Option ℕ) × (unicode_lookup_v2 3 (0xFE ∷ 0x41 ∷ 0xFF ∷ []) 0 0x42 ≡ answered r))
    ⊎ ((unicode_lookup_v2 3 (0xFE ∷ 0x41 ∷ 0xFF ∷ []) 0 0x42 ≡ overflowed) × (2 ^ 32 ≤ 0 + 3))
unicode_lookup_v2-ends_example =
    unicode_lookup_v2-ends 3 (0xFE ∷ 0x41 ∷ 0xFF ∷ []) 0 0x42 (omega arith)

-- Seven columns and a row.
abbrev pub strip : FrameBuffer
strip = record {
  surface = dark;
  width = 7;
  height = 1;
  pitch = 28;
  bytes_per_pixel = 4;
  red = mask 16;
  green = mask 8;
  blue = mask 0;
}

captures_strip : from_layout dark (record layout { width = 7; height = 1; pitch = 28 }) ≡ done strip
unfolding from_layout new disjoint_masks apart bit_mask ones shift_left accept
captures_strip = refl

pub strip-Captured : Captured strip
strip-Captured =
    from_layout-Captured dark (record layout { width = 7; height = 1; pitch = 28 }) strip
      captures_strip

draw_color_bars-verify_color_bars_example :
    (fb : FrameBuffer) × (draw_color_bars strip ≡ some (fb, true))
    × (verify_color_bars fb ≡ some true)
draw_color_bars-verify_color_bars_example =
    draw_color_bars-verify_color_bars strip strip-Captured (omega arith, omega arith, omega arith)
      (omega arith) (omega arith) (omega arith)
