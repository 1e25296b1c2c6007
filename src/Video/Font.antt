-- ===== src/Video/Font.antt =====
-- `Font` of crates/ferric-safe-core/src/font.rs: parsing a PC screen font, the pixels of a glyph and
-- the Unicode tables. A font's bytes are a list; a read or a slice out of range panics, which is the
-- outer `none` where the source returns an option itself.
pub mod Utf8
pub mod Parse
pub mod Glyphs
pub mod Table
pub mod Walk
use ferric_k.Base.{
  ℕ, zero, suc, ◌+◌, ◌-◌, ◌*◌, ◌/◌, ◌%◌, ◌^◌, bit_and, bit_or, bit_xor, Bool, true, false, ◌&&◌,
  ◌||◌, not, Option, none, some, List, [], ◌∷◌, length, get_elem?, take, drop, ltb, leb, ◌==◌,
  if◌then◌else◌,
}
use ferric_k.Base.Checked.{Outcome, done, failed, panicked, ◌>>=◌, and_then, or_panic, fits_in}

pub data FontError : Type 0 where
  too_short corrupt : FontError

unfoldable pub u16le : List ℕ → (at : ℕ) → Option ℕ
u16le b at =
    and_then (get_elem? b at)
      (λ low. and_then (get_elem? b (at + 1)) (λ high. some (low + 256 * high)))

unfoldable pub u32le : List ℕ → (at : ℕ) → Option ℕ
u32le b at =
    and_then (u16le b at) (λ low. and_then (u16le b (at + 2)) (λ high. some (low + 65536 * high)))

abbrev pub psf1_magic : ℕ
psf1_magic = 0x0436

abbrev pub psf1_header : ℕ
psf1_header = 4

abbrev pub psf2_magic : ℕ
psf2_magic = 0x864ab572

abbrev pub psf2_header : ℕ
psf2_header = 32

-- `bytes` is the field `data`.
pub record Font : Type 0 where
  pub bytes : List ℕ
  pub version : ℕ
  pub width : ℕ
  pub height : ℕ
  pub bytes_per_row : ℕ
  pub glyph_count : ℕ
  pub glyph_bytes : ℕ
  pub glyph_data_offset : ℕ
  pub has_unicode : Bool
  pub unicode_offset : ℕ

-- Where the glyphs end: the product panics if it overflows, the sum is an error then.
unfoldable pub glyphs_end : (offset count size : ℕ) → Outcome FontError ℕ
glyphs_end offset count size = do
  total ← or_panic (fits_in 64 (count * size))
  if ltb (offset + total) (2 ^ 64) then done (offset + total) else failed corrupt

-- The font, if its glyphs end inside the data.
unfoldable pub within : List ℕ → (end : ℕ) → Font → Outcome FontError Font
within b end font = if ltb (length b) end then failed corrupt else done font

abbrev pub psf1_font : List ℕ → (mode char_size glyph_count end : ℕ) → Font
psf1_font b mode char_size glyph_count end = record {
  bytes = b;
  version = 1;
  width = 8;
  height = char_size;
  bytes_per_row = 1;
  glyph_count = glyph_count;
  glyph_bytes = char_size;
  glyph_data_offset = psf1_header;
  has_unicode = not (bit_and mode 2 == 0);
  unicode_offset = end;
}

unfoldable pub parse_psf1 : List ℕ → Outcome FontError Font
parse_psf1 b = if ltb (length b) psf1_header then failed too_short else (do
  mode ← or_panic (get_elem? b 2)
  char_size ← or_panic (get_elem? b 3)
  let glyph_count = if not (bit_and mode 1 == 0) then 512 else 256
  end ← glyphs_end psf1_header glyph_count char_size
  within b end (psf1_font b mode char_size glyph_count end))

abbrev pub psf2_font :
    List ℕ → (headersize flags numglyph bytesperglyph height width end : ℕ) → Font
psf2_font b headersize flags numglyph bytesperglyph height width end = record {
  bytes = b;
  version = 2;
  width = width;
  height = height;
  bytes_per_row = bytesperglyph / height;
  glyph_count = numglyph;
  glyph_bytes = bytesperglyph;
  glyph_data_offset = headersize;
  has_unicode = not (bit_and flags 1 == 0);
  unicode_offset = end;
}

-- `parse_psf2` once the header's words are read.
unfoldable pub build_psf2 :
    List ℕ → (headersize flags numglyph bytesperglyph height width : ℕ) → Outcome FontError Font
build_psf2 b headersize flags numglyph bytesperglyph height width =
    if ltb headersize psf2_header
      || ((numglyph == 0) || ((bytesperglyph == 0) || ((height == 0) || (width == 0))))
    then failed corrupt
    else (do
      end ← glyphs_end headersize numglyph bytesperglyph
      within b end (psf2_font b headersize flags numglyph bytesperglyph height width end))

unfoldable pub parse_psf2 : List ℕ → Outcome FontError Font
parse_psf2 b = if ltb (length b) psf2_header then failed too_short else (do
  headersize ← or_panic (u32le b 8)
  flags ← or_panic (u32le b 12)
  numglyph ← or_panic (u32le b 16)
  bytesperglyph ← or_panic (u32le b 20)
  height ← or_panic (u32le b 24)
  width ← or_panic (u32le b 28)
  build_psf2 b headersize flags numglyph bytesperglyph height width)

-- `parse` behind the test for the first magic number.
unfoldable pub parse_rest : List ℕ → Outcome FontError Font
parse_rest b = if ltb (length b) 4 then failed corrupt else (do
  magic ← or_panic (u32le b 0)
  if magic == psf2_magic then parse_psf2 b else failed corrupt)

unfoldable pub parse : List ℕ → Outcome FontError Font
parse b = if ltb (length b) 2 then failed too_short else (do
  magic ← or_panic (u16le b 0)
  if magic == psf1_magic then parse_psf1 b else parse_rest b)

-- `&b[start..end]`
unfoldable pub slice : List ℕ → (start end : ℕ) → Option (List ℕ)
slice b start end =
    if leb start end && leb end (length b) then some (take (end - start) (drop start b)) else none

unfoldable pub glyph : Font → ℕ → Option (Option (List ℕ))
glyph font index =
    if leb font.glyph_count index
    then some none
    else and_then (fits_in 64 (font.glyph_data_offset + index * font.glyph_bytes)) (λ start.
      and_then (slice font.bytes start (start + font.glyph_bytes)) (λ bits. some (some bits)))

-- The bit of the byte at `row`, the leftmost pixel first.
unfoldable pub pixel_at : List ℕ → (row x : ℕ) → Option (Option Bool)
pixel_at bits row x =
    and_then (get_elem? bits row) (λ byte. some (some (not (bit_and byte (2 ^ (7 - x % 8)) == 0))))

unfoldable pub glyph_pixel : Font → (index x y : ℕ) → Option (Option Bool)
glyph_pixel font index x y =
    if leb font.glyph_count index || (leb font.width x || leb font.height y)
    then some none
    else and_then (fits_in 64 (y * font.bytes_per_row + x / 8)) (λ row.
      and_then (glyph font index)
        (λ bits. elim bits [ none ↦ some none | some bits ↦ pixel_at bits row x ]))

-- One 16-bit word at a time: the number of the glyph whose record names the code point; in a
-- sequence the words up to the next mark are skipped.
unfoldable pub unicode_lookup_v1 : List ℕ → (skipping : Bool) → (glyph count target : ℕ) → Option ℕ
unicode_lookup_v1 [] skipping glyph count target = none
unicode_lookup_v1 (low ∷ []) skipping glyph count target = none
unicode_lookup_v1 (low ∷ high ∷ rest) skipping glyph count target =
    let w = low + 256 * high in
    let mark = (w == 0xFFFF) || (w == 0xFFFE) in
    let skips = skipping && not mark in
    let after =
      unicode_lookup_v1 rest (skips || (w == 0xFFFE)) (if w == 0xFFFF then glyph + 1 else glyph)
        count target in
    if skips
    then after
    else (if leb count glyph
        then none
        else (if not mark && (w == target) then some glyph else after))

-- The length of the encoding that a first byte starts, and the bits that mark it.
unfoldable pub utf8_head : ℕ → ℕ × ℕ
utf8_head first =
    if ltb first 0x80
    then (1, 0)
    else (if bit_and first 0xE0 == 0xC0
        then (2, 0xC0)
        else (if bit_and first 0xF0 == 0xE0
            then (3, 0xE0)
            else (if bit_and first 0xF8 == 0xF0 then (4, 0xF0) else (1, 0x80))))

-- `(cp << 6) | (byte & 0x3F)` for each of the bytes.
unfoldable pub utf8_tail : List ℕ → ℕ → ℕ
utf8_tail [] cp = cp
utf8_tail (byte ∷ b) cp = utf8_tail b (bit_or (cp * 2 ^ 6 % 2 ^ 32) (bit_and byte 0x3F))

unfoldable pub decode_utf8 : List ℕ → Option (ℕ × ℕ)
decode_utf8 [] = none
decode_utf8 (first ∷ b) =
    let head = utf8_head first in
    if ltb (suc (length b)) head.0
    then none
    else some (utf8_tail (take (head.0 - 1) b) (bit_xor first head.1), head.0)

-- A walk answers, panics where its count of glyphs leaves 32 bits, or runs out of fuel.
pub data Walked (A : Type 0) : Type 0 where
  answered : A → Walked A
  overflowed : Walked A
  out_of_fuel : Walked A

-- The walk over the second kind of table.
unfoldable pub unicode_lookup_v2 : ℕ → List ℕ → (glyph target : ℕ) → Walked (Option ℕ)
unicode_lookup_v2 fuel [] glyph target = answered none
unicode_lookup_v2 zero (b ∷ rest) glyph target = out_of_fuel
unicode_lookup_v2 (suc fuel) (b ∷ rest) glyph target =
    let next = λ (n : ℕ) (g : ℕ). unicode_lookup_v2 fuel (drop n (b ∷ rest)) g target in
    if b == 0xFF
    then (let after = next 1 (glyph + 1) in if ltb (glyph + 1) (2 ^ 32) then after else overflowed)
    else elim (decode_utf8 (b ∷ rest)) [
      | none ↦ answered none
      | some (cp, width) ↦ if cp == target then answered (some glyph) else next width glyph
    ]

-- `self.data.get(self.unicode_offset..)?` and the lookup behind it.
unfoldable pub unicode_lookup : ℕ → Font → ℕ → Walked (Option ℕ)
unicode_lookup fuel font c =
    if ltb (length font.bytes) font.unicode_offset
    then answered none
    else (let table = drop font.unicode_offset font.bytes in
        if font.version == 1
        then answered (unicode_lookup_v1 table false 0 font.glyph_count c)
        else unicode_lookup_v2 fuel table 0 c)

unfoldable pub direct_index : Font → ℕ → Option ℕ
direct_index font c = if ltb c font.glyph_count then some c else none

-- What was found, or else the glyph with the character's number.
abbrev pub or_direct : Font → ℕ → Walked (Option ℕ) → Walked (Option ℕ)
or_direct font c (answered none) = answered (direct_index font c)
or_direct font c (answered (some glyph)) = answered (some glyph)
or_direct font c overflowed = overflowed
or_direct font c out_of_fuel = out_of_fuel

unfoldable pub glyph_index_for : ℕ → Font → ℕ → Walked (Option ℕ)
glyph_index_for fuel font c =
    if font.has_unicode
    then or_direct font c (unicode_lookup fuel font c)
    else answered (direct_index font c)
