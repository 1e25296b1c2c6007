-- ===== src/Video/Framebuffer.antt =====
-- `FrameBuffer` of crates/ferric-unsafe-core/src/framebuffer.rs: a linear surface of pixels whose
-- layout the loader gives. The surface is a function from the offsets of its bytes, from `ptr` on, to
-- their values. Arithmetic on a captured surface does not overflow, and is written plainly.
pub mod Capture
pub mod Bytes
pub mod Pixels
pub mod Encode
pub mod Fill
pub mod Bars
use ferric_k.Base.{
  ℕ, zero, suc, ◌+◌, ◌-◌, ◌*◌, ◌/◌, ◌%◌, ◌^◌, bit_and, bit_or, Bool, true, false, ◌&&◌, ◌||◌, not,
  Option, none, some, ltb, leb, ◌==◌, if◌then◌else◌, min,
}
use ferric_k.Base.Checked.{
  Outcome, done, failed, panicked, ◌>>=◌, and_then, or_panic, fits_in, shift_left,
}
use ferric_k.Api.Keys.{Rgb}

pub data FramebufferError : Type 0 where
  not_rgb unsupported_layout out_of_bounds : FramebufferError

pub record ChannelMask : Type 0 where
  pub size : ℕ
  pub shift : ℕ

unfoldable pub new : (size shift bpp : ℕ) → Outcome FramebufferError ChannelMask
new size shift bpp =
    if (size == 0) || ltb bpp (shift + size)
    then failed unsupported_layout
    else done record { size = size; shift = shift }

-- `(1 << size) - 1`
unfoldable pub ones : ℕ → Option ℕ
ones size = and_then (shift_left 1 size) (λ p. some (p - 1))

unfoldable pub bit_mask : ChannelMask → Option ℕ
bit_mask mask = and_then (ones mask.size) (λ bits. shift_left bits mask.shift)

unfoldable pub apart : (a b : ChannelMask) → Option Bool
apart a b = and_then (bit_mask a) (λ x. and_then (bit_mask b) (λ y. some (bit_and x y == 0)))

-- `&&` does not look at the masks behind two that meet.
unfoldable pub disjoint_masks : (red green blue : ChannelMask) → Option Bool
disjoint_masks red green blue = and_then (apart red green) (λ first.
    if first
    then and_then (apart green blue) (λ second. if second then apart blue red else some false)
    else some false)

-- The loader's description of a surface; its fields are bytes, 16-bit and 64-bit words.
pub record LimineFramebuffer : Type 0 where
  pub address : ℕ
  pub width : ℕ
  pub height : ℕ
  pub pitch : ℕ
  pub bpp : ℕ
  pub memory_model : ℕ
  pub red : ChannelMask
  pub green : ChannelMask
  pub blue : ChannelMask

pub record FrameLayout : Type 0 where
  pub ptr : ℕ
  pub width : ℕ
  pub height : ℕ
  pub pitch : ℕ
  pub bpp : ℕ
  pub red : ChannelMask
  pub green : ChannelMask
  pub blue : ChannelMask

abbrev pub memory_model_rgb : ℕ
memory_model_rgb = 1

abbrev pub is_rgb : LimineFramebuffer → Bool
is_rgb source = source.memory_model == memory_model_rgb

unfoldable pub from_limine : LimineFramebuffer → Outcome FramebufferError FrameLayout
from_limine source =
    if not (is_rgb source)
    then failed not_rgb
    else (if (source.address == 0)
          || ((source.width == 0)
              || ((source.height == 0)
                  || (leb (2 ^ 32) source.width
                      || (leb (2 ^ 32) source.height || (source.pitch == 0)))))
        then failed unsupported_layout
        else done record {
          ptr = source.address;
          width = source.width;
          height = source.height;
          pitch = source.pitch;
          bpp = source.bpp;
          red = source.red;
          green = source.green;
          blue = source.blue;
        })

abbrev pub Surface : Type 0
Surface = ℕ → ℕ

pub record FrameBuffer : Type 0 where
  pub surface : Surface
  pub width : ℕ
  pub height : ℕ
  pub pitch : ℕ
  pub bytes_per_pixel : ℕ
  pub red : ChannelMask
  pub green : ChannelMask
  pub blue : ChannelMask

-- The last test of `from_layout`, and the surface that it captures.
unfoldable pub accept :
    Surface
    → FrameLayout
    → (red green blue : ChannelMask) → (disjoint : Bool) → Outcome FramebufferError FrameBuffer
accept surface layout red green blue disjoint =
    let bytes_per_pixel = layout.bpp / 8 in
    if not disjoint
      || (ltb layout.pitch (layout.width * bytes_per_pixel)
          || leb (2 ^ 64) (layout.pitch * layout.height))
    then failed unsupported_layout
    else done record {
      surface = surface;
      width = layout.width;
      height = layout.height;
      pitch = layout.pitch;
      bytes_per_pixel = bytes_per_pixel;
      red = red;
      green = green;
      blue = blue;
    }

-- `from_layout`; the surface is the memory behind the layout's pointer.
unfoldable pub from_layout : Surface → FrameLayout → Outcome FramebufferError FrameBuffer
from_layout surface layout =
    if (layout.bpp == 0) || (not (layout.bpp % 8 == 0) || ltb 64 layout.bpp)
    then failed unsupported_layout
    else (do
      red ← new layout.red.size layout.red.shift layout.bpp
      green ← new layout.green.size layout.green.shift layout.bpp
      blue ← new layout.blue.size layout.blue.shift layout.bpp
      disjoint ← or_panic (disjoint_masks red green blue)
      accept surface layout red green blue disjoint)

unfoldable pub capture : Surface → LimineFramebuffer → Outcome FramebufferError FrameBuffer
capture surface source = do layout ← from_limine source; from_layout surface layout

unfoldable pub encode_channel : ChannelMask → ℕ → Option ℕ
encode_channel mask value =
    and_then (ones mask.size) (λ max.
      and_then (fits_in 64 (value * max)) (λ product. shift_left (product / 255) mask.shift))

unfoldable pub encode : FrameBuffer → Rgb → Option ℕ
encode fb color = and_then (encode_channel fb.red color.r) (λ r.
    and_then (encode_channel fb.green color.g)
      (λ g. and_then (encode_channel fb.blue color.b) (λ b. some (bit_or (bit_or r g) b))))

unfoldable pub poke : Surface → ℕ → ℕ → Surface
poke s at value = λ offset. if offset == at then value else s offset

-- A store of so many little-endian bytes.
unfoldable pub store : (n : ℕ) → Surface → (offset pixel : ℕ) → Surface
store zero s offset pixel = s
store (suc n) s offset pixel = store n (poke s offset (pixel % 256)) (offset + 1) (pixel / 256)

abbrev pub offset_of : FrameBuffer → (x y : ℕ) → ℕ
offset_of fb x y = y * fb.pitch + x * fb.bytes_per_pixel

-- `write_unchecked`: one store of 8, 4 or 2 bytes, or a store for each byte.
unfoldable pub write_unchecked : FrameBuffer → (x y pixel : ℕ) → FrameBuffer
write_unchecked fb x y pixel =
    let offset = offset_of fb x y in
    let n = fb.bytes_per_pixel in
    record fb {
      surface =
          if n == 8
          then store 8 fb.surface offset pixel
          else (if n == 4
              then store 4 fb.surface offset (pixel % 2 ^ 32)
              else (if n == 2
                  then store 2 fb.surface offset (pixel % 2 ^ 16)
                  else store (min n 8) fb.surface offset pixel));
    }

unfoldable pub write_word : FrameBuffer → (x y word : ℕ) → Outcome FramebufferError FrameBuffer
write_word fb x y word =
    if leb fb.width x || leb fb.height y
    then failed out_of_bounds
    else done (write_unchecked fb x y word)

unfoldable pub write_pixel : FrameBuffer → (x y : ℕ) → Rgb → Outcome FramebufferError FrameBuffer
write_pixel fb x y color =
    if leb fb.width x || leb fb.height y
    then failed out_of_bounds
    else (do word ← or_panic (encode fb color); done (write_unchecked fb x y word))

-- The first `n` pixels of a row of the rectangle, and its first `n` rows.
unfoldable pub fill_row : (n : ℕ) → FrameBuffer → (x y pixel : ℕ) → FrameBuffer
fill_row zero fb x y pixel = fb
fill_row (suc n) fb x y pixel = write_unchecked (fill_row n fb x y pixel) (x + n) y pixel

unfoldable pub fill_rows : (n : ℕ) → FrameBuffer → (x y w pixel : ℕ) → FrameBuffer
fill_rows zero fb x y w pixel = fb
fill_rows (suc n) fb x y w pixel = fill_row w (fill_rows n fb x y w pixel) x (y + n) pixel

unfoldable pub fill_rect : FrameBuffer → (x y w h : ℕ) → Rgb → Outcome FramebufferError FrameBuffer
fill_rect fb x y w h color =
    if (w == 0) || ((h == 0) || (ltb fb.width (x + w) || ltb fb.height (y + h)))
    then failed out_of_bounds
    else (do word ← or_panic (encode fb color); done (fill_rows h fb x y w word))

-- `pixel |= byte << (8 * i)` for the bytes from `i` on.
unfoldable pub gather : (n : ℕ) → Surface → (offset i pixel : ℕ) → ℕ
gather zero s offset i pixel = pixel
gather (suc n) s offset i pixel =
    gather n s offset (i + 1) (bit_or pixel (s (offset + i) * 2 ^ (8 * i) % 2 ^ 64))

unfoldable pub read_raw_pixel : FrameBuffer → (x y : ℕ) → Option ℕ
read_raw_pixel fb x y =
    if leb fb.width x || leb fb.height y
    then none
    else some (gather fb.bytes_per_pixel fb.surface (offset_of fb x y) 0 0)
