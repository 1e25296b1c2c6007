-- ===== src/Video/Framebuffer/Encode.antt =====
-- The pixel word of a color.
use ferric_k.Base.{
  ℕ, zero, suc, ◌+◌, ◌-◌, ◌*◌, ◌/◌, ◌%◌, ◌^◌, ◌≤◌, ◌<◌, ◌≡◌, refl, subst, arith, bit_or, some,
  lt→ltb,
}
use native.Mathlib.Nat.{mul-le-mul_right, pow-le-pow_right, one-le-pow}
use ferric_k.Base.Bits.{bit_or-lt, pow-add, two_pow-bytes}
use ferric_k.Base.Checked.{fits_in_small, shift_left}
use ferric_k.Api.Keys.{Rgb}
use ferric_k.Video.Framebuffer.{ChannelMask, FrameBuffer, ones, encode_channel, encode}
use ferric_k.Video.Framebuffer.Capture.{Captured, Inside}

shift_left_small : (x s : ℕ) → s < 64 → x * 2 ^ s < 2 ^ 64 → shift_left x s ≡ some (x * 2 ^ s)
unfolding shift_left
shift_left_small x s short fits =
    let cut : x * 2 ^ s % 2 ^ 64 ≡ x * 2 ^ s = omega (arith, fits) in
    rw (lt→ltb s 64 short, cut) refl

-- The share of a channel's range that a byte stands for.
abbrev pub level : ℕ → ℕ → ℕ
level size value = value * (2 ^ size - 1) / 255

encode_channel-level :
    (bits : ℕ) (mask : ChannelMask) (value : ℕ)
    → Inside bits mask
    → bits ≤ 64
    → mask.size ≤ 56
    → value < 256
    → (encode_channel mask value ≡ some (level mask.size value * 2 ^ mask.shift))
      × (level mask.size value * 2 ^ mask.shift < 2 ^ bits)
unfolding encode_channel ones
encode_channel-level bits mask value inside wide narrow byte =
    let size = mask.size in
    let shift = mask.shift in
    let some_bits = one-le-pow size 2 (omega arith) in
    let top : 2 ^ size ≤ 2 ^ 56 = pow-le-pow_right (omega arith) {i = size} {j = 56} narrow in
    let product : value * (2 ^ size - 1) ≤ 255 * (2 ^ size - 1) =
      mul-le-mul_right (2 ^ size - 1) (omega (arith, byte)) in
    let low : level size value ≤ 2 ^ size - 1 = omega (arith, product) in
    let unit = one-le-pow shift 2 (omega arith) in
    let scaled : level size value * 2 ^ shift ≤ (2 ^ size - 1) * 2 ^ shift =
      mul-le-mul_right (2 ^ shift) low in
    let whole : 2 ^ (size + shift) ≡ 2 ^ size * 2 ^ shift = pow-add 2 size shift in
    let less : (2 ^ size - 1) * 2 ^ shift + 2 ^ shift ≡ 2 ^ size * 2 ^ shift =
      pred_mul (2 ^ size) (2 ^ shift) some_bits in
    let room : 2 ^ (size + shift) ≤ 2 ^ bits =
      pow-le-pow_right (omega arith) {i = size + shift} {j = bits} (omega (arith, inside.1)) in
    let fits : level size value * 2 ^ shift < 2 ^ bits =
      omega (arith, scaled, less, whole, room, unit) in
    let all : 2 ^ bits ≤ 2 ^ 64 = pow-le-pow_right (omega arith) {i = bits} {j = 64} wide in
    (
      rw
          (
            shift_left_small 1 size (omega (arith, narrow)) (omega (arith, top)),
            one_mul (2 ^ size),
            fits_in_small 64 (value * (2 ^ size - 1)) (omega (arith, product, top)),
          )
          (shift_left_small (level size value) shift (omega (arith, inside.0, inside.1, wide))
            (omega (arith, fits, all))),
      fits,
    )
  where
    one_mul : (n : ℕ) → 1 * n ≡ n
    one_mul n = omega arith

    pred_mul : (m u : ℕ) → 1 ≤ m → (m - 1) * u + u ≡ m * u
    pred_mul zero u pos = absurd (omega (arith, pos))
    pred_mul (suc m) u pos = let e : suc m - 1 ≡ m = omega arith in rw e (omega arith)

-- With channels of at most 56 bits no color makes `encode` panic, and the word fits in a pixel: it is
-- the levels of the channels, each in its place.
pub encode-fits :
    (fb : FrameBuffer) (color : Rgb)
    → Captured fb
    → (fb.red.size ≤ 56) × (fb.green.size ≤ 56) × (fb.blue.size ≤ 56)
    → (color.r < 256) × (color.g < 256) × (color.b < 256)
    → (word : ℕ) × (encode fb color ≡ some word)
      × (word
          ≡ bit_or
              (bit_or
                (level fb.red.size color.r * 2 ^ fb.red.shift)
                (level fb.green.size color.g * 2 ^ fb.green.shift))
              (level fb.blue.size color.b * 2 ^ fb.blue.shift))
      × (word < 256 ^ fb.bytes_per_pixel)
unfolding encode
encode-fits fb color valid sizes bytes =
    let bits = 8 * fb.bytes_per_pixel in
    let wide : bits ≤ 64 = omega (arith, valid.few_bytes) in
    let r = encode_channel-level bits fb.red color.r valid.red_inside wide sizes.0 bytes.0 in
    let g = encode_channel-level bits fb.green color.g valid.green_inside wide sizes.1 bytes.1 in
    let b = encode_channel-level bits fb.blue color.b valid.blue_inside wide sizes.2 bytes.2 in
    let word =
      bit_or
        (bit_or (level fb.red.size color.r * 2 ^ fb.red.shift)
          (level fb.green.size color.g * 2 ^ fb.green.shift))
        (level fb.blue.size color.b * 2 ^ fb.blue.shift) in
    (
      word,
      rw (r.0, g.0, b.0) refl,
      refl,
      subst (λ z. word < z) (two_pow-bytes fb.bytes_per_pixel)
          (bit_or-lt bits _ _ (bit_or-lt bits _ _ r.1 g.1) b.1),
    )
