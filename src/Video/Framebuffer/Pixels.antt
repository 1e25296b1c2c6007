-- ===== src/Video/Framebuffer/Pixels.antt =====
-- Writing a pixel, and reading one.
use ferric_k.Base.{
  ℕ, suc, ◌+◌, ◌*◌, ◌%◌, ◌^◌, ◌≤◌, ◌<◌, ◌≡◌, ◌≢◌, ◌⊎◌, refl, sym, subst, ap, arith, false, ◌&&◌,
  ◌||◌, some, ltb, leb, ◌==◌, if◌then◌else◌, inl, inr, Bool-cases, min,
}
use native.Mathlib.Nat.{mul-le-mul_right}
use ferric_k.Video.Framebuffer.{
  Surface, FrameBuffer, store, offset_of, write_unchecked, read_raw_pixel,
}
use ferric_k.Video.Framebuffer.Capture.{Captured}
use ferric_k.Video.Framebuffer.Bytes.{store_outside, gather-same, gather-store}

-- Every width that the source picks stores the same bytes.
write_unchecked-store :
    (fb : FrameBuffer) (x y p : ℕ)
    → fb.bytes_per_pixel ≤ 8
    → p < 256 ^ fb.bytes_per_pixel
    → write_unchecked fb x y p
      ≡ record fb { surface = store fb.bytes_per_pixel fb.surface (offset_of fb x y) p }
unfolding write_unchecked
write_unchecked-store fb x y p few fits =
    let n = fb.bytes_per_pixel in
    let o = offset_of fb x y in
    let with_store : Surface → FrameBuffer = λ s. (record fb { surface = s }) in
    elim (Bool-cases (n == 8)) [
      | inl e8 ↦
          (let e : n ≡ 8 = ground (arith, e8) in
            rw e8 (ap (λ k. with_store (store k fb.surface o p)) (sym e)))
      | inr n8 ↦ elim (Bool-cases (n == 4)) [
        | inl e4 ↦
            (let e : n ≡ 4 = ground (arith, e4) in
              let small : p < 256 ^ 4 = subst (λ k. p < 256 ^ k) e fits in
              let cut : p % 2 ^ 32 ≡ p = omega (arith, small) in
              rw (n8, e4, cut) (ap (λ k. with_store (store k fb.surface o p)) (sym e)))
        | inr n4 ↦ elim (Bool-cases (n == 2)) [
          | inl e2 ↦
              (let e : n ≡ 2 = ground (arith, e2) in
                let small : p < 256 ^ 2 = subst (λ k. p < 256 ^ k) e fits in
                let cut : p % 2 ^ 16 ≡ p = omega (arith, small) in
                rw (n8, n4, e2, cut) (ap (λ k. with_store (store k fb.surface o p)) (sym e)))
          | inr n2 ↦
              (let e : min n 8 ≡ n = omega (arith, few) in
                rw (n8, n4, n2) (ap (λ k. with_store (store k fb.surface o p)) e))
        ]
      ]
    ]

not_both : (a x b y : ℕ) → (a == x) && (b == y) ≡ false → (x ≢ a) ⊎ (y ≢ b)
not_both a x b y differ = elim (Bool-cases (a == x)) [
  | inl e ↦ inr (λ f. ground (arith, differ, e))
  | inr n ↦ inl (λ f. ground (arith, n))
]

module _ (fb : FrameBuffer) (valid : Captured fb) where
  -- The bytes of a pixel lie inside its row and inside the surface.
  pub offset_of-bound :
      (x y : ℕ)
      → x < fb.width
      → y < fb.height
      → (x * fb.bytes_per_pixel + fb.bytes_per_pixel ≤ fb.pitch)
        × (offset_of fb x y + fb.bytes_per_pixel ≤ fb.pitch * fb.height)
  offset_of-bound x y in_row in_rows =
      let n = fb.bytes_per_pixel in
      let across : suc x * n ≤ fb.width * n = mul-le-mul_right n (omega arith) in
      let down : suc y * fb.pitch ≤ fb.height * fb.pitch =
        mul-le-mul_right fb.pitch (omega arith) in
      (omega (arith, across, valid.row), omega (arith, across, valid.row, down))

  -- Two pixels share no byte.
  offset_of-apart :
      (x y a b : ℕ)
      → x < fb.width
      → a < fb.width
      → (x ≢ a) ⊎ (y ≢ b)
      → (offset_of fb x y + fb.bytes_per_pixel ≤ offset_of fb a b)
        ⊎ (offset_of fb a b + fb.bytes_per_pixel ≤ offset_of fb x y)
  offset_of-apart x y a b in_row in_row' other =
      let n = fb.bytes_per_pixel in
      let across : suc x * n ≤ fb.width * n = mul-le-mul_right n (omega arith) in
      let across' : suc a * n ≤ fb.width * n = mul-le-mul_right n (omega arith) in
      elim (Bool-cases (ltb y b)) [
        | inl above ↦
            (let rows : suc y * fb.pitch ≤ b * fb.pitch =
                mul-le-mul_right fb.pitch (ground (arith, above)) in
              inl (omega (arith, rows, across, valid.row)))
        | inr not_above ↦ elim (Bool-cases (ltb b y)) [
          | inl below ↦
              (let rows : suc b * fb.pitch ≤ y * fb.pitch =
                  mul-le-mul_right fb.pitch (ground (arith, below)) in
                inr (omega (arith, rows, across', valid.row)))
          | inr not_below ↦
              (let same : y ≡ b = ground (arith, not_above, not_below) in
                let rows : y * fb.pitch ≡ b * fb.pitch = ap (λ k. k * fb.pitch) same in
                let differ : x ≢ a = elim other [ inl n ↦ n | inr n ↦ λ e. absurd (n same) ] in
                elim (Bool-cases (ltb x a)) [
                  | inl left ↦
                      (let cols : suc x * n ≤ a * n = mul-le-mul_right n (ground (arith, left)) in
                        inl (omega (arith, rows, cols)))
                  | inr right ↦
                      (let cols : suc a * n ≤ x * n =
                          mul-le-mul_right n (ground (arith, right, differ)) in
                        inr (omega (arith, rows, cols)))
                ])
        ]
      ]

  -- A pixel of a captured surface reads as the word written to it, if the word fits its bytes, and any
  -- other pixel reads as before.
  pub read-write :
      (x y p a b : ℕ)
      → x < fb.width
      → y < fb.height
      → p < 256 ^ fb.bytes_per_pixel
      → read_raw_pixel (write_unchecked fb x y p) a b
        ≡ (if (a == x) && ((b == y)) then some p else read_raw_pixel fb a b)
  unfolding read_raw_pixel
  read-write x y p a b in_row in_rows fits =
      let n = fb.bytes_per_pixel in
      rw (write_unchecked-store fb x y p valid.few_bytes fits)
        (elim (Bool-cases (leb fb.width a || leb fb.height b)) [
          | inl out ↦
              (let elsewhere : (a == x) && (b == y) ≡ false =
                  ground (arith, out, in_row, in_rows) in
                rw (out, elsewhere) refl)
          | inr inside ↦ elim (Bool-cases ((a == x) && (b == y))) [
            | inl here ↦
                (let e : a ≡ x = ground (arith, here) in
                  let f : b ≡ y = ground (arith, here) in
                  rw (inside, here, e, f)
                    (ap some (gather-store n fb.surface (offset_of fb x y) p valid.few_bytes fits)))
            | inr there ↦
                (let other : (x ≢ a) ⊎ (y ≢ b) = not_both a x b y there in
                  let far = offset_of-apart x y a b in_row (ground (arith, inside)) other in
                  rw (inside, there)
                    (ap some (
                      gather-same n (store n fb.surface (offset_of fb x y) p) fb.surface
                        (offset_of fb a b) 0 0
                        (λ z lo hi. store_outside n fb.surface (offset_of fb x y) p z (elim far [
                          | inl before ↦ inr (omega (arith, before, lo))
                          | inr behind ↦ inl (omega (arith, behind, hi))
                        ])))))
          ]
        ])
