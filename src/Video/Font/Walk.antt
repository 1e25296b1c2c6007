-- ===== src/Video/Font/Walk.antt =====
-- The walk over the second kind of Unicode table.
use ferric_k.Base.{
  ℕ, zero, suc, ◌+◌, ◌^◌, ◌≤◌, ◌≡◌, ◌⊎◌, refl, ap, arith, Option, none, some, List, [], ◌∷◌, length,
  drop, length-drop, ltb, ◌==◌, inl, inr, Bool-cases, Option-cases, le→ltb,
}
use ferric_k.Video.Font.{utf8_head, utf8_tail, decode_utf8, unicode_lookup_v2, answered, overflowed}

-- A decoded code point takes at least one byte.
utf8_head-width : (first : ℕ) → 1 ≤ (utf8_head first).0
unfolding utf8_head
utf8_head-width first = ground arith

decode_utf8-width :
    (first : ℕ) (b : List ℕ) (cp width : ℕ) → decode_utf8 (first ∷ b) ≡ some (cp, width) → 1 ≤ width
unfolding decode_utf8
decode_utf8-width first b cp width e =
    elim (Bool-cases (ltb (suc (length b)) (utf8_head first).0)) [
      | inl short ↦ absurd (nothing (rw short at e))
      | inr long ↦
          (let w : (utf8_head first).0 ≡ width = ap width_of (rw long at e) in
            omega (arith, w, utf8_head-width first))
    ]
  where
    nothing : ◌≡◌ {A = Option (ℕ × ℕ)} none (some (cp, width)) → ⊥
    nothing p = cc

    width_of : Option (ℕ × ℕ) → ℕ
    width_of none = 0
    width_of (some r) = r.1

-- The walk ends: with as much fuel as the table has bytes it answers, or it panics, and then the glyph
-- that it starts at and the table's bytes together come to 2^32 at least.
pub unicode_lookup_v2-ends :
    (fuel : ℕ) (b : List ℕ) (glyph target : ℕ)
    → length b ≤ fuel
    → ((r : Option ℕ) × (unicode_lookup_v2 fuel b glyph target ≡ answered r))
      ⊎ ((unicode_lookup_v2 fuel b glyph target ≡ overflowed) × (2 ^ 32 ≤ glyph + length b))
unfolding unicode_lookup_v2
unicode_lookup_v2-ends fuel [] glyph target enough = inl (none, refl)
unicode_lookup_v2-ends zero (x ∷ b) glyph target enough = absurd (omega (arith, enough))
unicode_lookup_v2-ends (suc fuel) (x ∷ b) glyph target enough =
    let shorter : (n : ℕ) → 1 ≤ n → length (drop n (x ∷ b)) ≤ fuel =
      λ n pos. omega (arith, length-drop n (x ∷ b), pos, enough) in
    elim (Bool-cases (x == 0xFF)) [
      | inl mark ↦ elim (Bool-cases (ltb (glyph + 1) (2 ^ 32))) [
        | inl fits ↦
            elim (unicode_lookup_v2-ends fuel (drop 1 (x ∷ b)) (glyph + 1) target
              (shorter 1 (omega arith))) [
                | inl (r, e) ↦ inl (r, rw (mark, fits) e)
                | inr (e, long) ↦ inr (rw (mark, fits) e, omega (arith, long))
              ]
        | inr over ↦ inr (rw (mark, over) refl, ground (arith, over))
      ]
      | inr other ↦ elim (Option-cases (decode_utf8 (x ∷ b))) [
        | inl bad ↦ inl (none, rw (other, bad) refl)
        | inr ((cp, width), good) ↦ elim (Bool-cases (cp == target)) [
          | inl here ↦ inl (some glyph, rw (other, good, here) refl)
          | inr there ↦
              elim (unicode_lookup_v2-ends fuel (drop width (x ∷ b)) glyph target
                (shorter width (decode_utf8-width x b cp width good))) [
                  | inl (r, e) ↦ inl (r, rw (other, good, there) e)
                  | inr (e, long) ↦
                      inr
                        (rw (other, good, there) e, omega (arith, long, length-drop width (x ∷ b)))
                ]
        ]
      ]
    ]

-- A sequence mark of the table is decoded as a tilde.
mark_is_tilde :
    (fuel : ℕ) (b : List ℕ) (glyph : ℕ)
    → unicode_lookup_v2 (suc fuel) (0xFE ∷ b) glyph 0x7E ≡ answered (some glyph)
unfolding unicode_lookup_v2 decode_utf8 utf8_head utf8_tail
mark_is_tilde fuel b glyph = rw (le→ltb (suc (length b)) 1 (omega arith)) refl
