-- ===== src/Video/Framebuffer/Bytes.antt =====
-- Little-endian stores of bytes, and the bytes gathered again.
use ferric_k.Base.{
  ℕ, zero, suc, ◌+◌, ◌*◌, ◌/◌, ◌%◌, ◌^◌, ◌≤◌, ◌<◌, ◌≡◌, ◌⊎◌, refl, subst, ◌∙◌, arith, inl, inr,
  bit_or,
}
use native.Mathlib.Nat.{mul-le-mul_right, pow-suc, pow-le-pow_right}
use ferric_k.Base.Bits.{bit_or_above, two_pow-bytes}
use ferric_k.Video.Framebuffer.{Surface, poke, store, gather}

-- The number that so many little-endian bytes stand for.
abbrev pub load : (n : ℕ) → Surface → ℕ → ℕ
load zero s o = 0
load (suc n) s o = s o + 256 * load n s (o + 1)

pub store_outside :
    (n : ℕ) (s : Surface) (o p x : ℕ) → (x < o) ⊎ (o + n ≤ x) → store n s o p x ≡ s x
unfolding store poke
store_outside zero s o p x out = refl
store_outside (suc n) s o p x out =
    let later : (x < o + 1) ⊎ (o + 1 + n ≤ x) = elim out [
      | inl before ↦ inl (omega arith)
      | inr behind ↦ inr (omega arith)
    ] in
    store_outside n (poke s o (p % 256)) (o + 1) (p / 256) x later
    ∙ elim out [ inl before ↦ ground arith | inr behind ↦ ground arith ]

poke_self : (s : Surface) (o v : ℕ) → poke s o v o ≡ v
unfolding poke
poke_self s o v = ground arith

pub load-store : (n : ℕ) (s : Surface) (o p : ℕ) → p < 256 ^ n → load n (store n s o p) o ≡ p
unfolding store
load-store zero s o p fits = omega arith
load-store (suc n) s o p fits =
    let rest = load-store n (poke s o (p % 256)) (o + 1) (p / 256) (omega (arith, pow-suc 256 n)) in
    let head =
      store_outside n (poke s o (p % 256)) (o + 1) (p / 256) o (inl (omega arith))
      ∙ poke_self s o (p % 256) in
    omega (arith, rest, head)

pub store_bytes : (n : ℕ) (s : Surface) (o p j : ℕ) → j < n → store n s o p (o + j) < 256
unfolding store
store_bytes zero s o p j lt = absurd (omega arith)
store_bytes (suc n) s o p zero lt =
    let e : o + 0 ≡ o = omega arith in
    let head =
      store_outside n (poke s o (p % 256)) (o + 1) (p / 256) o (inl (omega arith))
      ∙ poke_self s o (p % 256) in
    rw e (omega (arith, head))
store_bytes (suc n) s o p (suc j) lt =
    let e : o + suc j ≡ o + 1 + j = omega arith in
    rw e (store_bytes n (poke s o (p % 256)) (o + 1) (p / 256) j (omega arith))

pub gather_lem :
    (n : ℕ) (s : Surface) (o i p : ℕ)
    → ((j : ℕ) → j < n → s (o + i + j) < 256)
    → i + n ≤ 8
    → p < 256 ^ i
    → gather n s o i p ≡ p + load n s (o + i) * 256 ^ i
unfolding gather
gather_lem zero s o i p bytes few fits = omega arith
gather_lem (suc n) s o i p bytes few fits =
    let b = s (o + i) in
    let e : o + i + 0 ≡ o + i = omega arith in
    let byte : b < 256 = subst (λ z. s z < 256) e (bytes 0 (omega arith)) in
    let unit : 2 ^ (8 * i) ≡ 256 ^ i = two_pow-bytes i in
    let next : 256 ^ suc i ≡ 256 ^ i * 256 = pow-suc 256 i in
    let top : 256 ^ suc i ≤ 256 ^ 8 =
      pow-le-pow_right (omega arith) {i = suc i} {j = 8} (omega arith) in
    let term : b * 256 ^ i ≤ 255 * 256 ^ i = mul-le-mul_right (256 ^ i) (omega arith) in
    let small : b * 256 ^ i % 2 ^ 64 ≡ b * 256 ^ i = omega (arith, next, top, term) in
    let joined : bit_or p (b * 2 ^ (8 * i)) ≡ p + b * 2 ^ (8 * i) =
      bit_or_above (8 * i) p b (rw unit fits) in
    let joined' : bit_or p (b * 256 ^ i) ≡ p + b * 256 ^ i =
      subst (λ z. bit_or p (b * z) ≡ p + b * z) unit joined in
    let step : bit_or p (b * 2 ^ (8 * i) % 2 ^ 64) ≡ p + b * 256 ^ i = rw (unit, small) joined' in
    let f : i + 1 ≡ suc i = omega arith in
    let g : o + suc i ≡ o + i + 1 = omega arith in
    let ih =
      gather_lem n s o (suc i) (p + b * 256 ^ i)
        (λ j lt.
          (let at : o + i + suc j ≡ o + suc i + j = omega arith in
            subst (λ z. s z < 256) at (bytes (suc j) (omega arith))))
        (omega arith) (omega (arith, next, term)) in
    let tail = load n s (o + i + 1) in
    let folded : tail * (256 ^ i * 256) ≡ 256 * tail * 256 ^ i = omega arith in
    rw (step, f) (ih ∙ rw (g, next) (omega arith))

load-same :
    (n : ℕ) (s t : Surface) (o : ℕ)
    → ((x : ℕ) → o ≤ x → x < o + n → s x ≡ t x)
    → load n s o ≡ load n t o
load-same zero s t o same = refl
load-same (suc n) s t o same = omega (
  arith,
  same o (omega arith) (omega arith),
  load-same n s t (o + 1) (λ x lo hi. same x (omega (arith, lo)) (omega (arith, hi))),
)

-- The bytes gathered are those that lie in the range.
pub gather-same :
    (n : ℕ) (s t : Surface) (o i p : ℕ)
    → ((x : ℕ) → o + i ≤ x → x < o + i + n → s x ≡ t x)
    → gather n s o i p ≡ gather n t o i p
unfolding gather
gather-same zero s t o i p same = refl
gather-same (suc n) s t o i p same = rw (same (o + i) (omega arith) (omega arith)) (
    gather-same n s t o (i + 1) (bit_or p (t (o + i) * 2 ^ (8 * i) % 2 ^ 64))
      (λ x lo hi. same x (omega (arith, lo)) (omega (arith, hi))))

-- What a store of at most eight bytes wrote is gathered again.
pub gather-store :
    (n : ℕ) (s : Surface) (o p : ℕ) → n ≤ 8 → p < 256 ^ n → gather n (store n s o p) o 0 0 ≡ p
gather-store n s o p few fits =
    let e : o + 0 ≡ o = omega arith in
    let whole =
      gather_lem n (store n s o p) o 0 0 (λ j lt. rw e (store_bytes n s o p j lt))
        (omega (arith, few)) (omega arith) in
    let back = load-store n s o p fits in whole ∙ rw e (omega (arith, back))
