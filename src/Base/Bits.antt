-- ===== src/Base/Bits.antt =====
-- `|` and `&` as arithmetic, one binary digit at a time.
use Prim.Native.Nat.{
  ℕ, zero, suc, ◌+◌, ◌-◌, ◌*◌, ◌/◌, ◌%◌, ◌^◌, ◌≤◌, ◌<◌, min, max, bit_and, bit_or, digits, bitwise,
  bit_and-bitwise, bit_or-bitwise,
}
use mathlib.Core.Path.{◌≡◌, refl, ap, ◌∙◌}
use native.Mathlib.Nat.{le_refl, mod-lt, pow-zero, pow-suc}
use native.Mathlib.Omega.{arith}

module _ (z : ℕ → ℕ) (f : ℕ → ℕ → ℕ) where
  fuel_irrelevant : (n m a b : ℕ) → a ≤ n → a ≤ m → digits z f n a b ≡ digits z f m a b
  fuel_irrelevant zero zero a b p q = refl
  fuel_irrelevant zero (suc m) zero b p q = refl
  fuel_irrelevant zero (suc m) (suc a) b p q = absurd (omega arith)
  fuel_irrelevant (suc n) zero zero b p q = refl
  fuel_irrelevant (suc n) zero (suc a) b p q = absurd (omega arith)
  fuel_irrelevant (suc n) (suc m) zero b p q = refl
  fuel_irrelevant (suc n) (suc m) (suc a) b p q =
      rw (fuel_irrelevant n m (suc a / 2) (b / 2) (omega arith) (omega arith))

  last_digit :
      (a b : ℕ)
      → bitwise z f (suc a) b ≡ bitwise z f (suc a / 2) (b / 2) * 2 + f (suc a % 2) (b % 2)
  last_digit a b =
      omega (arith, fuel_irrelevant a (suc a / 2) (suc a / 2) (b / 2) (omega arith) (le_refl _))

pub bit_or_digit : (a b : ℕ) → bit_or a b ≡ bit_or (a / 2) (b / 2) * 2 + max (a % 2) (b % 2)
bit_or_digit zero b = simp bit_or-bitwise (omega arith)
bit_or_digit (suc a) b = simp bit_or-bitwise (last_digit (λ y. y) max a b)

pub bit_and_digit : (a b : ℕ) → bit_and a b ≡ bit_and (a / 2) (b / 2) * 2 + min (a % 2) (b % 2)
bit_and_digit zero b = simp bit_and-bitwise (omega arith)
bit_and_digit (suc a) b = simp bit_and-bitwise (last_digit (λ y. 0) min a b)

double_pow : (q k : ℕ) → q * 2 ^ suc k ≡ 2 * (q * 2 ^ k)
double_pow q k = omega (arith, ap (λ (t : ℕ). q * t) (pow-suc 2 k))

pub zero-bit_or : (b : ℕ) → bit_or 0 b ≡ b
zero-bit_or b = bit_or-bitwise 0 b

-- `|` with bits above the highest one is a sum.
pub bit_or_above : (k r q : ℕ) → r < 2 ^ k → bit_or r (q * 2 ^ k) ≡ r + q * 2 ^ k
bit_or_above zero r q fits =
    let e : r ≡ 0 = omega arith in rw e (zero-bit_or (q * 2 ^ 0) ∙ omega arith)
bit_or_above (suc k) r q fits = ground (
  arith,
  bit_or_digit r (q * 2 ^ suc k),
  double_pow q k,
  pow-suc 2 k,
  bit_or_above k (r / 2) q (omega (arith, pow-suc 2 k)),
)

-- `|` does not reach above the width of both.
pub bit_or-lt : (k a b : ℕ) → a < 2 ^ k → b < 2 ^ k → bit_or a b < 2 ^ k
bit_or-lt zero a b p q =
    let e : a ≡ 0 = omega arith in let f : b ≡ 0 = omega arith in rw (e, f) (omega arith)
bit_or-lt (suc k) a b p q = ground (
  arith,
  bit_or_digit a b,
  pow-suc 2 k,
  bit_or-lt k (a / 2) (b / 2) (omega (arith, pow-suc 2 k)) (omega (arith, pow-suc 2 k)),
)

pub pow-add : (b m n : ℕ) → b ^ (m + n) ≡ b ^ m * b ^ n
pow-add b zero n =
    let none : b ^ 0 ≡ 1 = pow-zero b in
    let e : 0 + n ≡ n = omega arith in rw (e, none) (omega arith)
pow-add b (suc m) n =
    let ih = pow-add b m n in
    let step : b ^ suc (m + n) ≡ b ^ (m + n) * b = pow-suc b (m + n) in
    let split : b ^ suc m ≡ b ^ m * b = pow-suc b m in
    let e : suc m + n ≡ suc (m + n) = omega arith in rw (e, step, split, ih) (omega arith)

-- A power of two by whole bytes.
pub two_pow-bytes : (n : ℕ) → 2 ^ (8 * n) ≡ 256 ^ n
two_pow-bytes zero = refl
two_pow-bytes (suc n) =
    let e : 8 * suc n ≡ 8 * n + 8 = omega arith in
    rw e (pow-add 2 (8 * n) 8 ∙ omega (arith, two_pow-bytes n, pow-suc 256 n))

pub bit_or-zero : (k a : ℕ) → a < 2 ^ k → bit_or a 0 ≡ a
bit_or-zero zero a fits = let e : a ≡ 0 = omega arith in rw e refl
bit_or-zero (suc k) a fits =
    omega (arith, bit_or_digit a 0, bit_or-zero k (a / 2) (omega (arith, pow-suc 2 k)))

-- `|` with bits below the lowest one is a sum.
pub bit_or_below : (m k q r : ℕ) → q < 2 ^ m → r < 2 ^ k → bit_or (q * 2 ^ k) r ≡ q * 2 ^ k + r
bit_or_below m zero q r small fits =
    let e : r ≡ 0 = omega arith in
    let f : q * 2 ^ 0 ≡ q = omega arith in rw (e, f) (bit_or-zero m q small ∙ omega arith)
bit_or_below m (suc k) q r small fits = ground (
  arith,
  bit_or_digit (q * 2 ^ suc k) r,
  double_pow q k,
  pow-suc 2 k,
  bit_or_below m k q (r / 2) small (omega (arith, pow-suc 2 k)),
)

-- `|` of two numbers that are shifted alike, the first with bits below.
pub bit_or_shifted :
    (k r a b : ℕ) → r < 2 ^ k → bit_or (r + a * 2 ^ k) (b * 2 ^ k) ≡ r + bit_or a b * 2 ^ k
bit_or_shifted zero r a b fits =
    let e : r + a * 2 ^ 0 ≡ a = omega arith in
    let f : b * 2 ^ 0 ≡ b = omega arith in rw (e, f) (omega arith)
bit_or_shifted (suc k) r a b fits = ground (
  arith,
  bit_or_digit (r + a * 2 ^ suc k) (b * 2 ^ suc k),
  double_pow a k,
  double_pow b k,
  double_pow (bit_or a b) k,
  pow-suc 2 k,
  bit_or_shifted k (r / 2) a b (omega (arith, pow-suc 2 k)),
)

bit_and-zero : (n a : ℕ) → a ≤ n → bit_and a 0 ≡ 0
bit_and-zero zero a le = let e : a ≡ 0 = omega arith in rw e refl
bit_and-zero (suc n) a le = ground (arith, bit_and_digit a 0, bit_and-zero n (a / 2) (omega arith))

two_pow_pos : (k : ℕ) → 0 < 2 ^ k
two_pow_pos zero = omega arith
two_pow_pos (suc k) = omega (arith, two_pow_pos k, pow-suc 2 k)

bit_and_split : (k q r : ℕ) → r < 2 ^ k → bit_and (r + q * 2 ^ k) (2 ^ k - 1) ≡ r
bit_and_split zero q r fits =
    bit_and-zero (r + q * 2 ^ 0) (r + q * 2 ^ 0) (le_refl _) ∙ omega (arith, fits)
bit_and_split (suc k) q r fits = ground (
  arith,
  bit_and_digit (r + q * 2 ^ suc k) (2 ^ suc k - 1),
  double_pow q k,
  pow-suc 2 k,
  two_pow_pos k,
  bit_and_split k q (r / 2) (omega (arith, pow-suc 2 k)),
)

-- A mask of low ones is a remainder.
pub bit_and_low : (k a : ℕ) → bit_and a (2 ^ k - 1) ≡ a % 2 ^ k
bit_and_low k a =
    let split : a ≡ a % 2 ^ k + a / 2 ^ k * 2 ^ k = omega arith in
    ap (λ n. bit_and n (2 ^ k - 1)) split
    ∙ bit_and_split k (a / 2 ^ k) (a % 2 ^ k) (mod-lt a (two_pow_pos k))
