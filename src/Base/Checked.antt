-- ===== src/Base/Checked.antt =====
-- Results of fallible code: `done`, an error of the source's own, or a panic; and panics alone, as an
-- option.
use Prim.Native.Nat.{ℕ, ◌^◌, ◌*◌, ◌%◌, ◌<◌}
use mathlib.Core.Path.{◌≡◌, refl, subst}
use mathlib.Core.Option.{Option, none, some}
use native.Mathlib.Omega.{arith}
use ferric_k.Base.Tests.{ltb, if◌then◌else◌}

pub data Outcome {ℓ κ} (E : Type ℓ) (A : Type κ) : Type (ℓ ⊔ κ) where
  done : A → Outcome E A
  failed : E → Outcome E A
  panicked : Outcome E A

infixl 5 ◌>>=◌
abbrev pub ◌>>=◌ {ℓ κ μ} :
    {E : Type ℓ} {A : Type κ} {B : Type μ} → Outcome E A → (A → Outcome E B) → Outcome E B
done a >>= f = f a
failed e >>= f = failed e
panicked >>= f = panicked

-- A value that may panic, in a function that may fail.
abbrev pub or_panic {ℓ κ} : {E : Type ℓ} {A : Type κ} → Option A → Outcome E A
or_panic none = panicked
or_panic (some a) = done a

-- The continuation of a value that may panic.
abbrev pub and_then {ℓ κ} : {A : Type ℓ} {B : Type κ} → Option A → (A → Option B) → Option B
and_then none f = none
and_then (some a) f = f a

-- A value that must fit in an unsigned integer of so many bits; it panics if not.
unfoldable pub fits_in : (bits n : ℕ) → Option ℕ
fits_in bits n = if ltb n (2 ^ bits) then some n else none

-- `x << s` on 64 bits: the amount is checked, and the bits that leave are lost.
unfoldable pub shift_left : (x s : ℕ) → Option ℕ
shift_left x s = if ltb s 64 then some (x * 2 ^ s % 2 ^ 64) else none

pub fits_in_small : (bits n : ℕ) → n < 2 ^ bits → fits_in bits n ≡ some n
unfolding fits_in
fits_in_small bits n lt = ground arith

-- What holds of a result, if the code ends with one.
abbrev pub Ensures {ℓ κ μ} : {E : Type ℓ} {A : Type κ} → (A → Type μ) → Outcome E A → Type μ
Ensures P (done a) = P a
Ensures P (failed e) = Unit
Ensures P panicked = Unit

pub Ensures-bind {ℓ κ μ ν ρ} :
    {E : Type ℓ} {A : Type κ} {B : Type μ} (P : A → Type ν) (Q : B → Type ρ)
    → (r : Outcome E A) (f : A → Outcome E B) → Ensures P r
    → ((a : A) → P a → Ensures Q (f a))
    → Ensures Q (r >>= f)
Ensures-bind P Q (done a) f p q = q a p
Ensures-bind P Q (failed e) f p q = tt
Ensures-bind P Q panicked f p q = tt

pub Ensures-done {ℓ κ μ} :
    {E : Type ℓ} {A : Type κ} (P : A → Type μ) (r : Outcome E A) (a : A)
    → r ≡ done a
    → Ensures P r
    → P a
Ensures-done P r a e p = subst (λ z. Ensures P z) e p

pub Ensures-or_panic {ℓ κ} :
    (E : Type ℓ) {A : Type κ} (o : Option A) → Ensures {E = E} (λ a. o ≡ some a) (or_panic o)
Ensures-or_panic E none = tt
Ensures-or_panic E (some a) = refl

-- The code does not panic, and what holds if it ends with a value.
abbrev pub Safely : {E A : Type 0} → (A → Type 0) → Outcome E A → Type 0
Safely P (done a) = P a
Safely P (failed e) = Unit
Safely P panicked = ⊥

pub Safely-bind :
    {E A B : Type 0} (P : A → Type 0) (Q : B → Type 0)
    → (r : Outcome E A) (f : A → Outcome E B) → Safely P r
    → ((a : A) → P a → Safely Q (f a))
    → Safely Q (r >>= f)
Safely-bind P Q (done a) f p q = q a p
Safely-bind P Q (failed e) f p q = tt
Safely-bind P Q panicked f p q = absurd p

pub Safely-done :
    {E A : Type 0} (P : A → Type 0) (r : Outcome E A) (a : A) → r ≡ done a → Safely P r → P a
Safely-done P r a e p = subst (λ z. Safely P z) e p
