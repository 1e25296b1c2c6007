-- ===== src/Input/Scancodes/Codes.antt =====
-- Facts about the bytes and the tables of the scancode decoder, decided over every code.
use ferric_k.Base.{
  ℕ, ◌+◌, ◌%◌, ◌<◌, ◌≤◌, ◌≡◌, refl, Bool, true, false, ◌&&◌, ◌||◌, arith, leb, ltb, ◌==◌, every,
  passes_of_every, bit_and, ==_iff,
}
use ferric_k.Api.Keys.{Key}
use ferric_k.Input.Scancodes.Tables.{unshifted}
use ferric_k.Input.Scancodes.{printed, map_key}

low_bits_table : every 256 (λ b. bit_and b 0x7F == b % 128) ≡ true
unfolding every
low_bits_table = refl

pub low_bits : (b : ℕ) → b < 256 → bit_and b 0x7F ≡ b % 128
low_bits b h = (==_iff _ _).0 (passes_of_every 256 _ b h low_bits_table)

break_bit_table : every 128 (λ b. bit_and (b + 128) 0x80 == 128) ≡ true
unfolding every
break_bit_table = refl

pub break_bit : (b : ℕ) → b < 128 → bit_and (b + 128) 0x80 ≡ 128
break_bit b h = (==_iff _ _).0 (passes_of_every 128 _ b h break_bit_table)

make_bit_table : every 128 (λ b. bit_and b 0x80 == 0) ≡ true
unfolding every
make_bit_table = refl

pub make_bit : (b : ℕ) → b < 128 → bit_and b 0x80 ≡ 0
make_bit b h = (==_iff _ _).0 (passes_of_every 128 _ b h make_bit_table)

high_bit_table : every 256 (λ b. ltb b 128 || (bit_and b 0x80 == 128)) ≡ true
unfolding every
high_bit_table = refl

-- A byte whose bit 7 is clear is below 128.
pub make_of_low : (b : ℕ) → b < 256 → (bit_and b 0x80 == 0) ≡ true → b < 128
make_of_low b h e = ground (arith, passes_of_every 256 _ b h high_bit_table)

key_prints : Key → Bool
key_prints (Key.char c) = leb 0x20 c && leb c 0x7E
key_prints k = true

prints_table :
    (shift caps extended : Bool)
    → every 128 (λ m. key_prints (map_key shift caps extended m)) ≡ true
unfolding every key_prints map_key printed unshifted
prints_table false false false = refl
prints_table false false true = refl
prints_table false true false = refl
prints_table false true true = refl
prints_table true false false = refl
prints_table true false true = refl
prints_table true true false = refl
prints_table true true true = refl

-- The characters that a key or an event carries are printing ones.
abbrev pub KeyPrints : Key → Type 0
KeyPrints (Key.char c) = (0x20 ≤ c) × (c ≤ 0x7E)
KeyPrints k = Unit {0}

key_prints-KeyPrints : (k : Key) → key_prints k ≡ true → KeyPrints k
unfolding key_prints
key_prints-KeyPrints (Key.char c) h = ground arith
key_prints-KeyPrints k h = tt

pub map_key-KeyPrints :
    (shift caps extended : Bool) (make : ℕ)
    → make < 128
    → KeyPrints (map_key shift caps extended make)
map_key-KeyPrints shift caps extended make h =
    key_prints-KeyPrints _ (passes_of_every 128 _ make h (prints_table shift caps extended))
