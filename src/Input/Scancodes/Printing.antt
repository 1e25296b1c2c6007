-- ===== src/Input/Scancodes/Printing.antt =====
-- The characters that scancodes.rs reports.
use ferric_k.Base.{
  ℕ, ◌%◌, ◌<◌, arith, List, [], ◌∷◌, Option, none, some, inl, inr, Bool-cases, ◌==◌, bit_and,
}
use ferric_k.Api.Keys.{KeyEvent, press, release}
use ferric_k.Input.Scancodes.{ScancodeDecoder, shift_active, map, decode, push, feed}
use ferric_k.Input.Scancodes.Codes.{low_bits, make_of_low, KeyPrints, map_key-KeyPrints}

abbrev pub EventPrints : KeyEvent → Type 0
EventPrints (press k) = KeyPrints k
EventPrints (release k) = KeyPrints k

abbrev pub AllPrint : List KeyEvent → Type 0
AllPrint [] = Unit {0}
AllPrint (e ∷ es) = EventPrints e × AllPrint es

abbrev pub AreBytes : List ℕ → Type 0
AreBytes [] = Unit {0}
AreBytes (b ∷ bs) = (b < 256) × AreBytes bs

decode-EventPrints : (d : ScancodeDecoder) (b : ℕ) → b < 256 → EventPrints (decode d b)
unfolding decode map
decode-EventPrints d b h = elim (Bool-cases (bit_and b 0x80 == 0)) [
  | inl low ↦
      rw low (map_key-KeyPrints (shift_active d) d.caps_lock d.extended b (make_of_low b h low))
  | inr high ↦
      rw (high, low_bits b h)
        (map_key-KeyPrints (shift_active d) d.caps_lock d.extended (b % 128) (omega arith))
]

OptionPrints : Option KeyEvent → Type 0
OptionPrints none = Unit {0}
OptionPrints (some e) = EventPrints e

push-OptionPrints : (d : ScancodeDecoder) (b : ℕ) → b < 256 → OptionPrints (push d b).0
unfolding push OptionPrints
push-OptionPrints d b h = elim (Bool-cases d.pause) [
  | inl p ↦ rw p tt
  | inr p ↦ elim (Bool-cases (b == 0xE0)) [
    | inl e0 ↦ rw (p, e0) tt
    | inr e0 ↦ elim (Bool-cases (b == 0xE1)) [
      | inl e1 ↦ rw (p, e0, e1) tt
      | inr e1 ↦ rw (p, e0, e1) (decode-EventPrints d b h)
    ]
  ]
]

AllPrint-feed_step :
    (event : Option KeyEvent) (es : List KeyEvent)
    → OptionPrints event
    → AllPrint es
    → AllPrint (elim event [ none ↦ es | some e ↦ e ∷ es ])
unfolding OptionPrints
AllPrint-feed_step none es p q = q
AllPrint-feed_step (some e) es p q = (p, q)

-- Every character that any run of bytes reports, from any state of the decoder, is a printing
-- ASCII character, so that the line editor takes it.
pub feed-AllPrint :
    (bytes : List ℕ) (d : ScancodeDecoder) → AreBytes bytes → AllPrint (feed d bytes).0
unfolding feed
feed-AllPrint [] d h = tt
feed-AllPrint (b ∷ bs) d h =
    AllPrint-feed_step (push d b).0 (feed (push d b).1 bs).0 (push-OptionPrints d b h.0)
      (feed-AllPrint bs (push d b).1 h.1)
