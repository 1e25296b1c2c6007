-- ===== src/Input/Keyboard/Layout.antt =====
-- The on-screen keyboard of keyboard.rs types what the scancode decoder of scancodes.rs types.
use ferric_k.Base.{
  ℕ, ◌<◌, ◌≡◌, ◌≢◌, refl, Bool, true, false, ◌||◌, arith, none, ◌∙◌, ap, ◌==◌, get_or, every,
  passes_of_every,
}
use ferric_k.Api.Keys.{Key}
use ferric_k.Input.Scancodes.Tables.{unshifted, shifted, control_key}
use ferric_k.Input.Scancodes.{ScancodeDecoder, shift_active, printed, map_printable, map}
use ferric_k.Input.Scancodes.Stream.{map_of_printable}
use ferric_k.Input.Keyboard.{KeyboardModel, encode}

-- The model with given modifiers.
abbrev pub model : Bool → Bool → KeyboardModel
model shift caps = record { shifted = shift; caps = caps }

agrees_at : (shift caps : Bool) → ℕ → Bool
agrees_at shift caps make =
    let base = get_or unshifted make 0 in
    base == 0
    || (printed shift caps base make == encode (model shift caps) base (get_or shifted make 0))

agrees_table : (shift caps : Bool) → every 128 (agrees_at shift caps) ≡ true
unfolding every agrees_at printed unshifted encode
agrees_table false false = refl
agrees_table false true = refl
agrees_table true false = refl
agrees_table true true = refl

printed-encode :
    (shift caps : Bool) (make base : ℕ)
    → make < 128
    → get_or unshifted make 0 ≡ base
    → base ≢ 0
    → printed shift caps base make ≡ encode (model shift caps) base (get_or shifted make 0)
unfolding agrees_at
printed-encode shift caps make base h e n =
    ground (arith, passes_of_every 128 (agrees_at shift caps) make h (agrees_table shift caps))

-- For every code that has a printed character and no control key, the decoder maps the code to the
-- character that the on-screen keyboard types for the same two glyphs under the same modifiers.
pub map-encode :
    (d : ScancodeDecoder) (extended : Bool) (make : ℕ)
    → make < 128
    → control_key extended make ≡ none
    → get_or unshifted make 0 ≢ 0
    → map d extended make
      ≡ Key.char (
          encode
            (model (shift_active d) d.caps_lock)
            (get_or unshifted make 0)
            (get_or shifted make 0))
unfolding map_printable
map-encode d extended make h off n =
    let e : (get_or unshifted make 0 == 0) ≡ false = ground arith in
    map_of_printable d extended make off
    ∙ rw e (ap Key.char (printed-encode (shift_active d) d.caps_lock make _ h refl n))
