-- ===== src/Input/Scancodes.antt =====
-- crates/ferric-safe-core/src/scancodes.rs: the streaming decoder of PS/2 set-1 scancodes. `push`
-- returns the new decoder beside the event; `feed` is the caller's loop over the bytes.
pub mod Tables
pub mod Codes
pub mod Modifiers
pub mod Stream
pub mod Pause
pub mod Printing
use ferric_k.Base.{
  ℕ, Bool, true, false, ◌||◌, xor, not, Option, none, some, List, [], ◌∷◌, ◌==◌, if◌then◌else◌,
  get_or, bit_and,
}
use ferric_k.Api.Keys.{Key, KeyEvent, press, release}
use ferric_k.Input.Ascii.{is_ascii_lowercase, to_ascii_uppercase}
use ferric_k.Input.Scancodes.Tables.{unshifted, shifted, control_key}

pub record ScancodeDecoder : Type 0 where
  pub extended : Bool
  pub pause : Bool
  pub left_shift : Bool
  pub right_shift : Bool
  pub caps_lock : Bool

abbrev pub new : ScancodeDecoder
new = record {
  extended = false;
  pause = false;
  left_shift = false;
  right_shift = false;
  caps_lock = false;
}

unfoldable pub shift_active : ScancodeDecoder → Bool
shift_active d = d.left_shift || d.right_shift

-- What a printable code types, given whether shift and caps lock are on.
unfoldable pub printed : (shift caps : Bool) (base make : ℕ) → ℕ
unfolding is_ascii_lowercase to_ascii_uppercase shifted xor
printed shift caps base make =
    if is_ascii_lowercase base
    then (if xor caps shift then to_ascii_uppercase base else base)
    else if shift
    then get_or shifted make 0
    else base

-- Below `control_key`: a printable code, or an unassigned one.
unfoldable pub map_printable : (shift caps : Bool) (make : ℕ) → Key
map_printable shift caps make =
    let base = get_or unshifted make 0 in
    if base == 0 then Key.unknown make else Key.char (printed shift caps base make)

unfoldable pub map_key : (shift caps extended : Bool) (make : ℕ) → Key
unfolding map_printable control_key
map_key shift caps extended make = elim (control_key extended make) [
  | some key ↦ key
  | none ↦ map_printable shift caps make
]

-- `ScancodeDecoder::map`
unfoldable pub map : ScancodeDecoder → Bool → ℕ → Key
unfolding map_key shift_active
map d extended make = map_key (shift_active d) d.caps_lock extended make

-- The modifiers after an event; the prefix is spent.
unfoldable pub track : KeyEvent → ScancodeDecoder → ScancodeDecoder
track (press Key.left_shift) d = record d { left_shift = true }
track (press Key.right_shift) d = record d { right_shift = true }
track (press Key.caps_lock) d = record d { caps_lock = not d.caps_lock }
track (release Key.left_shift) d = record d { left_shift = false }
track (release Key.right_shift) d = record d { right_shift = false }
track event d = d

-- The event of a byte that is no prefix.
unfoldable pub decode : ScancodeDecoder → ℕ → KeyEvent
unfolding map
decode d byte =
    if bit_and byte 0x80 == 0
    then press (map d d.extended byte)
    else release (map d d.extended (bit_and byte 0x7F))

unfoldable pub push : ScancodeDecoder → ℕ → Option KeyEvent × ScancodeDecoder
unfolding decode track
push d byte =
    if d.pause
    then (none, if byte == 0xC5 then record d { pause = false } else d)
    else if byte == 0xE0
    then (none, record d { extended = true })
    else if byte == 0xE1
    then (none, record d { pause = true })
    else (some (decode d byte), track (decode d byte) (record d { extended = false }))

-- The events of a run of bytes, in order, and the decoder after it.
unfoldable pub feed : ScancodeDecoder → List ℕ → List KeyEvent × ScancodeDecoder
feed d [] = ([], d)
feed d (b ∷ bs) =
    let (event, d') = push d b in
    let (events, d'') = feed d' bs in (elim event [ none ↦ events | some e ↦ e ∷ events ], d'')
