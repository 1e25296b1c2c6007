-- ===== src/Tests/Input.antt =====
-- Tests of the scancode decoder, the on-screen keyboard's glyphs and the line editor.
use ferric_k.Base.{ℕ, ◌≡◌, refl, true, false, arith, List, [], ◌∷◌, ◌++◌, get_or}
use ferric_k.Api.Keys.{Key, KeyEvent, press, release}
use ferric_k.Input.Scancodes
use ferric_k.Input.Scancodes.{ScancodeDecoder, feed, map, printed, shift_active}
use ferric_k.Input.Scancodes.Tables.{unshifted, shifted, control_key}
use ferric_k.Input.Scancodes.Stream.{IsIdle, make_bytes, break_bytes, feed-make_break}
use ferric_k.Input.Scancodes.Modifiers.{Tracks, feed-Tracks}
use ferric_k.Input.Scancodes.Pause.{feed-pause}
use ferric_k.Input.Scancodes.Printing.{AllPrint, feed-AllPrint}
use ferric_k.Input.Keyboard.{encode}
use ferric_k.Input.Keyboard.Layout.{model, map-encode}
use ferric_k.Input.LineEditor
use ferric_k.Input.LineEditor.{LineAction, line, handle}
use ferric_k.Input.LineEditor.Spec.{edits}
use ferric_k.Input.LineEditor.Refine.{handles, handles-edits, new-IsValid}
use ferric_k.Input.Terminal.Typing.{events, typed_line}

-- Shift, then A, then the shift released.
abbrev shifted_a : List ℕ
shifted_a = 0x2A ∷ 0x1E ∷ 0x9E ∷ 0xAA ∷ 0x1E ∷ []

feed-shifted_a :
    (feed Scancodes.new shifted_a).0
    ≡ press Key.left_shift
      ∷ press (Key.char b'A')
      ∷ release (Key.char b'A')
      ∷ release Key.left_shift
      ∷ press (Key.char b'a')
      ∷ []
unfolding feed Scancodes.push printed unshifted
feed-shifted_a = refl

feed_arrow : (feed Scancodes.new (0xE0 ∷ 0x48 ∷ 0x48 ∷ [])).0 ≡ press Key.up ∷ press Key.up ∷ []
unfolding feed Scancodes.push printed unshifted
feed_arrow = refl

IsIdle-new : IsIdle Scancodes.new
IsIdle-new = record { no_pause = refl; no_prefix = refl }

feed-make_break_example :
    ((feed Scancodes.new (make_bytes true 0x48 ++ break_bytes true 0x48)).0
      ≡ press (map Scancodes.new true 0x48) ∷ release (map Scancodes.new true 0x48) ∷ [])
    × IsIdle (feed Scancodes.new (make_bytes true 0x48 ++ break_bytes true 0x48)).1
feed-make_break_example =
    feed-make_break Scancodes.new true 0x48 IsIdle-new (omega arith) (omega arith) (omega arith)

feed-Tracks_example :
    Tracks Scancodes.new (feed Scancodes.new shifted_a).0 (feed Scancodes.new shifted_a).1
feed-Tracks_example = feed-Tracks shifted_a Scancodes.new

feed-pause_example :
    feed Scancodes.new (0xE1 ∷ ((0x1D ∷ 0x45 ∷ 0xE1 ∷ 0x9D ∷ []) ++ (0xC5 ∷ 0x1E ∷ [])))
    ≡ feed Scancodes.new (0x1E ∷ [])
feed-pause_example =
    feed-pause Scancodes.new (0x1D ∷ 0x45 ∷ 0xE1 ∷ 0x9D ∷ []) (0x1E ∷ []) refl (omega arith)

feed-AllPrint_example : AllPrint (feed Scancodes.new shifted_a).0
feed-AllPrint_example = feed-AllPrint shifted_a Scancodes.new (omega arith)

map-encode_example :
    map Scancodes.new false 0x1E
    ≡ Key.char (
        encode
          (model (shift_active Scancodes.new) false)
          (get_or unshifted 0x1E 0)
          (get_or shifted 0x1E 0))
unfolding unshifted control_key
map-encode_example = map-encode Scancodes.new false 0x1E (omega arith) refl (omega arith)

-- Two characters, one taken back, and the line submitted.
abbrev keys : List KeyEvent
keys = press (Key.char b'h') ∷ press (Key.char b'i') ∷ press Key.backspace ∷ press Key.enter ∷ []

handles-keys :
    (handles LineEditor.new keys).0
    ≡ LineAction.inserted ∷ LineAction.inserted ∷ LineAction.erased ∷ LineAction.submitted ∷ []
unfolding handles handle LineEditor.is_editable LineEditor.insert
handles-keys = refl

handles-edits_example :
    ((handles LineEditor.new keys).0, line (handles LineEditor.new keys).1)
    ≡ edits (line LineEditor.new) keys
handles-edits_example = handles-edits keys LineEditor.new new-IsValid

typed_line_example :
    line (handles LineEditor.new (events (b'h' ∷ b'i' ∷ 0x20 ∷ []))).1 ≡ b'h' ∷ b'i' ∷ 0x20 ∷ []
typed_line_example = typed_line (b'h' ∷ b'i' ∷ 0x20 ∷ []) (omega arith) (omega arith)
