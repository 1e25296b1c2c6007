-- ===== src/Input/Terminal/Typing.antt =====
-- Serial input from terminal.rs into the line editor of line_editor.rs.
use ferric_k.Base.{
  ℕ, ◌+◌, ◌≤◌, ◌<◌, ◌≡◌, sym, ap, ◌∙◌, true, arith, Option, none, some, List, [], ◌∷◌, ◌++◌, length,
  length-append, lt→ltb,
}
use mathlib.Core.List.{append_assoc, append-nil}
use ferric_k.Api.Keys.{Key, KeyEvent, press}
use ferric_k.Input.Terminal.{terminal_byte_to_key}
use ferric_k.Input.LineEditor.{max_line_chars, LineAction, new, is_editable, line}
use ferric_k.Input.LineEditor.Spec.{append_char, edit, edits}
use ferric_k.Input.LineEditor.Refine.{handles, handles-edits, new-IsValid}

-- The events of one byte, in front of others.
abbrev pub reported : Option KeyEvent → List KeyEvent → List KeyEvent
reported none es = es
reported (some e) es = e ∷ es

-- The events of a run of serial bytes, in order.
unfoldable pub events : List ℕ → List KeyEvent
events [] = []
events (b ∷ bs) = reported (terminal_byte_to_key b) (events bs)

abbrev pub Printable : List ℕ → Type 0
Printable [] = Unit {0}
Printable (b ∷ bs) = (0x20 ≤ b) × (b ≤ 0x7E) × Printable bs

printable_key : (b : ℕ) → 0x20 ≤ b → b ≤ 0x7E → terminal_byte_to_key b ≡ some (press (Key.char b))
unfolding terminal_byte_to_key
printable_key b h k = ground arith

printable_editable : (b : ℕ) → 0x20 ≤ b → b ≤ 0x7E → is_editable b ≡ true
unfolding is_editable
printable_editable b h k = ground arith

edit-Printable :
    (l : List ℕ) (b : ℕ)
    → 0x20 ≤ b
    → b ≤ 0x7E
    → length l < max_line_chars
    → edit l (press (Key.char b)) ≡ (LineAction.inserted, l ++ (b ∷ []))
unfolding edit append_char
edit-Printable l b h k room = rw (printable_editable b h k, lt→ltb _ _ room)

edits-Printable :
    (bytes l : List ℕ)
    → Printable bytes
    → length l + length bytes ≤ max_line_chars
    → (edits l (events bytes)).1 ≡ l ++ bytes
unfolding edits events
edits-Printable [] l p h = sym (append-nil l)
edits-Printable (b ∷ bs) l p h =
    rw (printable_key b p.0 p.1, edits, edit-Printable l b p.0 p.1 (omega arith))
      (edits-Printable bs (l ++ (b ∷ [])) p.2 (omega (arith, length-append l (b ∷ [])))
        ∙ append_assoc l (b ∷ []) bs)

-- Printable bytes from the serial line, at most 128 of them, typed into an empty editor, stand in
-- its line as they came.
pub typed_line :
    (bytes : List ℕ)
    → Printable bytes
    → length bytes ≤ max_line_chars
    → line (handles new (events bytes)).1 ≡ bytes
typed_line bytes p h =
    ap (λ r. r.1) (handles-edits (events bytes) new new-IsValid)
    ∙ edits-Printable bytes [] p (omega arith)
