-- ===== src/Input/LineEditor/Refine.antt =====
-- The line editor of line_editor.rs refines a list of characters of bounded length.
use ferric_k.Base.{
  ℕ, zero, suc, ◌+◌, ◌-◌, ◌≤◌, ◌<◌, ◌≡◌, refl, sym, tests, ap, set, false, arith, List, [], ◌∷◌,
  ◌++◌, ltb, ◌==◌, length, take, length-set, length-take, take-set_end, inl, inr, Bool-cases,
}
use native.Mathlib.Numerals.{add-one}
use ferric_k.Api.Keys.{Key, KeyEvent, press, release}
use ferric_k.Input.LineEditor.{
  max_line_chars, LineAction, LineEditor, new, is_editable, insert, handle, line,
}
use ferric_k.Input.LineEditor.Spec.{append_char, drop_last, edit, edits}

pub record IsValid (e : LineEditor) : Type 0 where
  pub capacity : length e.buffer ≡ max_line_chars
  pub within : e.len ≤ max_line_chars

pub new-IsValid : IsValid new
new-IsValid = record { capacity = refl; within = omega arith }

insert-IsValid : (e : LineEditor) (c : ℕ) → IsValid e → IsValid (insert e c).1
unfolding insert
insert-IsValid e c v = ground (arith, length-set e.buffer e.len c)

-- Every event keeps the buffer's size and the length within it.
pub handle-IsValid : (e : LineEditor) (event : KeyEvent) → IsValid e → IsValid (handle e event).1
unfolding handle
handle-IsValid e (press (Key.char c)) v = elim (Bool-cases (is_editable c)) [
  | inl t ↦ rw t (insert-IsValid e c v)
  | inr t ↦ rw t v
]
handle-IsValid e (press Key.backspace) v = ground arith
handle-IsValid e (press k) v = v
handle-IsValid e (release k) v = v

length-line : (e : LineEditor) → IsValid e → length (line e) ≡ e.len
length-line e v = omega (arith, length-take e.len e.buffer, v.capacity, v.within)

take-take : (n m : ℕ) (l : List ℕ) → n ≤ m → take n (take m l) ≡ take n l
take-take zero m l h = refl
take-take (suc n) zero l h = absurd (omega arith)
take-take (suc n) (suc m) [] h = refl
take-take (suc n) (suc m) (x ∷ xs) h = ap (λ t. x ∷ t) (take-take n m xs (omega arith))

insert-append_char :
    (e : LineEditor) (c : ℕ)
    → IsValid e
    → let (a, e') = insert e c in (a, line e') ≡ append_char (line e) c
unfolding insert append_char
insert-append_char e c v = elim (Bool-cases (ltb e.len max_line_chars)) [
  | inl room ↦
      let there : e.len < length e.buffer = omega (tests, v.capacity) in
      rw (room, length-line e v, room) (ap (λ l. (LineAction.inserted, l)) (line_end e c there))
  | inr full ↦ rw (full, length-line e v, full)
]
  where
    line_end :
        (e : LineEditor) (c : ℕ)
        → e.len < length e.buffer
        → take (e.len + 1) (set e.buffer e.len c) ≡ line e ++ (c ∷ [])
    line_end e c h = rw add-one (take-set_end e.buffer e.len c h)

erase-drop_last :
    (e : LineEditor)
    → IsValid e
    → (e.len == 0) ≡ false
    → take (e.len - 1) e.buffer ≡ drop_last (line e)
unfolding drop_last
erase-drop_last e v h =
    rw (length-line e v) (sym (take-take (e.len - 1) e.len e.buffer (omega arith)))

-- On a valid editor every event has the action of the abstract line, and changes the typed line as
-- the abstract line is changed.
pub handle-edit :
    (e : LineEditor) (event : KeyEvent)
    → IsValid e
    → let (a, e') = handle e event in (a, line e') ≡ edit (line e) event
unfolding handle edit
handle-edit e (press (Key.char c)) v = elim (Bool-cases (is_editable c)) [
  | inl t ↦ rw t (insert-append_char e c v)
  | inr t ↦ rw t
]
handle-edit e (press Key.backspace) v = elim (Bool-cases (e.len == 0)) [
  | inl t ↦ rw (t, length-line e v, t)
  | inr t ↦ rw (t, length-line e v, t) (ap (λ l. (LineAction.erased, l)) (erase-drop_last e v t))
]
handle-edit e (press k) v = refl
handle-edit e (release k) v = refl

-- The actions of a run of events, in order, and the editor after it.
unfoldable pub handles : LineEditor → List KeyEvent → List LineAction × LineEditor
handles e [] = ([], e)
handles e (event ∷ events) =
    let (a, e') = handle e event in let (as', e'') = handles e' events in (a ∷ as', e'')

-- No run of events tells a valid line editor from the abstract line: the actions are the same, and so
-- is the line at the end.
pub handles-edits :
    (events : List KeyEvent) (e : LineEditor)
    → IsValid e
    → let (as', e') = handles e events in (as', line e') ≡ edits (line e) events
unfolding handles edits
handles-edits [] e v = refl
handles-edits (event ∷ events) e v = rw (← handle-edit e event v) (
    ap (λ r. ((handle e event).0 ∷ r.0, r.1))
      (handles-edits events (handle e event).1 (handle-IsValid e event v)))
