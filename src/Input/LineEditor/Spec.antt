-- ===== src/Input/LineEditor/Spec.antt =====
-- The command line as its user sees it: a list of at most 128 characters, edited at its end.
use ferric_k.Base.{ℕ, ◌-◌, List, [], ◌∷◌, ◌++◌, ltb, ◌==◌, if◌then◌else◌, length, take}
use ferric_k.Api.Keys.{Key, KeyEvent, press}
use ferric_k.Input.LineEditor.{max_line_chars, LineAction, is_editable}

unfoldable pub drop_last : List ℕ → List ℕ
drop_last l = take (length l - 1) l

unfoldable pub append_char : List ℕ → ℕ → LineAction × List ℕ
append_char l c =
    if ltb (length l) max_line_chars
    then (LineAction.inserted, l ++ (c ∷ []))
    else (LineAction.ignored, l)

unfoldable pub edit : List ℕ → KeyEvent → LineAction × List ℕ
edit l (press (Key.char c)) = if is_editable c then append_char l c else (LineAction.ignored, l)
edit l (press Key.enter) = (LineAction.submitted, l)
edit l (press Key.backspace) =
    if length l == 0 then (LineAction.ignored, l) else (LineAction.erased, drop_last l)
edit l event = (LineAction.ignored, l)

-- The actions of a run of events, in order, and the line after it.
unfoldable pub edits : List ℕ → List KeyEvent → List LineAction × List ℕ
edits l [] = ([], l)
edits l (e ∷ es) =
    let (action, l') = edit l e in let (actions, l'') = edits l' es in (action ∷ actions, l'')
