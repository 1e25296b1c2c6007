-- ===== src/Input/LineEditor.antt =====
-- crates/ferric-safe-core/src/line_editor.rs: a command line of fixed capacity. `handle` returns the
-- new editor beside the action. The buffer keeps its 128 characters; `len` of them are the line.
pub mod Spec
pub mod Refine
use ferric_k.Base.{ℕ, ◌+◌, ◌-◌, Bool, ◌||◌, List, ltb, ◌==◌, if◌then◌else◌, set, take, replicate}
use ferric_k.Api.Keys.{Key, KeyEvent, press}
use ferric_k.Input.Ascii.{is_ascii_graphic}

abbrev pub max_line_chars : ℕ
max_line_chars = 128

pub data LineAction : Type 0 where
  inserted erased submitted ignored : LineAction

pub record LineEditor : Type 0 where
  pub buffer : List ℕ
  pub len : ℕ

abbrev pub new : LineEditor
new = record { buffer = replicate max_line_chars 0x20; len = 0 }

-- The guard of the first arm: a graphic character or a space.
unfoldable pub is_editable : ℕ → Bool
unfolding is_ascii_graphic
is_editable c = is_ascii_graphic c || c == 0x20

-- The body of the first arm.
unfoldable pub insert : LineEditor → ℕ → LineAction × LineEditor
insert e c =
    if ltb e.len max_line_chars
    then (LineAction.inserted, record e { buffer = set e.buffer e.len c; len = e.len + 1 })
    else (LineAction.ignored, e)

unfoldable pub handle : LineEditor → KeyEvent → LineAction × LineEditor
handle e (press (Key.char c)) = if is_editable c then insert e c else (LineAction.ignored, e)
handle e (press Key.enter) = (LineAction.submitted, e)
handle e (press Key.backspace) =
    if e.len == 0
    then (LineAction.ignored, e)
    else (LineAction.erased, record e { len = e.len - 1 })
handle e event = (LineAction.ignored, e)

-- `&self.line[..self.len]`
abbrev pub line : LineEditor → List ℕ
line e = take e.len e.buffer

unfoldable pub clear : LineEditor → LineEditor
clear e = record e { len = 0 }
