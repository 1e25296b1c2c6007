-- ===== src/Input/Keyboard.antt =====
-- crates/ferric-safe-core/src/keyboard.rs: which glyph of an on-screen key is typed, and the shift
-- and caps state. A method on `&mut self` returns the new model.
pub mod Layout
use ferric_k.Base.{
  ℕ, ◌<◌, ◌≡◌, refl, Bool, true, false, ◌&&◌, ◌||◌, not, xor, arith, ◌==◌, if◌then◌else◌, get_or,
  every, passes_of_every, ==_iff,
}
use ferric_k.Input.Ascii.{is_ascii_lowercase, is_ascii_graphic}

pub record KeyboardModel : Type 0 where
  pub shifted : Bool
  pub caps : Bool

abbrev pub new : KeyboardModel
new = record { shifted = false; caps = false }

-- Physical Shift is down.
unfoldable pub press_shift : KeyboardModel → KeyboardModel
press_shift m = record m { shifted = true }

unfoldable pub release_shift : KeyboardModel → KeyboardModel
release_shift m = record m { shifted = false }

-- The on-screen Shift is sticky.
unfoldable pub toggle_shift : KeyboardModel → KeyboardModel
toggle_shift m = record m { shifted = not m.shifted }

unfoldable pub toggle_caps : KeyboardModel → KeyboardModel
toggle_caps m = record m { caps = not m.caps }

unfoldable pub encode : KeyboardModel → ℕ → ℕ → ℕ
unfolding is_ascii_lowercase is_ascii_graphic xor
encode m low high =
    if is_ascii_lowercase low
    then (if xor m.caps m.shifted then high else low)
    else if is_ascii_graphic low && m.shifted
    then high
    else low
