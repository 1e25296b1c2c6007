-- ===== src/Input/Scancodes/Tables.antt =====
-- The US-layout tables of crates/ferric-safe-core/src/scancodes.rs: what is printed by each set-1
-- make code, without and with shift, and the keys that print nothing.
use ferric_k.Base.{
  ℕ, ◌+◌, ◌-◌, Bool, true, false, ◌&&◌, Option, none, some, List, [], ◌∷◌, leb, ◌==◌, if◌then◌else◌,
  set, replicate,
}
use ferric_k.Api.Keys.{Key}

-- The assignments `t[i] = v;` of a table, from the first to the last.
assign : List (ℕ × ℕ) → List ℕ → List ℕ
assign [] t = t
assign ((i, v) ∷ rest) t = assign rest (set t i v)

-- `0` stands for a code that prints nothing.
unfoldable pub unshifted : List ℕ
unfolding assign
unshifted =
    assign
      ((0x02, b'1')
        ∷ (0x03, b'2')
        ∷ (0x04, b'3')
        ∷ (0x05, b'4')
        ∷ (0x06, b'5')
        ∷ (0x07, b'6')
        ∷ (0x08, b'7')
        ∷ (0x09, b'8')
        ∷ (0x0A, b'9')
        ∷ (0x0B, b'0')
        ∷ (0x0C, b'-')
        ∷ (0x0D, b'=')
        ∷ (0x10, b'q')
        ∷ (0x11, b'w')
        ∷ (0x12, b'e')
        ∷ (0x13, b'r')
        ∷ (0x14, b't')
        ∷ (0x15, b'y')
        ∷ (0x16, b'u')
        ∷ (0x17, b'i')
        ∷ (0x18, b'o')
        ∷ (0x19, b'p')
        ∷ (0x1A, b'[')
        ∷ (0x1B, b']')
        ∷ (0x1E, b'a')
        ∷ (0x1F, b's')
        ∷ (0x20, b'd')
        ∷ (0x21, b'f')
        ∷ (0x22, b'g')
        ∷ (0x23, b'h')
        ∷ (0x24, b'j')
        ∷ (0x25, b'k')
        ∷ (0x26, b'l')
        ∷ (0x27, 0x3B)
        ∷ (0x28, 0x27)
        ∷ (0x29, b'`')
        ∷ (0x2B, 0x5C)
        ∷ (0x2C, b'z')
        ∷ (0x2D, b'x')
        ∷ (0x2E, b'c')
        ∷ (0x2F, b'v')
        ∷ (0x30, b'b')
        ∷ (0x31, b'n')
        ∷ (0x32, b'm')
        ∷ (0x33, 0x2C)
        ∷ (0x34, 0x2E)
        ∷ (0x35, b'/')
        ∷ (0x39, 0x20)
        ∷ [])
      (replicate 128 0)

unfoldable pub shifted : List ℕ
unfolding assign
shifted =
    assign
      ((0x02, b'!')
        ∷ (0x03, 0x40)
        ∷ (0x04, b'#')
        ∷ (0x05, b'$')
        ∷ (0x06, b'%')
        ∷ (0x07, b'^')
        ∷ (0x08, b'&')
        ∷ (0x09, b'*')
        ∷ (0x0A, 0x28)
        ∷ (0x0B, 0x29)
        ∷ (0x0C, b'_')
        ∷ (0x0D, b'+')
        ∷ (0x10, b'Q')
        ∷ (0x11, b'W')
        ∷ (0x12, b'E')
        ∷ (0x13, b'R')
        ∷ (0x14, b'T')
        ∷ (0x15, b'Y')
        ∷ (0x16, b'U')
        ∷ (0x17, b'I')
        ∷ (0x18, b'O')
        ∷ (0x19, b'P')
        ∷ (0x1A, 0x7B)
        ∷ (0x1B, 0x7D)
        ∷ (0x1E, b'A')
        ∷ (0x1F, b'S')
        ∷ (0x20, b'D')
        ∷ (0x21, b'F')
        ∷ (0x22, b'G')
        ∷ (0x23, b'H')
        ∷ (0x24, b'J')
        ∷ (0x25, b'K')
        ∷ (0x26, b'L')
        ∷ (0x27, b':')
        ∷ (0x28, 0x22)
        ∷ (0x29, b'~')
        ∷ (0x2B, b'|')
        ∷ (0x2C, b'Z')
        ∷ (0x2D, b'X')
        ∷ (0x2E, b'C')
        ∷ (0x2F, b'V')
        ∷ (0x30, b'B')
        ∷ (0x31, b'N')
        ∷ (0x32, b'M')
        ∷ (0x33, b'<')
        ∷ (0x34, b'>')
        ∷ (0x35, b'?')
        ∷ (0x39, 0x20)
        ∷ [])
      (replicate 128 0)

-- The first entry of a table of keys whose code is `make`.
key_of : List (ℕ × Key) → ℕ → Option Key
key_of [] make = none
key_of ((code, key) ∷ keys) make = if code == make then some key else key_of keys make

-- The arms `(false, code)`; F1 to F10 are the range `0x3B..=0x44`.
plain_key : ℕ → Option Key
unfolding key_of
plain_key make =
    if leb 0x3B make && leb make 0x44
    then some (Key.f (make - 0x3B + 1))
    else key_of
        ((0x0E, Key.backspace)
          ∷ (0x0F, Key.tab)
          ∷ (0x1C, Key.enter)
          ∷ (0x01, Key.escape)
          ∷ (0x2A, Key.left_shift)
          ∷ (0x36, Key.right_shift)
          ∷ (0x1D, Key.left_control)
          ∷ (0x38, Key.left_alt)
          ∷ (0x3A, Key.caps_lock)
          ∷ (0x57, Key.f 11)
          ∷ (0x58, Key.f 12)
          ∷ (0x47, Key.home)
          ∷ (0x48, Key.up)
          ∷ (0x49, Key.page_up)
          ∷ (0x4B, Key.left)
          ∷ (0x4D, Key.right)
          ∷ (0x4F, Key.end)
          ∷ (0x50, Key.down)
          ∷ (0x51, Key.page_down)
          ∷ (0x52, Key.insert)
          ∷ (0x53, Key.delete)
          ∷ [])
        make

-- The arms `(true, code)`.
extended_key : ℕ → Option Key
unfolding key_of
extended_key make =
    key_of
      ((0x1D, Key.right_control)
        ∷ (0x38, Key.right_alt)
        ∷ (0x47, Key.home)
        ∷ (0x48, Key.up)
        ∷ (0x49, Key.page_up)
        ∷ (0x4B, Key.left)
        ∷ (0x4D, Key.right)
        ∷ (0x4F, Key.end)
        ∷ (0x50, Key.down)
        ∷ (0x51, Key.page_down)
        ∷ (0x52, Key.insert)
        ∷ (0x53, Key.delete)
        ∷ [])
      make

-- The key of a code that prints nothing; `none` for the others.
unfoldable pub control_key : Bool → ℕ → Option Key
unfolding plain_key extended_key
control_key false make = plain_key make
control_key true make = extended_key make
