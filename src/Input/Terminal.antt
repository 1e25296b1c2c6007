-- ===== src/Input/Terminal.antt =====
-- crates/ferric-safe-core/src/terminal.rs: a byte from a serial terminal as a key event.
pub mod Typing
use ferric_k.Base.{ℕ, Bool, ◌&&◌, ◌||◌, Option, none, some, leb, ◌==◌, if◌then◌else◌}
use ferric_k.Api.Keys.{Key, KeyEvent, press}

-- `\r` is 0x0D, `\n` is 0x0A and `\t` is 0x09.
unfoldable pub terminal_byte_to_key : ℕ → Option KeyEvent
terminal_byte_to_key byte =
    if byte == 0x0D || byte == 0x0A
    then some (press Key.enter)
    else if byte == 0x08 || byte == 0x7F
    then some (press Key.backspace)
    else if byte == 0x09
    then some (press Key.tab)
    else if byte == 0x1B
    then some (press Key.escape)
    else if leb 0x20 byte && leb byte 0x7E
    then some (press (Key.char byte))
    else none
