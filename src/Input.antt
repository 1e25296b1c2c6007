-- ===== src/Input.antt =====
-- The input path of crates/ferric-safe-core/src: PS/2 scancodes, serial terminal bytes, the glyph
-- model of the on-screen keyboard, the line editor and the shell's command parser; and the keyboard driver
-- of crates/ferric-unsafe-core/src.
pub mod Ascii
pub mod Scancodes
pub mod Ps2
pub mod Keyboard
pub mod Terminal
pub mod LineEditor
pub mod Shell
