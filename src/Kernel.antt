-- ===== src/Kernel.antt =====
-- The shell of crates/ferric-unsafe-core/src/console.rs: `shell_loop`, one event at a time, and the
-- commands. The font's bytes, the clock, the architecture's name and the graphical programs, which
-- return what they leave of the devices, are arguments. `none` is a panic. core::fmt writes an argument
-- in decimal.
pub mod Boot
pub mod Typing
use ferric_k.Base.{
  ℕ, zero, suc, ◌+◌, ◌-◌, ◌*◌, ◌/◌, ◌%◌, ◌^◌, Option, none, some, List, [], ◌∷◌, ◌++◌, ltb, leb,
  ◌==◌, if◌then◌else◌, length, get_elem?, replicate,
}
use ferric_k.Api.Keys.{KeyEvent}
use ferric_k.Input.LineEditor.{
  LineEditor, LineAction, inserted, erased, submitted, ignored, handle, line, clear, max_line_chars,
}
use ferric_k.Input.Shell.{Command, codes, parse_command}
use ferric_k.Text.Grid.{◌>>=◌}
use ferric_k.Time.{nanos_per_sec}
use ferric_k.Text.Console.{Console, end_edit}
use ferric_k.Text.Console.Draw.{
  Devices, write_str, render_now, set_edit_line, mirror_to_serial, clear_screen, new_prompt,
}

-- What the commands find around them.
pub record Machine : Type 0 where
  pub font_data : List ℕ
  pub uptime_ns : ℕ
  pub arch : List ℕ
  pub run_clock : Devices → Option Devices
  pub run_gui : Devices → Option Devices
  pub run_monitor : Devices → Option Devices
  pub run_keyboard : Devices → Option Devices

pub record Kernel : Type 0 where
  pub editor : LineEditor
  pub console : Console
  pub devices : Devices

-- A command returns to the loop, or leaves the emulator with a status.
pub data After (A : Type 0) : Type 0 where
  returned : A → After A
  exited : ℕ → After A

abbrev pub status_shell_halt : ℕ
status_shell_halt = 0x82

-- `print!`: one `write_str` for each piece.
unfoldable pub print : List ℕ → List (List ℕ) → Console × Devices → Option (Console × Devices)
print font_data [] io = some io
print font_data (s ∷ pieces) io = do
  io' ← write_str font_data io.0 io.1 s
  print font_data pieces io'

abbrev pub newline : List ℕ
newline = 0x0A ∷ []

unfoldable pub println : List ℕ → List (List ℕ) → Console × Devices → Option (Console × Devices)
println font_data pieces io = do io' ← print font_data pieces io; print font_data (newline ∷ []) io'

unfoldable pub print_lines : List ℕ → List (List ℕ) → Console × Devices → Option (Console × Devices)
print_lines font_data [] io = some io
print_lines font_data (s ∷ lines) io = do
  io' ← println font_data (s ∷ []) io
  print_lines font_data lines io'

-- The decimal digits of a number, with fuel for so many.
unfoldable pub digits : (fuel n : ℕ) → List ℕ
digits zero n = []
digits (suc fuel) n =
    let rest = digits fuel (n / 10) in (if n / 10 == 0 then [] else rest) ++ ((b'0' + n % 10) ∷ [])

abbrev pub decimal : ℕ → List ℕ
decimal n = digits 20 n

-- `{:03}`
abbrev pub padded : ℕ → List ℕ
padded n = replicate (3 - length (decimal n)) b'0' ++ decimal n

-- The bytes of a character's encoding.
abbrev pub len_utf8 : ℕ → ℕ
len_utf8 c = if ltb c 0x80 then 1 else if ltb c 0x800 then 2 else if ltb c 0x10000 then 3 else 4

-- The characters that `put_chars` has room for, from so many bytes on.
unfoldable pub fitting : (end : ℕ) → List ℕ → List ℕ
fitting end [] = []
fitting end (c ∷ s) =
    let rest = fitting (end + len_utf8 c) s in
    if ltb (max_line_chars * 4) (end + len_utf8 c) then [] else c ∷ rest

unfoldable pub put_chars : List ℕ → List ℕ → Console × Devices → Option (Console × Devices)
put_chars font_data chars io =
    let s = fitting 0 chars in if length s == 0 then some io else print font_data (s ∷ []) io

abbrev pub help_lines : List (List ℕ)
help_lines =
    codes "Ferric-K commands:"
    ∷ codes "  help     show this list"
    ∷ codes "  clear    clear the screen"
    ∷ codes "  echo     print the arguments"
    ∷ codes "  uptime   show time since boot"
    ∷ codes "  arch     show the CPU architecture"
    ∷ codes "  panic    panic the kernel (test hook)"
    ∷ codes "  clock    open the graphical clock window"
    ∷ codes "  gui      launch the Slint GUI"
    ∷ codes "  monitor  live hardware monitor"
    ∷ codes "  keyboard  on-screen keyboard (stub pointer)"
    ∷ codes "  halt     power off the machine"
    ∷ []

-- A graphical program, and the console drawn again over what it left.
unfoldable pub run_over :
    List ℕ → (Devices → Option Devices) → Console × Devices → Option (After (Console × Devices))
run_over font_data program io = do
  left ← program io.1
  d ← render_now font_data io.0 left
  some (returned (io.0, d))

abbrev pub go_on : Option (Console × Devices) → Option (After (Console × Devices))
go_on none = none
go_on (some io) = some (returned io)

unfoldable pub run_command :
    Machine → Command → Console × Devices → Option (After (Console × Devices))
run_command m Command.empty io = some (returned io)
run_command m Command.help io = go_on (print_lines m.font_data help_lines io)
run_command m Command.clear io = go_on (clear_screen m.font_data io.0 io.1)
run_command m (Command.echo rest) io =
    go_on (do io' ← put_chars m.font_data rest io; println m.font_data [] io')
run_command m Command.uptime io = go_on (
    println m.font_data
      (codes "Uptime: "
        ∷ decimal (m.uptime_ns / nanos_per_sec)
        ∷ codes "."
        ∷ padded (m.uptime_ns % nanos_per_sec / 1000000)
        ∷ codes "s"
        ∷ [])
      io)
run_command m Command.arch io = go_on (println m.font_data (m.arch ∷ []) io)
run_command m Command.panic io = none
run_command m Command.clock io = run_over m.font_data m.run_clock io
run_command m Command.gui io = run_over m.font_data m.run_gui io
run_command m Command.monitor io = run_over m.font_data m.run_monitor io
run_command m Command.keyboard io = run_over m.font_data m.run_keyboard io
run_command m Command.halt io = do
  io' ← println m.font_data (codes "HALT" ∷ []) io
  some (exited status_shell_halt)
run_command m (Command.unknown name) io = go_on (do
  quoted ← print m.font_data (codes "unknown command '" ∷ []) io
  named ← put_chars m.font_data name quoted
  println m.font_data (codes "'" ∷ []) named)

-- The last character of a line, as `mirror_to_serial` gets it.
abbrev pub last_char : List ℕ → List ℕ
last_char s = elim (get_elem? s (length s - 1)) [ none ↦ [] | some c ↦ c ∷ [] ]

abbrev pub erase : List ℕ
erase = 0x08 ∷ 0x20 ∷ 0x08 ∷ []

-- The end of the arm for a finished line.
unfoldable pub resume : Machine → LineEditor → After (Console × Devices) → Option (After Kernel)
resume m editor (exited status) = some (exited status)
resume m editor (returned io) = do
  io' ← new_prompt m.font_data io.0 io.1
  some (returned (record { editor = clear editor; console = io'.0; devices = io'.1 }))

-- A redraw of the line after so much was sent to the serial line.
unfoldable pub redraw : Machine → Kernel → LineEditor → (sent : List ℕ) → Option (After Kernel)
redraw m k editor sent = do
  io ← set_edit_line m.font_data k.console (mirror_to_serial k.devices sent) (line editor)
  some (returned (record { editor = editor; console = io.0; devices = io.1 }))

unfoldable pub act : Machine → Kernel → LineAction × LineEditor → Option (After Kernel)
act m k (inserted, editor) = redraw m k editor (last_char (line editor))
act m k (erased, editor) = redraw m k editor erase
act m k (submitted, editor) = do
  io ← println m.font_data [] (end_edit k.console, k.devices)
  after ← run_command m (parse_command (line editor)) io
  resume m editor after
act m k (ignored, editor) = some (returned (record k { editor = editor }))

-- One event of `shell_loop`.
unfoldable pub on_event : Machine → Kernel → KeyEvent → Option (After Kernel)
on_event m k event = act m k (handle k.editor event)

-- A run of events, up to the exit.
unfoldable pub on_events : Machine → Kernel → List KeyEvent → Option (After Kernel)
on_events m k [] = some (returned k)
on_events m k (event ∷ events) = do
  after ← on_event m k event
  elim after [ exited status ↦ some (exited status) | returned k' ↦ on_events m k' events ]
