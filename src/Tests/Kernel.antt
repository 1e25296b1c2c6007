-- ===== src/Tests/Kernel.antt =====
-- Typing into the shell at a concrete console.
use ferric_k.Base.{
  ℕ, zero, suc, ◌≡◌, ◌≤◌, refl, arith, none, some, List, [], ◌∷◌, length-replicate, replicate,
  subst,
}
use ferric_k.Base.Checked.{done, fits_in}
use ferric_k.Api.Keys.{rgb, Key, KeyEvent, press, release}
use ferric_k.Input.LineEditor.{new, line}
use ferric_k.Input.LineEditor.Spec.{edits}
use ferric_k.Input.LineEditor.Refine.{new-IsValid}
use ferric_k.Text.Grid.{Cell, blank}
use ferric_k.Text.Console.{Console, initial, cell_count}
use ferric_k.Text.Console.Blit.{IsColor, AllColored}
use ferric_k.Text.Console.Render.{Drawable}
use ferric_k.Video.Framebuffer.{FrameBuffer}
use ferric_k.Video.Framebuffer.Capture.{Captured}
use ferric_k.Text.Console.Redraw.{Redrawn, set_edit_line-Redrawn}
use ferric_k.Text.Console.Line.{AllDrawn}
use ferric_k.Video.Framebuffer.Fill.{self-Alike}
use ferric_k.Video.Font.{Font, parse, parse_psf1, within, glyphs_end, u16le, psf1_font}
use ferric_k.Video.Font.Parse.{AllBytes-all_bytes}
use ferric_k.Kernel.{Machine, Kernel, on_events}
use ferric_k.Kernel.Typing.{InStep, Follows, AllTyped, on_events-Follows}
use ferric_k.Tests.Video.{strip, strip-Captured}

-- A font of the first kind whose glyphs have one row.
abbrev pub font_bytes : List ℕ
font_bytes = 0x36 ∷ 0x04 ∷ 0 ∷ 1 ∷ replicate 256 0xFF

abbrev pub font : Font
font = psf1_font font_bytes 0 1 256 260

font_parses : parse font_bytes ≡ done font
unfolding parse parse_psf1 within glyphs_end u16le fits_in
font_parses = refl

-- Eighty columns and twenty-five rows, with a prompt of two characters.
abbrev pub console : Console
console = record initial { cols = 80; rows = 25; cursor_col = 2; edit_col = 2 }

replicate-AllColored : (n : ℕ) (v : Cell) → IsColor v.fg × IsColor v.bg → AllColored (replicate n v)
replicate-AllColored zero v good i cell e = absurd (nothing e)
  where
    nothing : none ≡ some cell → ⊥
    nothing f = cc
replicate-AllColored (suc n) v good zero cell e =
    let same : v ≡ cell = cc in subst (λ z. IsColor z.fg × IsColor z.bg) same good
replicate-AllColored (suc n) v good (suc i) cell e = replicate-AllColored n v good i cell e

console-AllColored : AllColored console.cells
unfolding initial
console-AllColored =
    replicate-AllColored cell_count (blank (rgb 0xC0 0xC0 0xC0) (rgb 0 0 0))
      ((omega arith, omega arith, omega arith), (omega arith, omega arith, omega arith))

abbrev machine : Machine
machine = record {
  font_data = font_bytes;
  uptime_ns = 0;
  arch = [];
  run_clock = λ d. some d;
  run_gui = λ d. some d;
  run_monitor = λ d. some d;
  run_keyboard = λ d. some d;
}

abbrev kernel : Kernel
kernel = record {
  editor = new;
  console = console;
  devices = record { screen = some strip; serial = [] };
}

pub console_on :
    (fb : FrameBuffer)
    → Captured fb
    → (fb.red.size ≤ 56) × (fb.green.size ≤ 56) × (fb.blue.size ≤ 56)
    → Drawable font_bytes font fb console
unfolding initial
console_on fb valid narrow = record {
  bytes = AllBytes-all_bytes font_bytes refl;
  short = omega arith;
  parsed = font_parses;
  wide = omega arith;
  captured = valid;
  narrow = narrow;
  grid = record {
    cols_pos = omega arith;
    rows_pos = omega arith;
    within = omega arith;
    buffer = length-replicate 32768 (blank (rgb 0xC0 0xC0 0xC0) (rgb 0 0 0));
  };
  colored = console-AllColored;
  right = omega arith;
  below = omega arith;
}

kernel-InStep : InStep machine font strip kernel
unfolding initial AllDrawn
kernel-InStep = record {
  editor_valid = new-IsValid;
  drawn = tt;
  sync = record {
    drawable = console_on strip strip-Captured (omega arith, omega arith, omega arith);
    colors = ((omega arith, omega arith, omega arith), (omega arith, omega arith, omega arith));
    in_rows = omega arith;
    in_cols = omega arith;
    count_eq = refl;
    cursor_eq = refl;
    line = λ i lt. absurd (omega (arith, lt));
  };
  room = omega arith;
  screen = strip;
  on = refl;
  alike = self-Alike strip strip-Captured;
}

abbrev keys : List KeyEvent
keys =
    press (Key.char b'h')
    ∷ release (Key.char b'h')
    ∷ press Key.backspace
    ∷ press (Key.char b'i')
    ∷ []

keys-AllTyped : AllTyped keys
unfolding AllTyped
keys-AllTyped = ((λ e. cc), ((λ e. cc), ((λ e. cc), ((λ e. cc), tt))))

on_events-Follows_example :
    (f : Follows machine font strip kernel (on_events machine kernel keys)) × (line f.next.editor
      ≡ (edits (line kernel.editor) keys).1)
on_events-Follows_example =
    on_events-Follows machine font strip keys kernel kernel-InStep keys-AllTyped

ok-AllDrawn : AllDrawn (b'o' ∷ b'k' ∷ [])
unfolding AllDrawn
ok-AllDrawn = (((λ e. cc), (λ e. cc), (λ e. cc)), (((λ e. cc), (λ e. cc), (λ e. cc)), tt))

set_edit_line-Redrawn_example :
    Redrawn font_bytes font strip console kernel.devices (b'o' ∷ b'k' ∷ [])
unfolding initial
set_edit_line-Redrawn_example =
    set_edit_line-Redrawn font_bytes font strip console kernel.devices strip [] (b'o' ∷ b'k' ∷ [])
      kernel-InStep.sync refl (self-Alike strip strip-Captured) ok-AllDrawn (omega arith)
      (omega arith)
