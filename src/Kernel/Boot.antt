-- ===== src/Kernel/Boot.antt =====
-- The entry and the crash screen of crates/ferric-unsafe-core/src/console.rs: `kmain` and
-- `render_panic`.
use ferric_k.Base.{ℕ, Option, none, some, List, [], ◌∷◌, Bool, true, false, if◌then◌else◌}
use ferric_k.Api.Keys.{KeyEvent, Rgb, rgb}
use ferric_k.Input.LineEditor.{new}
use ferric_k.Input.Shell.{codes}
use ferric_k.Text.Grid.{◌>>=◌}
use ferric_k.Video.Framebuffer.{FrameBuffer, fill_rect}
use ferric_k.Text.Console.{Console, set_geometry, no_geometry, panic_grid}
use ferric_k.Text.Console.Draw.{
  Devices, with_framebuffer, ignore, mirror_to_serial, new_prompt, render,
}
use ferric_k.Kernel.{Machine, Kernel, After, newline, println, on_events}

-- `kmain` after the graphics library is up: the first line, the prompt, and the loop.
unfoldable pub kmain : Machine → Kernel → List KeyEvent → Option (After Kernel)
kmain m k events = do
  sized ← elim k.devices.screen [
    | none ↦ none
    | some fb ↦ set_geometry m.font_data k.console fb.width fb.height
  ]
  greeted ← println m.font_data (codes "Hello from Ferric-K!" ∷ []) (sized, k.devices)
  prompted ← new_prompt m.font_data greeted.0 greeted.1
  on_events m (record { editor = new; console = prompted.0; devices = prompted.1 }) events

abbrev pub panic_fg : Rgb
panic_fg = rgb 0xFF 0xFF 0xFF

abbrev pub panic_bg : Rgb
panic_bg = rgb 0x80 0x00 0x00

-- The lines on the serial line, without its lock.
unfoldable pub emergency_lines : Devices → List (List ℕ) → Devices
emergency_lines d [] = d
emergency_lines d (s ∷ lines) =
    emergency_lines (mirror_to_serial (mirror_to_serial d s) newline) lines

-- `with_framebuffer_try`: nothing without a surface or with its lock held.
unfoldable pub with_framebuffer_try :
    (is_free : Bool) → Devices → (FrameBuffer → Option FrameBuffer) → Option Devices
with_framebuffer_try true d f = with_framebuffer d f
with_framebuffer_try false d f = some d

-- The console takes the size of the surface, if it has none and the surface is to be had.
unfoldable pub panic_geometry :
    List ℕ → (is_free : Bool) → Console → Option FrameBuffer → Option Console
panic_geometry font_data true c (some fb) =
    if no_geometry c then set_geometry font_data c fb.width fb.height else some c
panic_geometry font_data true c none = some c
panic_geometry font_data false c screen = some c

-- The screen filled, whatever comes of it, and the grid drawn.
unfoldable pub panic_paint : List ℕ → Console → FrameBuffer → Option FrameBuffer
panic_paint font_data c fb = do
  filled ← ignore fb (fill_rect fb 0 0 fb.width fb.height panic_bg)
  render font_data c filled

-- `render_panic` up to the halt: what is locked is left alone.
unfoldable pub render_panic :
    List ℕ
    → (console_is_free screen_is_free : Bool) → Console × Devices
    → List (List ℕ)
    → Option (Console × Devices)
render_panic font_data false screen_is_free io lines = some (io.0, emergency_lines io.1 lines)
render_panic font_data true screen_is_free io lines = do
  sized ← panic_geometry font_data screen_is_free io.0 io.1.screen
  c ← panic_grid sized lines panic_fg panic_bg
  d' ← with_framebuffer_try screen_is_free (emergency_lines io.1 lines) (panic_paint font_data c)
  some (c, d')
