-- ===== src/Tests/Clock.antt =====
-- The clock's loop on a small screen.
use ferric_k.Base.{◌≡◌, refl, arith, some, List, [], ◌∷◌}
use ferric_k.Base.Int.{negsuc}
use ferric_k.Base.Checked.{done, shift_left}
use ferric_k.Api.Keys.{rgb, Key, press, release, TimeOfDay}
use ferric_k.Video.Framebuffer.{
  FrameBuffer, from_layout, new, ones, bit_mask, apart, disjoint_masks, accept,
}
use ferric_k.Video.Framebuffer.Capture.{Captured, from_layout-Captured}
use ferric_k.Clock.Surface.{Pixel}
use ferric_k.Clock.Surface.Drawn.{AllBright}
use ferric_k.Text.Console.{initial}
use ferric_k.Text.Console.Draw.{Devices}
use ferric_k.Clock.Window.{ClockWindow, Desk, Turn, Clocked, run_clock, format_time, two_digits}
use ferric_k.Clock.Window.Run.{IsSound, Shown, run_clock-Shown}
use ferric_k.Tests.Video.{dark, layout}
use ferric_k.Tests.Kernel.{font_bytes, font, console, console_on}

-- 320 columns and 240 rows.
abbrev screen : FrameBuffer
screen = record {
  surface = dark;
  width = 320;
  height = 240;
  pitch = 1280;
  bytes_per_pixel = 4;
  red = layout.red;
  green = layout.green;
  blue = layout.blue;
}

captures_screen :
    from_layout dark (record layout { width = 320; height = 240; pitch = 1280 }) ≡ done screen
unfolding from_layout new disjoint_masks apart bit_mask ones shift_left accept
captures_screen = refl

screen-Captured : Captured screen
screen-Captured =
    from_layout-Captured dark (record layout { width = 320; height = 240; pitch = 1280 }) screen
      captures_screen

abbrev corners : ClockWindow → List Pixel
corners w =
    record { x = w.x; y = w.y; color = rgb 255 0 0 }
    ∷ record { x = negsuc 0; y = w.y; color = rgb 0 0 0 }
    ∷ []

-- A drawing that asks for the window's first pixel and for one to the left of the surface.
abbrev desk : Desk
desk = record { font_data = font_bytes; console = console; pixels = λ w t. some (corners w) }

desk-IsSound : IsSound desk font screen
unfolding initial AllBright
desk-IsSound = record {
  drawable = console_on screen screen-Captured (omega arith, omega arith, omega arith);
  back = (omega arith, omega arith, omega arith);
  cell_wide = omega arith;
  cell_high = omega arith;
  wide = omega arith;
  high = omega arith;
  small_width = omega arith;
  small_height = omega arith;
  draws = λ w time on. (
    corners w,
    refl,
    ((omega arith, omega arith, omega arith), ((omega arith, omega arith, omega arith), tt)),
  );
}

abbrev noon : TimeOfDay
noon = record { hours = 12; minutes = 0; seconds = 9 }

abbrev devices : Devices
devices = record { screen = some screen; serial = [] }

-- A turn in which the window may move, and one second passes.
abbrev turns : List Turn
turns =
    record {
      events = press Key.left ∷ [];
      now = 1000000000;
      moving = noon;
      time = noon;
      drawing = noon;
    }
    ∷ record {
      events = release Key.left ∷ press Key.down ∷ [];
      now = 1100000000;
      moving = noon;
      time = record noon { seconds = 10 };
      drawing = record noon { seconds = 10 };
    }
    ∷ []

run_clock-Shown_example :
    (r : Clocked) × (run_clock desk noon noon devices turns ≡ some r) × Shown screen r
run_clock-Shown_example = run_clock-Shown desk font screen desk-IsSound noon noon devices turns refl

formats_noon : format_time noon ≡ b'1' ∷ b'2' ∷ b':' ∷ b'0' ∷ b'0' ∷ b':' ∷ b'0' ∷ b'9' ∷ []
unfolding format_time two_digits
formats_noon = refl
