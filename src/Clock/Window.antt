-- ===== src/Clock/Window.antt =====
-- `ClockWindow` of crates/ferric-safe-core/src/clock_app.rs but for the pixels of `draw`, which a drawing
-- library yields and which are an argument; and of crates/ferric-unsafe-core/src/app.rs `run_clock` and what it calls, by
-- turns of its loop. A panic is `none`.
pub mod OnScreen
pub mod Run
use ferric_k.Base.{
  ℕ, ◌+◌, ◌-◌, ◌*◌, ◌/◌, ◌%◌, ◌^◌, Option, none, some, List, [], ◌∷◌, ◌&&◌, ◌==◌, leb,
  if◌then◌else◌,
}
use ferric_k.Base.Int.{ℤ, pos, negsuc, ◌+ℤ◌, same, lower, higher, checked, as_i32, as_u32}
use ferric_k.Video.Framebuffer.{FrameBuffer}
use ferric_k.Text.Console.{Console}
use ferric_k.Text.Console.Draw.{Devices, with_framebuffer, repaint_rect}
use ferric_k.Clock.Surface.{Pixel, draw_iter}
use ferric_k.Api.Keys.{Key, KeyEvent, press, release, TimeOfDay}

abbrev pub width : ℕ
width = 220

abbrev pub height : ℕ
height = 180

pub record ClockWindow : Type 0 where
  pub x : ℤ
  pub y : ℤ

abbrev pub parked : ClockWindow
parked = record { x = pos 0; y = pos 0 }

unfoldable pub place_centered : ClockWindow → (screen_width screen_height : ℕ) → ClockWindow
place_centered w screen_width screen_height = record {
  x = as_i32 ((screen_width - width) / 2);
  y = as_i32 ((screen_height - height) / 2);
}

infixl 5 ◌>>=◌
abbrev pub ◌>>=◌ : {A : Type 0} {B : Type 0} → Option A → (A → Option B) → Option B
none >>= f = none
some a >>= f = f a

unfoldable pub translate :
    ClockWindow → (dx dy : ℤ) → (screen_width screen_height : ℕ) → Option ClockWindow
translate w dx dy screen_width screen_height = do
  x ← checked (w.x +ℤ dx)
  y ← checked (w.y +ℤ dy)
  some (record {
    x = lower (higher x (pos 0)) (as_i32 (screen_width - width));
    y = lower (higher y (pos 0)) (as_i32 (screen_height - height));
  })

unfoldable pub two_digits : ℕ → List ℕ → List ℕ
two_digits value rest = (b'0' + value / 10) ∷ (b'0' + value % 10) ∷ rest

unfoldable pub format_time : TimeOfDay → List ℕ
format_time t = two_digits t.hours (b':' ∷ two_digits t.minutes (b':' ∷ two_digits t.seconds []))

abbrev pub move_step : ℕ
move_step = 16

abbrev pub repeat_period_ns : ℕ
repeat_period_ns = 70000000

pub data Dir : Type 0 where
  up down left right : Dir

unfoldable pub step : Dir → ℤ × ℤ
step up = (pos 0, negsuc (move_step - 1))
step down = (pos 0, pos move_step)
step left = (negsuc (move_step - 1), pos 0)
step right = (pos move_step, pos 0)

unfoldable pub dir_of : Key → Option Dir
dir_of Key.up = some up
dir_of Key.down = some down
dir_of Key.left = some left
dir_of Key.right = some right
dir_of key = none

-- The direction that is held, and when the window last moved.
pub record Held : Type 0 where
  pub dir : Option Dir
  pub last_move_ns : ℕ

abbrev hold : Held → Option Dir → Held
hold h none = h
hold h (some dir) = record { dir = some dir; last_move_ns = 0 }

abbrev let_go : Held → Option Dir → Held
let_go h none = h
let_go h (some dir) = record h { dir = none }

-- The events of a turn; `none` closes the window.
unfoldable pub drain : Held → List KeyEvent → Option Held
drain h [] = some h
drain h (press Key.escape ∷ events) = none
drain h (press key ∷ events) = drain (hold h (dir_of key)) events
drain h (release key ∷ events) = drain (let_go h (dir_of key)) events

-- Whether a held direction moves the window in this turn.
abbrev is_due : (now last : ℕ) → ℕ
is_due now last = (now + 2 ^ 64 - last) % 2 ^ 64

-- What the loop uses and does not change: the font's bytes, the console behind the window, and the
-- pixels that the drawing library yields for the shapes of the window, in their order, or its panic.
pub record Desk : Type 0 where
  pub font_data : List ℕ
  pub console : Console
  pub pixels : ClockWindow → TimeOfDay → Option (List Pixel)

-- The drawing of the window up to the first error, which `redraw` drops.
unfoldable pub draw : Desk → ClockWindow → TimeOfDay → FrameBuffer → Option FrameBuffer
draw desk w time fb = do pixels ← desk.pixels w time; drawn ← draw_iter fb pixels; some drawn.0

unfoldable pub redraw : Desk → ClockWindow → TimeOfDay → Devices → Option Devices
redraw desk w time d = with_framebuffer d (draw desk w time)

unfoldable pub move_by :
    Desk
    → ClockWindow
    → Dir
    → (screen_width screen_height : ℕ) → TimeOfDay
    → Devices
    → Option (ClockWindow × Devices)
move_by desk w dir screen_width screen_height time d = do
  w' ← translate w (step dir).0 (step dir).1 screen_width screen_height
  if same w'.x w.x && same w'.y w.y then some (w', d) else (do
    behind ← repaint_rect desk.font_data desk.console d (as_u32 w.x) (as_u32 w.y) width height
    drawn ← redraw desk w' time behind
    some (w', drawn))

-- A turn of the loop: the events that wait, the uptime, and the time of day as it is read for a window
-- that moves, for the second that is shown, and for the drawing behind it.
pub record Turn : Type 0 where
  pub events : List KeyEvent
  pub now : ℕ
  pub moving : TimeOfDay
  pub time : TimeOfDay
  pub drawing : TimeOfDay

pub record Clock : Type 0 where
  pub window : ClockWindow
  pub held : Held
  pub shown_second : ℕ
  pub devices : Devices

-- The part of a turn behind the events that moves the window.
unfoldable pub glide : Desk → (screen_width screen_height : ℕ) → Turn → Clock → Option Clock
glide desk screen_width screen_height t s = elim s.held.dir [
  | none ↦ some s
  | some dir ↦
      if leb repeat_period_ns (is_due t.now s.held.last_move_ns)
      then (do
        moved ← move_by desk s.window dir screen_width screen_height t.moving s.devices
        some (record s {
          window = moved.0;
          held = record s.held { last_move_ns = t.now };
          devices = moved.1;
        }))
      else some s
]

-- The part that shows a new second.
unfoldable pub show_second : Desk → Turn → Clock → Option Clock
show_second desk t s = if t.time.seconds == s.shown_second then some s else (do
  d ← redraw desk s.window t.drawing s.devices
  some (record s { shown_second = t.time.seconds; devices = d }))

-- The loop over some turns; at Escape it is closed, and leaves the devices.
pub data Clocked : Type 0 where
  closed : Devices → Clocked
  open_at : Clock → Clocked

unfoldable pub run_turns :
    Desk → (screen_width screen_height : ℕ) → Clock → List Turn → Option Clocked
run_turns desk screen_width screen_height s [] = some (open_at s)
run_turns desk screen_width screen_height s (t ∷ turns) = elim (drain s.held t.events) [
  | none ↦ some (closed s.devices)
  | some held ↦ (do
    moved ← glide desk screen_width screen_height t (record s { held = held })
    shown ← show_second desk t moved
    run_turns desk screen_width screen_height shown turns)
]

-- The loop from its start; it panics without a framebuffer. The time of day is read for the first drawing
-- and again for the second that is shown.
unfoldable pub run_clock : Desk → (drawing time : TimeOfDay) → Devices → List Turn → Option Clocked
run_clock desk drawing time d turns = do
  fb ← d.screen
  let w = place_centered parked fb.width fb.height
  drawn ← redraw desk w drawing d
  let held : Held = record { dir = none; last_move_ns = 0 }
  run_turns desk fb.width fb.height
      (record { window = w; held = held; shown_second = time.seconds; devices = drawn }) turns
