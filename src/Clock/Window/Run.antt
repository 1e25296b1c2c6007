-- ===== src/Clock/Window/Run.antt =====
-- The clock's loop keeps its window on the screen, and what it calls does not panic.
use ferric_k.Base.{
  ℕ, ◌+◌, ◌^◌, ◌<◌, ◌≤◌, ◌≡◌, refl, sym, subst, ap, arith, none, some, List, [], ◌∷◌, leb, ◌==◌,
  ◌&&◌, Bool-cases, Option-cases, inl, inr,
}
use ferric_k.Base.Int.{same, as_u32}
use ferric_k.Api.Keys.{TimeOfDay}
use ferric_k.Video.Framebuffer.{FrameBuffer}
use ferric_k.Video.Framebuffer.Fill.{Alike, self-Alike}
use ferric_k.Video.Font.{Font}
use ferric_k.Text.Console.Blit.{IsColor}
use ferric_k.Text.Console.Render.{Drawable}
use ferric_k.Text.Console.Repaint.{repaint_rect-Painted}
use ferric_k.Text.Console.Draw.{Devices, with_framebuffer}
use ferric_k.Clock.Window.{
  width, height, ClockWindow, parked, place_centered, Dir, move_step, repeat_period_ns, drain,
  is_due, Desk, draw, redraw, move_by, Turn, Clock, glide, show_second, Clocked, closed, open_at,
  run_turns, run_clock,
}
use ferric_k.Clock.Surface.{Pixel}
use ferric_k.Clock.Surface.Drawn.{AllBright, draw_iter-Alike}
use ferric_k.Clock.Window.OnScreen.{OnScreen, translate-Stepped, place_centered-OnScreen}

-- What the loop relies on: the console behind the window can be drawn and its cells have a size, the screen
-- has room for the window, and sizes that leave room for a step below 2^31; and the drawing library yields
-- the pixels of a window that lies on the screen without a panic, wherever they lie.
pub record IsSound (desk : Desk) (font : Font) (fb0 : FrameBuffer) : Type 0 where
  pub drawable : Drawable desk.font_data font fb0 desk.console
  pub back : IsColor desk.console.bg
  pub cell_wide : 0 < font.width
  pub cell_high : 0 < font.height
  pub wide : width ≤ fb0.width
  pub high : height ≤ fb0.height
  pub small_width : fb0.width + move_step < 2 ^ 31
  pub small_height : fb0.height + move_step < 2 ^ 31
  pub draws :
      (w : ClockWindow) (time : TimeOfDay)
      → OnScreen w fb0.width fb0.height
      → (pixels : List Pixel) × (desk.pixels w time ≡ some pixels) × AllBright pixels

-- Devices with a framebuffer of some kind.
pub record HasScreen (fb0 : FrameBuffer) (d : Devices) : Type 0 where
  pub screen : FrameBuffer
  pub on : d.screen ≡ some screen
  pub alike : Alike fb0 screen

-- A clock whose window lies on the screen.
pub record InPlace (fb0 : FrameBuffer) (s : Clock) : Type 0 where
  pub window_on : OnScreen s.window fb0.width fb0.height
  pub has_screen : HasScreen fb0 s.devices

-- Closed, or open with the window on the screen.
pub data Shown (fb0 : FrameBuffer) : Clocked → Type 0 where
  shut : (d : Devices) → HasScreen fb0 d → Shown fb0 (closed d)
  shown : (s : Clock) → InPlace fb0 s → Shown fb0 (open_at s)

module _ (desk : Desk) (font : Font) (fb0 : FrameBuffer) (sound : IsSound desk font fb0) where
  redraw-HasScreen :
      (w : ClockWindow) (time : TimeOfDay) (d : Devices)
      → OnScreen w fb0.width fb0.height
      → HasScreen fb0 d
      → (d' : Devices) × (redraw desk w time d ≡ some d') × HasScreen fb0 d'
  unfolding redraw with_framebuffer draw
  redraw-HasScreen w time d on has =
      let (pixels, e, bright) = sound.draws w time on in
      let (r, f, alike) =
        draw_iter-Alike fb0 sound.drawable.narrow has.screen pixels has.alike bright in
      (
        record d { screen = some r.0 },
        rw (has.on, e, f) refl,
        record { screen = r.0; on = refl; alike = alike },
      )

  move_by-OnScreen :
      (w : ClockWindow) (dir : Dir) (time : TimeOfDay) (d : Devices)
      → OnScreen w fb0.width fb0.height
      → HasScreen fb0 d
      → (r : ClockWindow × Devices) × (move_by desk w dir fb0.width fb0.height time d ≡ some r)
        × OnScreen r.0 fb0.width fb0.height
        × HasScreen fb0 r.1
  unfolding move_by as_u32
  move_by-OnScreen w dir time d on has =
      let s =
        translate-Stepped fb0.width fb0.height sound.wide sound.high sound.small_width
          sound.small_height w dir on in
      elim (Bool-cases (same s.next.x w.x && same s.next.y w.y)) [
        | inl still ↦ ((s.next, d), rw (s.returned, still) refl, s.on, has)
        | inr moved ↦
            (let p =
                repaint_rect-Painted desk.font_data font fb0 desk.console sound.drawable sound.back
                  sound.cell_wide sound.cell_high d has.screen on.col on.row width height has.on
                  has.alike (omega arith) (omega arith) on.in_width on.in_height in
              let col : as_u32 w.x ≡ on.col = ap as_u32 on.x_eq in
              let row : as_u32 w.y ≡ on.row = ap as_u32 on.y_eq in
              let r =
                redraw-HasScreen s.next time (record d { screen = some p.screen }) s.on
                  (record { screen = p.screen; on = refl; alike = p.alike }) in
              ((s.next, r.0), rw (s.returned, moved, col, row, p.returned, r.1) refl, s.on, r.2))
      ]

  glide-InPlace :
      (t : Turn) (s : Clock)
      → InPlace fb0 s
      → (s' : Clock) × (glide desk fb0.width fb0.height t s ≡ some s') × InPlace fb0 s'
  unfolding glide
  glide-InPlace t s in_place = elim (Option-cases s.held.dir) [
    | inl idle ↦ (s, rw idle refl, in_place)
    | inr (dir, held) ↦
        elim (Bool-cases (leb repeat_period_ns (is_due t.now s.held.last_move_ns))) [
          | inl due ↦
              (let (r, e, on, has) =
                  move_by-OnScreen s.window dir t.moving s.devices in_place.window_on
                    in_place.has_screen in
                (
                  record s {
                    window = r.0;
                    held = record s.held { last_move_ns = t.now };
                    devices = r.1;
                  },
                  rw (held, due, e) refl,
                  record { window_on = on; has_screen = has },
                ))
          | inr early ↦ (s, rw (held, early) refl, in_place)
        ]
  ]

  show_second-InPlace :
      (t : Turn) (s : Clock)
      → InPlace fb0 s
      → (s' : Clock) × (show_second desk t s ≡ some s') × InPlace fb0 s'
  unfolding show_second
  show_second-InPlace t s in_place = elim (Bool-cases (t.time.seconds == s.shown_second)) [
    | inl same ↦ (s, rw same refl, in_place)
    | inr new ↦
        (let (d, e, has) =
            redraw-HasScreen s.window t.drawing s.devices in_place.window_on in_place.has_screen in
          (
            record s { shown_second = t.time.seconds; devices = d },
            rw (new, e) refl,
            record { window_on = in_place.window_on; has_screen = has },
          ))
  ]

  run_turns-Shown :
      (s : Clock) (turns : List Turn)
      → InPlace fb0 s
      → (r : Clocked) × (run_turns desk fb0.width fb0.height s turns ≡ some r) × Shown fb0 r
  unfolding run_turns
  run_turns-Shown s [] in_place = (open_at s, refl, shown s in_place)
  run_turns-Shown s (t ∷ turns) in_place = elim (Option-cases (drain s.held t.events)) [
    | inl escape ↦
        (closed s.devices, rw (run_turns, escape) refl, shut s.devices in_place.has_screen)
    | inr (held, e) ↦
        (let (moved, f, p) =
            glide-InPlace t (record s { held = held })
              (record { window_on = in_place.window_on; has_screen = in_place.has_screen }) in
          let (drawn, g, q) = show_second-InPlace t moved p in
          let (r, h, on) = run_turns-Shown drawn turns q in
          (r, rw (run_turns, e, f, g, h) refl, on))
  ]

  run_clock-Shown_from :
      (drawing time : TimeOfDay) (serial : List ℕ) (turns : List Turn)
      → (r : Clocked) × (run_clock desk drawing time
            (record { screen = some fb0; serial = serial })
            turns
          ≡ some r)
        × Shown fb0 r
  unfolding run_clock
  run_clock-Shown_from drawing time serial turns =
      let centered =
        place_centered-OnScreen fb0.width fb0.height sound.wide sound.high sound.small_width
          sound.small_height parked in
      let d : Devices = record { screen = some fb0; serial = serial } in
      let (drawn, e, has) =
        redraw-HasScreen (place_centered parked fb0.width fb0.height) drawing d centered
          (record { screen = fb0; on = refl; alike = self-Alike fb0 sound.drawable.captured }) in
      let s : Clock = record {
        window = place_centered parked fb0.width fb0.height;
        held = record { dir = none; last_move_ns = 0 };
        shown_second = time.seconds;
        devices = drawn;
      } in
      let (r, f, q) = run_turns-Shown s turns (record { window_on = centered; has_screen = has }) in
      (r, rw (e, f) refl, q)

  -- On a screen that has room for the window, with sizes that leave room for a step below 2^31, whatever
  -- keys come and whenever, the clock does not panic: neither in moving the window, nor in repairing the
  -- console behind it, nor in setting the window's pixels, wherever these lie. The window lies on the
  -- screen as a whole after each turn until it is closed. The console behind it can be drawn: its grid
  -- fits its buffer, its colors are of three bytes, and its font has fewer than 2^32 bytes and cells
  -- that are not empty. The drawing library yields the pixels of a window that lies on the screen
  -- without a panic.
  pub run_clock-Shown :
      (drawing time : TimeOfDay) (d : Devices) (turns : List Turn)
      → d.screen ≡ some fb0
      → (r : Clocked) × (run_clock desk drawing time d turns ≡ some r) × Shown fb0 r
  run_clock-Shown drawing time d turns on =
      subst
        (λ (z : Devices).
          (r : Clocked) × (run_clock desk drawing time z turns ≡ some r) × Shown fb0 r)
        (sym same) (run_clock-Shown_from drawing time d.serial turns)
    where
      same : d ≡ record d { screen = some fb0 }
      same = ap (λ z. record d { screen = z }) on
