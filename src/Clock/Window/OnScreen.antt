-- ===== src/Clock/Window/OnScreen.antt =====
-- The clock window stays on the screen.
use ferric_k.Base.{
  ℕ, suc, ◌+◌, ◌-◌, ◌/◌, ◌^◌, ◌<◌, ◌≤◌, ◌≡◌, refl, sym, ◌∙◌, ap, subst, arith, some, true,
  Bool-cases, inl, inr, ltb, leb, min,
}
use ferric_k.Base.Int.{ℤ, pos, negsuc, diff, ◌+ℤ◌, le, lower, higher, checked, as_i32}
use ferric_k.Clock.Window.{
  width, height, ClockWindow, place_centered, translate, Dir, up, down, left, right, step,
  move_step,
}

-- One coordinate of a window moved by one step.
abbrev Moved : ℤ → ℤ → (room x' : ℕ) → Type 0
Moved x d room x' =
    (sum : ℤ) × (checked (x +ℤ d) ≡ some sum) × (lower (higher sum (pos 0)) (as_i32 room) ≡ pos x')

higher_zero : (n : ℕ) → higher (pos n) (pos 0) ≡ pos n
unfolding higher le
higher_zero n = elim (Bool-cases (leb n 0)) [
  | inl low ↦ (let e : n ≡ 0 = ground (arith, low) in rw low (ap pos (sym e)))
  | inr more ↦ rw more refl
]

lower-min : (a b : ℕ) → lower (pos a) (pos b) ≡ pos (min a b)
unfolding lower le
lower-min a b = elim (Bool-cases (leb a b)) [
  | inl less ↦ (let e : a ≡ min a b = ground (arith, less) in rw less (ap pos e))
  | inr more ↦ (let e : b ≡ min a b = ground (arith, more) in rw more (ap pos e))
]

checked_small : (n : ℕ) → n < 2 ^ 31 → checked (pos n) ≡ some (pos n)
unfolding checked
checked_small n small = let e : ltb n (2 ^ 31) ≡ true = ground (arith, small) in rw e refl

as_i32_small : (n : ℕ) → n < 2 ^ 31 → as_i32 n ≡ pos n
unfolding as_i32
as_i32_small n small = let e : ltb n (2 ^ 31) ≡ true = ground (arith, small) in rw e refl

higher_below : (n : ℕ) → higher (negsuc n) (pos 0) ≡ pos 0
unfolding higher le
higher_below n = refl

forward-Moved :
    (x n room : ℕ) → x ≤ room → room + n < 2 ^ 31 → Moved (pos x) (pos n) room (min (x + n) room)
unfolding ◌+ℤ◌
forward-Moved x n room inside small = (
  pos (x + n),
  checked_small (x + n) (omega (arith, inside, small)),
  rw (higher_zero (x + n), as_i32_small room (omega (arith, small))) (lower-min (x + n) room),
)

checked_below : (n : ℕ) → n < 2 ^ 31 → checked (negsuc n) ≡ some (negsuc n)
unfolding checked
checked_below n small = let e : ltb n (2 ^ 31) ≡ true = ground (arith, small) in rw e refl

back-Moved :
    (x n room : ℕ)
    → x ≤ room
    → room < 2 ^ 31
    → n < 2 ^ 31
    → Moved (pos x) (negsuc n) room (x - suc n)
unfolding ◌+ℤ◌ diff
back-Moved x n room inside small few = elim (Bool-cases (leb (suc n) x)) [
  | inl enough ↦
      (let e : min (x - suc n) room ≡ x - suc n = omega (arith, inside) in
        (
          pos (x - suc n),
          rw enough (checked_small (x - suc n) (omega (arith, inside, small))),
          rw (higher_zero (x - suc n), as_i32_small room small)
              (lower-min (x - suc n) room ∙ ap pos e),
        ))
  | inr past ↦
      (let e : min 0 room ≡ x - suc n = ground (arith, past) in
        (
          negsuc (suc n - x - 1),
          rw past (checked_below (suc n - x - 1) (omega (arith, few))),
          below_zero room (suc n - x - 1) small ∙ ap pos e,
        ))
]
  where
    below_zero :
        (room n : ℕ)
        → room < 2 ^ 31
        → lower (higher (negsuc n) (pos 0)) (as_i32 room) ≡ pos (min 0 room)
    below_zero room n small = rw (higher_below n, as_i32_small room small) (lower-min 0 room)

-- A window that lies on a screen of some size, as a whole.
pub record OnScreen (w : ClockWindow) (screen_width screen_height : ℕ) : Type 0 where
  pub col : ℕ
  pub row : ℕ
  pub x_eq : w.x ≡ pos col
  pub y_eq : w.y ≡ pos row
  pub in_width : col + width ≤ screen_width
  pub in_height : row + height ≤ screen_height

-- Where a step leads, stopped at the edges.
abbrev pub step_col : Dir → (col room : ℕ) → ℕ
step_col left col room = col - move_step
step_col right col room = min (col + move_step) room
step_col dir col room = col

abbrev pub step_row : Dir → (row room : ℕ) → ℕ
step_row up row room = row - move_step
step_row down row room = min (row + move_step) room
step_row dir row room = row

-- A window moved by a step.
pub record Stepped (w : ClockWindow) (dir : Dir) (screen_width screen_height col row : ℕ)
    : Type 0 where
  pub next : ClockWindow
  pub returned : translate w (step dir).0 (step dir).1 screen_width screen_height ≡ some next
  pub on : OnScreen next screen_width screen_height
  pub col_eq : on.col ≡ step_col dir col (screen_width - width)
  pub row_eq : on.row ≡ step_row dir row (screen_height - height)

module _ (sw sh : ℕ) (wide : width ≤ sw) (high : height ≤ sh)
    (small_width : sw + move_step < 2 ^ 31) (small_height : sh + move_step < 2 ^ 31) where
  to-Stepped :
      (x y : ℕ) (dir : Dir) (x' y' : ℕ)
      → Moved (pos x) (step dir).0 (sw - width) x'
      → Moved (pos y) (step dir).1 (sh - height) y'
      → x' ≡ step_col dir x (sw - width)
      → y' ≡ step_row dir y (sh - height)
      → x' ≤ sw - width
      → y' ≤ sh - height
      → Stepped (record { x = pos x; y = pos y }) dir sw sh x y
  unfolding translate
  to-Stepped x y dir x' y' (s, e, f) (t, g, h) c r in_width in_height = record {
    next = record { x = pos x'; y = pos y' };
    returned = rw (e, g, f, h) refl;
    on = record {
      col = x';
      row = y';
      x_eq = refl;
      y_eq = refl;
      in_width = omega (arith, in_width, wide);
      in_height = omega (arith, in_height, high);
    };
    col_eq = c;
    row_eq = r;
  }

  stay : (x n room : ℕ) → x ≤ room → room < 2 ^ 31 → Moved (pos x) (pos 0) room x
  stay x n room inside small =
      let e : min (x + 0) room ≡ x = omega (arith, inside) in
      subst (Moved (pos x) (pos 0) room) e (forward-Moved x 0 room inside (omega (arith, small)))

  step-Stepped :
      (x y : ℕ) (dir : Dir)
      → x ≤ sw - width
      → y ≤ sh - height
      → Stepped (record { x = pos x; y = pos y }) dir sw sh x y
  unfolding step
  step-Stepped x y up a b =
      to-Stepped x y up x (y - move_step) (stay x 0 _ a (omega (arith, small_width)))
        (back-Moved y (move_step - 1) _ b (omega (arith, small_height)) (omega arith)) refl refl a
        (omega (arith, b))
  step-Stepped x y down a b =
      to-Stepped x y down x (min (y + move_step) (sh - height))
        (stay x 0 _ a (omega (arith, small_width)))
        (forward-Moved y move_step _ b (omega (arith, small_height))) refl refl a (omega arith)
  step-Stepped x y left a b =
      to-Stepped x y left (x - move_step) y
        (back-Moved x (move_step - 1) _ a (omega (arith, small_width)) (omega arith))
        (stay y 0 _ b (omega (arith, small_height))) refl refl (omega (arith, a)) b
  step-Stepped x y right a b =
      to-Stepped x y right (min (x + move_step) (sw - width)) y
        (forward-Moved x move_step _ a (omega (arith, small_width)))
        (stay y 0 _ b (omega (arith, small_height))) refl refl (omega arith) b

  -- On a screen that has room for the window, with sizes that leave room for a step below 2^31, a step of a
  -- held direction does not panic; it takes a window on the screen the step's way, stopped at the screen's edges.
  pub translate-Stepped :
      (w : ClockWindow) (dir : Dir) (on : OnScreen w sw sh) → Stepped w dir sw sh on.col on.row
  translate-Stepped w dir on =
      subst (λ (z : ClockWindow). Stepped z dir sw sh on.col on.row) (sym same)
        (step-Stepped on.col on.row dir (omega (arith, on.in_width)) (omega (arith, on.in_height)))
    where
      same : w ≡ record { x = pos on.col; y = pos on.row }
      same = rw (on.x_eq, on.y_eq) refl

  -- The window starts on the screen, in its middle.
  pub place_centered-OnScreen : (w : ClockWindow) → OnScreen (place_centered w sw sh) sw sh
  unfolding place_centered
  place_centered-OnScreen w = record {
    col = (sw - width) / 2;
    row = (sh - height) / 2;
    x_eq = as_i32_small ((sw - width) / 2) (omega (arith, small_width));
    y_eq = as_i32_small ((sh - height) / 2) (omega (arith, small_height));
    in_width = omega (arith, wide);
    in_height = omega (arith, high);
  }
