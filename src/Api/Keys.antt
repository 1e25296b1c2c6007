-- ===== src/Api/Keys.antt =====
-- Keys, key events, colors and the time of day of crates/ferric-api/src/lib.rs.
use ferric_k.Base.{ℕ}

-- A logical key, independent of the scan code set.
pub data Key : Type 0 where
  char : ℕ → Key
  enter tab backspace escape : Key
  up down left right : Key
  page_up page_down home end insert delete : Key
  left_shift right_shift left_control right_control left_alt right_alt caps_lock : Key
  f : ℕ → Key
  unknown : ℕ → Key

pub data KeyEvent : Type 0 where
  press : Key → KeyEvent
  release : Key → KeyEvent

pub record Rgb : Type 0 where
  pub r : ℕ
  pub g : ℕ
  pub b : ℕ

abbrev pub rgb : ℕ → ℕ → ℕ → Rgb
rgb r g b = record { r = r; g = g; b = b }

-- `hours`, `minutes` and `seconds` are bytes.
pub record TimeOfDay : Type 0 where
  pub hours : ℕ
  pub minutes : ℕ
  pub seconds : ℕ
