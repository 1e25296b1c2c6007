-- ===== src/Tests/Grid.antt =====
-- Tests of the text grid.
use ferric_k.Base.{ℕ, ◌<◌, ◌+◌, ◌*◌, ◌≡◌, refl, arith, none, some, [], ◌∷◌, set, replicate}
use ferric_k.Api.Keys.{Rgb, rgb}
use ferric_k.Text.Grid.{
  Cell, TextGrid, ◌>>=◌, checked_u32, write, index, copy_down, fill, scroll_up, linefeed, put_glyph,
  put,
}
use ferric_k.Text.Grid.Valid.{IsValid}
use ferric_k.Text.Grid.Put.{Kept, put-Kept}
use ferric_k.Text.Grid.Scroll.{at, below, scroll_up-below}
use ferric_k.Text.Grid.Tab.{tab_stop, tab_inside, tab_then_put_panics, tab_then_put_overwritten}

abbrev black : Rgb
black = rgb 0 0 0

abbrev dot : ℕ → Cell
dot c = record { glyph = c; fg = black; bg = black }

-- A grid of two rows of three columns, its cursor at a given place.
abbrev small : ℕ → ℕ → TextGrid
small row col = record {
  cells = dot b'a' ∷ dot b'b' ∷ dot b'c' ∷ dot b'd' ∷ dot b'e' ∷ dot b'f' ∷ [];
  cols = 3;
  rows = 2;
  row = row;
  col = col;
  default_fg = black;
  default_bg = black;
  scroll_count = 0;
}

-- One row of twenty columns.
abbrev wide : TextGrid
wide = record {
  cells = replicate 20 (dot 0x20);
  cols = 20;
  rows = 1;
  row = 0;
  col = 3;
  default_fg = black;
  default_bg = black;
  scroll_count = 0;
}

small-IsValid : (row col : ℕ) → row < 2 → col < 3 → IsValid (small row col)
small-IsValid row col h k = omega arith

-- A character in the last cell scrolls the grid.
put_scrolls :
    put (small 1 2) b'x' black black
    ≡ some (record (small 1 2) {
      cells = dot b'd' ∷ dot b'e' ∷ dot b'x' ∷ dot 0x20 ∷ dot 0x20 ∷ dot 0x20 ∷ [];
      col = 0;
      scroll_count = 1;
    })
unfolding put put_glyph linefeed scroll_up index checked_u32 write copy_down fill
put_scrolls = refl

put-Kept_example : Kept (small 1 2) (put (small 1 2) b'x' black black)
put-Kept_example =
    put-Kept (small 1 2) b'x' black black (small-IsValid 1 2 (omega arith) (omega arith))
      (omega arith) (omega arith)

scroll_up-below_example :
    (scroll_up (small 1 2) >>= λ h. some (at h 0 1)) ≡ some (below (small 1 2) 0 1)
scroll_up-below_example =
    scroll_up-below (small 1 2) (small-IsValid 1 2 (omega arith) (omega arith)).shaped 0 1
      (omega arith) (omega arith) (omega arith)

tab_in_row :
    (put wide 0x09 black black ≡ some (record wide { col = tab_stop wide }))
    × IsValid (record wide { col = tab_stop wide })
tab_in_row = tab_inside wide black black (omega arith) (omega arith) (omega arith)

tab_then_put_panics_example :
    (put (small 1 0) 0x09 black black >>= λ g'. put g' b'x' black black) ≡ none
tab_then_put_panics_example =
    tab_then_put_panics (small 1 0) b'x' black black (small-IsValid 1 0 (omega arith) (omega arith))
      (omega arith) (omega arith) refl refl (omega arith) (omega arith)

tab_overwrites :
    (put (small 0 0) 0x09 black black >>= λ g'. put g' b'x' black black)
    ≡ some (record (small 0 0) {
      cells = set (small 0 0).cells ((0 + 1) * 3) (dot b'x');
      row = 0 + 1;
      col = 0;
    })
tab_overwrites =
    tab_then_put_overwritten (small 0 0) b'x' black black
      (small-IsValid 0 0 (omega arith) (omega arith)) (omega arith) (omega arith) (omega arith)
      (omega arith)
