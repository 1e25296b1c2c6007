-- ===== src/Video/Framebuffer/Fill.antt =====
-- Filling a rectangle.
use ferric_k.Base.{
  ℕ, zero, suc, ◌+◌, ◌^◌, ◌≤◌, ◌<◌, ◌≡◌, refl, sym, subst, ◌∙◌, arith, Bool, true, false, ◌&&◌,
  ◌||◌, Option, some, ltb, leb, ◌==◌, if◌then◌else◌,
}
use ferric_k.Base.Checked.{done}
use ferric_k.Api.Keys.{Rgb}
use ferric_k.Video.Framebuffer.{
  FrameBuffer, write_unchecked, fill_row, fill_rows, fill_rect, encode, read_raw_pixel,
}
use ferric_k.Video.Framebuffer.Capture.{Captured}
use ferric_k.Video.Framebuffer.Pixels.{read-write}
use ferric_k.Video.Framebuffer.Encode.{encode-fits}

-- Only the surface's bytes differ.
pub record Alike (fb fb' : FrameBuffer) : Type 0 where
  pub valid : Captured fb'
  pub width : fb'.width ≡ fb.width
  pub height : fb'.height ≡ fb.height
  pub bytes : fb'.bytes_per_pixel ≡ fb.bytes_per_pixel
  pub red : fb'.red ≡ fb.red
  pub green : fb'.green ≡ fb.green
  pub blue : fb'.blue ≡ fb.blue

-- A surface is like itself.
pub self-Alike : (fb : FrameBuffer) → Captured fb → Alike fb fb
self-Alike fb valid = record {
  valid = valid;
  width = refl;
  height = refl;
  bytes = refl;
  red = refl;
  green = refl;
  blue = refl;
}

pub write-Alike :
    (fb fb' : FrameBuffer) (x y p : ℕ) → Alike fb fb' → Alike fb (write_unchecked fb' x y p)
unfolding write_unchecked
write-Alike fb fb' x y p a = record {
  valid = record {
    some_bytes = a.valid.some_bytes;
    few_bytes = a.valid.few_bytes;
    row = a.valid.row;
    total = a.valid.total;
    red_inside = a.valid.red_inside;
    green_inside = a.valid.green_inside;
    blue_inside = a.valid.blue_inside;
  };
  width = a.width;
  height = a.height;
  bytes = a.bytes;
  red = a.red;
  green = a.green;
  blue = a.blue;
}

-- The range grows by its end; the other coordinate is in range or not.
row_step :
    (a x n p : ℕ) (c : Bool) (r : Option ℕ)
    → (if (a == x + n) && c
        then some p
        else (if c && (leb x a && ltb a (x + n)) then some p else r))
      ≡ (if c && (leb x a && ltb a (x + suc n)) then some p else r)
row_step a x n p true r = ground arith
row_step a x n p false r = ground arith

rows_step :
    (b y n p : ℕ) (c : Bool) (r : Option ℕ)
    → (if (b == y + n) && c
        then some p
        else (if (leb y b && ltb b (y + n)) && c then some p else r))
      ≡ (if (leb y b && ltb b (y + suc n)) && c then some p else r)
rows_step b y n p true r = ground arith
rows_step b y n p false r = ground arith

module _ (fb : FrameBuffer) (x p : ℕ) (fits : p < 256 ^ fb.bytes_per_pixel) where
  fill_row-Alike : (n y : ℕ) (fb' : FrameBuffer) → Alike fb fb' → Alike fb (fill_row n fb' x y p)
  unfolding fill_row
  fill_row-Alike zero y fb' a = a
  fill_row-Alike (suc n) y fb' a =
      write-Alike fb (fill_row n fb' x y p) (x + n) y p (fill_row-Alike n y fb' a)

  fill_rows-Alike :
      (n y w : ℕ) (fb' : FrameBuffer) → Alike fb fb' → Alike fb (fill_rows n fb' x y w p)
  unfolding fill_rows
  fill_rows-Alike zero y w fb' a = a
  fill_rows-Alike (suc n) y w fb' a =
      fill_row-Alike w (y + n) (fill_rows n fb' x y w p) (fill_rows-Alike n y w fb' a)

  read-fill_row :
      (n y : ℕ) (fb' : FrameBuffer) (a b : ℕ)
      → Alike fb fb'
      → x + n ≤ fb.width
      → y < fb.height
      → read_raw_pixel (fill_row n fb' x y p) a b
        ≡ (if (b == y) && (leb x a && ltb a (x + n)) then some p else read_raw_pixel fb' a b)
  unfolding fill_row
  read-fill_row zero y fb' a b alike cols rows =
      let nowhere : (b == y) && (leb x a && ltb a (x + zero)) ≡ false = ground arith in
      rw nowhere refl
  read-fill_row (suc n) y fb' a b alike cols rows =
      let before = fill_row n fb' x y p in
      let alike' = fill_row-Alike n y fb' alike in
      let step =
        read-write before alike'.valid (x + n) y p a b (omega (arith, alike'.width, cols))
          (omega (arith, alike'.height, rows)) (subst (λ k. p < 256 ^ k) (sym alike'.bytes) fits) in
      let ih = read-fill_row n y fb' a b alike (omega (arith, cols)) rows in
      step ∙ rw ih (row_step a x n p (b == y) (read_raw_pixel fb' a b))

  read-fill_rows :
      (n y w : ℕ) (fb' : FrameBuffer) (a b : ℕ)
      → Alike fb fb'
      → x + w ≤ fb.width
      → y + n ≤ fb.height
      → read_raw_pixel (fill_rows n fb' x y w p) a b ≡ (
          if (leb y b && ltb b (y + n)) && (leb x a && ltb a (x + w))
          then some p
          else read_raw_pixel fb' a b)
  unfolding fill_rows
  read-fill_rows zero y w fb' a b alike cols rows =
      let nowhere : (leb y b && ltb b (y + zero)) && (leb x a && ltb a (x + w)) ≡ false =
        ground arith in
      rw nowhere refl
  read-fill_rows (suc n) y w fb' a b alike cols rows =
      let before = fill_rows n fb' x y w p in
      let step =
        read-fill_row w (y + n) before a b (fill_rows-Alike n y w fb' alike) cols
          (omega (arith, rows)) in
      let ih = read-fill_rows n y w fb' a b alike cols (omega (arith, rows)) in
      step ∙ rw ih (rows_step b y n p (leb x a && ltb a (x + w)) (read_raw_pixel fb' a b))

-- What a fill that succeeds leaves.
pub record Filled (fb : FrameBuffer) (x y w h : ℕ) (color : Rgb) : Type 0 where
  pub next : FrameBuffer
  pub word : ℕ
  pub encoded : encode fb color ≡ some word
  pub returned : fill_rect fb x y w h color ≡ done next
  pub alike : Alike fb next
  pub reads :
      (a b : ℕ)
      → read_raw_pixel next a b ≡ (
          if (leb y b && ltb b (y + h)) && (leb x a && ltb a (x + w))
          then some word
          else read_raw_pixel fb a b)

pub fill_rect-Filled :
    (fb : FrameBuffer) (x y w h : ℕ) (color : Rgb)
    → Captured fb
    → (fb.red.size ≤ 56) × (fb.green.size ≤ 56) × (fb.blue.size ≤ 56)
    → (color.r < 256) × (color.g < 256) × (color.b < 256)
    → 0 < w
    → 0 < h
    → x + w ≤ fb.width
    → y + h ≤ fb.height
    → Filled fb x y w h color
unfolding fill_rect
fill_rect-Filled fb x y w h color valid sizes bytes some_w some_h cols rows =
    let (word, e, place, fits) = encode-fits fb color valid sizes bytes in
    let guard : (w == 0) || ((h == 0) || (ltb fb.width (x + w) || ltb fb.height (y + h))) ≡ false =
      ground arith in
    record {
      next = fill_rows h fb x y w word;
      word = word;
      encoded = e;
      returned = rw (guard, e) refl;
      alike = fill_rows-Alike fb x word fits h y w fb (self-Alike fb valid);
      reads = λ a b. read-fill_rows fb x word fits h y w fb a b (self-Alike fb valid) cols rows;
    }

-- `fill_rect` of a rectangle that is not empty and lies on the surface succeeds: a pixel inside then
-- reads as the color's word, and any other one as before. Channels have at most 56 bits.
pub fill_rect-read :
    (fb : FrameBuffer) (x y w h : ℕ) (color : Rgb)
    → Captured fb
    → (fb.red.size ≤ 56) × (fb.green.size ≤ 56) × (fb.blue.size ≤ 56)
    → (color.r < 256) × (color.g < 256) × (color.b < 256)
    → 0 < w
    → 0 < h
    → x + w ≤ fb.width
    → y + h ≤ fb.height
    → (fb' : FrameBuffer) × (word : ℕ) × (encode fb color ≡ some word)
      × (fill_rect fb x y w h color ≡ done fb')
      × ((a b : ℕ)
          → read_raw_pixel fb' a b ≡ (
              if (leb y b && ltb b (y + h)) && (leb x a && ltb a (x + w))
              then some word
              else read_raw_pixel fb a b))
fill_rect-read fb x y w h color valid sizes bytes some_w some_h cols rows =
    let f = fill_rect-Filled fb x y w h color valid sizes bytes some_w some_h cols rows in
    (f.next, f.word, f.encoded, f.returned, f.reads)
