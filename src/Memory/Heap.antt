-- ===== src/Memory/Heap.antt =====
-- `Heap` of crates/ferric-unsafe-core/src/heap.rs: a first-fit allocator over a doubly linked list
-- of free blocks. Memory is a function from the addresses of 8-byte words to their values; the
-- allocator reads and writes words only. A header is three words: the size, the next and the
-- previous free block, null being 0. An overflow of `usize` panics, as in the debug profile. A
-- walk of the list takes fuel.
pub mod Words
pub mod Links
pub mod Rewire
pub mod Unlink
pub mod Split
pub mod Alignment
pub mod State
pub mod Fit
pub mod Take
pub mod Carve
pub mod Alloc
pub mod Merge
pub mod Neighbors
pub mod Dealloc
pub mod Trip
pub mod Null
pub mod Client
pub mod Trace
pub mod Init
use Prim.Native.Nat.{max}
use ferric_k.Base.{
  ℕ, zero, suc, ◌+◌, ◌-◌, ◌*◌, ◌/◌, ◌^◌, Bool, true, false, ◌&&◌, ◌||◌, not, Option, none, some,
  ltb, leb, ◌==◌, if◌then◌else◌,
}

abbrev pub Mem : Type 0
Mem = ℕ → ℕ

unfoldable pub write : Mem → ℕ → ℕ → Mem
write m a v x = if x == a then v else m x

pub data Run {ℓ} (A : Type ℓ) : Type ℓ where
  ok : A → Run A
  panic : Run A
  out_of_fuel : Run A

infixl 5 ◌>>=◌
abbrev pub ◌>>=◌ {ℓ κ} : {A : Type ℓ} {B : Type κ} → Run A → (A → Run B) → Run B
ok a >>= f = f a
panic >>= f = panic
out_of_fuel >>= f = out_of_fuel

-- A sum in `usize`.
unfoldable pub checked : ℕ → Run ℕ
checked n = if ltb n (2 ^ 64) then ok n else panic

abbrev pub header_gap : ℕ
header_gap = 8

abbrev pub header_size : ℕ
header_size = 24

abbrev pub min_block : ℕ
min_block = header_size * 2

-- `sum & !(align - 1)`, which for a power of two rounds down to a multiple of it.
abbrev pub round_down : ℕ → ℕ → ℕ
round_down sum align = sum / align * align

unfoldable pub align_up : ℕ → ℕ → Run ℕ
align_up value align = do sum ← checked (value + (align - 1)); ok (round_down sum align)

pub record Layout : Type 0 where
  pub size : ℕ
  pub align : ℕ

pub record Heap : Type 0 where
  pub free : ℕ
  pub start : ℕ
  pub end : ℕ
  pub mem : Mem

unfoldable pub new : Mem → Heap
new m = record { free = 0; start = 0; end = 0; mem = m }

-- Writes a block's header.
unfoldable pub set_header : Mem → ℕ → ℕ → ℕ → ℕ → Mem
set_header m b size next prev = write (write (write m b size) (b + 8) next) (b + 16) prev

-- `init` once its region is aligned.
unfoldable pub init_at : Heap → (head size : ℕ) → Bool × Heap
init_at h head size =
    let end = round_down (head + size) 8 in
    if leb (2 ^ 64) (head + size) || ltb (end - head) min_block then (false, h) else (
      true,
      record { free = head; start = head; end = end; mem = set_header h.mem head (end - head) 0 0 },
    )

unfoldable pub init : Heap → ℕ → ℕ → Run (Bool × Heap)
init h start size = do head ← align_up start 8; ok (init_at h head size)

-- `if !prev.is_null() { (*prev).next = target } else { self.free = target }`
unfoldable pub relink_next : Heap → ℕ → ℕ → Heap
relink_next h prev target =
    if prev == 0
    then record h { free = target }
    else record h { mem = write h.mem (prev + 8) target }

-- `if !next.is_null() { (*next).prev = target }`
unfoldable pub relink_prev : Heap → ℕ → ℕ → Heap
relink_prev h next target =
    if next == 0 then h else record h { mem = write h.mem (next + 16) target }

-- Takes a block out of the free list.
unfoldable pub unlink : Heap → ℕ → Heap
unlink h b =
    let h1 = relink_next h (h.mem (b + 16)) (h.mem (b + 8)) in
    relink_prev h1 (h1.mem (b + 8)) (h1.mem (b + 16))

-- The two guards of `alloc`'s loop.
unfoldable pub fits : Mem → ℕ → ℕ → ℕ → Run Bool
fits m current size align = do
  payload ← align_up (current + header_size + header_gap) align
  if leb (2 ^ 64) (payload + size)
      then ok false
      else do block_end ← checked (current + m current); ok (leb (payload + size) block_end)

-- The walk of `alloc` to the first block that fits.
unfoldable pub find_fit : ℕ → Mem → ℕ → ℕ → ℕ → Run (Option ℕ)
find_fit zero m size align current = out_of_fuel
find_fit (suc fuel) m size align current =
    let rest = find_fit fuel m size align (m (current + 8)) in
    if current == 0
    then ok none
    else do fit ← fits m current size align; if fit then ok (some current) else rest

-- Splits the block: the tail takes the block's place in the list, and the block shrinks.
unfoldable pub split : Heap → (current tail_addr tail_size : ℕ) → Heap
split h current tail_addr tail_size =
    let m = set_header h.mem tail_addr tail_size (h.mem (current + 8)) (h.mem (current + 16)) in
    let h1 = record h { mem = m } in
    let h2 = relink_next h1 (m (current + 16)) tail_addr in
    let h3 = relink_prev h2 (h2.mem (current + 8)) tail_addr in
    record h3 { mem = write h3.mem current (tail_addr - current) }

-- Whether enough is left behind the payload for a block of its own.
unfoldable pub splits : (need_end block_end : ℕ) → Run Bool
splits need_end block_end =
    if leb min_block (block_end - need_end)
    then (do tail_addr ← align_up need_end 8; ok (leb min_block (block_end - tail_addr)))
    else ok false

-- What `alloc` does with the block that fits.
unfoldable pub carve : Heap → (current size align : ℕ) → Run (ℕ × Heap)
carve h current size align = do
  payload ← align_up (current + header_size + header_gap) align
  let need_end = payload + size
  let block_end = current + h.mem current
  let tail_addr = round_down (need_end + 7) 8
  two ← splits need_end block_end
  let h' = if two then split h current tail_addr (block_end - tail_addr) else unlink h current
  ok (
    payload,
    record h' { mem = write h'.mem (payload - header_gap) (payload - (current + header_size)) },
  )

-- `Heap::alloc`; the result is the payload's address, or null.
unfoldable pub alloc : ℕ → Heap → Layout → Run (ℕ × Heap)
alloc fuel h layout = do
  let size = max layout.size 1
  found ← find_fit fuel h.mem size layout.align h.free
  elim found [ none ↦ ok (0, h) | some current ↦ carve h current size layout.align ]

-- The walk of `dealloc`: the last free block that ends where the block starts, and the last one that
-- starts where it ends.
unfoldable pub neighbors : ℕ → Mem → (block block_end current left right : ℕ) → Run (ℕ × ℕ)
neighbors zero m block block_end current left right = out_of_fuel
neighbors (suc fuel) m block block_end current left right =
    let rest = λ (node_end : ℕ).
      neighbors fuel m block block_end (m (current + 8))
        (if node_end == block then current else left)
        (if current == block_end then current else right) in
    if current == 0
    then ok (left, right)
    else (do node_end ← checked (current + m current); rest node_end)

-- The merge with the free block on the right.
unfoldable pub merge_right : Heap → (block right : ℕ) → Heap
merge_right h block right =
    if right == 0
    then h
    else unlink (record h { mem = write h.mem block (h.mem block + h.mem right) }) right

-- The merge into the free block on the left, or the block as the new head of the list.
unfoldable pub merge_left : Heap → (block left : ℕ) → Heap
merge_left h block left =
    if left == 0
    then (let m = write (write h.mem (block + 8) h.free) (block + 16) 0 in
        record (relink_prev (record h { mem = m }) h.free block) { free = block })
    else record h { mem = write h.mem left (h.mem left + h.mem block) }

-- The size that a merge with the free block `other` computes; null stands for no merge.
unfoldable pub merged_size : Mem → (block other : ℕ) → ℕ
merged_size m block other = if other == 0 then 0 else m block + m other

-- What `dealloc` does with the block that it has found.
unfoldable pub give_back : ℕ → Heap → ℕ → Run Heap
give_back fuel h block = do
  block_end ← checked (block + h.mem block)
  (left, right) ← neighbors fuel h.mem block block_end h.free 0 0
  right_sum ← checked (merged_size h.mem block right)
  let h1 = merge_right h block right
  left_sum ← checked (merged_size h1.mem block left)
  ok (merge_left h1 block left)

-- `dealloc` once the payload is known to lie in the region: the word below it leads to the header.
unfoldable pub dealloc_at : ℕ → Heap → ℕ → Run Heap
dealloc_at fuel h ptr =
    let offset = h.mem (ptr - header_gap) in
    let block = ptr - header_size - offset in
    if ltb ptr (header_size + offset)
    then panic
    else if ltb block h.start || leb h.end block
    then ok h
    else give_back fuel h block

-- `Heap::dealloc`; it does not look at the layout.
unfoldable pub dealloc : ℕ → Heap → ℕ → Run Heap
dealloc fuel h ptr = if ptr == 0 then ok h else (do
  low ← checked (h.start + header_size)
  if ltb ptr low || leb h.end ptr then ok h else dealloc_at fuel h ptr)
