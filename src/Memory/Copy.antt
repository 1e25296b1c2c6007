-- ===== src/Memory/Copy.antt =====
-- The C runtime's functions of crates/ferric-unsafe-core/src/mem.rs over a memory of bytes. The caller's
-- contract is that the regions are valid, so no address wraps around.
pub mod Moved
pub mod Compared
use ferric_k.Base.{ℕ, zero, suc, ◌+◌, ◌-◌, ◌%◌, leb, ◌==◌, if◌then◌else◌}
use ferric_k.Base.Int.{ℤ, pos, diff}
use ferric_k.Memory.Heap.{Mem, write}

-- The first `n` bytes from place `i` on, in rising order.
unfoldable pub copy_up : (n i dest src : ℕ) → Mem → Mem
copy_up zero i dest src m = m
copy_up (suc n) i dest src m = copy_up n (i + 1) dest src (write m (dest + i) (m (src + i)))

-- The first `n` bytes in falling order.
unfoldable pub copy_down : (n dest src : ℕ) → Mem → Mem
copy_down zero dest src m = m
copy_down (suc n) dest src m = copy_down n dest src (write m (dest + n) (m (src + n)))

unfoldable pub memcpy : (dest src n : ℕ) → Mem → Mem
memcpy dest src n m = copy_up n 0 dest src m

unfoldable pub memmove : (dest src n : ℕ) → Mem → Mem
memmove dest src n m = if leb dest src then copy_up n 0 dest src m else copy_down n dest src m

unfoldable pub fill_up : (n i dest value : ℕ) → Mem → Mem
fill_up zero i dest value m = m
fill_up (suc n) i dest value m = fill_up n (i + 1) dest value (write m (dest + i) (value % 256))

-- The value is given by its 32 bits.
unfoldable pub memset : (dest value n : ℕ) → Mem → Mem
memset dest value n m = fill_up n 0 dest value m

unfoldable pub compare : (n i a b : ℕ) → Mem → ℤ
compare zero i a b m = pos 0
compare (suc n) i a b m =
    let rest = compare n (i + 1) a b m in
    if m (a + i) == m (b + i) then rest else diff (m (a + i)) (m (b + i))

unfoldable pub memcmp : (a b n : ℕ) → Mem → ℤ
memcmp a b n m = compare n 0 a b m
