-- ===== src/Cpu/Segments/Stack.antt =====
-- The stack that the processor finds by the loaded tables.
use ferric_k.Base.{
  ℕ, ◌+◌, ◌*◌, ◌/◌, ◌%◌, ◌^◌, ◌<◌, ◌≤◌, ◌≡◌, ◌↔◌, refl, arith, some, length, get_elem?,
}
use ferric_k.Memory.Heap.{Mem, write}
use ferric_k.Cpu.Segments.{
  TssEntry, Loaded, tss_descriptor, tss, write_tss_ist1, init, kernel_code, kernel_data,
  ist_stack_bytes,
}
use ferric_k.Cpu.Segments.Fields.{tss_base_of, tss_descriptor-fields}

-- Eight bytes of memory, the low one first.
abbrev pub read_u64 : Mem → ℕ → ℕ
read_u64 m at =
    m at
    + m (at + 1) * 2 ^ 8
    + m (at + 2) * 2 ^ 16
    + m (at + 3) * 2 ^ 24
    + m (at + 4) * 2 ^ 32
    + m (at + 5) * 2 ^ 40
    + m (at + 6) * 2 ^ 48
    + m (at + 7) * 2 ^ 56

-- The first stack of the interrupt stack table stands at byte 36 of the segment, and no other byte of it
-- has changed.
pub write_tss_ist1-read_u64 :
    (m : Mem) (addr : ℕ)
    → addr < 2 ^ 64
    → (read_u64 (write_tss_ist1 m addr) 36 ≡ addr)
      × ((x : ℕ) → x < 36 → write_tss_ist1 m addr x ≡ m x)
      × ((x : ℕ) → 44 ≤ x → write_tss_ist1 m addr x ≡ m x)
unfolding write_tss_ist1 write
write_tss_ist1-read_u64 m addr fits =
    (omega (arith, fits), (λ x lt. ground (arith, lt)), (λ x le. ground (arith, le)))

-- The table that was loaded is as long as the processor was told, the selectors name the kernel's
-- segments, and the task register names the two slots of the descriptor.
pub record IsLoaded (l : Loaded) (desc : TssEntry) (top : ℕ) : Type 0 where
  pub length_eq : l.gdtr.limit + 1 ≡ 8 * length l.table
  pub code : get_elem? l.table (l.cs / 8) ≡ some kernel_code
  pub data_eq : get_elem? l.table (l.ss / 8) ≡ some kernel_data
  pub low : get_elem? l.table (l.tr / 8) ≡ some desc.low
  pub high : get_elem? l.table (l.tr / 8 + 1) ≡ some desc.high
  pub stack : read_u64 l.segment 36 ≡ top

-- After `init` the table is as long as the processor was told; the selectors name the kernel's segments
-- and the slots of the task segment's descriptor, whose first interrupt stack is the end of the stack that
-- was set aside. The descriptor leads to the segment if and only if the bits 16 to 23 of the segment's
-- address are 0.
pub init-IsLoaded :
    (stack tss_addr gdt_addr : ℕ)
    → stack + ist_stack_bytes < 2 ^ 64
    → tss_addr < 2 ^ 64
    → IsLoaded (init stack tss_addr gdt_addr) (tss_descriptor tss_addr) (stack + ist_stack_bytes)
      × (tss_base_of (tss_descriptor tss_addr) ≡ tss_addr ↔ tss_addr / 2 ^ 16 % 2 ^ 8 ≡ 0)
unfolding init
init-IsLoaded stack tss_addr gdt_addr top fits = (
  record {
    length_eq = refl;
    code = refl;
    data_eq = refl;
    low = refl;
    high = refl;
    stack = (write_tss_ist1-read_u64 tss (stack + ist_stack_bytes) top).0;
  },
  (tss_descriptor-fields tss_addr fits).2,
)
