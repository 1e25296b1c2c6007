-- ===== src/Cpu/Segments.antt =====
-- crates/ferric-unsafe-core/src/gdt.rs: segment descriptors, the task state segment, and what `init`
-- loads. The addresses that the linker chooses are arguments.
pub mod Fields
pub mod Stack
use ferric_k.Base.{
  ℕ, zero, suc, ◌+◌, ◌-◌, ◌*◌, ◌/◌, ◌%◌, ◌^◌, bit_and, bit_or, List, [], ◌∷◌, set, length, ◌==◌,
  if◌then◌else◌,
}
use ferric_k.Memory.Heap.{Mem, write}

abbrev pub kernel_code_selector : ℕ
kernel_code_selector = 0x08

abbrev pub kernel_data_selector : ℕ
kernel_data_selector = 0x10

abbrev pub tss_selector : ℕ
tss_selector = 0x18

abbrev pub gdt_len : ℕ
gdt_len = 5

abbrev pub ist_stack_bytes : ℕ
ist_stack_bytes = 4096

-- `<<` on 64 bits.
abbrev pub shl : (x n : ℕ) → ℕ
shl x n = x * 2 ^ n % 2 ^ 64

unfoldable pub gdt_entry : (base limit access flags : ℕ) → ℕ
gdt_entry base limit access flags =
    let limit_lo = bit_and limit 0xFFFF in
    let base_lo = bit_and base 0xFFFF in
    let base_mid = bit_and (base / 2 ^ 16) 0xFF in
    let limit_hi = bit_and (limit / 2 ^ 16) 0x0F in
    let base_hi = bit_and (base / 2 ^ 24) 0xFF in
    bit_or
      (bit_or
        (bit_or
          (bit_or (bit_or (bit_or limit_lo (shl base_lo 16)) (shl base_mid 24)) (shl access 40))
          (shl limit_hi 48))
        (shl (bit_and flags 0x0F) 52))
      (shl base_hi 56)

abbrev pub kernel_code : ℕ
kernel_code = gdt_entry 0 0xFFFFF 0x9A 0xA

abbrev pub kernel_data : ℕ
kernel_data = gdt_entry 0 0xFFFFF 0x93 0xC

-- The sizes of the fields of `Tss`, which is packed.
abbrev pub tss_fields : List ℕ
tss_fields =
    2 ∷ 2 ∷ 1 ∷ 1 ∷ 4 ∷ 4 ∷ 2 ∷ 1 ∷ 1 ∷ 4 ∷ 4 ∷ 2 ∷ 1 ∷ 1 ∷ 4 ∷ 4 ∷ 2 ∷ 1 ∷ 1 ∷ 4 ∷ 4 ∷ 2 ∷ 1 ∷ 1
    ∷ 4 ∷ 4 ∷ 8 ∷ 8 ∷ 8 ∷ 8 ∷ 8 ∷ 4 ∷ 2 ∷ []

unfoldable pub total : List ℕ → ℕ
total [] = 0
total (n ∷ sizes) = n + total sizes

abbrev pub tss_size : ℕ
tss_size = total tss_fields

pub record TssEntry : Type 0 where
  pub low : ℕ
  pub high : ℕ

unfoldable pub tss_descriptor : ℕ → TssEntry
tss_descriptor addr =
    let base_lo = bit_and addr 0xFFFF in
    let base_mid = bit_and (addr / 2 ^ 16) 0xFF in
    let base_high = bit_and (addr / 2 ^ 24) 0xFF in
    let base_upper = bit_and (addr / 2 ^ 32) 0xFFFFFFFF in
    let limit = bit_and (tss_size - 1) 0xFFFF in
    record {
      low =
          bit_or
            (bit_or
              (bit_or (bit_or (bit_or limit (shl base_lo 16)) (shl base_mid 24)) (shl 0x89 40))
              (shl 0 52))
            (shl base_high 56);
      high = base_upper;
    }

-- A little-endian number of two bytes in a zeroed segment.
abbrev pub put_u16 : (at n x : ℕ) → ℕ
put_u16 at n x = if x == at then n % 256 else if x == at + 1 then n / 256 % 256 else 0

-- The static `TSS` by its bytes: `length` is its first field, `iopb_offset` its last.
unfoldable pub tss : Mem
tss x = put_u16 0 (tss_size % 2 ^ 16) x + put_u16 (tss_size - 2) (tss_size % 2 ^ 16) x

-- The byte `k` of the address is stored at byte 36 + `k`.
unfoldable pub write_tss_ist1 : Mem → ℕ → Mem
write_tss_ist1 m addr =
    let m0 = write m 36 (addr % 2 ^ 16 % 256) in
    let m1 = write m0 37 (addr / 2 ^ 8 % 256) in
    let m2 = write m1 38 (addr / 2 ^ 16 % 256) in
    let m3 = write m2 39 (addr / 2 ^ 24 % 256) in
    let m4 = write m3 40 (addr / 2 ^ 32 % 256) in
    let m5 = write m4 41 (addr / 2 ^ 40 % 256) in
    let m6 = write m5 42 (addr / 2 ^ 48 % 256) in write m6 43 (addr / 2 ^ 56 % 256)

-- The static `GDT`.
abbrev pub gdt : List ℕ
gdt = gdt_entry 0 0 0 0 ∷ kernel_code ∷ kernel_data ∷ 0 ∷ 0 ∷ []

pub record GdtPtr : Type 0 where
  pub limit : ℕ
  pub base : ℕ

-- What the processor was told, and the tables in memory.
pub record Loaded : Type 0 where
  pub table : List ℕ
  pub segment : Mem
  pub gdtr : GdtPtr
  pub cs : ℕ
  pub ss : ℕ
  pub tr : ℕ

unfoldable pub init : (stack tss_addr gdt_addr : ℕ) → Loaded
init stack tss_addr gdt_addr =
    let segment = write_tss_ist1 tss (stack + ist_stack_bytes) in
    let desc = tss_descriptor tss_addr in
    record {
      table = set (set gdt 3 desc.low) 4 desc.high;
      segment = segment;
      gdtr = record { limit = (8 * gdt_len - 1) % 2 ^ 16; base = gdt_addr };
      cs = kernel_code_selector;
      ss = kernel_data_selector;
      tr = tss_selector;
    }
