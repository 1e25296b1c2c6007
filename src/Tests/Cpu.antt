-- ===== src/Tests/Cpu.antt =====
-- The processor's tables and the functions on bytes at concrete arguments.
use ferric_k.Base.{ℕ, ◌+◌, ◌/◌, ◌%◌, ◌^◌, ◌≡◌, ◌↔◌, ◌⊎◌, refl, arith, true, false, some, get_elem?}
use ferric_k.Memory.Heap.{Mem}
use ferric_k.Memory.Copy.{memmove}
use ferric_k.Memory.Copy.Moved.{IsMoved, memmove-IsMoved}
use ferric_k.Cpu.Segments.{gdt_entry, kernel_code, tss_descriptor, init}
use ferric_k.Cpu.Segments.Fields.{tss_base_of}
use ferric_k.Cpu.Segments.Stack.{IsLoaded, init-IsLoaded}
use ferric_k.Cpu.Gates
use ferric_k.Cpu.Gates.Vectors.{LeadsTo, has_stub, init-gates}

-- The kernel's code segment, for 64 bits, of four gigabytes.
code_segment : kernel_code ≡ 0x00AF9A000000FFFF
unfolding gdt_entry
code_segment = refl

-- Each byte is its own address; five bytes move up by two.
abbrev numbered : Mem
numbered x = x

memmove-IsMoved_example : IsMoved 12 10 5 numbered (memmove 12 10 5 numbered)
memmove-IsMoved_example = memmove-IsMoved 12 10 5 numbered

init-IsLoaded_example :
    IsLoaded (init 0x200000 0x1003000 0x1002000) (tss_descriptor 0x1003000) (0x200000 + 4096)
    × (tss_base_of (tss_descriptor 0x1003000) ≡ 0x1003000 ↔ 0x1003000 / 2 ^ 16 % 2 ^ 8 ≡ 0)
init-IsLoaded_example = init-IsLoaded 0x200000 0x1003000 0x1002000 (omega arith) (omega arith)

abbrev stub : ℕ → ℕ
stub v = 0x100000

init-gates_example :
    ((has_stub 14 ≡ true) × LeadsTo (Gates.init stub 0x5000).0 14 (stub 14))
    ⊎ ((has_stub 14 ≡ false) × (get_elem? (Gates.init stub 0x5000).0 14 ≡ some Gates.empty_entry))
init-gates_example = init-gates stub 0x5000 14 (λ w. omega arith) (omega arith)
