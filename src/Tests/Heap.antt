-- ===== src/Tests/Heap.antt =====
-- Tests of the allocator.
use ferric_k.Base.{
  ◌%◌, ◌≢◌, ℕ, ◌+◌, ◌*◌, ◌^◌, ◌<◌, ◌≤◌, ◌≡◌, ◌⊎◌, refl, List, inl, arith, true, false, [], ◌∷◌,
}
use ferric_k.Memory.Heap.{
  Mem, write, Heap, Layout, Run, ok, set_header, init, init_at, align_up, checked, split, alloc,
  dealloc, fits, find_fit, splits, carve, unlink, relink_next, relink_prev, neighbors, merged_size,
  merge_right, merge_left, give_back, dealloc_at,
}
use ferric_k.Memory.Heap.Words.{cover, write_self}
use ferric_k.Memory.Heap.State.{IsValid, IsValid-write}
use ferric_k.Memory.Heap.Unlink.{split-region}
use ferric_k.Memory.Heap.Take.{split-IsValid}
use ferric_k.Memory.Heap.Init.{single, init-IsValid, init_past_region}
use ferric_k.Memory.Heap.Alloc.{Answer, alloc-first_fit}
use ferric_k.Memory.Heap.Dealloc.{Valid, dealloc-IsValid}
use ferric_k.Memory.Heap.Null.{alloc-null}
use ferric_k.Memory.Heap.Client.{allocate, release, calls}
use ferric_k.Memory.Heap.Trace.{Served, calls-Served}
use ferric_k.Memory.Heap.Trip.{alloc-fresh, alloc-dealloc}

abbrev zeros : Mem
zeros a = 0

abbrev blank : Heap
blank = record { free = 0; start = 0; end = 0; mem = zeros }

-- A heap of 256 bytes at 64, all of it free.
abbrev fresh : Heap
fresh = record { free = 64; start = 64; end = 320; mem = set_header zeros 64 256 0 0 }

fresh-IsValid : IsValid fresh ((64, 256) ∷ []) []
fresh-IsValid =
    single blank 64 320 (omega arith) (omega arith) (omega arith) (omega arith) (omega arith)

-- The same heap with its first 64 bytes in use, the payload at 96.
abbrev busy : Heap
busy = let h = split fresh 64 128 192 in record h { mem = write h.mem 88 8 }

busy-IsValid : IsValid busy ((128, 192) ∷ []) ((64, 64) ∷ [])
busy-IsValid =
    IsValid-write (split fresh 64 128 192) ((128, 192) ∷ []) [] 64 64 88 8
      (split-IsValid fresh [] [] [] 64 256 fresh-IsValid 128 192 (omega arith) (omega arith)
        (omega arith) (omega arith, omega arith)).0
      (omega arith) (omega arith)

abbrev small : Layout
small = record { size = 16; align = 16 }

abbrev pointer : Run (ℕ × Heap) → ℕ
pointer (ok r) = r.0
pointer r = 0

abbrev free_after : Run Heap → ℕ
free_after (ok h) = h.mem h.free
free_after r = 0

alloc_first : pointer (alloc 2 fresh small) ≡ 96
unfolding alloc find_fit fits align_up checked carve splits set_header write
alloc_first = refl

alloc_full : pointer (alloc 2 fresh record { size = 300; align = 8 }) ≡ 0
unfolding alloc find_fit fits align_up checked set_header write
alloc_full = refl

-- The block and the free rest behind it become one block again.
dealloc_merges : free_after (dealloc 2 busy 96) ≡ 256
unfolding dealloc dealloc_at give_back neighbors merge_right merge_left split unlink relink_next
    relink_prev set_header write checked merged_size
dealloc_merges = refl

alloc-first_fit_example :
    (r : ℕ × Heap) × (alloc 2 busy small ≡ ok r)
    × Answer busy ((128, 192) ∷ []) ((64, 64) ∷ []) small r
alloc-first_fit_example =
    alloc-first_fit 2 busy small ((128, 192) ∷ []) ((64, 64) ∷ []) busy-IsValid (omega arith)
      (omega arith) (omega (arith, (split-region fresh 64 128 192).1))

dealloc-IsValid_example : (h' : Heap) × (dealloc 2 busy 96 ≡ ok h') × Valid 2 busy h' []
dealloc-IsValid_example =
    dealloc-IsValid 2 busy ((128, 192) ∷ []) [] 64 64 96 busy-IsValid (omega arith) (omega arith)
      (omega arith) (write_self (split fresh 64 128 192).mem 88 8)

alloc-fresh_example :
    (ptr : ℕ) × (h1 : Heap) × (q : ℕ) × (alloc 2 fresh small ≡ ok (ptr, h1))
    × (ptr ≡ q * 16)
    × ((x : ℕ) → ptr ≤ x → x < ptr + 16 → (64 ≤ x) × (x < 320) × (cover x [] ≡ 0))
alloc-fresh_example =
    alloc-fresh 2 fresh small ((64, 256) ∷ []) [] fresh-IsValid (omega arith) (omega arith)
      (omega arith) (λ e. cc)

alloc-dealloc_example :
    (ptr : ℕ) × (h1 : Heap) × (h2 : Heap) × (alloc 3 fresh small ≡ ok (ptr, h1))
    × (dealloc 3 h1 ptr ≡ ok h2)
    × Valid 2 fresh h2 []
alloc-dealloc_example =
    alloc-dealloc 3 fresh small ((64, 256) ∷ []) [] fresh-IsValid (omega arith) (omega arith)
      (omega arith) (λ e. cc)

init-IsValid_example :
    ((init blank 61 256 ≡ ok (false, blank)) × ((2 ^ 64 ≤ 320) ⊎ (320 < 112)))
    ⊎ ((h' : Heap) × (init blank 61 256 ≡ ok (true, h'))
        × (h'.start ≡ 64)
        × (h'.end ≡ 320)
        × IsValid h' ((64, 256) ∷ []) []
        × (320 < 2 ^ 64)
        × (64 + 48 ≤ 320)
        × (61 ≤ h'.start)
        × (h'.end < 61 + 256 + 8)
        × ((61 % 8 ≢ 0) ⊎ (h'.end ≤ 61 + 256)))
init-IsValid_example = init-IsValid blank 61 256 (omega arith) (omega arith)

odd_start : 61 + 256 < 320
unfolding init init_at align_up checked
odd_start =
    init_past_region blank 61 256
      record { free = 64; start = 64; end = 320; mem = set_header zeros 64 256 0 0 } (omega arith)
      (omega arith) (omega arith) refl

calls-Served_example :
    (s : Heap × List ℕ) × (calls 4 (allocate small ∷ release 0 ∷ []) (fresh, []) ≡ ok s)
    × Served 3 64 320 s
calls-Served_example =
    calls-Served 4 1 64 320 (allocate small ∷ release 0 ∷ []) fresh []
      record {
        free = (64, 256) ∷ [];
        used = [];
        valid = fresh-IsValid;
        owns = tt;
        count = omega arith;
        region = (refl, refl);
      }
      (omega arith) ((omega arith, omega arith), tt)

alloc-null_example : 64 + 256 < 12 * 8 + 300
unfolding alloc find_fit fits align_up checked set_header write
alloc-null_example =
    alloc-null 2 fresh fresh record { size = 300; align = 8 } ((64, 256) ∷ []) [] 64 256 12
      fresh-IsValid (omega arith) (omega arith) (omega arith) refl (inl (refl, refl)) (omega arith)
