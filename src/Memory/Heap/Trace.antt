-- ===== src/Memory/Heap/Trace.antt =====
-- Any sequence of calls of `alloc` and `dealloc` by a client that gives back what it was given.
use ferric_k.Base.{
  ℕ, suc, ◌+◌, ◌^◌, ◌≤◌, ◌<◌, ◌≡◌, refl, ◌∙◌, arith, List, [], ◌∷◌, Option, none, some, inl, inr,
  length, get_elem?, false, ◌==◌,
}
use ferric_k.Memory.Heap.{Heap, Layout, ok}
use ferric_k.Memory.Heap.Words.{Block}
use ferric_k.Memory.Heap.State.{IsValid}
use ferric_k.Memory.Heap.Alloc.{alloc-first_fit}
use ferric_k.Memory.Heap.Dealloc.{dealloc-IsValid}
use ferric_k.Memory.Heap.Client.{
  Call, allocate, release, remove_at, call, calls, Owns, Owns-same, pick,
}

-- A valid heap whose blocks in use are led to by the payloads that the client holds.
pub record Served (most start end : ℕ) (state : Heap × List ℕ) : Type 0 where
  pub free : List Block
  pub used : List Block
  pub valid : IsValid state.0 free used
  pub owns : Owns state.0.mem used state.1
  pub count : length free ≤ most
  pub region : (state.0.start ≡ start) × (state.0.end ≡ end)

more-Served :
    (most more start end : ℕ) (s : Heap × List ℕ)
    → most ≤ more
    → Served most start end s
    → Served more start end s
more-Served most more start end s le served = record {
  free = served.free;
  used = served.used;
  valid = served.valid;
  owns = served.owns;
  count = omega (arith, served.count, le);
  region = served.region;
}

-- The alignment of each request is not 0, and an aligned address behind the region does not overflow.
abbrev pub Aligned : ℕ → List Call → Type 0
Aligned end [] = Unit {0}
Aligned end (allocate layout ∷ cs) =
    ((1 ≤ layout.align) × (end + layout.align < 2 ^ 64)) × Aligned end cs
Aligned end (release i ∷ cs) = Aligned end cs

call_allocate :
    (fuel most start end : ℕ) (h : Heap) (ps : List ℕ) (layout : Layout)
    → Served most start end (h, ps)
    → most < fuel
    → 1 ≤ layout.align
    → end + layout.align < 2 ^ 64
    → (s : Heap × List ℕ) × (call fuel (allocate layout) (h, ps) ≡ ok s)
      × Served (suc most) start end s
unfolding call
call_allocate fuel most start end h ps layout served enough some_align bound =
    let (r, run, answer) =
      alloc-first_fit fuel h layout served.free served.used served.valid
        (omega (arith, served.count, enough)) some_align (omega (arith, served.region.1, bound)) in
    elim answer [
      | inl (full, e) ↦ (
        (h, ps),
        rw (run, e) refl,
        more-Served most (suc most) start end (h, ps) (omega arith) served,
      )
      | inr (a, e, place, handed) ↦
          (let real : (r.0 == 0) ≡ false = ground (arith, handed.low) in
            (
              (r.1, r.0 ∷ ps),
              rw (run, real) refl,
              record {
                free = handed.free;
                used = (a, handed.kept) ∷ served.used;
                valid = handed.valid;
                owns = (
                  record {
                    low = handed.low;
                    high = omega (arith, handed.high);
                    offset = handed.offset;
                  },
                  Owns-same h.mem r.1.mem served.used ps handed.others served.owns,
                );
                count = omega (arith, handed.count, served.count);
                region = (handed.region.0 ∙ served.region.0, handed.region.1 ∙ served.region.1);
              },
            ))
    ]

call-release :
    (fuel most start end : ℕ) (h : Heap) (ps : List ℕ) (i : ℕ)
    → Served most start end (h, ps)
    → most < fuel
    → (s : Heap × List ℕ) × (call fuel (release i) (h, ps) ≡ ok s) × Served (suc most) start end s
unfolding call
call-release fuel most start end h ps i served enough = by (get_elem? ps i) refl
  where
    by :
        (o : Option ℕ)
        → get_elem? ps i ≡ o
        → (s : Heap × List ℕ) × (call fuel (release i) (h, ps) ≡ ok s)
          × Served (suc most) start end s
    by none e = (
      (h, ps),
      rw (e, call) refl,
      more-Served most (suc most) start end (h, ps) (omega arith) served,
    )
    by (some p) e =
        let k = pick h.mem served.used ps i p served.owns e in
        let v = served.valid in
        let front : IsValid h served.free ((k.block, k.size) ∷ k.others) = record {
          chain = v.chain;
          taken = k.taken v.taken;
          tiling = λ x. omega (arith, v.tiling x, k.same_cover x);
          bound = v.bound;
        } in
        let (h', run, now) =
          dealloc-IsValid fuel h served.free k.others k.block k.size p front
            (omega (arith, served.count, enough)) k.leads.low k.leads.high k.leads.offset in
        (
          (h', remove_at ps i),
          rw (e, call) (rw run refl),
          record {
            free = now.free;
            used = k.others;
            valid = now.valid;
            owns = Owns-same h.mem h'.mem k.others (remove_at ps i) now.others k.owns;
            count = omega (arith, now.count, served.count);
            region = (now.region.0 ∙ served.region.0, now.region.1 ∙ served.region.1);
          },
        )

-- Any calls of `alloc` and `dealloc` return: from a valid heap whose blocks in use are led to by
-- the client's payloads, with more fuel than the free list has blocks and the client makes calls,
-- no call panics, and at the end the heap is valid, with one block in use for each payload that the
-- client then holds. The alignment of each request is not 0, and the region ends at least that far
-- below the end of the address space.
pub calls-Served :
    (fuel most start end : ℕ) (cs : List Call) (h : Heap) (ps : List ℕ)
    → Served most start end (h, ps)
    → most + length cs < fuel
    → Aligned end cs
    → (s : Heap × List ℕ) × (calls fuel cs (h, ps) ≡ ok s) × Served (most + length cs) start end s
unfolding calls
calls-Served fuel most start end [] h ps served enough aligned =
    ((h, ps), refl, more-Served most (most + 0) start end (h, ps) (omega arith) served)
calls-Served fuel most start end (allocate layout ∷ cs) h ps served enough aligned =
    let (s, run, served') =
      call_allocate fuel most start end h ps layout served (omega (arith, enough)) aligned.0.0
        aligned.0.1 in
    let (s', run', end_served) =
      calls-Served fuel (suc most) start end cs s.0 s.1 served' (omega (arith, enough)) aligned.1 in
    (
      s',
      rw run run',
      more-Served (suc most + length cs) (most + suc (length cs)) start end s' (omega arith)
          end_served,
    )
calls-Served fuel most start end (release i ∷ cs) h ps served enough aligned =
    let (s, run, served') =
      call-release fuel most start end h ps i served (omega (arith, enough)) in
    let (s', run', end_served) =
      calls-Served fuel (suc most) start end cs s.0 s.1 served' (omega (arith, enough)) aligned in
    (
      s',
      rw run run',
      more-Served (suc most + length cs) (most + suc (length cs)) start end s' (omega arith)
          end_served,
    )
