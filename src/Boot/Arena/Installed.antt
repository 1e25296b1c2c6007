-- ===== src/Boot/Arena/Installed.antt =====
-- The heap of the kernel: which region it takes, and that it is valid.
use ferric_k.Base.{
  ℕ, zero, suc, ◌+◌, ◌-◌, ◌^◌, ◌<◌, ◌≤◌, ◌≡◌, ◌⊎◌, inl, inr, refl, sym, ap, subst, arith, true,
  false, ◌&&◌, Bool-cases, Option, none, some, List, [], ◌∷◌, get_elem?, ltb,
}
use ferric_k.Memory.Heap.{Heap, ok, checked, init}
use ferric_k.Memory.Heap.State.{IsValid}
use ferric_k.Memory.Heap.Init.{head_of, end_of, Unfit, init-IsValid}
use ferric_k.Boot.Limine.{MemmapEntry, BootInfo}
use ferric_k.Boot.Arena.{
  static_arena_size, Region, is_better, is_candidate, best_region, try_region,
  install_from_boot_info,
}

-- The region after the loop: the one before it, if no entry is better, or that of the longest candidate.
pub data Ranked (hhdm : ℕ) (best : Option Region) (entries : List MemmapEntry)
    : Option Region → Type 0 where
  kept :
      ((j : ℕ) (e : MemmapEntry)
        → get_elem? entries j ≡ some e
        → is_candidate e ≡ true
        → is_better best e.length ≡ false)
      → Ranked hhdm best entries best
  found :
      (i : ℕ) (e : MemmapEntry)
      → get_elem? entries i ≡ some e
      → is_candidate e ≡ true
      → is_better best e.length ≡ true
      → ((j : ℕ) (e' : MemmapEntry)
          → get_elem? entries j ≡ some e'
          → is_candidate e' ≡ true
          → e'.length ≤ e.length)
      → Ranked hhdm best entries (some (e.base + hhdm, e.length))

-- Every candidate can be named in the direct map.
abbrev pub AllMapped : ℕ → List MemmapEntry → Type 0
AllMapped hhdm entries =
    (i : ℕ) (e : MemmapEntry)
    → get_elem? entries i ≡ some e
    → is_candidate e ≡ true
    → (0 < e.base + hhdm) × (e.base + hhdm + 7 < 2 ^ 64)

some_injective : {e e' : MemmapEntry} → some e ≡ some e' → e ≡ e'
some_injective f = cc

is_better_trans :
    (best : Option Region) (n m : ℕ) → is_better best n ≡ true → n ≤ m → is_better best m ≡ true
is_better_trans none n m e le = refl
is_better_trans (some best) n m e le = ground (arith, e, le)

worse_shorter :
    (best : Option Region) (n m : ℕ) → is_better best n ≡ false → is_better best m ≡ true → n ≤ m
worse_shorter none n m e f = absurd (cc)
worse_shorter (some best) n m e f = ground (arith, e, f)

-- An entry that is taken, with what the rest of the loop makes of it.
Ranked_take :
    (hhdm : ℕ) (best : Option Region) (e : MemmapEntry) (entries : List MemmapEntry)
    → is_candidate e ≡ true
    → is_better best e.length ≡ true
    → {r : Option Region} → Ranked hhdm (some (e.base + hhdm, e.length)) entries r
    → Ranked hhdm best (e ∷ entries) r
Ranked_take hhdm best e entries good better (kept none_better) = found 0 e refl good better by
  where
    by :
        (j : ℕ) (e' : MemmapEntry)
        → get_elem? (e ∷ entries) j ≡ some e'
        → is_candidate e' ≡ true
        → e'.length ≤ e.length
    by zero e' at good' = let same = some_injective at in rw (ap (λ z. z.length) same) (omega arith)
    by (suc j) e' at good' = let worse = none_better j e' at good' in ground (arith, worse)
Ranked_take hhdm best e entries good better (found i e2 at2 good2 better2 longest) =
    let longer : e.length ≤ e2.length = ground (arith, better2) in
    found (suc i) e2 at2 good2 (is_better_trans best e.length e2.length better longer) (by longer)
  where
    by :
        e.length ≤ e2.length
        → (j : ℕ) (e' : MemmapEntry) → get_elem? (e ∷ entries) j ≡ some e'
        → is_candidate e' ≡ true
        → e'.length ≤ e2.length
    by longer zero e' at good' =
        let same = some_injective at in omega (arith, ap (λ z. z.length) same, longer)
    by longer (suc j) e' at good' = longest j e' at good'

-- An entry that is passed over.
Ranked_skip :
    (hhdm : ℕ) (best : Option Region) (e : MemmapEntry) (entries : List MemmapEntry)
    → (is_candidate e && is_better best e.length) ≡ false
    → {r : Option Region} → Ranked hhdm best entries r
    → Ranked hhdm best (e ∷ entries) r
Ranked_skip hhdm best e entries skip (kept none_better) = kept by
  where
    by :
        (j : ℕ) (e' : MemmapEntry)
        → get_elem? (e ∷ entries) j ≡ some e'
        → is_candidate e' ≡ true
        → is_better best e'.length ≡ false
    by zero e' at good' =
        let same = some_injective at in
        subst (λ (z : MemmapEntry). is_candidate z ≡ true → is_better best z.length ≡ false) same
          (λ good. ground (arith, skip, good)) good'
    by (suc j) e' at good' = none_better j e' at good'
Ranked_skip hhdm best e entries skip (found i e2 at2 good2 better2 longest) =
    found (suc i) e2 at2 good2 better2 by
  where
    by :
        (j : ℕ) (e' : MemmapEntry)
        → get_elem? (e ∷ entries) j ≡ some e'
        → is_candidate e' ≡ true
        → e'.length ≤ e2.length
    by zero e' at good' =
        let same = some_injective at in
        subst (λ (z : MemmapEntry). is_candidate z ≡ true → z.length ≤ e2.length) same
          (λ good. worse_shorter best e.length e2.length (ground (arith, skip, good)) better2) good'
    by (suc j) e' at good' = longest j e' at good'

best_region-Ranked :
    (hhdm : ℕ) (entries : List MemmapEntry) (best : Option Region)
    → AllMapped hhdm entries
    → (r : Option Region) × (best_region hhdm entries best ≡ ok r) × Ranked hhdm best entries r
unfolding best_region checked
best_region-Ranked hhdm [] best mapped = (best, refl, kept (λ j e at good. absurd (nothing at)))
  where
    nothing : {e : MemmapEntry} → none ≡ some e → ⊥
    nothing f = cc
best_region-Ranked hhdm (e ∷ entries) best mapped =
    let rest = best_region-Ranked hhdm entries in
    let later : AllMapped hhdm entries = λ i. mapped (suc i) in
    elim (Bool-cases (is_candidate e && is_better best e.length)) [
      | inl taken ↦
          (let good : is_candidate e ≡ true = ground (arith, taken) in
            let better : is_better best e.length ≡ true = ground (arith, taken) in
            let fits : ltb (e.base + hhdm) (2 ^ 64) ≡ true =
              ground (arith, (mapped 0 e refl good).1) in
            let r = rest (some (e.base + hhdm, e.length)) later in
            (r.0, rw (taken, fits) r.1, Ranked_take hhdm best e entries good better r.2))
      | inr skipped ↦
          (let r = rest best later in
            (r.0, rw skipped r.1, Ranked_skip hhdm best e entries skipped r.2))
    ]

-- There is no best region, or the heap refuses it.
abbrev pub NoRegion : Option Region → Type 0
NoRegion best = (best ≡ none) ⊎ ((start len : ℕ) × (best ≡ some (start, len)) × Unfit start len)

-- A valid heap, and where it lies: in the best region, which is fit for it, or in the arena, and then there
-- is no region for it.
pub record Installed (arena : ℕ) (h : Heap) (info : BootInfo) : Type 0 where
  pub best : Option Region
  pub ranked : Ranked info.hhdm_offset none info.memmap best
  pub heap : Heap
  pub returned : install_from_boot_info arena h info ≡ ok heap
  pub valid : IsValid heap ((heap.start, heap.end - heap.start) ∷ []) []
  pub place :
      ((start len : ℕ) × (best ≡ some (start, len))
        × (heap.start ≡ head_of start)
        × (heap.end ≡ end_of start len)
        × (head_of start + len < 2 ^ 64)
        × (head_of start + 48 ≤ end_of start len))
      ⊎ ((heap.start ≡ head_of arena) × (heap.end ≡ end_of arena static_arena_size) × NoRegion best)

whole_block :
    (h : Heap) (start end : ℕ)
    → h.start ≡ start
    → h.end ≡ end
    → IsValid h ((start, end - start) ∷ []) []
    → IsValid h ((h.start, h.end - h.start) ∷ []) []
whole_block h start end e f valid =
    subst (λ a. IsValid h ((a, h.end - a) ∷ []) []) (sym e)
      (subst (λ b. IsValid h ((start, b - start) ∷ []) []) (sym f) valid)

module _ (arena : ℕ) (arena_pos : 0 < arena)
    (arena_fits : arena + static_arena_size + 7 < 2 ^ 64) where
  -- The arena is never refused.
  arena_taken :
      (h : Heap)
      → (h' : Heap) × (init h arena static_arena_size ≡ ok (true, h'))
        × (h'.start ≡ head_of arena)
        × (h'.end ≡ end_of arena static_arena_size)
        × IsValid h' ((h'.start, h'.end - h'.start) ∷ []) []
  arena_taken h =
      elim (init-IsValid h arena static_arena_size arena_pos (omega (arith, arena_fits))) [
        | inl refused ↦ absurd (elim refused.1 [
          | inl over ↦ omega (arith, over, arena_fits)
          | inr short ↦ omega (arith, short, arena_fits)
        ])
        | inr taken ↦
            (taken.0, taken.1, taken.2, taken.3, whole_block taken.0 _ _ taken.2 taken.3 taken.4)
      ]

  arena-Installed :
      (h : Heap) (info : BootInfo) (best : Option Region)
      → Ranked info.hhdm_offset none info.memmap best
      → best_region info.hhdm_offset info.memmap none ≡ ok best
      → try_region h best ≡ ok (false, h)
      → NoRegion best
      → Installed arena h info
  unfolding install_from_boot_info
  arena-Installed h info best ranked loop tried why =
      let a = arena_taken h in
      record {
        best = best;
        ranked = ranked;
        heap = a.0;
        returned = rw (loop, tried, a.1) refl;
        valid = a.4;
        place = inr (a.2, a.3, why);
      }

  -- The kernel always gets a heap, valid and free as a whole. It lies in the longest usable region of the
  -- memory map with at least the bytes of a block, if there is one and it is fit: its end does not overflow,
  -- and once aligned it has room for two headers. Only if there is none, or it is not fit, the heap lies in
  -- the static arena. The direct map reaches every such region, without wrapping around, and the arena.
  pub install_from_boot_info-Installed :
      (h : Heap) (info : BootInfo) → AllMapped info.hhdm_offset info.memmap → Installed arena h info
  unfolding install_from_boot_info try_region
  install_from_boot_info-Installed h info mapped =
      let r = best_region-Ranked info.hhdm_offset info.memmap none mapped in by r.0 r.2 r.1
    where
      by :
          (best : Option Region)
          → Ranked info.hhdm_offset none info.memmap best
          → best_region info.hhdm_offset info.memmap none ≡ ok best
          → Installed arena h info
      by none ranked loop = arena-Installed h info none ranked loop refl (inl refl)
      by (some (start, len)) (found i e at good better longest) loop =
          let m = mapped i e at good in
          elim (init-IsValid h start len m.0 m.1) [
            | inl refused ↦
                arena-Installed h info (some (start, len)) (found i e at good better longest) loop
                  refused.0 (inr (start, len, refl, refused.1))
            | inr taken ↦ record {
              best = some (start, len);
              ranked = found i e at good better longest;
              heap = taken.0;
              returned = rw (loop, taken.1) refl;
              valid = whole_block taken.0 _ _ taken.2 taken.3 taken.4;
              place = inl (start, len, refl, taken.2, taken.3, taken.5, taken.6);
            }
          ]
