-- ===== src/Sync/Spinlock/Exclusion.antt =====
-- Mutual exclusion, and that a waiting thread can still get the lock.
use ferric_k.Base.{
  ℕ, ◌≡◌, refl, sym, ◌∙◌, subst, arith, Bool, true, false, Option, none, some, ◌==◌,
}
use ferric_k.Sync.Threads.{update, owns, taken}
use ferric_k.Sync.Spinlock.{
  Spinlock, Pc, outside, spinning, guarded, Move, lock, win, fail, try_win, try_fail, deref,
  deref_mut, drop, System, Step, pick, Steps, here, later, init,
}

abbrev pub holding : Pc → Bool
holding outside = false
holding spinning = false
holding guarded = true

-- The flag is set exactly while one thread has a guard.
pub record Inv {T : Type 0} (s : System T) : Type 0 where
  pub owner : Option ℕ
  pub flag : s.mem.locked ≡ taken owner
  pub alone : (j : ℕ) → holding (s.pc j) ≡ owns owner j

owns_none : (o : Option ℕ) (j : ℕ) → taken o ≡ false → owns o j ≡ false
owns_none none j e = refl
owns_none (some k) j e = absurd (ground (arith, e))

owns_one : (o : Option ℕ) (i j : ℕ) → owns o i ≡ true → owns o j ≡ (j == i)
owns_one none i j e = absurd (ground (arith, e))
owns_one (some k) i j e = ground (arith, e)

guarded_of_holding : (p : Pc) → holding p ≡ true → p ≡ guarded
guarded_of_holding outside e = cc
guarded_of_holding spinning e = cc
guarded_of_holding guarded e = refl

module _ {T : Type 0} where
  keep_owner :
      (s : System T) (m : Spinlock T) (i : ℕ) (p q : Pc)
      → s.pc i ≡ p
      → holding q ≡ holding p
      → m.locked ≡ s.mem.locked
      → Inv s
      → Inv (record { mem = m; pc = update s.pc i q })
  keep_owner s m i p q at same flag inv = record {
    owner = inv.owner;
    flag = flag ∙ inv.flag;
    alone = λ j. ground (arith, at, same, inv.alone j, inv.alone i);
  }

  take :
      (s : System T) (m : Spinlock T) (i : ℕ)
      → s.mem.locked ≡ false
      → m.locked ≡ true
      → Inv s
      → Inv (record { mem = m; pc = update s.pc i guarded })
  take s m i unlocked flag inv = record {
    owner = some i;
    flag = flag;
    alone = λ j.
        (let free = owns_none inv.owner j (sym inv.flag ∙ unlocked) in
          ground (arith, free, inv.alone j));
  }

  release :
      (s : System T) (m : Spinlock T) (i : ℕ)
      → s.pc i ≡ guarded
      → m.locked ≡ false
      → Inv s
      → Inv (record { mem = m; pc = update s.pc i outside })
  release s m i at flag inv = record {
    owner = none;
    flag = flag;
    alone = λ j.
        (let mine : owns inv.owner i ≡ true = ground (arith, at, inv.alone i) in
          let others = owns_one inv.owner i j mine in ground (arith, inv.alone j, others));
  }

  Move-Inv :
      (mem m : Spinlock T) (pc : ℕ → Pc) (i : ℕ) (q p : Pc)
      → pc i ≡ q
      → Move mem q m p
      → Inv (record { mem = mem; pc = pc })
      → Inv (record { mem = m; pc = update pc i p })
  Move-Inv mem m pc i q p e lock inv =
      keep_owner (record { mem = mem; pc = pc }) mem i outside spinning e refl refl inv
  Move-Inv mem m pc i q p e (win unlocked) inv =
      take (record { mem = mem; pc = pc }) (record mem { locked = true }) i unlocked refl inv
  Move-Inv mem m pc i q p e fail inv =
      keep_owner (record { mem = mem; pc = pc }) mem i spinning spinning e refl refl inv
  Move-Inv mem m pc i q p e (try_win unlocked) inv =
      take (record { mem = mem; pc = pc }) (record mem { locked = true }) i unlocked refl inv
  Move-Inv mem m pc i q p e (try_fail closed) inv =
      keep_owner (record { mem = mem; pc = pc }) mem i outside outside e refl refl inv
  Move-Inv mem m pc i q p e deref inv =
      keep_owner (record { mem = mem; pc = pc }) mem i guarded guarded e refl refl inv
  Move-Inv mem m pc i q p e (deref_mut v) inv =
      keep_owner (record { mem = mem; pc = pc }) (record mem { value = v }) i guarded guarded e refl
        refl inv
  Move-Inv mem m pc i q p e drop inv =
      release (record { mem = mem; pc = pc }) (record mem { locked = false }) i e refl inv

  Step-Inv : {s t : System T} → Step s t → Inv s → Inv t
  Step-Inv {s} (pick i {m} {p} move) inv = Move-Inv s.mem m s.pc i (s.pc i) p refl move inv

  init-Inv : (value : T) → Inv (init value)
  init-Inv value = record { owner = none; flag = refl; alone = λ j. refl }

  Steps-Inv : {s t : System T} → Inv s → Steps s t → Inv t
  Steps-Inv inv here = inv
  Steps-Inv inv (later steps step) = Step-Inv step (Steps-Inv inv steps)

  Step-at :
      (s : System T) (i : ℕ) (q : Pc) {m : Spinlock T} {p : Pc}
      → s.pc i ≡ q
      → Move s.mem q m p
      → Step s (record { mem = m; pc = update s.pc i p })
  Step-at s i q {m} {p} e move = pick i (subst (λ z. Move s.mem z m p) (sym e) move)

  -- However the threads interleave, two never have a guard at once.
  pub mutual_exclusion :
      (value : T) (t : System T) (i j : ℕ)
      → Steps (init value) t
      → t.pc i ≡ guarded
      → t.pc j ≡ guarded
      → i ≡ j
  mutual_exclusion value t i j steps in_i in_j =
      let inv = Steps-Inv (init-Inv value) steps in
      let a : owns inv.owner i ≡ true = ground (arith, in_i, inv.alone i) in
      let b : owns inv.owner j ≡ true = ground (arith, in_j, inv.alone j) in
      ground (arith, owns_one inv.owner i j a, b)

  -- From wherever a thread waits in `lock`, there is a run in which it gets the lock and the value
  -- behind it is not changed.
  pub lock_reachable :
      (value : T) (t : System T) (i : ℕ)
      → Steps (init value) t
      → t.pc i ≡ spinning
      → (u : System T) × Steps t u × (u.pc i ≡ guarded) × (u.mem.value ≡ t.mem.value)
  lock_reachable value t i steps waits =
      let inv = Steps-Inv (init-Inv value) steps in by inv.owner inv.flag inv.alone
    where
      by :
          (o : Option ℕ)
          → t.mem.locked ≡ taken o
          → ((j : ℕ) → holding (t.pc j) ≡ owns o j)
          → (u : System T) × Steps t u × (u.pc i ≡ guarded) × (u.mem.value ≡ t.mem.value)
      by none flag alone = (
        record { mem = record t.mem { locked = true }; pc = update t.pc i guarded },
        later here (Step-at t i spinning waits (win flag)),
        ground arith,
        refl,
      )
      by (some k) flag alone =
          let holds : t.pc k ≡ guarded = guarded_of_holding (t.pc k) (ground (arith, alone k)) in
          let freed : System T = record {
            mem = record t.mem { locked = false };
            pc = update t.pc k outside;
          } in
          let still : freed.pc i ≡ spinning = ground (arith, waits, holds) in
          (
            record { mem = record freed.mem { locked = true }; pc = update freed.pc i guarded },
            later (later here (Step-at t k guarded holds drop))
                (Step-at freed i spinning still (win refl)),
            ground arith,
            refl,
          )
