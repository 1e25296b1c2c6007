-- ===== src/Tests/Sync.antt =====
-- Runs of threads over the primitives.
use ferric_k.Base.{ℕ, ◌≡◌, refl, true, Option, some}
use ferric_k.Sync.Threads.{update}
use ferric_k.Sync.Spinlock
use ferric_k.Sync.Spinlock.Exclusion.{mutual_exclusion, lock_reachable}
use ferric_k.Sync.OnceLock
use ferric_k.Sync.OnceLock.Once.{set_once}

-- Thread 0 has the lock, and thread 1 waits for it.
abbrev contended : Spinlock.System ℕ
contended = record {
  mem = record { locked = true; value = 7 };
  pc =
      update (update (update (λ i. Spinlock.outside) 0 Spinlock.guarded) 1 Spinlock.spinning) 1
        Spinlock.spinning;
}

contended_run : Spinlock.Steps (Spinlock.init 7) contended
contended_run =
    Spinlock.later
      (Spinlock.later (Spinlock.later Spinlock.here (Spinlock.pick 0 (Spinlock.try_win refl)))
        (Spinlock.pick 1 Spinlock.lock))
      (Spinlock.pick 1 Spinlock.fail)

mutual_exclusion_example : ◌≡◌ {A = ℕ} 0 0
mutual_exclusion_example = mutual_exclusion 7 contended 0 0 contended_run refl refl

lock_reachable_example :
    (u : Spinlock.System ℕ) × Spinlock.Steps contended u
    × (u.pc 1 ≡ Spinlock.guarded)
    × (u.mem.value ≡ 7)
lock_reachable_example = lock_reachable 7 contended 1 contended_run refl

-- Thread 0 has set the cell, and thread 1 has read it.
abbrev settled : OnceLock.System ℕ
settled = record {
  mem = record { state = OnceLock.ready; value = some 5 };
  pc =
      update
        (update
          (update
            (update
              (update (update (λ i. OnceLock.outside) 0 (OnceLock.trying 5)) 0 (OnceLock.writing 5))
              0 (OnceLock.publishing 5))
            0 (OnceLock.stored 5))
          1 OnceLock.reading)
        1 (OnceLock.seen (some 5));
}

settled_run : OnceLock.Steps (OnceLock.init ℕ) settled
settled_run =
    OnceLock.later
      (OnceLock.later
        (OnceLock.later
          (OnceLock.later
            (OnceLock.later (OnceLock.later OnceLock.here (OnceLock.pick 0 (OnceLock.set 5)))
              (OnceLock.pick 0 (OnceLock.win refl)))
            (OnceLock.pick 0 OnceLock.write))
          (OnceLock.pick 0 OnceLock.publish))
        (OnceLock.pick 1 (OnceLock.get refl)))
      (OnceLock.pick 1 OnceLock.read)

set_once_example :
    (settled.mem.state ≡ OnceLock.ready)
    × (settled.mem.value ≡ some 5)
    × ((j w : ℕ) → settled.pc j ≡ OnceLock.stored w → j ≡ 0)
    × ((j : ℕ) (o : Option ℕ) → settled.pc j ≡ OnceLock.seen o → o ≡ some 5)
set_once_example = set_once settled 0 5 settled_run refl
