-- ===== src/Sync/Spinlock.antt =====
-- `Spinlock` of crates/ferric-unsafe-core/src/sync.rs.
pub mod Exclusion
use ferric_k.Base.{ℕ, Bool, true, false, ◌≡◌}
use ferric_k.Sync.Threads.{update}

-- The flag `locked` and the value behind it.
pub record Spinlock (T : Type 0) : Type 0 where
  pub locked : Bool
  pub value : T

abbrev pub new : {T : Type 0} → T → Spinlock T
new value = record { locked = false; value = value }

-- Where a thread stands: outside, in the loop of `lock`, or with a guard.
pub data Pc : Type 0 where
  outside spinning guarded : Pc

-- One step of one thread. `compare_exchange_weak` may fail although the lock is free.
pub data Move {T : Type 0} (m : Spinlock T) : Pc → Spinlock T → Pc → Type 0 where
  lock : Move m outside m spinning
  win : m.locked ≡ false → Move m spinning (record m { locked = true }) guarded
  fail : Move m spinning m spinning
  try_win : m.locked ≡ false → Move m outside (record m { locked = true }) guarded
  try_fail : m.locked ≡ true → Move m outside m outside
  deref : Move m guarded m guarded
  deref_mut : (v : T) → Move m guarded (record m { value = v }) guarded
  drop : Move m guarded (record m { locked = false }) outside

pub record System (T : Type 0) : Type 0 where
  pub mem : Spinlock T
  pub pc : ℕ → Pc

pub data Step {T : Type 0} (s : System T) : System T → Type 0 where
  pick :
      (i : ℕ) {m : Spinlock T} {p : Pc}
      → Move s.mem (s.pc i) m p
      → Step s (record { mem = m; pc = update s.pc i p })

pub data Steps {T : Type 0} (s : System T) : System T → Type 0 where
  here : Steps s s
  later : {t u : System T} → Steps s t → Step t u → Steps s u

abbrev pub init : {T : Type 0} → T → System T
init value = record { mem = new value; pc = λ i. outside }
