-- ===== src/Sync/OnceLock.antt =====
-- `OnceLock` of crates/ferric-unsafe-core/src/sync.rs.
pub mod Once
use ferric_k.Base.{ℕ, Option, none, some, ◌≡◌, ◌≢◌}
use ferric_k.Sync.Threads.{update}

-- EMPTY, BUSY and READY.
pub data Flag : Type 0 where
  empty busy ready : Flag

-- `value` is `none` while it is not initialised.
pub record OnceLock (T : Type 0) : Type 0 where
  pub state : Flag
  pub value : Option T

-- Where a thread stands: outside, at the `compare_exchange` of `set`, in the loop behind a BUSY, before
-- the write, before the store of READY, behind a `set` that succeeded or was refused, and in `get`
-- before and behind the read.
pub data Pc (T : Type 0) : Type 0 where
  outside : Pc T
  trying : T → Pc T
  waiting : T → Pc T
  writing : T → Pc T
  publishing : T → Pc T
  stored : T → Pc T
  refused : T → Pc T
  reading : Pc T
  seen : Option T → Pc T

-- One step of one thread; `wait` is a `get` that is repeated.
pub data Move {T : Type 0} (m : OnceLock T) : Pc T → OnceLock T → Pc T → Type 0 where
  set : (v : T) → Move m outside m (trying v)
  win : {v : T} → m.state ≡ empty → Move m (trying v) (record m { state = busy }) (writing v)
  wait : {v : T} → m.state ≡ busy → Move m (trying v) m (waiting v)
  spin : {v : T} → m.state ≡ busy → Move m (waiting v) m (waiting v)
  retry : {v : T} → m.state ≢ busy → Move m (waiting v) m (trying v)
  refuse : {v : T} → m.state ≡ ready → Move m (trying v) m (refused v)
  write : {v : T} → Move m (writing v) (record m { value = some v }) (publishing v)
  publish : {v : T} → Move m (publishing v) (record m { state = ready }) (stored v)
  get : m.state ≡ ready → Move m outside m reading
  get_none : m.state ≢ ready → Move m outside m outside
  read : Move m reading m (seen m.value)

pub record System (T : Type 0) : Type 0 where
  pub mem : OnceLock T
  pub pc : ℕ → Pc T

pub data Step {T : Type 0} (s : System T) : System T → Type 0 where
  pick :
      (i : ℕ) {m : OnceLock T} {p : Pc T}
      → Move s.mem (s.pc i) m p
      → Step s (record { mem = m; pc = update s.pc i p })

pub data Steps {T : Type 0} (s : System T) : System T → Type 0 where
  here : Steps s s
  later : {t u : System T} → Steps s t → Step t u → Steps s u

abbrev pub init : (T : Type 0) → System T
init T = record { mem = record { state = empty; value = none }; pc = λ i. outside }
