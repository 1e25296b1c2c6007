-- ===== src/Log.antt =====
-- The levels of crates/ferric-safe-core/src/log.rs and the run-time filter of
-- crates/ferric-unsafe-core/src/log.rs. The logger is an argument.
use ferric_k.Base.{ℕ, ◌≡◌, refl, Option, none, some, Bool, leb, ◌==◌, if◌then◌else◌}

pub data Level : Type 0 where
  info warn error : Level

-- `level as u8`
abbrev pub as_u8 : Level → ℕ
as_u8 info = 0
as_u8 warn = 1
as_u8 error = 2

unfoldable pub from_u8 : ℕ → Option Level
from_u8 v =
    if v == 0 then some info else if v == 1 then some warn else if v == 2 then some error else none

unfoldable pub set_log_level : Level → ℕ
set_log_level level = as_u8 level

unfoldable pub current_log_level : (stored : ℕ) → Level
current_log_level stored = elim (from_u8 stored) [ none ↦ info | some level ↦ level ]

-- Whether the derived order has the one level at or above the other.
abbrev pub is_at_least : Level → Level → Bool
is_at_least a b = leb (as_u8 b) (as_u8 a)

unfoldable pub dispatch : {A : Type 0} → (logger : Level → A → A) → (stored : ℕ) → Level → A → A
dispatch logger stored level a =
    if is_at_least level (current_log_level stored) then logger level a else a

-- The stored byte of a level is read as the level.
pub current_log_level-set_log_level :
    (level : Level) → current_log_level (set_log_level level) ≡ level
unfolding current_log_level set_log_level from_u8
current_log_level-set_log_level info = refl
current_log_level-set_log_level warn = refl
current_log_level-set_log_level error = refl

-- With a level set, just the messages at or above it reach the logger.
pub dispatch-set_log_level :
    {A : Type 0} (logger : Level → A → A) (set_to level : Level) (a : A)
    → dispatch logger (set_log_level set_to) level a
      ≡ (if is_at_least level set_to then logger level a else a)
unfolding dispatch
dispatch-set_log_level logger set_to level a = rw (current_log_level-set_log_level set_to) refl
