-- ===== src/Sync/Threads.antt =====
-- A family of threads, by number.
use ferric_k.Base.{ℕ, Bool, true, false, Option, none, some, ◌==◌, if◌then◌else◌}

-- The family with the thread at `i` changed.
abbrev pub update {ℓ} : {A : Type ℓ} → (ℕ → A) → ℕ → A → ℕ → A
update f i a = λ j. if j == i then a else f j

-- Who holds a resource, if anyone does.
abbrev pub owns : Option ℕ → ℕ → Bool
owns none i = false
owns (some k) i = i == k

abbrev pub taken : Option ℕ → Bool
taken none = false
taken (some k) = true
