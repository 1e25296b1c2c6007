-- ===== src/Text/LineEnds.antt =====
-- crates/ferric-unsafe-core/src/text.rs: the bytes that a text sends on a serial line.
use ferric_k.Base.{ℕ, ◌≡◌, refl, List, [], ◌∷◌, ◌==◌, if◌then◌else◌, Bool-cases, inl, inr}

unfoldable pub expand_lf_to_crlf : List ℕ → List ℕ
expand_lf_to_crlf [] = []
expand_lf_to_crlf (byte ∷ s) =
    let rest = byte ∷ expand_lf_to_crlf s in if byte == 0x0A then 0x0D ∷ rest else rest

-- What a terminal makes of it that drops each carriage return.
unfoldable pub drop_returns : List ℕ → List ℕ
drop_returns [] = []
drop_returns (byte ∷ s) = let rest = drop_returns s in if byte == 0x0D then rest else byte ∷ rest

-- Only carriage returns are added.
pub drop_returns-expand_lf_to_crlf :
    (s : List ℕ) → drop_returns (expand_lf_to_crlf s) ≡ drop_returns s
unfolding expand_lf_to_crlf drop_returns
drop_returns-expand_lf_to_crlf [] = refl
drop_returns-expand_lf_to_crlf (byte ∷ s) = elim (Bool-cases (byte == 0x0A)) [
  | inl feed ↦ (let rest = drop_returns-expand_lf_to_crlf s in rw (feed, rest) refl)
  | inr other ↦ (let rest = drop_returns-expand_lf_to_crlf s in rw (other, rest) refl)
]
