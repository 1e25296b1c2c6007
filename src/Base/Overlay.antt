-- ===== src/Base/Overlay.antt =====
-- A run of elements written over a list.
use Prim.Native.Nat.{ℕ, zero, suc, ◌+◌, ◌<◌, ◌≤◌}
use mathlib.Core.Path.{◌≡◌, refl, ap, ◌∙◌}
use mathlib.Core.List.{List, [], ◌∷◌}
use native.Mathlib.Omega.{arith}
use ferric_k.Base.Lists.{length, get_elem?, set, length-set, get_elem?-set_self, get_elem?-set_ne}

module _ {ℓ} {A : Type ℓ} where
  -- From a position on; what runs over the end is lost.
  unfoldable pub overlay : List A → ℕ → List A → List A
  overlay xs at [] = xs
  overlay xs at (v ∷ vs) = overlay (set xs at v) (at + 1) vs

  pub length-overlay : (xs : List A) (at : ℕ) (vs : List A) → length (overlay xs at vs) ≡ length xs
  unfolding overlay
  length-overlay xs at [] = refl
  length-overlay xs at (v ∷ vs) = length-overlay (set xs at v) (at + 1) vs ∙ length-set xs at v

  pub get_elem?-overlay_before :
      (xs : List A) (at : ℕ) (vs : List A) (i : ℕ)
      → i < at
      → get_elem? (overlay xs at vs) i ≡ get_elem? xs i
  unfolding overlay
  get_elem?-overlay_before xs at [] i lt = refl
  get_elem?-overlay_before xs at (v ∷ vs) i lt =
      get_elem?-overlay_before (set xs at v) (at + 1) vs i (omega (arith, lt))
      ∙ get_elem?-set_ne xs at i v (λ e. omega (arith, e, lt))

  pub get_elem?-overlay_behind :
      (xs : List A) (at : ℕ) (vs : List A) (i : ℕ)
      → at + length vs ≤ i
      → get_elem? (overlay xs at vs) i ≡ get_elem? xs i
  unfolding overlay
  get_elem?-overlay_behind xs at [] i le = refl
  get_elem?-overlay_behind xs at (v ∷ vs) i le =
      get_elem?-overlay_behind (set xs at v) (at + 1) vs i (omega (arith, le))
      ∙ get_elem?-set_ne xs at i v (λ e. omega (arith, e, le))

  pub get_elem?-overlay_inside :
      (xs : List A) (at : ℕ) (vs : List A) (i j : ℕ)
      → j ≡ at + i
      → i < length vs
      → at + length vs ≤ length xs
      → get_elem? (overlay xs at vs) j ≡ get_elem? vs i
  unfolding overlay
  get_elem?-overlay_inside xs at [] i j e lt le = absurd (omega (arith, lt))
  get_elem?-overlay_inside xs at (v ∷ vs) zero j e lt le =
      get_elem?-overlay_before (set xs at v) (at + 1) vs j (omega (arith, e))
      ∙ ap (get_elem? (set xs at v)) (omega (arith, e))
      ∙ get_elem?-set_self xs at v (omega (arith, le))
  get_elem?-overlay_inside xs at (v ∷ vs) (suc i) j e lt le =
      get_elem?-overlay_inside (set xs at v) (at + 1) vs i j (omega (arith, e)) (omega (arith, lt))
        (omega (arith, le, length-set xs at v))
