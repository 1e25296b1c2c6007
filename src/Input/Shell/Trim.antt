-- ===== src/Input/Shell/Trim.antt =====
-- What `trim` of shell.rs removes and what it keeps.
use mathlib.Core.List.{reverse-reverse, reverse-append, append-nil}
use ferric_k.Base.{
  ℕ, ◌≡◌, refl, sym, ap, subst, ◌∙◌, true, false, List, [], ◌∷◌, ◌++◌, reverse, inl, inr,
  Bool-cases,
}
use ferric_k.Input.Shell.{is_whitespace, trim_start, trim_end, trim}

abbrev pub AllSpace : List ℕ → Type 0
AllSpace [] = Unit {0}
AllSpace (c ∷ cs) = (is_whitespace c ≡ true) × AllSpace cs

-- The first character, if there is one, is no whitespace.
abbrev pub StartsBare : List ℕ → Type 0
StartsBare [] = Unit {0}
StartsBare (c ∷ cs) = is_whitespace c ≡ false

AllSpace-append : (xs ys : List ℕ) → AllSpace xs → AllSpace ys → AllSpace (xs ++ ys)
AllSpace-append [] ys h k = k
AllSpace-append (x ∷ xs) ys h k = (h.0, AllSpace-append xs ys h.1 k)

AllSpace-reverse : (xs : List ℕ) → AllSpace xs → AllSpace (reverse xs)
AllSpace-reverse [] h = tt
AllSpace-reverse (x ∷ xs) h =
    rw (reverse-append (x ∷ []) xs)
      (AllSpace-append (reverse xs) (x ∷ []) (AllSpace-reverse xs h.1) (h.0, tt))

trim_start-append : (xs ys : List ℕ) → AllSpace xs → trim_start (xs ++ ys) ≡ trim_start ys
unfolding trim_start
trim_start-append [] ys h = refl
trim_start-append (x ∷ xs) ys h = rw h.0 (trim_start-append xs ys h.1)

trim_start-StartsBare : (xs : List ℕ) → StartsBare (trim_start xs)
unfolding trim_start
trim_start-StartsBare [] = tt
trim_start-StartsBare (x ∷ xs) = elim (Bool-cases (is_whitespace x)) [
  | inl h ↦ rw h (trim_start-StartsBare xs)
  | inr h ↦ rw h h
]

pub trim_start_of_bare : (xs : List ℕ) → StartsBare xs → trim_start xs ≡ xs
unfolding trim_start
trim_start_of_bare [] h = refl
trim_start_of_bare (x ∷ xs) h = rw h

trim_start_split : (xs : List ℕ) → (s : List ℕ) × AllSpace s × (xs ≡ s ++ trim_start xs)
unfolding trim_start
trim_start_split [] = ([], tt, refl)
trim_start_split (x ∷ xs) = elim (Bool-cases (is_whitespace x)) [
  | inl h ↦
      let (s, space, eq) = trim_start_split xs in (x ∷ s, (h, space), rw h (ap (λ l. x ∷ l) eq))
  | inr h ↦ ([], tt, rw h)
]

pub trim_end_split : (xs : List ℕ) → (s : List ℕ) × AllSpace s × (xs ≡ trim_end xs ++ s)
unfolding trim_end
trim_end_split xs =
    let (t, space, eq) = trim_start_split (reverse xs) in
    (
      reverse t,
      AllSpace-reverse t space,
      sym (reverse-reverse xs) ∙ ap reverse eq ∙ reverse-append t (trim_start (reverse xs)),
    )

pub StartsBare-prefix : (xs ys : List ℕ) → StartsBare (xs ++ ys) → StartsBare xs
StartsBare-prefix [] ys h = tt
StartsBare-prefix (x ∷ xs) ys h = h

trim_end-append : (xs post : List ℕ) → AllSpace post → trim_end (xs ++ post) ≡ trim_end xs
unfolding trim_end
trim_end-append xs post h = rw (
  reverse-append xs post,
  trim_start-append (reverse post) (reverse xs) (AllSpace-reverse post h),
)

trim-append_end :
    (xs post : List ℕ)
    → AllSpace post
    → trim_end (trim_start (xs ++ post)) ≡ trim_end (trim_start xs)
unfolding trim_start
trim-append_end [] post h = ap trim_end (sym nothing ∙ trim_start-append post [] h)
  where
    nothing : trim_start (post ++ []) ≡ trim_start post
    nothing = rw append-nil
trim-append_end (x ∷ xs) post h = elim (Bool-cases (is_whitespace x)) [
  | inl w ↦ rw w (trim-append_end xs post h)
  | inr w ↦ rw w (trim_end-append (x ∷ xs) post h)
]

-- Whitespace before and behind a text does not change what `trim` leaves of it.
pub trim-append :
    (pre xs post : List ℕ) → AllSpace pre → AllSpace post → trim (pre ++ (xs ++ post)) ≡ trim xs
unfolding trim
trim-append pre xs post h k = rw (trim_start-append pre (xs ++ post) h) (trim-append_end xs post k)

-- What `trim` leaves of a text: the text is it with whitespace before and behind, and it neither
-- starts nor ends with whitespace.
pub record Trimmed (l core : List ℕ) : Type 0 where
  pub before : List ℕ
  pub behind : List ℕ
  pub before_space : AllSpace before
  pub behind_space : AllSpace behind
  pub whole : l ≡ before ++ (core ++ behind)
  pub starts_bare : StartsBare core
  pub ends_bare : StartsBare (reverse core)

pub trim-Trimmed : (l : List ℕ) → Trimmed l (trim l)
unfolding trim
trim-Trimmed l =
    let (before, space, eq) = trim_start_split l in
    let (behind, space', eq') = trim_end_split (trim_start l) in
    record {
      before = before;
      behind = behind;
      before_space = space;
      behind_space = space';
      whole = eq ∙ ap (λ t. before ++ t) eq';
      starts_bare =
          StartsBare-prefix (trim_end (trim_start l)) behind
            (subst StartsBare eq' (trim_start-StartsBare l));
      ends_bare = ends (trim_start l);
    }
  where
    ends : (xs : List ℕ) → StartsBare (reverse (trim_end xs))
    ends xs = unfold trim_end in rw reverse-reverse (trim_start-StartsBare (reverse xs))
