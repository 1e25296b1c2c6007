-- ===== src/Input/Shell/Parse.antt =====
-- How `parse_command` of shell.rs takes a line apart.
use mathlib.Core.List
use mathlib.Core.List.{reverse-append, append_assoc}
use ferric_k.Base.{
  ℕ, suc, ◌≡◌, refl, sym, ap, subst, ◌∙◌, true, false, List, [], ◌∷◌, ◌++◌, reverse, length, take,
  drop, inl, inr, Bool-cases,
}
use ferric_k.Input.Shell.{
  is_whitespace, trim_start, trim_end, trim, head_len, dispatch, parse_trimmed, parse_command,
}
use ferric_k.Input.Shell.Trim.{
  AllSpace, StartsBare, trim_start_of_bare, trim_end_split, trim-append,
}

-- Whitespace before and behind a line does not change its command.
pub parse_command-pad :
    (pre line post : List ℕ)
    → AllSpace pre
    → AllSpace post
    → parse_command (pre ++ (line ++ post)) ≡ parse_command line
unfolding parse_command
parse_command-pad pre line post h k = ap parse_trimmed (trim-append pre line post h k)

-- A word: at least one character, and no whitespace.
abbrev pub AllBare : List ℕ → Type 0
AllBare [] = Unit {0}
AllBare (c ∷ cs) = (is_whitespace c ≡ false) × AllBare cs

-- The rest behind a word: nothing, or a text that starts with whitespace.
abbrev StartsSpace : List ℕ → Type 0
StartsSpace [] = Unit {0}
StartsSpace (c ∷ cs) = is_whitespace c ≡ true

StartsSpace-prefix : (xs ys : List ℕ) → StartsSpace (xs ++ ys) → StartsSpace xs
StartsSpace-prefix [] ys h = tt
StartsSpace-prefix (x ∷ xs) ys h = h

trim_start-append_bare :
    (xs ys : List ℕ) → StartsBare ys → trim_start (xs ++ ys) ≡ trim_start xs ++ ys
unfolding trim_start
trim_start-append_bare [] ys h = trim_start_of_bare ys h
trim_start-append_bare (x ∷ xs) ys h = elim (Bool-cases (is_whitespace x)) [
  | inl w ↦ rw w (trim_start-append_bare xs ys h)
  | inr w ↦ rw w
]

AllBare-append : (xs ys : List ℕ) → AllBare xs → AllBare ys → AllBare (xs ++ ys)
AllBare-append [] ys h k = k
AllBare-append (x ∷ xs) ys h k = (h.0, AllBare-append xs ys h.1 k)

AllBare-reverse : (xs : List ℕ) → AllBare xs → AllBare (reverse xs)
AllBare-reverse [] h = tt
AllBare-reverse (x ∷ xs) h =
    rw (reverse-append (x ∷ []) xs)
      (AllBare-append (reverse xs) (x ∷ []) (AllBare-reverse xs h.1) (h.0, tt))

StartsBare-of_all : (xs : List ℕ) → AllBare xs → StartsBare xs
StartsBare-of_all [] h = tt
StartsBare-of_all (x ∷ xs) h = h.0

trim_end-append_word : (t m : List ℕ) → AllBare t → trim_end (t ++ m) ≡ t ++ trim_end m
unfolding trim_end
trim_end-append_word t m h = rw (
  reverse-append t m,
  trim_start-append_bare (reverse m) (reverse t) (StartsBare-of_all _ (AllBare-reverse t h)),
  reverse-append (trim_start (reverse m)) (reverse t),
  List.reverse-reverse t,
)

head_len_of_word : (t m : List ℕ) → AllBare t → StartsSpace m → head_len (t ++ m) ≡ length t
unfolding head_len
head_len_of_word [] [] h k = refl
head_len_of_word [] (c ∷ cs) h k = rw k
head_len_of_word (x ∷ xs) m h k = rw h.0 (ap suc (head_len_of_word xs m h.1 k))

take_of_append : (xs ys : List ℕ) → take (length xs) (xs ++ ys) ≡ xs
take_of_append [] ys = refl
take_of_append (x ∷ xs) ys = ap (λ l. x ∷ l) (take_of_append xs ys)

drop_of_append : (xs ys : List ℕ) → drop (length xs) (xs ++ ys) ≡ ys
drop_of_append [] ys = refl
drop_of_append (x ∷ xs) ys = drop_of_append xs ys

trim-trim_end : (xs : List ℕ) → trim (trim_end xs) ≡ trim xs
trim-trim_end xs =
    let (s, space, eq) = trim_end_split xs in
    sym (ap trim eq ∙ trim-append [] (trim_end xs) s tt space)

parse_trimmed_of_word :
    (c : ℕ) (t m : List ℕ)
    → AllBare (c ∷ t)
    → StartsSpace m
    → parse_trimmed ((c ∷ t) ++ m) ≡ dispatch (c ∷ t) (trim m)
unfolding parse_trimmed
parse_trimmed_of_word c t m h k =
    rw (head_len_of_word (c ∷ t) m h k, take_of_append (c ∷ t) m, drop_of_append (c ∷ t) m)

trim_of_word :
    (c : ℕ) (t m : List ℕ) → AllBare (c ∷ t) → trim ((c ∷ t) ++ m) ≡ (c ∷ t) ++ trim_end m
unfolding trim
trim_of_word c t m h =
    ap trim_end (trim_start_of_bare ((c ∷ t) ++ m) h.0) ∙ trim_end-append_word (c ∷ t) m h

trim_end-StartsSpace : (m : List ℕ) → StartsSpace m → StartsSpace (trim_end m)
trim_end-StartsSpace m h =
    let (s, space, eq) = trim_end_split m in
    StartsSpace-prefix (trim_end m) s (subst StartsSpace eq h)

trim_of_gap : (gap rest : List ℕ) → AllSpace gap → trim (gap ++ rest) ≡ trim rest
trim_of_gap gap rest h =
    ap (λ r. trim (gap ++ r)) (sym (List.append-nil rest)) ∙ trim-append gap rest [] h tt

-- A line of a word, a gap and a rest runs the command of that word with the trimmed rest, if the
-- gap is whitespace and not empty.
pub parse_command-word :
    (c : ℕ) (t : List ℕ) (g : ℕ) (gap rest : List ℕ)
    → AllBare (c ∷ t)
    → AllSpace (g ∷ gap)
    → parse_command ((c ∷ t) ++ ((g ∷ gap) ++ rest)) ≡ dispatch (c ∷ t) (trim rest)
unfolding parse_command
parse_command-word c t g gap rest h k =
    let m : List ℕ = (g ∷ gap) ++ rest in
    ap parse_trimmed (trim_of_word c t m h)
    ∙ parse_trimmed_of_word c t (trim_end m) h (trim_end-StartsSpace m k.0)
    ∙ ap (dispatch (c ∷ t)) (trim-trim_end m ∙ trim_of_gap (g ∷ gap) rest k)
