-- ===== src/Input/Shell/Case.antt =====
-- `parse_command` of shell.rs does not see the case of ASCII letters, but for the text it passes on.
use ferric_k.Base.{
  ℕ, ◌+◌, zero, suc, ◌≤◌, ◌≡◌, refl, sym, ap, Bool, true, false, arith, List, [], ◌∷◌, reverse,
  length, take, drop, inl, inr, Bool-cases, map, if◌then◌else◌,
}
use mathlib.Core.List.{map-append, reverse-append}
use ferric_k.Input.Ascii.{is_ascii_uppercase, to_ascii_lowercase}
use ferric_k.Input.Shell.{
  Command, is_whitespace, trim_start, trim, head_len, all_match, is_name, dispatch, parse_trimmed,
  parse_command, codes,
}

abbrev lower : ℕ → ℕ
lower = to_ascii_lowercase

-- The text that a command carries in lower case.
abbrev pub lower_command : Command → Command
lower_command (Command.echo rest) = Command.echo (map to_ascii_lowercase rest)
lower_command (Command.unknown name) = Command.unknown (map to_ascii_lowercase name)
lower_command c = c

not_space : (c : ℕ) → 0x21 ≤ c → c ≤ 0x7E → is_whitespace c ≡ false
unfolding is_whitespace
not_space c h k = ground arith

is_whitespace-lower : (c : ℕ) → is_whitespace (lower c) ≡ is_whitespace c
unfolding to_ascii_lowercase
is_whitespace-lower c = elim (Bool-cases (is_ascii_uppercase c)) [
  | inl u ↦ rw (
    u,
    not_space (c + 32) (ground arith) (ground arith),
    not_space c (ground arith) (ground arith),
  )
  | inr u ↦ rw u
]

lower-lower : (c : ℕ) → lower (lower c) ≡ lower c
unfolding to_ascii_lowercase
lower-lower c = ground arith

map-reverse : (xs : List ℕ) → map lower (reverse xs) ≡ reverse (map lower xs)
map-reverse [] = refl
map-reverse (x ∷ xs) =
    rw (reverse-append (x ∷ []) xs, map-append, map-reverse xs)
      (sym (reverse-append (lower x ∷ []) (map lower xs)))

trim_start-map : (xs : List ℕ) → trim_start (map lower xs) ≡ map lower (trim_start xs)
unfolding trim_start
trim_start-map [] = refl
trim_start-map (x ∷ xs) =
    rw is_whitespace-lower
      (elim (Bool-cases (is_whitespace x)) [ inl w ↦ rw w (trim_start-map xs) | inr w ↦ rw w ])

trim-map : (xs : List ℕ) → trim (map lower xs) ≡ map lower (trim xs)
unfolding trim
trim-map xs = rw (
  trim_start-map xs,
  ← map-reverse (trim_start xs),
  trim_start-map (reverse (trim_start xs)),
  map-reverse (trim_start (reverse (trim_start xs))),
)

head_len-map : (xs : List ℕ) → head_len (map lower xs) ≡ head_len xs
unfolding head_len
head_len-map [] = refl
head_len-map (x ∷ xs) = rw (is_whitespace-lower, head_len-map xs)

take-map : (n : ℕ) (xs : List ℕ) → take n (map lower xs) ≡ map lower (take n xs)
take-map zero xs = refl
take-map (suc n) [] = refl
take-map (suc n) (x ∷ xs) = ap (λ l. lower x ∷ l) (take-map n xs)

drop-map : (n : ℕ) (xs : List ℕ) → drop n (map lower xs) ≡ map lower (drop n xs)
drop-map zero xs = refl
drop-map (suc n) [] = refl
drop-map (suc n) (x ∷ xs) = drop-map n xs

length-map-lower : (xs : List ℕ) → length (map lower xs) ≡ length xs
length-map-lower [] = refl
length-map-lower (x ∷ xs) = ap suc (length-map-lower xs)

all_match-map : (xs ns : List ℕ) → all_match (map lower xs) ns ≡ all_match xs ns
unfolding all_match
all_match-map [] ns = refl
all_match-map (x ∷ xs) [] = refl
all_match-map (x ∷ xs) (n ∷ ns) = rw (lower-lower x, all_match-map xs ns)

is_name-map : (xs ns : List ℕ) → is_name (map lower xs) ns ≡ is_name xs ns
unfolding is_name
is_name-map xs ns = rw (length-map-lower xs, all_match-map xs ns)

lower_command-if :
    (b : Bool) (c d : Command)
    → lower_command (if b then c else d) ≡ (if b then lower_command c else lower_command d)
lower_command-if true c d = refl
lower_command-if false c d = refl

dispatch-map :
    (name rest : List ℕ)
    → dispatch (map lower name) (map lower rest) ≡ lower_command (dispatch name rest)
unfolding dispatch
dispatch-map name rest = simp (is_name-map, lower_command-if)

parse_trimmed-map : (l : List ℕ) → parse_trimmed (map lower l) ≡ lower_command (parse_trimmed l)
unfolding parse_trimmed
parse_trimmed-map [] = refl
parse_trimmed-map (c ∷ cs) =
    rw
      (
        head_len-map (c ∷ cs),
        take-map (head_len (c ∷ cs)) (c ∷ cs),
        drop-map (head_len (c ∷ cs)) (c ∷ cs),
        trim-map,
      )
      (dispatch-map (take (head_len (c ∷ cs)) (c ∷ cs)) (trim (drop (head_len (c ∷ cs)) (c ∷ cs))))

-- A line in lower case has the same command as the line, but that the text which the command
-- carries is in lower case too.
pub parse_command-lower :
    (line : List ℕ)
    → parse_command (map to_ascii_lowercase line) ≡ lower_command (parse_command line)
unfolding parse_command
parse_command-lower line = rw (trim-map line) (parse_trimmed-map (trim line))

-- A name that is `echo` in any case passes the rest on.
pub dispatch-echo :
    (name rest : List ℕ)
    → map to_ascii_lowercase name ≡ codes "echo"
    → dispatch name rest ≡ Command.echo rest
unfolding dispatch is_name
dispatch-echo name rest h = simp (← is_name-map name) (rw h refl)
