-- ===== src/Input/Shell.antt =====
-- crates/ferric-safe-core/src/shell.rs: a finished line as a command. A slice is a list of code
-- points; `split_at`, `take` and `drop` of a list stand for the slices of a slice.
pub mod Trim
pub mod Parse
pub mod Case
use Prim.Native.Char.{Char, code}
use Prim.Native.String.{String}
use ferric_k.Base.{
  ℕ, zero, suc, Bool, true, false, ◌&&◌, ◌||◌, List, [], ◌∷◌, reverse, leb, ◌==◌, if◌then◌else◌,
  length, take, drop,
}
use ferric_k.Input.Ascii.{to_ascii_lowercase}

pub data Command : Type 0 where
  empty help clear : Command
  echo : List ℕ → Command
  uptime arch panic clock gui monitor keyboard halt : Command
  unknown : List ℕ → Command

-- `char::is_whitespace`: the code points with the property White_Space.
unfoldable pub is_whitespace : ℕ → Bool
is_whitespace c =
    (leb 9 c && leb c 13)
    || c == 0x20
    || c == 0x85
    || c == 0xA0
    || c == 0x1680
    || (leb 0x2000 c && leb c 0x200A)
    || c == 0x2028
    || c == 0x2029
    || c == 0x202F
    || c == 0x205F
    || c == 0x3000

-- The first loop of `trim`.
unfoldable pub trim_start : List ℕ → List ℕ
trim_start [] = []
trim_start (c ∷ tail) = if is_whitespace c then trim_start tail else c ∷ tail

-- The second loop of `trim`: `split_last` walks the list from its end.
unfoldable pub trim_end : List ℕ → List ℕ
trim_end l = reverse (trim_start (reverse l))

unfoldable pub trim : List ℕ → List ℕ
unfolding trim_start trim_end
trim l = trim_end (trim_start l)

-- `line.iter().position(|&c| c.is_whitespace()).unwrap_or(line.len())`
unfoldable pub head_len : List ℕ → ℕ
head_len [] = 0
head_len (c ∷ cs) = if is_whitespace c then 0 else suc (head_len cs)

-- The code points of a string literal.
abbrev pub codes : String → List ℕ
codes String.[] = []
codes (String.◌∷◌ letter rest) = code letter ∷ codes rest

-- The `zip` of `is_name`, which stops with the shorter list.
unfoldable pub all_match : List ℕ → List ℕ → Bool
all_match (c ∷ cs) (n ∷ ns) = to_ascii_lowercase c == n && all_match cs ns
all_match [] ns = true
all_match (c ∷ cs) [] = true

unfoldable pub is_name : List ℕ → List ℕ → Bool
unfolding all_match to_ascii_lowercase
is_name token name = length token == length name && all_match token name

-- The chain of tests on the command's name.
unfoldable pub dispatch : (name rest : List ℕ) → Command
dispatch name rest =
    if is_name name (codes "help")
    then Command.help
    else if is_name name (codes "clear")
    then Command.clear
    else if is_name name (codes "echo")
    then Command.echo rest
    else if is_name name (codes "uptime")
    then Command.uptime
    else if is_name name (codes "arch")
    then Command.arch
    else if is_name name (codes "panic")
    then Command.panic
    else if is_name name (codes "clock")
    then Command.clock
    else if is_name name (codes "gui")
    then Command.gui
    else if is_name name (codes "monitor")
    then Command.monitor
    else if is_name name (codes "keyboard")
    then Command.keyboard
    else if is_name name (codes "halt")
    then Command.halt
    else Command.unknown name

-- What is done with a trimmed line.
unfoldable pub parse_trimmed : List ℕ → Command
parse_trimmed [] = Command.empty
parse_trimmed (c ∷ cs) =
    let l : List ℕ = c ∷ cs in let n = head_len l in dispatch (take n l) (trim (drop n l))

unfoldable pub parse_command : List ℕ → Command
unfolding dispatch is_name is_whitespace trim head_len parse_trimmed
parse_command line = parse_trimmed (trim line)
