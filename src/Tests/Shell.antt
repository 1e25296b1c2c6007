-- ===== src/Tests/Shell.antt =====
-- Tests of the shell's command parser.
use ferric_k.Base.{◌≡◌, refl, [], ◌∷◌, ◌++◌, map}
use ferric_k.Input.Ascii.{to_ascii_lowercase}
use ferric_k.Input.Shell.{Command, codes, is_whitespace, trim, dispatch, parse_command}
use ferric_k.Input.Shell.Trim.{Trimmed, trim-Trimmed}
use ferric_k.Input.Shell.Parse.{parse_command-pad, parse_command-word}
use ferric_k.Input.Shell.Case.{lower_command, parse_command-lower, dispatch-echo}

parse_echo : parse_command (codes "  eCHo   Hi you ") ≡ Command.echo (codes "Hi you")
unfolding parse_command
parse_echo = refl

parse_halt : parse_command (codes "halt now") ≡ Command.halt
unfolding parse_command
parse_halt = refl

parse_unknown : parse_command (codes "echoo hi") ≡ Command.unknown (codes "echoo")
unfolding parse_command
parse_unknown = refl

spaces_dropped : Trimmed (codes " a b ") (trim (codes " a b "))
spaces_dropped = trim-Trimmed (codes " a b ")

help_padded :
    parse_command (codes "  " ++ (codes "help me" ++ codes " ")) ≡ parse_command (codes "help me")
unfolding is_whitespace
help_padded =
    parse_command-pad (codes "  ") (codes "help me") (codes " ") (refl, (refl, tt)) (refl, tt)

parse_command-word_example :
    parse_command (codes "arch" ++ ((0x20 ∷ []) ++ codes " x "))
    ≡ dispatch (codes "arch") (trim (codes " x "))
unfolding is_whitespace
parse_command-word_example =
    parse_command-word b'a' (codes "rch") 0x20 [] (codes " x ") (refl, (refl, (refl, (refl, tt))))
      (refl, tt)

loud_echo :
    parse_command (map to_ascii_lowercase (codes "ECHO Hi"))
    ≡ lower_command (parse_command (codes "ECHO Hi"))
loud_echo = parse_command-lower (codes "ECHO Hi")

echo_capital : dispatch (codes "Echo") (codes "x") ≡ Command.echo (codes "x")
unfolding to_ascii_lowercase
echo_capital = dispatch-echo (codes "Echo") (codes "x") refl
