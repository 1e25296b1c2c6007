-- ===== src/Input/Ps2.antt =====
-- crates/ferric-unsafe-core/src/ps2.rs: the polling keyboard driver. The 8042 controller is a queue of
-- output bytes: bit 0 of its status says that a byte waits, the other bits are any, and a read of the
-- data port takes the next byte. The loops take fuel; `none` is a loop without enough.
pub mod Poll
use ferric_k.Base.{
  ℕ, zero, suc, ◌+◌, ◌*◌, Bool, not, Option, none, some, List, [], ◌∷◌, ◌==◌, if◌then◌else◌,
  bit_and,
}
use ferric_k.Api.Keys.{KeyEvent}
use ferric_k.Input.Scancodes.{ScancodeDecoder, push, new}

abbrev pub status_output_full : ℕ
status_output_full = 1

pub record Ps2 : Type 0 where
  pub pending : List ℕ
  pub flags : ℕ

abbrev pub waiting : List ℕ → ℕ
waiting [] = 0
waiting (b ∷ bs) = 1

-- What a read of the status port gives.
unfoldable pub read_status : Ps2 → ℕ
read_status p = waiting p.pending + 2 * p.flags

-- What a read of the data port gives, and the controller behind it; an empty one keeps its last byte.
unfoldable pub read_data : (last : ℕ) → Ps2 → ℕ × Ps2
read_data last p = elim p.pending [ [] ↦ (last, p) | b ∷ bs ↦ (b, record p { pending = bs }) ]

unfoldable pub output_full : Ps2 → Bool
output_full p = not (bit_and (read_status p) status_output_full == 0)

unfoldable pub poll_byte : Ps2 → Option ℕ × Ps2
poll_byte p = let (byte, p') = read_data 0 p in if output_full p then (some byte, p') else (none, p)

unfoldable pub flush : (fuel : ℕ) → Ps2 → Option Ps2
flush zero p = none
flush (suc fuel) p =
    let rest = flush fuel (read_data 0 p).1 in if output_full p then rest else some p

pub record Ps2Keyboard : Type 0 where
  pub controller : Ps2
  pub decoder : ScancodeDecoder

abbrev pub with_decoder : ScancodeDecoder → Option Ps2 → Option Ps2Keyboard
with_decoder d none = none
with_decoder d (some p) = some (record { controller = p; decoder = d })

unfoldable pub start : (fuel : ℕ) → Ps2 → Option Ps2Keyboard
start fuel p = with_decoder new (flush fuel p)

abbrev pub Polling : Type 0
Polling = Option (Option KeyEvent × Ps2Keyboard)

-- The event of a byte ends the loop; without one it goes on.
abbrev pub answer :
    (go_on : Ps2Keyboard → Polling) → Ps2 → Option KeyEvent × ScancodeDecoder → Polling
answer go_on p (none, d) = go_on (record { controller = p; decoder = d })
answer go_on p (some e, d) = some (some e, record { controller = p; decoder = d })

abbrev pub decode_byte :
    (go_on : Ps2Keyboard → Polling) → ScancodeDecoder → Option ℕ × Ps2 → Polling
decode_byte go_on d (none, p) = some (none, record { controller = p; decoder = d })
decode_byte go_on d (some byte, p) = answer go_on p (push d byte)

unfoldable pub next_key : (fuel : ℕ) → Ps2Keyboard → Polling
next_key zero k = none
next_key (suc fuel) k = decode_byte (next_key fuel) k.decoder (poll_byte k.controller)
