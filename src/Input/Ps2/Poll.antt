-- ===== src/Input/Ps2/Poll.antt =====
-- Polling the keyboard yields what the decoder makes of the whole queue.
use ferric_k.Base.{
  ℕ, zero, suc, ◌+◌, ◌*◌, ◌<◌, ◌≡◌, refl, ◌∙◌, ap, arith, true, false, Option, none, some, List, [],
  ◌∷◌, length,
}
use ferric_k.Base.Bits.{bit_and_low}
use ferric_k.Api.Keys.{KeyEvent}
use ferric_k.Input.Scancodes.{ScancodeDecoder, push, feed, new}
use ferric_k.Input.Ps2.{
  Ps2, read_status, read_data, output_full, poll_byte, flush, Ps2Keyboard, with_decoder, start,
  next_key,
}

output_full-cons :
    (b : ℕ) (bs : List ℕ) (flags : ℕ)
    → output_full (record { pending = b ∷ bs; flags = flags }) ≡ true
unfolding output_full read_status
output_full-cons b bs flags = ground (arith, bit_and_low 1 (1 + 2 * flags))

output_full-nil : (flags : ℕ) → output_full (record { pending = []; flags = flags }) ≡ false
unfolding output_full read_status
output_full-nil flags = ground (arith, bit_and_low 1 (0 + 2 * flags))

-- A poll either found no event in the whole queue, or the first event, with the rest still waiting.
pub data Polled (k : Ps2Keyboard) : Option KeyEvent → Ps2Keyboard → Type 0 where
  idle :
      (d : ScancodeDecoder)
      → feed k.decoder k.controller.pending ≡ ([], d)
      → Polled k none (record { controller = record k.controller { pending = [] }; decoder = d })
  reported :
      (e : KeyEvent) (k' : Ps2Keyboard)
      → feed k.decoder k.controller.pending
        ≡ (e ∷ (feed k'.decoder k'.controller.pending).0, (feed k'.decoder k'.controller.pending).1)
      → length k'.controller.pending < length k.controller.pending
      → Polled k (some e) k'

pub record Answered (fuel : ℕ) (k : Ps2Keyboard) : Type 0 where
  pub event : Option KeyEvent
  pub next : Ps2Keyboard
  pub returned : next_key fuel k ≡ some (event, next)
  pub polled : Polled k event next

abbrev keyboard : List ℕ → ℕ → ScancodeDecoder → Ps2Keyboard
keyboard bs flags d = record { controller = record { pending = bs; flags = flags }; decoder = d }

-- One byte of a feed, by what the decoder makes of it.
feed-push :
    (b : ℕ) (bs : List ℕ) (d : ScancodeDecoder) (r : Option KeyEvent × ScancodeDecoder)
    → push d b ≡ r
    → feed d (b ∷ bs) ≡ (
      elim r.0 [ none ↦ (feed r.1 bs).0 | some event ↦ event ∷ (feed r.1 bs).0 ],
      (feed r.1 bs).1,
    )
unfolding feed
feed-push b bs d r e =
    ap
      (λ (z : Option KeyEvent × ScancodeDecoder). (
        elim z.0 [ none ↦ (feed z.1 bs).0 | some event ↦ event ∷ (feed z.1 bs).0 ],
        (feed z.1 bs).1,
      ))
      e

-- A byte without an event comes off the front.
Polled_later :
    (b : ℕ) (bs : List ℕ) (flags : ℕ) (d d' : ScancodeDecoder)
    → push d b ≡ (none, d')
    → {event : Option KeyEvent} {next : Ps2Keyboard} → Polled (keyboard bs flags d') event next
    → Polled (keyboard (b ∷ bs) flags d) event next
Polled_later b bs flags d d' e (idle last fed) = idle last (feed-push b bs d (none, d') e ∙ fed)
Polled_later b bs flags d d' e (reported event next fed shorter) =
    reported event next (feed-push b bs d (none, d') e ∙ fed) (omega (arith, shorter))

poll_byte-nil :
    (flags : ℕ)
    → poll_byte (record { pending = []; flags = flags })
      ≡ (none, record { pending = []; flags = flags })
unfolding poll_byte read_data
poll_byte-nil flags = rw (output_full-nil flags) refl

poll_byte-cons :
    (b : ℕ) (bs : List ℕ) (flags : ℕ)
    → poll_byte (record { pending = b ∷ bs; flags = flags })
      ≡ (some b, record { pending = bs; flags = flags })
unfolding poll_byte read_data
poll_byte-cons b bs flags = rw (output_full-cons b bs flags) refl

next_key-by_queue :
    (fuel : ℕ) (bs : List ℕ) (flags : ℕ) (d : ScancodeDecoder)
    → length bs < fuel
    → Answered fuel (keyboard bs flags d)
unfolding next_key feed
next_key-by_queue zero bs flags d lt = absurd (omega (arith, lt))
next_key-by_queue (suc fuel) [] flags d lt =
    let empty = poll_byte-nil flags in
    record {
      event = none;
      next = keyboard [] flags d;
      returned = rw empty refl;
      polled = idle d refl;
    }
next_key-by_queue (suc fuel) (b ∷ bs) flags d lt =
    by (push d b) refl (λ d'. next_key-by_queue fuel bs flags d' (omega (arith, lt)))
  where
    by :
        (r : Option KeyEvent × ScancodeDecoder)
        → push d b ≡ r
        → ((d' : ScancodeDecoder) → Answered fuel (keyboard bs flags d'))
        → Answered (suc fuel) (keyboard (b ∷ bs) flags d)
    by (none, d') e rest =
        let r = rest d' in
        record {
          event = r.event;
          next = r.next;
          returned = rw (poll_byte-cons b bs flags, e) r.returned;
          polled = Polled_later b bs flags d d' e r.polled;
        }
    by (some event, d') e rest = record {
      event = some event;
      next = keyboard bs flags d';
      returned = rw (poll_byte-cons b bs flags, e) refl;
      polled =
          reported event (keyboard bs flags d') (feed-push b bs d (some event, d') e) (omega arith);
    }

-- With fuel for one more round than bytes are waiting, a poll answers. It reports the first event that the
-- decoder makes of the waiting bytes, and leaves those that make the others; without an answer, they make
-- no event, and none is left.
pub next_key-Answered :
    (fuel : ℕ) (k : Ps2Keyboard) → length k.controller.pending < fuel → Answered fuel k
next_key-Answered fuel k lt =
    next_key-by_queue fuel k.controller.pending k.controller.flags k.decoder lt

flush-empties :
    (fuel : ℕ) (bs : List ℕ) (flags : ℕ)
    → length bs < fuel
    → flush fuel (record { pending = bs; flags = flags })
      ≡ some (record { pending = []; flags = flags })
unfolding flush read_data
flush-empties zero bs flags lt = absurd (omega (arith, lt))
flush-empties (suc fuel) [] flags lt = rw (output_full-nil flags) refl
flush-empties (suc fuel) (b ∷ bs) flags lt =
    rw (output_full-cons b bs flags) (flush-empties fuel bs flags (omega (arith, lt)))

-- The keyboard starts with an idle decoder and no byte from before.
pub start-empties :
    (fuel : ℕ) (p : Ps2)
    → length p.pending < fuel
    → start fuel p ≡ some (record { controller = record p { pending = [] }; decoder = new })
unfolding start
start-empties fuel p lt = ap (with_decoder new) (flush-empties fuel p.pending p.flags lt)
