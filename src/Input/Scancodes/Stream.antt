-- ===== src/Input/Scancodes/Stream.antt =====
-- What scancodes.rs reports for the make and break codes of a key.
use ferric_k.Base.{
  ℕ, subst, ◌+◌, ◌<◌, ◌≡◌, ◌≢◌, refl, ◌∙◌, sym, ap, Bool, true, false, arith, List, [], ◌∷◌, ◌++◌,
  Option, none, some, inl, inr, Option-cases, ◌==◌, bit_and,
}
use mathlib.Core.List.{append-nil}
use ferric_k.Api.Keys.{Key, KeyEvent, press, release}
use ferric_k.Input.Scancodes.Tables.{control_key}
use ferric_k.Input.Scancodes.{
  ScancodeDecoder, shift_active, map_printable, map_key, map, track, decode, push, feed,
}
use ferric_k.Input.Scancodes.Codes.{make_bit, break_bit, low_bits}

-- The bytes of a key's make code, behind the prefix of an extended key.
abbrev pub make_bytes : Bool → ℕ → List ℕ
make_bytes false make = make ∷ []
make_bytes true make = 0xE0 ∷ make ∷ []

-- The bytes of its break code: bit 7 is set.
abbrev pub break_bytes : Bool → ℕ → List ℕ
break_bytes extended make = make_bytes extended (make + 128)

pub record IsIdle (d : ScancodeDecoder) : Type 0 where
  pub no_pause : d.pause ≡ false
  pub no_prefix : d.extended ≡ false

track-press_printable :
    (shift caps : Bool) (make : ℕ) (d : ScancodeDecoder)
    → track (press (map_printable shift caps make)) d ≡ d
unfolding track map_printable
track-press_printable shift caps make d = ground arith

-- A code with no control key is mapped as a printable one.
pub map_of_printable :
    (d : ScancodeDecoder) (extended : Bool) (make : ℕ)
    → control_key extended make ≡ none
    → map d extended make ≡ map_printable (shift_active d) d.caps_lock make
unfolding map map_key
map_of_printable d extended make off = rw (off, map_key)

map_of_control :
    (d : ScancodeDecoder) (extended : Bool) (make : ℕ) {key : Key}
    → control_key extended make ≡ some key
    → map d extended make ≡ key
unfolding map map_key
map_of_control d extended make on = rw (on, map_key)

shift_active-extended :
    (d : ScancodeDecoder) (e : Bool) → shift_active (record d { extended = e }) ≡ shift_active d
unfolding shift_active
shift_active-extended d e = refl

-- The key of a code does not depend on the modifiers that its own press changes.
map-track_press :
    (d : ScancodeDecoder) (extended e : Bool) (make : ℕ)
    → map (track (press (map d extended make)) (record d { extended = e })) extended make
      ≡ map d extended make
map-track_press d extended e make = elim (Option-cases (control_key extended make)) [
  | inl off ↦ rw (
    map_of_printable d extended make off,
    track-press_printable,
    map_of_printable (record d { extended = e }) extended make off,
    shift_active-extended,
  )
  | inr (key, on) ↦ map_of_control _ extended make on ∙ sym (map_of_control d extended make on)
]

decode-make :
    (d : ScancodeDecoder) (make : ℕ) → make < 128 → decode d make ≡ press (map d d.extended make)
unfolding decode
decode-make d make h = rw (make_bit make h)

decode-break :
    (d : ScancodeDecoder) (make : ℕ)
    → make < 128
    → decode d (make + 128) ≡ release (map d d.extended make)
unfolding decode
decode-break d make h =
    let low : bit_and (make + 128) 0x7F ≡ make = omega (arith, low_bits (make + 128)) in
    rw (break_bit make h, low) refl

-- A make code of an idle decoder is a press, and uses the prefix up.
push-make :
    (d : ScancodeDecoder) (x : Bool) (make : ℕ)
    → d.pause ≡ false
    → d.extended ≡ x
    → make < 128
    → push d make
      ≡ (some (press (map d x make)), track (press (map d x make)) (record d { extended = false }))
unfolding push
push-make d x make p q h = rw (← q) (ground (arith, decode-make d make h))

push-break :
    (d : ScancodeDecoder) (x : Bool) (make : ℕ)
    → d.pause ≡ false
    → d.extended ≡ x
    → make < 128
    → make ≢ 0x60
    → make ≢ 0x61
    → push d (make + 128) ≡ (
      some (release (map d x make)),
      track (release (map d x make)) (record d { extended = false }),
    )
unfolding push
push-break d x make p q h n0 n1 =
    let e0 : ((make + 128) == 0xE0) ≡ false = ground arith in
    let e1 : ((make + 128) == 0xE1) ≡ false = ground arith in
    rw (p, e0, e1, decode-break d make h, q) refl

push-prefix :
    (d : ScancodeDecoder) → d.pause ≡ false → push d 0xE0 ≡ (none, record d { extended = true })
unfolding push
push-prefix d p = rw p

-- The state flags that `track` leaves alone.
track_frame :
    (e : KeyEvent) (d : ScancodeDecoder)
    → ((track e d).pause ≡ d.pause) × ((track e d).extended ≡ d.extended)
unfolding track
track_frame (press k) d = ground arith
track_frame (release k) d = ground arith

-- What `feed` does with the result of a byte.
abbrev pub after : List ℕ → Option KeyEvent × ScancodeDecoder → List KeyEvent × ScancodeDecoder
after bs (event, d) =
    (elim event [ none ↦ (feed d bs).0 | some e ↦ e ∷ (feed d bs).0 ], (feed d bs).1)

pub feed-none :
    (d : ScancodeDecoder) (b : ℕ) (bs : List ℕ) {d' : ScancodeDecoder}
    → push d b ≡ (none, d')
    → feed d (b ∷ bs) ≡ feed d' bs
unfolding feed
feed-none d b bs e = ap (after bs) e

feed-some :
    (d : ScancodeDecoder) (b : ℕ) (bs : List ℕ) {event : KeyEvent} {d' : ScancodeDecoder}
    → push d b ≡ (some event, d')
    → feed d (b ∷ bs) ≡ (event ∷ (feed d' bs).0, (feed d' bs).1)
unfolding feed
feed-some d b bs e = ap (after bs) e

IsIdle-after :
    (e : KeyEvent) (d : ScancodeDecoder)
    → d.pause ≡ false
    → IsIdle (track e (record d { extended = false }))
IsIdle-after e d p =
    let frame = track_frame e (record d { extended = false }) in
    record { no_pause = frame.0 ∙ p; no_prefix = frame.1 }

map-extended :
    (d : ScancodeDecoder) (e extended : Bool) (make : ℕ)
    → map (record d { extended = e }) extended make ≡ map d extended make
unfolding map shift_active
map-extended d e extended make = refl

-- The decoder after an event, with the prefix used up.
abbrev after_event : ScancodeDecoder → KeyEvent → ScancodeDecoder
after_event d e = track e (record d { extended = false })

-- One make code, and the bytes that follow it.
feed-make :
    (d : ScancodeDecoder) (extended : Bool) (make : ℕ) (bs : List ℕ)
    → IsIdle d
    → make < 128
    → let d' = after_event d (press (map d extended make)) in
      feed d (make_bytes extended make ++ bs)
      ≡ (press (map d extended make) ∷ (feed d' bs).0, (feed d' bs).1)
feed-make d false make bs idle h =
    feed-some d make bs (push-make d false make idle.no_pause idle.no_prefix h)
feed-make d true make bs idle h =
    feed-none d 0xE0 (make ∷ bs) (push-prefix d idle.no_pause)
    ∙ feed-some (record d { extended = true }) make bs
        (rw (← map-extended d true true make)
          (push-make (record d { extended = true }) true make idle.no_pause refl h))

-- One break code, and the bytes that follow it.
feed-break :
    (d : ScancodeDecoder) (extended : Bool) (make : ℕ) (bs : List ℕ)
    → IsIdle d
    → make < 128
    → make ≢ 0x60
    → make ≢ 0x61
    → let d' = after_event d (release (map d extended make)) in
      feed d (break_bytes extended make ++ bs)
      ≡ (release (map d extended make) ∷ (feed d' bs).0, (feed d' bs).1)
feed-break d false make bs idle h n0 n1 =
    feed-some d (make + 128) bs (push-break d false make idle.no_pause idle.no_prefix h n0 n1)
feed-break d true make bs idle h n0 n1 =
    feed-none d 0xE0 ((make + 128) ∷ bs) (push-prefix d idle.no_pause)
    ∙ feed-some (record d { extended = true }) (make + 128) bs
        (rw (← map-extended d true true make)
          (push-break (record d { extended = true }) true make idle.no_pause refl h n0 n1))

-- The make code and then the break code of a key, prefixed for an extended key, fed to an idle
-- decoder whatever its modifiers, are a press and a release of one and the same key, which is the
-- key that the decoder maps the code to; the decoder is idle again. The two codes whose break code
-- is a prefix byte are left out.
pub feed-make_break :
    (d : ScancodeDecoder) (extended : Bool) (make : ℕ)
    → IsIdle d
    → make < 128
    → make ≢ 0x60
    → make ≢ 0x61
    → let k = map d extended make in
      let (events, d') = feed d (make_bytes extended make ++ break_bytes extended make) in
      (events ≡ press k ∷ release k ∷ []) × IsIdle d'
unfolding feed
feed-make_break d extended make idle h n0 n1 =
    let k = map d extended make in
    let d1 = after_event d (press k) in
    let idle1 = IsIdle-after (press k) d idle.no_pause in
    let pressed = feed-make d extended make (break_bytes extended make) idle h in
    let released = rw append-nil at (feed-break d1 extended make [] idle1 h n0 n1) in
    let total = pressed ∙ ap (λ r. (press k ∷ r.0, r.1)) released in
    (
      ap (λ r. r.0) total
          ∙ ap (λ e. press k ∷ release e ∷ []) (map-track_press d extended false make),
      subst IsIdle (sym (ap (λ r. r.1) total)) (IsIdle-after _ d1 idle1.no_pause),
    )
