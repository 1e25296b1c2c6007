-- ===== src/Input/Scancodes/Modifiers.antt =====
-- The modifiers that the decoder of scancodes.rs keeps, against the events that it has reported.
use ferric_k.Base.{
  ℕ, ◌≡◌, refl, if◌then◌else◌, Bool, true, false, not, arith, List, [], ◌∷◌, Option, none, some,
  ◌==◌,
}
use ferric_k.Api.Keys.{Key, KeyEvent, press, release}
use ferric_k.Input.Scancodes.{ScancodeDecoder, track, decode, push, feed}

-- Whether a shift key is down: the last press or release of it says so.
pub data Side : Type 0 where
  left right : Side

shift_key : Side → Key
shift_key left = Key.left_shift
shift_key right = Key.right_shift

-- What one event says of a shift key, if anything.
unfoldable pub shift_change : Side → KeyEvent → Option Bool
shift_change left (press Key.left_shift) = some true
shift_change left (release Key.left_shift) = some false
shift_change right (press Key.right_shift) = some true
shift_change right (release Key.right_shift) = some false
shift_change side event = none

-- The last report about a shift key in a run of events, or what held before.
unfoldable pub held : Side → Bool → List KeyEvent → Bool
held side before [] = before
held side before (e ∷ es) =
    held side (elim (shift_change side e) [ none ↦ before | some now ↦ now ]) es

is_caps_press : KeyEvent → Bool
is_caps_press (press Key.caps_lock) = true
is_caps_press event = false

-- Caps lock after a run of events: flipped by each press of the key.
unfoldable pub caps_after : Bool → List KeyEvent → Bool
unfolding is_caps_press
caps_after before [] = before
caps_after before (e ∷ es) =
    caps_after (elim (is_caps_press e) [ true ↦ not before | false ↦ before ]) es

pub record Tracks (d : ScancodeDecoder) (events : List KeyEvent) (d' : ScancodeDecoder)
    : Type 0 where
  pub left_held : d'.left_shift ≡ held left d.left_shift events
  pub right_held : d'.right_shift ≡ held right d.right_shift events
  pub caps_parity : d'.caps_lock ≡ caps_after d.caps_lock events

track-Tracks : (d : ScancodeDecoder) (e : KeyEvent) → Tracks d (e ∷ []) (track e d)
unfolding track held shift_change caps_after
track-Tracks d (press k) = ground arith
track-Tracks d (release k) = ground arith

Tracks-self :
    (d d' : ScancodeDecoder)
    → d'.left_shift ≡ d.left_shift
    → d'.right_shift ≡ d.right_shift
    → d'.caps_lock ≡ d.caps_lock
    → Tracks d [] d'
unfolding held caps_after
Tracks-self d d' l r c = record { left_held = l; right_held = r; caps_parity = c }

-- `push` as a function of its tests, so that each test can be split on.
dispatch :
    (pausing ends prefix pauses : Bool)
    → ScancodeDecoder
    → KeyEvent
    → Option KeyEvent × ScancodeDecoder
dispatch pausing ends prefix pauses d e =
    if pausing
    then (none, if ends then record d { pause = false } else d)
    else if prefix
    then (none, record d { extended = true })
    else if pauses
    then (none, record d { pause = true })
    else (some e, track e (record d { extended = false }))

reported : Option KeyEvent → List KeyEvent
reported none = []
reported (some e) = e ∷ []

dispatch-Tracks :
    (pausing ends prefix pauses : Bool) (d : ScancodeDecoder) (e : KeyEvent)
    → let (event, d') = dispatch pausing ends prefix pauses d e in Tracks d (reported event) d'
unfolding dispatch reported
dispatch-Tracks true true prefix pauses d e = Tracks-self d _ refl refl refl
dispatch-Tracks true false prefix pauses d e = Tracks-self d _ refl refl refl
dispatch-Tracks false ends true pauses d e = Tracks-self d _ refl refl refl
dispatch-Tracks false ends false true d e = Tracks-self d _ refl refl refl
dispatch-Tracks false ends false false d e =
    let t = track-Tracks (record d { extended = false }) e in
    record { left_held = t.left_held; right_held = t.right_held; caps_parity = t.caps_parity }

push-Tracks : (d : ScancodeDecoder) (byte : ℕ) → Tracks d (reported (push d byte).0) (push d byte).1
unfolding push dispatch
push-Tracks d byte =
    dispatch-Tracks d.pause (byte == 0xC5) (byte == 0xE0) (byte == 0xE1) d (decode d byte)

Tracks-append :
    {d d' d'' : ScancodeDecoder} (event : Option KeyEvent) (es : List KeyEvent)
    → Tracks d (reported event) d'
    → Tracks d' es d''
    → Tracks d (elim event [ none ↦ es | some e ↦ e ∷ es ]) d''
unfolding held caps_after reported
Tracks-append none es t u = ground arith
Tracks-append (some e) es t u = ground arith

-- The shift flags and caps lock after any run of bytes are what the reported events say: a shift
-- key is held if the last event about it is a press, and caps lock is flipped by each press.
pub feed-Tracks :
    (bytes : List ℕ) (d : ScancodeDecoder) → Tracks d (feed d bytes).0 (feed d bytes).1
unfolding feed
feed-Tracks [] d = Tracks-self d d refl refl refl
feed-Tracks (b ∷ bs) d =
    Tracks-append (push d b).0 (feed (push d b).1 bs).0 (push-Tracks d b)
      (feed-Tracks bs (push d b).1)
