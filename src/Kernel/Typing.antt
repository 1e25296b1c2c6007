-- ===== src/Kernel/Typing.antt =====
-- Typing at the prompt: the editor, the console and the screen stay in step.
use ferric_k.Base.{
  ℕ, zero, suc, ◌+◌, ◌-◌, ◌*◌, ◌<◌, ◌≤◌, ◌≡◌, ◌≢◌, refl, sym, ◌∙◌, ap, subst, true, arith, Option,
  some, List, [], ◌∷◌, ◌++◌, length, length-take, get_elem?, take, ltb, ◌==◌, inl, inr, Bool-cases,
}
use ferric_k.Api.Keys.{Key, KeyEvent, press, release}
use ferric_k.Input.Ascii.{is_ascii_graphic}
use ferric_k.Input.LineEditor.{
  max_line_chars, LineEditor, LineAction, inserted, erased, submitted, ignored, is_editable, handle,
  line,
}
use ferric_k.Input.LineEditor.Spec.{append_char, drop_last, edit, edits}
use ferric_k.Input.LineEditor.Refine.{IsValid, handle-IsValid, handle-edit}
use ferric_k.Video.Framebuffer.{FrameBuffer}
use ferric_k.Video.Framebuffer.Fill.{Alike}
use ferric_k.Video.Font.{Font}
use ferric_k.Text.Console.Line.{AllDrawn}
use ferric_k.Text.Console.Shown.{origin_of}
use ferric_k.Text.Console.Redraw.{InSync, set_edit_line-Redrawn}
use ferric_k.Text.Console.Draw.{mirror_to_serial}
use ferric_k.Kernel.{
  Machine, Kernel, After, returned, redraw, act, on_event, on_events, last_char, erase,
}

AllDrawn-append :
    (l : List ℕ) (c : ℕ)
    → AllDrawn l
    → (c ≢ 0x0A) × (c ≢ 0x0D) × (c ≢ 0x09)
    → AllDrawn (l ++ (c ∷ []))
unfolding AllDrawn
AllDrawn-append [] c all good = (good, tt)
AllDrawn-append (x ∷ l) c all good = (all.0, AllDrawn-append l c all.1 good)

AllDrawn-take : (n : ℕ) (l : List ℕ) → AllDrawn l → AllDrawn (take n l)
unfolding AllDrawn
AllDrawn-take zero l all = tt
AllDrawn-take (suc n) [] all = tt
AllDrawn-take (suc n) (x ∷ l) all = (all.0, AllDrawn-take n l all.1)

-- What the editor takes is drawn.
editable_drawn : (c : ℕ) → is_editable c ≡ true → (c ≢ 0x0A) × (c ≢ 0x0D) × (c ≢ 0x09)
unfolding is_editable is_ascii_graphic
editable_drawn c e =
    ((λ f. ground (arith, e, f)), (λ f. ground (arith, e, f)), (λ f. ground (arith, e, f)))

-- An edit keeps the line drawable; an ignored event leaves it, and only Enter submits it.
record Edited (l : List ℕ) (event : KeyEvent) (result : LineAction × List ℕ) : Type 0 where
  drawn : AllDrawn result.1
  idle : result.0 ≡ ignored → result.1 ≡ l
  entered : result.0 ≡ submitted → event ≡ press Key.enter

edit-Edited : (l : List ℕ) (event : KeyEvent) → AllDrawn l → Edited l event (edit l event)
unfolding edit append_char drop_last
edit-Edited l (press (Key.char c)) all = elim (Bool-cases (is_editable c)) [
  | inl good ↦ elim (Bool-cases (ltb (length l) max_line_chars)) [
    | inl room ↦
        rw (good, room)
          (record {
            drawn = AllDrawn-append l c all (editable_drawn c good);
            idle = λ e. cc;
            entered = λ e. cc;
          })
    | inr full ↦ rw (good, full) (record { drawn = all; idle = λ e. refl; entered = λ e. cc })
  ]
  | inr bad ↦ rw bad (record { drawn = all; idle = λ e. refl; entered = λ e. cc })
]
edit-Edited l (press Key.enter) all = record { drawn = all; idle = λ e. refl; entered = λ e. refl }
edit-Edited l (press Key.backspace) all = elim (Bool-cases (length l == 0)) [
  | inl none_left ↦ rw none_left (record { drawn = all; idle = λ e. refl; entered = λ e. cc })
  | inr some_left ↦
      rw some_left
        (record { drawn = AllDrawn-take (length l - 1) l all; idle = λ e. cc; entered = λ e. cc })
]
edit-Edited l (press k) all = record { drawn = all; idle = λ e. refl; entered = λ e. cc }
edit-Edited l (release k) all = record { drawn = all; idle = λ e. refl; entered = λ e. cc }

-- The editor's line is on the screen's console, and there is room for a full line.
pub record InStep (m : Machine) (font : Font) (fb0 : FrameBuffer) (k : Kernel) : Type 0 where
  pub editor_valid : IsValid k.editor
  pub drawn : AllDrawn (line k.editor)
  pub sync : InSync m.font_data font fb0 k.console (line k.editor)
  pub room : origin_of k.console + max_line_chars < k.console.rows * k.console.cols
  pub screen : FrameBuffer
  pub on : k.devices.screen ≡ some screen
  pub alike : Alike fb0 screen

-- A kernel that goes on from another, in step, with nothing changed in front of the line.
pub record Follows (m : Machine) (font : Font) (fb0 : FrameBuffer) (k : Kernel)
    (result : Option (After Kernel)) : Type 0 where
  pub next : Kernel
  pub went_on : result ≡ some (returned next)
  pub in_step : InStep m font fb0 next
  pub same_origin : origin_of next.console ≡ origin_of k.console
  pub before :
      (i : ℕ)
      → i < origin_of k.console
      → get_elem? next.console.cells i ≡ get_elem? k.console.cells i

-- Events without a press of Enter.
unfoldable pub AllTyped : List KeyEvent → Type 0
AllTyped [] = Unit
AllTyped (event ∷ events) = (event ≢ press Key.enter) × AllTyped events

length-line_le : (e : LineEditor) → IsValid e → length (line e) ≤ max_line_chars
length-line_le e v = omega (arith, length-take e.len e.buffer, v.within)

module _ (m : Machine) (font : Font) (fb0 : FrameBuffer) where
  redraw-Follows :
      (k : Kernel) (editor : LineEditor) (sent : List ℕ)
      → InStep m font fb0 k
      → IsValid editor
      → AllDrawn (line editor)
      → (f : Follows m font fb0 k (redraw m k editor sent)) × (f.next.editor ≡ editor)
  unfolding redraw mirror_to_serial
  redraw-Follows k editor sent s valid drawn =
      let d = mirror_to_serial k.devices sent in
      let r =
        set_edit_line-Redrawn m.font_data font fb0 k.console d s.screen (line k.editor)
          (line editor) s.sync s.on s.alike drawn
          (omega (arith, s.room, length-line_le k.editor s.editor_valid))
          (omega (arith, s.room, length-line_le editor valid)) in
      let size : r.next.rows * r.next.cols ≡ k.console.rows * k.console.cols =
        rw (r.same_rows, r.same_cols) refl in
      (
        record {
          next = record {
            editor = editor;
            console = r.next;
            devices = record d { screen = some r.screen };
          };
          went_on = rw r.returned refl;
          in_step = record {
            editor_valid = valid;
            drawn = drawn;
            sync = r.in_sync;
            room = omega (arith, s.room, r.same_origin, size);
            screen = r.screen;
            on = refl;
            alike = r.alike;
          };
          same_origin = r.same_origin;
          before = r.before;
        },
        refl,
      )

  act-Follows :
      (k : Kernel) (event : KeyEvent)
      → InStep m font fb0 k
      → event ≢ press Key.enter
      → (f : Follows m font fb0 k (on_event m k event)) × (f.next.editor
          ≡ (handle k.editor event).1)
  unfolding on_event act
  act-Follows k event s typed =
      let valid = handle-IsValid k.editor event s.editor_valid in
      let same = handle-edit k.editor event s.editor_valid in
      let e =
        subst (λ r. Edited (line k.editor) event r) (sym same)
          (edit-Edited (line k.editor) event s.drawn) in
      by (handle k.editor event) valid e
    where
      by :
          (r : LineAction × LineEditor)
          → IsValid r.1
          → Edited (line k.editor) event (r.0, line r.1)
          → (f : Follows m font fb0 k (act m k r)) × (f.next.editor ≡ r.1)
      by (inserted, editor) valid e =
          redraw-Follows k editor (last_char (line editor)) s valid e.drawn
      by (erased, editor) valid e = redraw-Follows k editor erase s valid e.drawn
      by (submitted, editor) valid e = absurd (typed (e.entered refl))
      by (ignored, editor) valid e = (
        record {
          next = record k { editor = editor };
          went_on = refl;
          in_step = record {
            editor_valid = valid;
            drawn = e.drawn;
            sync = subst (λ l. InSync m.font_data font fb0 k.console l) (sym (e.idle refl)) s.sync;
            room = s.room;
            screen = s.screen;
            on = s.on;
            alike = s.alike;
          };
          same_origin = refl;
          before = λ i lt. refl;
        },
        refl,
      )

  -- Any events but Enter, from a kernel in step whose grid has room for a full line behind the prompt and
  -- whose font has fewer than 2^32 bytes: no panic and no exit; the line is the one that the abstract editor has, the console shows it where
  -- the prompt ends, with the cursor behind it, and nothing in front of it has changed.
  pub on_events-Follows :
      (events : List KeyEvent) (k : Kernel)
      → InStep m font fb0 k
      → AllTyped events
      → (f : Follows m font fb0 k (on_events m k events)) × (line f.next.editor
          ≡ (edits (line k.editor) events).1)
  unfolding on_events edits AllTyped
  on_events-Follows [] k s typed = (
    record { next = k; went_on = refl; in_step = s; same_origin = refl; before = λ i lt. refl },
    refl,
  )
  on_events-Follows (event ∷ events) k s typed =
      let (one, editor_eq) = act-Follows k event s typed.0 in
      let (rest, line_eq) = on_events-Follows events one.next one.in_step typed.1 in
      let stepped : line one.next.editor ≡ (edit (line k.editor) event).1 =
        ap line editor_eq ∙ ap (λ r. r.1) (handle-edit k.editor event s.editor_valid) in
      (
        record {
          next = rest.next;
          went_on = rw one.went_on rest.went_on;
          in_step = rest.in_step;
          same_origin = rest.same_origin ∙ one.same_origin;
          before = λ i lt. rest.before i (omega (arith, lt, one.same_origin)) ∙ one.before i lt;
        },
        line_eq ∙ ap (λ l. (edits l events).1) stepped,
      )
