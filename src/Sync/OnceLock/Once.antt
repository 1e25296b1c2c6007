-- ===== src/Sync/OnceLock/Once.antt =====
-- The value is set once, and every reader sees it.
use ferric_k.Base.{
  ℕ, ◌≡◌, ◌≢◌, refl, sym, ◌∙◌, subst, ap, arith, Bool, true, false, Option, some, ◌==◌, inl, inr,
  Bool-cases,
}
use ferric_k.Sync.Threads.{update}
use ferric_k.Sync.OnceLock.{
  Flag, empty, busy, ready, OnceLock, Pc, outside, trying, waiting, writing, publishing, stored,
  refused, reading, seen, Move, set, win, wait, spin, retry, refuse, write, publish, get, get_none,
  read, System, pick, Steps, here, later, init,
}

-- How far the setting is, and who sets what.
data Phase (T : Type 0) : Type 0 where
  unset : Phase T
  setting : (wrote : Bool) (who : ℕ) (value : T) → Phase T
  settled : (who : ℕ) (value : T) → Phase T

module _ {T : Type 0} where
  abbrev flag_of : Phase T → Flag
  flag_of unset = empty
  flag_of (setting wrote who v) = busy
  flag_of (settled who v) = ready

  -- What the phase says of the value.
  abbrev Holds : Phase T → Option T → Type 0
  Holds unset o = Unit {0}
  Holds (setting false who v) o = Unit {0}
  Holds (setting true who v) o = o ≡ some v
  Holds (settled who v) o = o ≡ some v

  -- What a thread's place says of the phase.
  abbrev Role : Phase T → ℕ → Pc T → Type 0
  Role f j (writing v) = f ≡ setting false j v
  Role f j (publishing v) = f ≡ setting true j v
  Role f j (stored v) = f ≡ settled j v
  Role f j reading = (k : ℕ) × (v : T) × (f ≡ settled k v)
  Role f j (seen o) = (k : ℕ) × (v : T) × (f ≡ settled k v) × (o ≡ some v)
  Role f j (refused w) = (k : ℕ) × (v : T) × (f ≡ settled k v)
  Role f j outside = Unit {0}
  Role f j (trying w) = Unit {0}
  Role f j (waiting w) = Unit {0}

  record Inv (mem : OnceLock T) (pc : ℕ → Pc T) : Type 0 where
    phase : Phase T
    flag : mem.state ≡ flag_of phase
    value : Holds phase mem.value
    roles : (j : ℕ) → Role phase j (pc j)

  -- The moved thread has its role in the new phase, and so has every other thread.
  update_roles :
      (f : Phase T) (pc : ℕ → Pc T) (i : ℕ) (p : Pc T)
      → Role f i p
      → ((j : ℕ) → j ≢ i → Role f j (pc j))
      → (j : ℕ) → Role f j (update pc i p j)
  update_roles f pc i p mine others j = elim (Bool-cases (j == i)) [
    | inl e ↦ rw e (subst (λ k. Role f k p) (ground (arith, e)) mine)
    | inr n ↦ rw n (others j (λ e. ground (arith, n, e)))
  ]

  settled_of_ready : (f : Phase T) → flag_of f ≡ ready → (k : ℕ) × (v : T) × (f ≡ settled k v)
  settled_of_ready unset e = cc
  settled_of_ready (setting wrote k v) e = cc
  settled_of_ready (settled k v) e = (k, v, refl)

  unset_of_empty : (f : Phase T) → flag_of f ≡ empty → f ≡ unset
  unset_of_empty unset e = refl
  unset_of_empty (setting wrote k v) e = cc
  unset_of_empty (settled k v) e = cc

  -- A thread that is not the setter keeps its role when the setter goes on.
  start-Role : (i : ℕ) (v : T) (j : ℕ) (p : Pc T) → Role unset j p → Role (setting false i v) j p
  start-Role i v j outside r = r
  start-Role i v j (trying w) r = r
  start-Role i v j (waiting w) r = r
  start-Role i v j (writing w) r = cc
  start-Role i v j (publishing w) r = cc
  start-Role i v j (stored w) r = cc
  start-Role i v j (refused w) (k, x, e) = cc
  start-Role i v j reading (k, x, e) = cc
  start-Role i v j (seen o) (k, x, e, g) = cc

  write-Role :
      (i : ℕ) (v : T) (j : ℕ) (p : Pc T)
      → j ≢ i
      → Role (setting false i v) j p
      → Role (setting true i v) j p
  write-Role i v j outside n r = r
  write-Role i v j (trying w) n r = r
  write-Role i v j (waiting w) n r = r
  write-Role i v j (writing w) n r = absurd (n (cc))
  write-Role i v j (publishing w) n r = cc
  write-Role i v j (stored w) n r = cc
  write-Role i v j (refused w) n (k, x, e) = cc
  write-Role i v j reading n (k, x, e) = cc
  write-Role i v j (seen o) n (k, x, e, g) = cc

  publish-Role :
      (i : ℕ) (v : T) (j : ℕ) (p : Pc T)
      → j ≢ i
      → Role (setting true i v) j p
      → Role (settled i v) j p
  publish-Role i v j outside n r = r
  publish-Role i v j (trying w) n r = r
  publish-Role i v j (waiting w) n r = r
  publish-Role i v j (writing w) n r = cc
  publish-Role i v j (publishing w) n r = absurd (n (cc))
  publish-Role i v j (stored w) n r = cc
  publish-Role i v j (refused w) n (k, x, e) = cc
  publish-Role i v j reading n (k, x, e) = cc
  publish-Role i v j (seen o) n (k, x, e, g) = cc

  stay :
      (mem : OnceLock T) (pc : ℕ → Pc T) (i : ℕ) (p : Pc T)
      → (inv : Inv mem pc) → Role inv.phase i p
      → Inv mem (update pc i p)
  stay mem pc i p inv mine = record {
    phase = inv.phase;
    flag = inv.flag;
    value = inv.value;
    roles = update_roles inv.phase pc i p mine (λ j n. inv.roles j);
  }

  Move-Inv :
      (mem m : OnceLock T) (pc : ℕ → Pc T) (i : ℕ) (q p : Pc T)
      → pc i ≡ q
      → Move mem q m p
      → Inv mem pc
      → Inv m (update pc i p)
  Move-Inv mem m pc i q p e (set v) inv = stay mem pc i (trying v) inv tt
  Move-Inv mem m pc i q p e (win {v} free) inv =
      let f = unset_of_empty inv.phase (sym inv.flag ∙ free) in
      record {
        phase = setting false i v;
        flag = refl;
        value = tt;
        roles =
            update_roles (setting false i v) pc i (writing v) refl
              (λ j n. start-Role i v j (pc j) (subst (λ z. Role z j (pc j)) f (inv.roles j)));
      }
  Move-Inv mem m pc i q p e (wait {v} b) inv = stay mem pc i (waiting v) inv tt
  Move-Inv mem m pc i q p e (spin {v} b) inv = stay mem pc i (waiting v) inv tt
  Move-Inv mem m pc i q p e (retry {v} b) inv = stay mem pc i (trying v) inv tt
  Move-Inv mem m pc i q p e (refuse {v} b) inv =
      stay mem pc i (refused v) inv (settled_of_ready inv.phase (sym inv.flag ∙ b))
  Move-Inv mem m pc i q p e (write {v}) inv =
      let f : inv.phase ≡ setting false i v = subst (λ z. Role inv.phase i z) e (inv.roles i) in
      record {
        phase = setting true i v;
        flag = inv.flag ∙ ap flag_of f;
        value = refl;
        roles =
            update_roles (setting true i v) pc i (publishing v) refl
              (λ j n. write-Role i v j (pc j) n (subst (λ z. Role z j (pc j)) f (inv.roles j)));
      }
  Move-Inv mem m pc i q p e (publish {v}) inv =
      let f : inv.phase ≡ setting true i v = subst (λ z. Role inv.phase i z) e (inv.roles i) in
      record {
        phase = settled i v;
        flag = refl;
        value = subst (λ z. Holds z mem.value) f inv.value;
        roles =
            update_roles (settled i v) pc i (stored v) refl
              (λ j n. publish-Role i v j (pc j) n (subst (λ z. Role z j (pc j)) f (inv.roles j)));
      }
  Move-Inv mem m pc i q p e (get b) inv =
      stay mem pc i reading inv (settled_of_ready inv.phase (sym inv.flag ∙ b))
  Move-Inv mem m pc i q p e (get_none b) inv = stay mem pc i outside inv tt
  Move-Inv mem m pc i q p e read inv =
      let (k, v, f) = subst (λ z. Role inv.phase i z) e (inv.roles i) in
      stay mem pc i (seen mem.value) inv (k, v, f, subst (λ z. Holds z mem.value) f inv.value)

  Steps-Inv : (t : System T) → Steps (init T) t → Inv t.mem t.pc
  Steps-Inv t here = record { phase = unset; flag = refl; value = tt; roles = λ j. tt }
  Steps-Inv t (later {t = s} steps (pick i {m} {p} move)) =
      Move-Inv s.mem m s.pc i (s.pc i) p refl move (Steps-Inv s steps)

  -- However the threads interleave: once a `set` has succeeded, the cell is READY and holds its
  -- value, no other `set` succeeds, and every `get` that finds READY reads that value.
  pub set_once :
      (t : System T) (i : ℕ) (v : T)
      → Steps (init T) t
      → t.pc i ≡ stored v
      → (t.mem.state ≡ ready)
        × (t.mem.value ≡ some v)
        × ((j : ℕ) (w : T) → t.pc j ≡ stored w → j ≡ i)
        × ((j : ℕ) (o : Option T) → t.pc j ≡ seen o → o ≡ some v)
  set_once t i v steps e =
      let inv = Steps-Inv t steps in
      let f : inv.phase ≡ settled i v = subst (λ z. Role inv.phase i z) e (inv.roles i) in
      (
        inv.flag ∙ ap flag_of f,
        subst (λ z. Holds z t.mem.value) f inv.value,
        λ j w g.
            (let h : inv.phase ≡ settled j w = subst (λ z. Role inv.phase j z) g (inv.roles j) in
              same_setter j i w v (sym h ∙ f)),
        λ j o g.
            (let (k, w, h, x) = subst (λ z. Role inv.phase j z) g (inv.roles j) in
              x ∙ same_value k i w v (sym h ∙ f)),
      )
    where
      same_setter : (j i : ℕ) (w v : T) → settled j w ≡ settled i v → j ≡ i
      same_setter j i w v p = cc

      same_value : (k i : ℕ) (w v : T) → settled k w ≡ settled i v → some w ≡ some v
      same_value k i w v p = cc

  -- No reader sees a value that is not initialised.
  pub seen_initialised :
      (t : System T) (j : ℕ) (o : Option T)
      → Steps (init T) t
      → t.pc j ≡ seen o
      → (v : T) × (o ≡ some v)
  seen_initialised t j o steps g =
      let inv = Steps-Inv t steps in
      let (k, w, h, x) = subst (λ z. Role inv.phase j z) g (inv.roles j) in (w, x)
