-- ===== src/Cpu/Gates/Vectors.antt =====
-- Which gates the table has after `init`.
use ferric_k.Base.{
  ℕ, ◌+◌, ◌*◌, ◌/◌, ◌%◌, ◌^◌, ◌<◌, ◌≡◌, refl, ◌∙◌, arith, some, List, [], ◌∷◌, length, get_elem?,
  set, length-set, get_elem?-set_self, get_elem?-set_ne, ltb, get_elem?-replicate, Bool, Bool-cases,
  true, false, ◌||◌, ◌⊎◌, length-replicate, ◌==◌, if◌then◌else◌, inl, inr,
}
use ferric_k.Cpu.Segments.{kernel_code_selector}
use ferric_k.Cpu.Gates.{
  IdtEntry, Idt, entry_for, empty_entry, empty_idt, set_entry, vectors, set_all, init,
  gate_type_interrupt, idt_entries,
}

-- Where a gate leads.
abbrev pub offset_of : IdtEntry → ℕ
offset_of e = e.offset_low16 + e.offset_mid16 * 2 ^ 16 + e.offset_high32 * 2 ^ 32

abbrev is_present : IdtEntry → ℕ
is_present e = e.type_attr / 2 ^ 7 % 2

unfoldable pub among : ℕ → List ℕ → Bool
among v [] = false
among v (w ∷ ws) = (v == w) || among v ws

-- The stub's gate if the vector is among those set, and what was there if not.
set_all-get_elem? :
    (stub : ℕ → ℕ) (vs : List ℕ) (t : Idt) (v : ℕ)
    → v < length t
    → get_elem? (set_all stub vs t) v
      ≡ (if among v vs then some (entry_for (stub v) kernel_code_selector 0) else get_elem? t v)
unfolding set_all among set_entry
set_all-get_elem? stub [] t v lt = refl
set_all-get_elem? stub (w ∷ vs) t v lt =
    let gate = entry_for (stub w) kernel_code_selector 0 in
    let rest =
      set_all-get_elem? stub vs (set t w gate) v (omega (arith, lt, length-set t w gate)) in
    elim (Bool-cases (v == w)) [
      | inl same ↦
          (let e : v ≡ w = ground (arith, same) in
            let hit : get_elem? (set t w gate) v
                ≡ some (entry_for (stub v) kernel_code_selector 0) =
              rw e (get_elem?-set_self t w gate (omega (arith, e, lt))) in
            elim (Bool-cases (among v vs)) [
              | inl again ↦ rest ∙ rw (same, again) refl
              | inr last ↦ rest ∙ rw (same, last) hit
            ])
      | inr differ ↦
          rest ∙ rw (differ, get_elem?-set_ne t w v gate (λ e. ground (arith, e, differ))) refl
    ]

-- The vectors with a stub: exceptions that the kernel knows, and the timer.
abbrev pub has_stub : ℕ → Bool
has_stub v =
    ltb v 8
    || (v == 9)
    || (v == 13)
    || (v == 14)
    || (v == 16)
    || (v == 18)
    || (v == 20)
    || (v == 30)
    || (v == 32)

has_stub-among : (v : ℕ) → among v vectors ≡ has_stub v
unfolding among
has_stub-among v = ground arith

-- A present gate of the kernel's code segment, on the current stack, to a handler.
pub record LeadsTo (t : Idt) (v handler : ℕ) : Type 0 where
  pub gate : IdtEntry
  pub found : get_elem? t v ≡ some gate
  pub offset : offset_of gate ≡ handler
  pub in_code : gate.selector ≡ kernel_code_selector
  pub kind : gate.type_attr ≡ gate_type_interrupt
  pub same_stack : gate.ist ≡ 0

-- After `init` the gate of a vector that has a stub leads to the stub, in the kernel's code segment and on
-- the current stack; any other vector, that of the double fault among them, has no gate. The stubs'
-- addresses have 64 bits.
pub init-gates :
    (stub : ℕ → ℕ) (idt_addr v : ℕ)
    → ((w : ℕ) → stub w < 2 ^ 64)
    → v < idt_entries
    → ((has_stub v ≡ true) × LeadsTo (init stub idt_addr).0 v (stub v))
      ⊎ ((has_stub v ≡ false) × (get_elem? (init stub idt_addr).0 v ≡ some empty_entry))
unfolding init entry_for
init-gates stub idt_addr v fits lt =
    let size = length-replicate idt_entries empty_entry in
    let found = set_all-get_elem? stub vectors empty_idt v (omega (arith, lt, size)) in
    elim (Bool-cases (has_stub v)) [
      | inl hit ↦ inl (
        hit,
        record {
          gate = entry_for (stub v) kernel_code_selector 0;
          found = found ∙ rw (has_stub-among v, hit) refl;
          offset = omega (arith, fits v);
          in_code = refl;
          kind = refl;
          same_stack = refl;
        },
      )
      | inr miss ↦ inr (
        miss,
        found ∙ rw (has_stub-among v, miss) (get_elem?-replicate idt_entries empty_entry v lt),
      )
    ]
