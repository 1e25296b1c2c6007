-- ===== src/Cpu/Gates.antt =====
-- crates/ferric-unsafe-core/src/idt.rs: the interrupt gates. The addresses of the stubs are an argument.
pub mod Vectors
use ferric_k.Base.{ℕ, ◌+◌, ◌-◌, ◌*◌, ◌/◌, ◌%◌, ◌^◌, bit_and, List, [], ◌∷◌, set, replicate}
use ferric_k.Cpu.Segments.{kernel_code_selector}

abbrev pub idt_entries : ℕ
idt_entries = 256

pub record IdtEntry : Type 0 where
  pub offset_low16 : ℕ
  pub selector : ℕ
  pub ist : ℕ
  pub type_attr : ℕ
  pub offset_mid16 : ℕ
  pub offset_high32 : ℕ
  pub reserved : ℕ

abbrev pub gate_type_interrupt : ℕ
gate_type_interrupt = 0x8E

abbrev pub empty_entry : IdtEntry
empty_entry = record {
  offset_low16 = 0;
  selector = 0;
  ist = 0;
  type_attr = 0;
  offset_mid16 = 0;
  offset_high32 = 0;
  reserved = 0;
}

abbrev pub Idt : Type 0
Idt = List IdtEntry

-- The static `IDT`.
abbrev pub empty_idt : Idt
empty_idt = replicate idt_entries empty_entry

unfoldable pub entry_for : (handler selector ist : ℕ) → IdtEntry
entry_for handler selector ist = record {
  offset_low16 = handler % 2 ^ 16;
  selector = selector;
  ist = bit_and ist 0x07;
  type_attr = gate_type_interrupt;
  offset_mid16 = handler / 2 ^ 16 % 2 ^ 16;
  offset_high32 = handler / 2 ^ 32 % 2 ^ 32;
  reserved = 0;
}

unfoldable pub set_entry : Idt → (vector handler selector ist : ℕ) → Idt
set_entry t vector handler selector ist = set t vector (entry_for handler selector ist)

-- The vectors that `init` sets, in its order: exceptions without an error code, then those with one, and
-- the timer.
abbrev pub vectors : List ℕ
vectors = 0 ∷ 1 ∷ 2 ∷ 3 ∷ 4 ∷ 5 ∷ 6 ∷ 7 ∷ 9 ∷ 16 ∷ 18 ∷ 20 ∷ 30 ∷ 13 ∷ 14 ∷ 0x20 ∷ []

-- A gate for each of some vectors, to the vector's stub.
unfoldable pub set_all : (stub : ℕ → ℕ) → List ℕ → Idt → Idt
set_all stub [] t = t
set_all stub (v ∷ vs) t = set_all stub vs (set_entry t v (stub v) kernel_code_selector 0)

pub record IdtPtr : Type 0 where
  pub limit : ℕ
  pub base : ℕ

-- The table, and what the processor was told.
unfoldable pub init : (stub : ℕ → ℕ) → (idt_addr : ℕ) → Idt × IdtPtr
init stub idt_addr = (
  set_all stub vectors empty_idt,
  record { limit = (16 * idt_entries - 1) % 2 ^ 16; base = idt_addr },
)
