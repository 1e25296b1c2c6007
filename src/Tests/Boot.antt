-- ===== src/Tests/Boot.antt =====
-- The loader's answers and the keyboard's queue at concrete arguments.
use ferric_k.Base.{ℕ, zero, suc, ◌≡◌, refl, arith, Option, none, some, [], ◌∷◌, ap}
use ferric_k.Memory.Heap.{new}
use ferric_k.Boot.Limine.{MemmapEntry, BootInfo, base_revision, tag}
use ferric_k.Boot.Arena.Installed.{AllMapped, Installed, install_from_boot_info-Installed}
use ferric_k.Input.Scancodes
use ferric_k.Input.Ps2.{Ps2Keyboard}
use ferric_k.Input.Ps2.Poll.{Answered, next_key-Answered}

abbrev keyboard : Ps2Keyboard
keyboard = record {
  controller = record { pending = 0xE0 ∷ 0x48 ∷ 0x1E ∷ []; flags = 2 };
  decoder = Scancodes.new;
}

next_key-Answered_example : Answered 4 keyboard
next_key-Answered_example = next_key-Answered 4 keyboard (omega arith)

-- A revision that was not taken.
untouched : base_revision tag ≡ none
unfolding base_revision
untouched = refl

abbrev info : BootInfo
info = record {
  base_revision = 6;
  hhdm_offset = 0x10000000;
  memmap =
      record { base = 0x1000; length = 0x8000; entry_type = 0 }
      ∷ record { base = 0x10000; length = 0x90000; entry_type = 1 }
      ∷ record { base = 0x100000; length = 0x400000; entry_type = 0 }
      ∷ [];
  framebuffers = [];
}

abbrev base_or : Option MemmapEntry → ℕ
base_or none = 0
base_or (some e) = e.base

info-AllMapped : AllMapped info.hhdm_offset info.memmap
info-AllMapped zero e at good =
    let f : 0x1000 ≡ e.base = ap base_or at in (omega (arith, f), omega (arith, f))
info-AllMapped (suc zero) e at good =
    let f : 0x10000 ≡ e.base = ap base_or at in (omega (arith, f), omega (arith, f))
info-AllMapped (suc (suc zero)) e at good =
    let f : 0x100000 ≡ e.base = ap base_or at in (omega (arith, f), omega (arith, f))
info-AllMapped (suc (suc (suc i))) e at good = absurd (nothing at)
  where
    nothing : none ≡ some e → ⊥
    nothing f = cc

install_from_boot_info-Installed_example : Installed 0x2000000 (new (λ x. 0)) info
install_from_boot_info-Installed_example =
    install_from_boot_info-Installed 0x2000000 (omega arith) (omega arith) (new (λ x. 0)) info
      info-AllMapped
