-- ===== src/Boot/Limine/Answers.antt =====
-- What the kernel reads of the loader's answers.
use ferric_k.Base.{
  ℕ, ◌≡◌, ◌≢◌, ◌⊎◌, inl, inr, refl, ap, arith, Option, none, some, List, ◌==◌, Bool-cases,
  Option-cases,
}
use ferric_k.Api.Memory.{
  MemoryRegionKind, usable, reserved, acpi_reclaimable, acpi_nvs, bad_memory,
  bootloader_reclaimable, executable_and_modules, framebuffer, reserved_mapped, unknown,
}
use ferric_k.Boot.Limine.{
  base_revision_magic, requested_base_revision, MemmapEntry, kind_of, to_region, BaseRevisionTag,
  tag, base_revision, Responses, or_empty, collect,
}

-- The protocol's number of a kind.
unfoldable pub type_of : MemoryRegionKind → ℕ
type_of usable = 0
type_of reserved = 1
type_of acpi_reclaimable = 2
type_of acpi_nvs = 3
type_of bad_memory = 4
type_of bootloader_reclaimable = 5
type_of executable_and_modules = 6
type_of framebuffer = 7
type_of reserved_mapped = 8
type_of (unknown t) = t

-- The kind of a region tells the number of the loader's entry, whatever it is, and so the entry.
pub to_region-type_of :
    (e : MemmapEntry)
    → record {
      base = (to_region e).base;
      length = (to_region e).length;
      entry_type = type_of (to_region e).kind;
    }
      ≡ e
unfolding to_region kind_of type_of
to_region-type_of e =
    ap (λ t. record { base = e.base; length = e.length; entry_type = t }) (number e.entry_type)
  where
    number : (t : ℕ) → type_of (kind_of t) ≡ t
    number t = ground arith

-- What a loader may do with the tag: take the requested revision, use another one, or refuse.
pub data Handshake : Type 0 where
  taken : Handshake
  other : (revision : ℕ) → Handshake
  refused : Handshake

unfoldable pub loader : Handshake → BaseRevisionTag → BaseRevisionTag
loader taken t = record t { requested_revision = 0 }
loader (other revision) t = record { magic1 = revision; requested_revision = 0 }
loader refused t = t

abbrev pub agreed : Handshake → Option ℕ
agreed taken = some requested_base_revision
agreed (other revision) = some revision
agreed refused = none

-- The kernel reads the revision that the loader agreed to, unless that has the number of the tag's magic.
pub base_revision-loader :
    (h : Handshake) → h ≢ other base_revision_magic → base_revision (loader h tag) ≡ agreed h
unfolding base_revision loader
base_revision-loader taken n = refl
base_revision-loader (other revision) n = elim (Bool-cases (revision == base_revision_magic)) [
  | inl same ↦ absurd (n (ap other (ground (arith, same))))
  | inr differ ↦ rw differ refl
]
base_revision-loader refused n = refl

-- Boot information is collected exactly if the loader took the revision, and gave the direct map and the
-- memory map; a framebuffer is not needed.
pub collect_complete :
    (r : Responses)
    → ((revision offset : ℕ) × (entries : List MemmapEntry) × (base_revision r.revision
          ≡ some revision)
        × (r.hhdm ≡ some offset)
        × (r.memmap ≡ some entries)
        × (collect r
            ≡ some (record {
              base_revision = revision;
              hhdm_offset = offset;
              memmap = entries;
              framebuffers = or_empty r.framebuffers;
            })))
      ⊎ (((base_revision r.revision ≡ none) ⊎ (r.hhdm ≡ none) ⊎ (r.memmap ≡ none))
          × (collect r ≡ none))
unfolding collect
collect_complete r = elim (Option-cases (base_revision r.revision)) [
  | inl off ↦ inr (inl off, rw off refl)
  | inr (revision, e) ↦ elim (Option-cases r.hhdm) [
    | inl off ↦ inr (inr (inl off), rw (e, off) refl)
    | inr (offset, f) ↦ elim (Option-cases r.memmap) [
      | inl off ↦ inr (inr (inr off), rw (e, f, off) refl)
      | inr (entries, g) ↦ inl (revision, offset, entries, e, f, g, rw (e, f, g) refl)
    ]
  ]
]
