-- ===== src/Boot/Limine.antt =====
-- crates/ferric-unsafe-core/src/limine.rs: the requests, as the loader left them. A response that was not
-- given is `none`; the arrays that responses point at are lists.
pub mod Answers
use ferric_k.Base.{ℕ, Option, none, some, List, [], ◌∷◌, map, ◌==◌, if◌then◌else◌, not}
use ferric_k.Api.Memory.{
  MemoryRegionKind, MemoryRegion, usable, reserved, acpi_reclaimable, acpi_nvs, bad_memory,
  bootloader_reclaimable, executable_and_modules, framebuffer, reserved_mapped, unknown,
}
use ferric_k.Video.Framebuffer.{LimineFramebuffer}

abbrev pub base_revision_magic : ℕ
base_revision_magic = 0x6a7b384944536bdc

abbrev pub requested_base_revision : ℕ
requested_base_revision = 6

pub record MemmapEntry : Type 0 where
  pub base : ℕ
  pub length : ℕ
  pub entry_type : ℕ

-- The `match` of `to_region`, by the numbers of `memmap_type`.
unfoldable pub kind_of : ℕ → MemoryRegionKind
kind_of t =
    if t == 0
    then usable
    else if t == 1
    then reserved
    else if t == 2
    then acpi_reclaimable
    else if t == 3
    then acpi_nvs
    else if t == 4
    then bad_memory
    else if t == 5
    then bootloader_reclaimable
    else if t == 6
    then executable_and_modules
    else if t == 7
    then framebuffer
    else if t == 8
    then reserved_mapped
    else unknown t

unfoldable pub to_region : MemmapEntry → MemoryRegion
to_region e = record { base = e.base; length = e.length; kind = kind_of e.entry_type }

-- The tag of the base revision; its first word is never read.
pub record BaseRevisionTag : Type 0 where
  pub magic1 : ℕ
  pub requested_revision : ℕ

-- The static `BASE_REVISION`, before the loader.
abbrev pub tag : BaseRevisionTag
tag = record { magic1 = base_revision_magic; requested_revision = requested_base_revision }

-- `none` is `BaseRevisionNotAccepted`.
unfoldable pub base_revision : BaseRevisionTag → Option ℕ
base_revision t =
    if not (t.requested_revision == 0)
    then none
    else if t.magic1 == base_revision_magic
    then some requested_base_revision
    else some t.magic1

-- The answers to the requests: the offset of the direct map, the memory map, the framebuffers, and the
-- frequency of the time stamp counter.
pub record Responses : Type 0 where
  pub revision : BaseRevisionTag
  pub hhdm : Option ℕ
  pub memmap : Option (List MemmapEntry)
  pub framebuffers : Option (List LimineFramebuffer)
  pub tsc : Option ℕ

unfoldable pub memmap_entries : Responses → Option (List MemmapEntry)
memmap_entries r = r.memmap

unfoldable pub tsc_frequency : Responses → Option ℕ
tsc_frequency r = r.tsc

pub record BootInfo : Type 0 where
  pub base_revision : ℕ
  pub hhdm_offset : ℕ
  pub memmap : List MemmapEntry
  pub framebuffers : List LimineFramebuffer

infixl 5 ◌>>=◌
abbrev pub ◌>>=◌ : {A : Type 0} {B : Type 0} → Option A → (A → Option B) → Option B
none >>= f = none
some a >>= f = f a

abbrev pub or_empty : Option (List LimineFramebuffer) → List LimineFramebuffer
or_empty none = []
or_empty (some fbs) = fbs

unfoldable pub collect : Responses → Option BootInfo
collect r = do
  revision ← base_revision r.revision
  offset ← r.hhdm
  entries ← r.memmap
  some (record {
    base_revision = revision;
    hhdm_offset = offset;
    memmap = entries;
    framebuffers = or_empty r.framebuffers;
  })
