-- ===== src/Cpu/Segments/Fields.antt =====
-- The fields of a descriptor, as the processor reads them.
use ferric_k.Base.{ℕ, ◌+◌, ◌*◌, ◌/◌, ◌%◌, ◌^◌, ◌<◌, ◌≡◌, ◌↔◌, refl, sym, subst, arith, bit_or}
use ferric_k.Base.Bits.{bit_or_above, bit_or_shifted, bit_or-lt, bit_or-zero, bit_and_low}
use ferric_k.Cpu.Segments.{shl, gdt_entry, tss_size, total, TssEntry, tss_descriptor}

abbrev pub limit_of : ℕ → ℕ
limit_of d = d % 2 ^ 16 + d / 2 ^ 48 % 2 ^ 4 * 2 ^ 16

abbrev pub base_of : ℕ → ℕ
base_of d = d / 2 ^ 16 % 2 ^ 24 + d / 2 ^ 56 * 2 ^ 24

abbrev pub access_of : ℕ → ℕ
access_of d = d / 2 ^ 40 % 2 ^ 8

abbrev pub flags_of : ℕ → ℕ
flags_of d = d / 2 ^ 52 % 2 ^ 4

-- The base of a descriptor of two slots.
abbrev pub tss_base_of : TssEntry → ℕ
tss_base_of e = base_of e.low + e.high % 2 ^ 32 * 2 ^ 32

-- The low parts of a descriptor as the code puts them together.
abbrev pack : (limit_lo base_lo base_mid access : ℕ) → ℕ
pack limit_lo base_lo base_mid access =
    bit_or (bit_or (bit_or limit_lo (shl base_lo 16)) (shl base_mid 24)) (shl access 40)

-- The two low parts of the base overlap: the middle one is put eight bits too low.
abbrev both : (base_lo base_mid : ℕ) → ℕ
both base_lo base_mid = bit_or base_lo (base_mid * 2 ^ 8)

both-lt : (lo mid : ℕ) → lo < 2 ^ 16 → mid < 2 ^ 8 → both lo mid < 2 ^ 16
both-lt lo mid b0 b1 = bit_or-lt 16 lo (mid * 2 ^ 8) b0 (omega (arith, b1))

both_right : (lo mid : ℕ) → lo < 2 ^ 16 → mid < 2 ^ 8 → both lo mid ≡ lo + mid * 2 ^ 16 ↔ mid ≡ 0
both_right lo mid b0 b1 = (
  (λ e. omega (arith, e, both-lt lo mid b0 b1)),
  (λ z.
      let same : both lo 0 ≡ lo = bit_or-zero 16 lo b0 in
      subst (λ n. both lo n ≡ lo + n * 2 ^ 16) (sym z) (omega (arith, same))),
)

pack_lem :
    (limit_lo base_lo base_mid access : ℕ)
    → limit_lo < 2 ^ 16
    → base_lo < 2 ^ 16
    → base_mid < 2 ^ 8
    → access < 2 ^ 8
    → pack limit_lo base_lo base_mid access
      ≡ limit_lo + both base_lo base_mid * 2 ^ 16 + access * 2 ^ 40
pack_lem limit_lo base_lo base_mid access l0 b0 b1 a =
    let small = both-lt base_lo base_mid b0 b1 in
    let s0 : shl base_lo 16 ≡ base_lo * 2 ^ 16 = omega (arith, b0) in
    let s1 : shl base_mid 24 ≡ base_mid * 2 ^ 8 * 2 ^ 16 = omega (arith, b1) in
    let s2 : shl access 40 ≡ access * 2 ^ 40 = omega (arith, a) in
    let p0 = bit_or_above 16 limit_lo base_lo l0 in
    let p1 = bit_or_shifted 16 limit_lo base_lo (base_mid * 2 ^ 8) l0 in
    let p2 =
      bit_or_above 40 (limit_lo + both base_lo base_mid * 2 ^ 16) access
        (omega (arith, l0, small)) in
    rw (s0, p0, s1, p1, s2, p2) refl

-- A field put above the others.
above : (k n q : ℕ) → n < 2 ^ k → q * 2 ^ k < 2 ^ 64 → bit_or n (shl q k) ≡ n + q * 2 ^ k
above k n q fits small =
    let s : shl q k ≡ q * 2 ^ k = omega (arith, small) in rw s (bit_or_above k n q fits)

gdt_entry_sum :
    (base limit access flags : ℕ)
    → base < 2 ^ 32
    → limit < 2 ^ 20
    → access < 2 ^ 8
    → flags < 2 ^ 4
    → gdt_entry base limit access flags
      ≡ limit % 2 ^ 16
        + both (base % 2 ^ 16) (base / 2 ^ 16 % 2 ^ 8) * 2 ^ 16
        + access * 2 ^ 40
        + limit / 2 ^ 16 % 2 ^ 4 * 2 ^ 48
        + flags % 2 ^ 4 * 2 ^ 52
        + base / 2 ^ 24 % 2 ^ 8 * 2 ^ 56
unfolding gdt_entry
gdt_entry_sum base limit access flags b l a f =
    let lo = base % 2 ^ 16 in
    let mid = base / 2 ^ 16 % 2 ^ 8 in
    let small = both-lt lo mid (omega arith) (omega arith) in
    let p = pack_lem (limit % 2 ^ 16) lo mid access (omega arith) (omega arith) (omega arith) a in
    let n = limit % 2 ^ 16 + both lo mid * 2 ^ 16 + access * 2 ^ 40 in
    let p1 = above 48 n (limit / 2 ^ 16 % 2 ^ 4) (omega (arith, small, a)) (omega arith) in
    let n1 = n + limit / 2 ^ 16 % 2 ^ 4 * 2 ^ 48 in
    let p2 = above 52 n1 (flags % 2 ^ 4) (omega (arith, small, a)) (omega arith) in
    let n2 = n1 + flags % 2 ^ 4 * 2 ^ 52 in
    let p3 = above 56 n2 (base / 2 ^ 24 % 2 ^ 8) (omega (arith, small, a)) (omega arith) in
    rw
      (
        bit_and_low 16 limit,
        bit_and_low 16 base,
        bit_and_low 8 (base / 2 ^ 16),
        bit_and_low 4 (limit / 2 ^ 16),
        bit_and_low 4 flags,
        bit_and_low 8 (base / 2 ^ 24),
        p,
        p1,
        p2,
        p3,
      )
      refl

-- A descriptor of a segment of 32 bits has the limit, the access byte and the flags; it has the base if
-- and only if the base's bits 16 to 23 are 0.
pub gdt_entry-fields :
    (base limit access flags : ℕ)
    → base < 2 ^ 32
    → limit < 2 ^ 20
    → access < 2 ^ 8
    → flags < 2 ^ 4
    → (limit_of (gdt_entry base limit access flags) ≡ limit)
      × (access_of (gdt_entry base limit access flags) ≡ access)
      × (flags_of (gdt_entry base limit access flags) ≡ flags)
      × (base_of (gdt_entry base limit access flags) ≡ base ↔ base / 2 ^ 16 % 2 ^ 8 ≡ 0)
gdt_entry-fields base limit access flags b l a f =
    let lo = base % 2 ^ 16 in
    let mid = base / 2 ^ 16 % 2 ^ 8 in
    let small = both-lt lo mid (omega arith) (omega arith) in
    let right = both_right lo mid (omega arith) (omega arith) in
    let e = gdt_entry_sum base limit access flags b l a f in
    (
      omega (arith, e, small, l, a, f, b),
      omega (arith, e, small, l, a, f, b),
      omega (arith, e, small, l, a, f, b),
      (
        (λ same. right.0 (omega (arith, same, e, small, l, a, f, b))),
        (λ z. omega (arith, right.1 z, e, small, l, a, f, b)),
      ),
    )

tss_size_lem : tss_size ≡ 108
unfolding total
tss_size_lem = refl

tss_descriptor_sum :
    (addr : ℕ)
    → ((tss_descriptor addr).low
        ≡ 107
          + both (addr % 2 ^ 16) (addr / 2 ^ 16 % 2 ^ 8) * 2 ^ 16
          + 0x89 * 2 ^ 40
          + addr / 2 ^ 24 % 2 ^ 8 * 2 ^ 56)
      × ((tss_descriptor addr).high ≡ addr / 2 ^ 32 % 2 ^ 32)
unfolding tss_descriptor total
tss_descriptor_sum addr =
    let lo = addr % 2 ^ 16 in
    let mid = addr / 2 ^ 16 % 2 ^ 8 in
    let small = both-lt lo mid (omega arith) (omega arith) in
    let p = pack_lem 107 lo mid 0x89 (omega arith) (omega arith) (omega arith) (omega arith) in
    let n = 107 + both lo mid * 2 ^ 16 + 0x89 * 2 ^ 40 in
    let p1 = above 52 n 0 (omega (arith, small)) (omega arith) in
    let p2 =
      above 56 (n + 0 * 2 ^ 52) (addr / 2 ^ 24 % 2 ^ 8) (omega (arith, small)) (omega arith) in
    (
      rw
          (
            bit_and_low 16 addr,
            bit_and_low 8 (addr / 2 ^ 16),
            bit_and_low 8 (addr / 2 ^ 24),
            p,
            p1,
            p2,
          )
          (omega arith),
      bit_and_low 32 (addr / 2 ^ 32),
    )

-- The descriptor of the task state segment ends at its last byte, and it is present and available; it has
-- the segment's address if and only if the address's bits 16 to 23 are 0.
pub tss_descriptor-fields :
    (addr : ℕ)
    → addr < 2 ^ 64
    → (limit_of (tss_descriptor addr).low ≡ 107)
      × (access_of (tss_descriptor addr).low ≡ 0x89)
      × (tss_base_of (tss_descriptor addr) ≡ addr ↔ addr / 2 ^ 16 % 2 ^ 8 ≡ 0)
tss_descriptor-fields addr fits =
    let lo = addr % 2 ^ 16 in
    let mid = addr / 2 ^ 16 % 2 ^ 8 in
    let small = both-lt lo mid (omega arith) (omega arith) in
    let right = both_right lo mid (omega arith) (omega arith) in
    let e = tss_descriptor_sum addr in
    (
      omega (arith, e.0, small),
      omega (arith, e.0, small),
      (
        (λ same. right.0 (omega (arith, same, e.0, e.1, small, fits))),
        (λ z. omega (arith, right.1 z, e.0, e.1, small, fits)),
      ),
    )
