-- ===== src/Cpu/Gdt/Segments.antt =====
-- What the processor reads in the segment descriptors.
use rainstorm_os.Base.{
  ℕ, ◌+◌, ◌*◌, ◌/◌, ◌%◌, ◌^◌, ◌<◌, ◌≡◌, refl, bit_and, bit_or, Bool, true, false, not, ◌&&◌, ◌==◌,
  if◌then◌else◌, ◌>>>◌, ◌∙◌, arith, some, [], ◌∷◌,
}
use rainstorm_os.Base.Bits.{bit_and_low, bit_and_field, bit_or_disjoint, bit_or_comm}
use rainstorm_os.Memory.Event.{event, debug}
use rainstorm_os.Cpu.Gdt.{GdtEntry, Gdt, segment, gdt_set_entry, gdt_init}

-- The fields of a descriptor, as the processor puts them together.
unfoldable pub base_of : GdtEntry → ℕ
base_of e = e.base_low + e.base_middle * 2 ^ 16 + e.base_high * 2 ^ 24

unfoldable pub limit_of : GdtEntry → ℕ
limit_of e = e.limit_low + e.granularity % 16 * 2 ^ 16

unfoldable pub flags_of : GdtEntry → ℕ
flags_of e = e.granularity / 16

granularity_eq :
    (limit gran : ℕ)
    → limit < 2 ^ 20
    → gran < 2 ^ 8
    → (segment 0 limit 0 gran).granularity ≡ gran / 16 * 16 + limit / 2 ^ 16
unfolding segment
granularity_eq limit gran h k =
    let high : bit_and (limit >>> 16) 0x0F ≡ limit / 2 ^ 16 =
      omega (arith, bit_and_low 4 (limit >>> 16)) in
    let low : bit_and gran 0xF0 ≡ gran / 16 * 16 = omega (arith, bit_and_field 4 4 gran) in
    let both : bit_or (limit / 2 ^ 16) (gran / 16 * 16) ≡ gran / 16 * 16 + limit / 2 ^ 16 =
      bit_or_comm (limit / 2 ^ 16) (gran / 16 * 16)
      ∙ bit_or_disjoint 4 (gran / 16) (limit / 2 ^ 16) (omega arith) in
    rw (high, low, both) (omega arith)

-- For a base of 32 bits, a limit of 20 and flags of 8, the descriptor that `gdt_set_entry` encodes
-- is read by the processor with the same base, limit and access byte, and the upper four flags.
pub segment_lem :
    (base limit access gran : ℕ)
    → base < 2 ^ 32
    → limit < 2 ^ 20
    → gran < 2 ^ 8
    → (base_of (segment base limit access gran) ≡ base)
      × (limit_of (segment base limit access gran) ≡ limit)
      × (flags_of (segment base limit access gran) ≡ gran / 16)
      × ((segment base limit access gran).access_byte ≡ access)
unfolding base_of limit_of flags_of segment
segment_lem base limit access gran h k l =
    let whole : base_of (segment base limit access gran) ≡ base =
      omega
        (arith, bit_and_low 16 base, bit_and_low 8 (base >>> 16), bit_and_low 8 (base >>> 24)) in
    (
      whole,
      omega (arith, granularity_eq limit gran k l, bit_and_low 16 limit),
      omega (arith, granularity_eq limit gran k l),
      refl,
    )

-- A segment as the processor takes it from a descriptor: code of 64 bits or not, for its ring alone
-- or for others too, and data; `last` is its last offset.
pub data Segment : Type 0 where
  absent system : Segment
  code : (is_long is_shared : Bool) (ring base last : ℕ) → Segment
  data_of : (is_writable is_downward : Bool) (ring base last : ℕ) → Segment

abbrev bit : (k n : ℕ) → Bool
bit k n = n / k % 2 == 1

-- The segment of a base, a limit, an access byte and the four flags. The access byte has, from above:
-- present, two bits of the ring, the bit that tells code and data from the system's descriptors, and
-- code or data with the two rights. The limit counts pages of 4 KiB or bytes.
unfoldable pub segment_of : (base limit access flags : ℕ) → Segment
segment_of base limit access flags =
    let last = if bit 8 flags then limit * 4096 + 4095 else limit in
    let ring = access / 32 % 4 in
    if not (bit 128 access)
    then absent
    else if not (bit 16 access)
    then system
    else if bit 8 access
    then code (bit 2 flags && not (bit 4 flags)) (bit 4 access) ring base last
    else data_of (bit 2 access) (bit 4 access) ring base last

-- What the processor reads in a descriptor.
unfoldable pub described : GdtEntry → Segment
described e = segment_of (base_of e) (limit_of e) e.access_byte (flags_of e)

-- The processor reads in an encoded descriptor what was encoded.
pub described-segment :
    (base limit access gran : ℕ)
    → base < 2 ^ 32
    → limit < 2 ^ 20
    → gran < 2 ^ 8
    → described (segment base limit access gran) ≡ segment_of base limit access (gran / 16)
unfolding described
described-segment base limit access gran h k l =
    let (at, bound, flags, same) = segment_lem base limit access gran h k l in
    rw (at, bound, flags, same) refl

-- The processor has the table of 40 bytes at `address`, and reads no segment at index 0, 64-bit code
-- at 1 and 3 and writable data at 2 and 4, the first two for ring 0 and the others for ring 3, all
-- from 0 to the last of 2^32 bytes; nothing else of the table changed, and the log has one message more.
abbrev pub Segmented : (address : ℕ) → Gdt → Gdt → Type 0
Segmented address s t =
    (t.flushed ≡ some (39, address))
    × (t.log ≡ event debug "GDT address: 0x%llx  size: %u" (address ∷ 39 ∷ []) ∷ s.log)
    × (described (t.gdt 0) ≡ absent)
    × (described (t.gdt 1) ≡ code true false 0 0 0xFFFFFFFF)
    × (described (t.gdt 2) ≡ data_of true false 0 0 0xFFFFFFFF)
    × (described (t.gdt 3) ≡ code true false 3 0 0xFFFFFFFF)
    × (described (t.gdt 4) ≡ data_of true false 3 0 0xFFFFFFFF)
    × ((n : ℕ) → 4 < n → t.gdt n ≡ s.gdt n)

-- `gdt_init` gives the processor the table of 40 bytes at `address`. There the processor reads no
-- segment at index 0, 64-bit code at 1 and 3, and writable data at 2 and 4; 1 and 2 are for ring 0, 3
-- and 4 for ring 3, and all go from 0 to the last of 2^32 bytes. What is past the table stays, and one
-- message with the address and the size goes to the log.
pub gdt_init_lem : (address : ℕ) (s : Gdt) → Segmented address s (gdt_init address s)
unfolding gdt_init gdt_set_entry segment_of
gdt_init_lem address s = (
  refl,
  refl,
  described-segment 0 0 0 0 (omega arith) (omega arith) (omega arith),
  described-segment 0 0xFFFFF 0x9A 0xA0 (omega arith) (omega arith) (omega arith),
  described-segment 0 0xFFFFF 0x92 0xC0 (omega arith) (omega arith) (omega arith),
  described-segment 0 0xFFFFF 0xFA 0xA0 (omega arith) (omega arith) (omega arith),
  described-segment 0 0xFFFFF 0xF2 0xC0 (omega arith) (omega arith) (omega arith),
  λ n h. ground arith,
)
