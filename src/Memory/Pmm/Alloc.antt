-- ===== src/Memory/Pmm/Alloc.antt =====
-- `pmm_alloc_frame`: the two scans and what they return.
use rainstorm_os.Base.{
  ℕ, zero, suc, ◌+◌, ◌*◌, ◌/◌, ◌%◌, ◌≤◌, ◌<◌, ◌≡◌, true, false, Option, none, some, arith, leb,
  ◌==◌, if◌then◌else◌, Run, ok, panic, Bool-cases, inl, inr, leb→le, leb_false→lt, lt→ltb, ==_iff,
  and_then, pure, dec_lt,
}
use rainstorm_os.Base.Bytes.{bit_set_full}
use rainstorm_os.Memory.Pmm.{Pmm, load, store, alloc_bits, alloc_bytes, alloc_frame}
use rainstorm_os.Memory.Pmm.State.{allocated, IsValid, mark}

-- Every frame of a range is allocated.
abbrev pub AllAllocated : Pmm → ℕ → ℕ → Type 0
AllAllocated s from to = (g : ℕ) → from ≤ g → g < to → allocated s g ≡ true

-- The scan of the frames from `from` to `to` takes the lowest free one, or leaves the state alone.
data Scan (s : Pmm) (from to : ℕ) : Run Pmm (Option ℕ) → Type 0 where
  hit :
      (f : ℕ)
      → from ≤ f
      → f < to
      → f < s.total_frames
      → allocated s f ≡ false
      → AllAllocated s from f
      → Scan s from to (ok (some (f * 4096)) (mark s f))
  miss : AllAllocated s from to → Scan s from to (ok none s)

AllAllocated-cons :
    (s : Pmm) (from to : ℕ)
    → allocated s from ≡ true
    → AllAllocated s (from + 1) to
    → AllAllocated s from to
AllAllocated-cons s from to first rest g h k = ground (arith, rest g)

next_bit : (byte bit : ℕ) → byte * 8 + bit + 1 ≡ byte * 8 + (bit + 1)
next_bit byte bit = omega arith

module _ {s : Pmm} (v : IsValid s) where
  alloc_bits-suc :
      (left bit byte : ℕ)
      → bit < 8
      → byte < s.bitmap_size
      → alloc_bits (suc left) bit byte s ≡ (
          if leb s.total_frames (byte * 8 + bit)
          then ok none s
          else if allocated s (byte * 8 + bit)
          then alloc_bits left (bit + 1) byte s
          else ok (some ((byte * 8 + bit) * 4096)) (mark s (byte * 8 + bit)))
  unfolding alloc_bits load store allocated mark
  alloc_bits-suc left bit byte h k = ground (arith, v.size, v.fits)

  Scan-cons :
      (from to : ℕ) {r : Run Pmm (Option ℕ)}
      → allocated s from ≡ true
      → Scan s (from + 1) to r
      → Scan s from to r
  Scan-cons from to first (hit f a b c free below) =
      hit f (omega arith) b c free (AllAllocated-cons s from f first below)
  Scan-cons from to first (miss all) = miss (AllAllocated-cons s from to first all)

  alloc_bits-Scan :
      (left bit byte : ℕ)
      → bit + left ≡ 8
      → byte < s.bitmap_size
      → Scan s (byte * 8 + bit) (byte * 8 + 8) (alloc_bits left bit byte s)
  alloc_bits-Scan zero bit byte e h = unfold alloc_bits in miss (λ g p q. absurd (omega arith))
  alloc_bits-Scan (suc left) bit byte e h =
      rw (alloc_bits-suc left bit byte (omega arith) h)
        (elim (Bool-cases (leb s.total_frames (byte * 8 + bit))) [
          | inl over ↦
              rw over (miss (λ g p q. v.padding g (omega (arith, leb→le _ _ over)) (omega arith)))
          | inr under ↦ rw under (elim (Bool-cases (allocated s (byte * 8 + bit))) [
            | inl used ↦ rw used (
                Scan-cons _ _ used
                  (rw (next_bit byte bit) (alloc_bits-Scan left (bit + 1) byte (omega arith) h)))
            | inr free ↦ rw free (
                hit (byte * 8 + bit) (omega arith) (omega arith) (leb_false→lt _ _ under) free
                  (λ g p q. absurd (omega arith)))
          ])
        ])

-- `pmm_alloc_frame` takes the lowest free frame, or panics because there is none.
pub data AllocResult (s : Pmm) : Run Pmm ℕ → Type 0 where
  taken :
      (f : ℕ)
      → f < s.total_frames
      → allocated s f ≡ false
      → AllAllocated s 0 f
      → AllocResult s (ok (f * 4096) (mark s f))
  exhausted :
      AllAllocated s 0 s.total_frames → AllocResult s (panic "pmm_alloc_frame: out of memory" s)

AllAllocated-append :
    (s : Pmm) (from mid to : ℕ)
    → AllAllocated s from mid
    → AllAllocated s mid to
    → AllAllocated s from to
AllAllocated-append s from mid to front back g h k = elim (dec_lt g mid) [
  | yes p ↦ front g h p
  | no p ↦ back g (omega arith) k
]

module _ {s : Pmm} (v : IsValid s) where
  pub full_byte :
      (byte : ℕ) → (s.bitmap byte == 0xff) ≡ true → AllAllocated s (byte * 8) (byte * 8 + 8)
  unfolding allocated
  full_byte byte full g h k =
      let e : g / 8 ≡ byte = omega arith in
      rw (e, (==_iff _ _).0 full) (bit_set_full (g % 8) (omega arith))

  -- What follows the scan of one byte.
  after_byte :
      (left byte : ℕ) {r : Run Pmm (Option ℕ)}
      → AllAllocated s 0 (byte * 8)
      → (AllAllocated s 0 (byte * 8 + 8) → AllocResult s (alloc_bytes left (byte + 1) s))
      → Scan s (byte * 8 + 0) (byte * 8 + 8) r
      → AllocResult s (
          and_then r
            (λ found. elim found [ none ↦ alloc_bytes left (byte + 1) | some addr ↦ pure addr ]))
  after_byte left byte before rest (hit f a b c free below) =
      taken f c free
        (AllAllocated-append s 0 (byte * 8 + 0) f (λ g h k. before g h (omega arith)) below)
  after_byte left byte before rest (miss all) =
      rest
        (AllAllocated-append s 0 (byte * 8) (byte * 8 + 8) before (λ g h k. all g (omega arith) k))

  alloc_bytes-AllocResult :
      (left byte : ℕ)
      → byte + left ≡ s.bitmap_size
      → AllAllocated s 0 (byte * 8)
      → AllocResult s (alloc_bytes left byte s)
  unfolding alloc_bytes load
  alloc_bytes-AllocResult zero byte e before =
      exhausted (λ g h k. before g h (omega (arith, v.size)))
  alloc_bytes-AllocResult (suc left) byte e before =
      let next : AllAllocated s 0 (byte * 8 + 8) → AllocResult s (alloc_bytes left (byte + 1) s) =
        λ all.
          alloc_bytes-AllocResult left (byte + 1) (omega arith) (λ g h k. all g h (omega arith)) in
      rw (lt→ltb byte s.bitmap_size (omega arith)) (elim (Bool-cases (s.bitmap byte == 0xff)) [
        | inl full ↦
            rw full (
              next (AllAllocated-append s 0 (byte * 8) (byte * 8 + 8) before (full_byte byte full)))
        | inr some_free ↦ rw some_free (
            after_byte left byte before next
              (alloc_bits-Scan v 8 0 byte (omega arith) (omega arith)))
      ])

-- In a valid state `pmm_alloc_frame` reads and writes inside the bitmap only; it returns the
-- lowest free frame and marks it, or panics if every frame is allocated.
pub alloc_frame-AllocResult : {s : Pmm} → IsValid s → AllocResult s (alloc_frame s)
unfolding alloc_frame
alloc_frame-AllocResult {s} v =
    alloc_bytes-AllocResult v s.bitmap_size 0 (omega arith) (λ g h k. absurd (omega arith))
