-- ===== src/Memory/Pmm/Sizes.antt =====
-- `pmm_get_free_size` and `pmm_get_total_size`: the byte-wise count is the count of free frames.
use rainstorm_os.Base.{
  ℕ, zero, suc, ◌+◌, ◌*◌, ◌/◌, ◌%◌, ◌≤◌, ◌<◌, ◌≡◌, refl, true, arith, ◌==◌, if◌then◌else◌, ok,
  Bool-cases, inl, inr, ==_iff, and_then, u64, ◌∙◌, dec_lt, sym, ap,
}
use rainstorm_os.Base.Bytes.{bit_set_zero}
use rainstorm_os.Memory.Pmm.{Pmm, load, free_bits, free_bytes, get_free_size, get_total_size}
use rainstorm_os.Memory.Pmm.State.{allocated, IsValid}
use rainstorm_os.Memory.Pmm.Alloc.{AllAllocated, full_byte}
use rainstorm_os.Memory.Pmm.Runs.{AllFree}

-- How many of the first `n` frames are free.
pub count_free : Pmm → ℕ → ℕ
count_free s zero = 0
count_free s (suc n) = count_free s n + (if allocated s n then 0 else 1)

pub count_free-le : (s : Pmm) (n : ℕ) → count_free s n ≤ n
unfolding count_free
count_free-le s zero = omega arith
count_free-le s (suc n) = ground (arith, count_free-le s n)

count_free_last :
    (s : Pmm) (k : ℕ) → count_free s (k + 1) ≡ count_free s k + (if allocated s k then 0 else 1)
unfolding count_free
count_free_last s k = ground arith

count_free-suc :
    (s : Pmm) (k : ℕ) → count_free s (suc k) ≡ count_free s k + (if allocated s k then 0 else 1)
unfolding count_free
count_free-suc s k = refl

count_free-used : (s : Pmm) (a k : ℕ) → a ≤ k → AllAllocated s a k → count_free s k ≡ count_free s a
count_free-used s a zero h used = let e : a ≡ 0 = omega arith in rw e
count_free-used s a (suc k) h used = elim (dec_lt a (suc k)) [
  | yes p ↦ ground (
    arith,
    used k,
    count_free-suc s k,
    count_free-used s a k (omega arith) (λ g p q. used g p (omega arith)),
  )
  | no p ↦ let e : a ≡ suc k = omega arith in rw e
]

count_free-free :
    (s : Pmm) (a k : ℕ) → a ≤ k → AllFree s a k → count_free s k + a ≡ count_free s a + k
count_free-free s a zero h free = let e : a ≡ 0 = omega arith in rw e
count_free-free s a (suc k) h free = elim (dec_lt a (suc k)) [
  | yes p ↦ ground (
    arith,
    free k,
    count_free-suc s k,
    count_free-free s a k (omega arith) (λ g p q. free g p (omega arith)),
  )
  | no p ↦ let e : a ≡ suc k = omega arith in rw e
]

module _ {s : Pmm} (v : IsValid s) where
  free_byte : (byte : ℕ) → (s.bitmap byte == 0) ≡ true → AllFree s (byte * 8) (byte * 8 + 8)
  unfolding allocated
  free_byte byte empty g h k =
      let e : g / 8 ≡ byte = omega arith in
      rw (e, (==_iff _ _).0 empty) (bit_set_zero (g % 8) (omega arith))

  free_bits-suc :
      (left bit byte free : ℕ)
      → bit < 8
      → byte < s.bitmap_size
      → free_bits (suc left) bit byte free s
        ≡ free_bits left
            (bit + 1)
            byte
            (if allocated s (byte * 8 + bit) then free else u64 (free + 1))
            s
  unfolding free_bits load allocated
  free_bits-suc left bit byte free h k = ground arith

  free_bits-count :
      (left bit byte : ℕ)
      → bit + left ≡ 8
      → byte < s.bitmap_size
      → free_bits left bit byte (count_free s (byte * 8 + bit)) s
        ≡ ok (count_free s (byte * 8 + 8)) s
  free_bits-count zero bit byte e h = let e' : bit ≡ 8 = omega arith in unfold free_bits in rw e'
  free_bits-count (suc left) bit byte e h =
      free_bits-suc left bit byte _ (omega arith) h
      ∙ (rw counted (free_bits-count left (bit + 1) byte (omega arith) h))
    where
      counted :
          (if allocated s (byte * 8 + bit)
            then count_free s (byte * 8 + bit)
            else u64 (count_free s (byte * 8 + bit) + 1))
          ≡ count_free s (byte * 8 + (bit + 1))
      counted =
          let e' : byte * 8 + (bit + 1) ≡ byte * 8 + bit + 1 = omega arith in
          rw e' (
            ground (
              arith,
              count_free_last s (byte * 8 + bit),
              count_free-le s (byte * 8 + bit),
              v.size,
              v.fits,
            ))

  free_bytes-suc :
      (left byte n : ℕ)
      → byte < s.bitmap_size
      → free_bytes (suc left) byte n s ≡ (
          if s.bitmap byte == 0
          then free_bytes left (byte + 1) (u64 (n + 8)) s
          else if s.bitmap byte == 0xff
          then free_bytes left (byte + 1) n s
          else and_then (free_bits 8 0 byte n s) (free_bytes left (byte + 1)))
  unfolding free_bytes load
  free_bytes-suc left byte n h = ground arith

  next_byte : (byte : ℕ) → (byte + 1) * 8 ≡ byte * 8 + 8
  next_byte byte = omega arith

  from_start : (byte n : ℕ) → n ≡ count_free s (byte * 8) → n ≡ count_free s (byte * 8 + 0)
  from_start byte n h = let e : byte * 8 + 0 ≡ byte * 8 = omega arith in rw (e, h)

  no_wrap :
      (byte n : ℕ)
      → n ≡ count_free s (byte * 8)
      → byte < s.bitmap_size
      → AllFree s (byte * 8) (byte * 8 + 8)
      → u64 (n + 8) ≡ count_free s ((byte + 1) * 8)
  no_wrap byte n h inside free = rw (next_byte byte) (
      omega (
        arith,
        count_free-free s (byte * 8) (byte * 8 + 8) (omega arith) free,
        count_free-le s (byte * 8),
        v.size,
        v.fits,
      ))

  free_bytes-count :
      (left byte n : ℕ)
      → byte + left ≡ s.bitmap_size
      → n ≡ count_free s (byte * 8)
      → free_bytes left byte n s ≡ ok (count_free s (s.bitmap_size * 8)) s
  free_bytes-count zero byte n e h =
      let e' : byte ≡ s.bitmap_size = omega arith in unfold free_bytes in rw (h, e')
  free_bytes-count (suc left) byte n e h =
      rw (free_bytes-suc left byte n (omega arith)) (elim (Bool-cases (s.bitmap byte == 0)) [
        | inl empty ↦ rw empty (
            free_bytes-count left (byte + 1) _ (omega arith)
              (no_wrap byte n h (omega arith) (free_byte byte empty)))
        | inr some_used ↦ rw some_used (elim (Bool-cases (s.bitmap byte == 0xff)) [
          | inl full ↦ rw full (
              free_bytes-count left (byte + 1) n (omega arith) (
                rw (next_byte byte) (
                  h
                  ∙ sym (
                      count_free-used s (byte * 8) (byte * 8 + 8) (omega arith)
                        (full_byte v byte full)))))
          | inr mixed ↦
              rw (mixed, from_start byte n h, free_bits-count 8 0 byte (omega arith) (omega arith))
                (free_bytes-count left (byte + 1) _ (omega arith) (rw (next_byte byte)))
        ])
      ])

-- In a valid state `pmm_get_free_size` reads inside the bitmap only, changes nothing, and returns
-- the page size times the number of tracked frames that are free.
pub get_free_size-count_free :
    (s : Pmm) → IsValid s → get_free_size s ≡ ok (count_free s s.total_frames * 4096) s
unfolding get_free_size
get_free_size-count_free s v =
    rw
      (
        free_bytes-count v s.bitmap_size 0 0 (omega arith) (unfold count_free in refl),
        count_free-used s s.total_frames (s.bitmap_size * 8) (omega (arith, v.size)) v.padding,
      )
      (ap (λ n. ok n s) (omega (arith, count_free-le s s.total_frames, v.fits)))

-- In a valid state, `pmm_get_free_size` and `pmm_get_total_size` both answer and change nothing, and
-- the free size is at most the total size, which is 4096 for each tracked frame.
pub get_total_size-get_free_size :
    (s : Pmm)
    → IsValid s
    → (free : ℕ) × (total : ℕ) × (get_free_size s ≡ ok free s)
      × (get_total_size s ≡ ok total s)
      × (total ≡ s.total_frames * 4096)
      × (free ≤ total)
unfolding get_total_size
get_total_size-get_free_size s v = (
  count_free s s.total_frames * 4096,
  s.total_frames * 4096,
  get_free_size-count_free s v,
  ap (λ n. ok n s) (omega (arith, v.fits)),
  refl,
  omega (arith, count_free-le s s.total_frames),
)
