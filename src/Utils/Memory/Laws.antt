-- ===== src/Utils/Memory/Laws.antt =====
-- What the memory routines of src/utils/memory.c do to every byte.
use rainstorm_os.Base.{
  ℕ, zero, suc, ◌+◌, ◌-◌, ◌*◌, ◌/◌, ◌%◌, ◌≤◌, ◌<◌, ◌≡◌, ◌⊎◌, inl, inr, Bool, true, ◌||◌, ◌&&◌, ◌==◌,
  ltb, leb, if◌then◌else◌, u8, u16, arith, Bool-cases, ==_iff, dec_lt, ◌≢◌,
}
use rainstorm_os.Base.Int.{ℤ, pos, sub_ℕ}
use rainstorm_os.Utils.Memory.{
  Mem, write, copy_up, copy_down, memmove, memset_loop, memset, memsetw_loop, memsetw, write16,
  memcmp_loop, memcmp,
}

-- `a` is one of the `n` addresses from `p` up.
abbrev pub inside : (p n a : ℕ) → Bool
inside p n a = leb p a && ltb a (p + n)

-- The memory after `i` bytes are copied, told by the memory `m` before.
abbrev copied : (dest src i : ℕ) → Mem → Mem
copied dest src i m a = if inside dest i a then m (src + (a - dest)) else m a

copy_up-copied :
    (left dest src i : ℕ) (m n : Mem)
    → (dest < src) ⊎ (src + (i + left) ≤ dest)
    → ((a : ℕ) → n a ≡ copied dest src i m a)
    → (a : ℕ) → copy_up left dest src i n a ≡ copied dest src (i + left) m a
unfolding copy_up
copy_up-copied zero dest src i m n apart h a = ground (arith, h a)
copy_up-copied (suc left) dest src i m n apart h a = ground (
  arith,
  copy_up-copied left dest src (i + 1) m (write n (dest + i) (n (src + i))) (omega arith)
      (λ b. step b) a,
)
  where
    step : (b : ℕ) → write n (dest + i) (n (src + i)) b ≡ copied dest src (i + 1) m b
    step b = ground (arith, h b, h (src + i))

-- The bytes from `i` up to `count` are copied already.
abbrev copied_above : (dest src i count : ℕ) → Mem → Mem
copied_above dest src i count m a =
    if leb (dest + i) a && ltb a (dest + count) then m (src + (a - dest)) else m a

copy_down-copied :
    (i dest src count : ℕ) (m n : Mem)
    → src ≤ dest
    → i ≤ count
    → ((a : ℕ) → n a ≡ copied_above dest src i count m a)
    → (a : ℕ) → copy_down i dest src n a ≡ copied dest src count m a
unfolding copy_down
copy_down-copied zero dest src count m n h k e a = ground (arith, e a)
copy_down-copied (suc i) dest src count m n h k e a =
    copy_down-copied i dest src count m (write n (dest + i) (n (src + i))) h (omega arith) step a
  where
    step : (b : ℕ) → write n (dest + i) (n (src + i)) b ≡ copied_above dest src i count m b
    step b = ground (arith, e b, e (src + i))

-- The test of `memmove` tells which direction is safe.
up_is_safe :
    (dest src count : ℕ)
    → (ltb dest src || leb (src + count) dest) ≡ true
    → (dest < src) ⊎ (src + (0 + count) ≤ dest)
up_is_safe dest src count h = elim (dec_lt dest src) [
  | yes p ↦ inl p
  | no p ↦ inr (ground (arith, h))
]

-- `memmove` copies the `count` bytes as they were before the call, however the two ranges
-- overlap, and changes no other byte.
pub memmove_lem :
    (dest src count : ℕ) (m : Mem) (a : ℕ)
    → memmove dest src count m a ≡ (if inside dest count a then m (src + (a - dest)) else m a)
unfolding memmove
memmove_lem dest src count m a = elim (Bool-cases (ltb dest src || leb (src + count) dest)) [
  | inl up ↦ rw up (
      ground (
        arith,
        copy_up-copied count dest src 0 m m (up_is_safe dest src count up) (λ b. ground arith) a,
      ))
  | inr down ↦ rw down (
      copy_down-copied count dest src count m m (ground (arith, down)) (omega arith)
        (λ b. ground arith) a)
]

memset_loop_lem :
    (left dest value i : ℕ) (m : Mem) (a : ℕ)
    → memset_loop left dest value i m a ≡ (if inside (dest + i) left a then u8 value else m a)
unfolding memset_loop
memset_loop_lem zero dest value i m a = ground arith
memset_loop_lem (suc left) dest value i m a =
    ground (arith, memset_loop_lem left dest value (i + 1) (write m (dest + i) (u8 value)) a)

-- `memset` sets the `count` bytes to the low byte of `value`, and changes no other.
pub memset_lem :
    (dest value count : ℕ) (m : Mem) (a : ℕ)
    → memset dest value count m a ≡ (if inside dest count a then u8 value else m a)
unfolding memset
memset_lem dest value count m a = ground (arith, memset_loop_lem count dest value 0 m a)

-- The byte at `a` of a 16-bit pattern repeated from `p` up.
pub byte16 : (p value a : ℕ) → ℕ
byte16 p value a = if (a - p) % 2 == 0 then u16 value % 256 else u16 value / 256

memsetw_loop_lem :
    (left dest value i : ℕ) (m : Mem) (a : ℕ)
    → memsetw_loop left dest value i m a
      ≡ (if inside (dest + 2 * i) (2 * left) a then byte16 dest value a else m a)
unfolding memsetw_loop byte16
memsetw_loop_lem zero dest value i m a = ground arith
memsetw_loop_lem (suc left) dest value i m a =
    ground
      (arith, memsetw_loop_lem left dest value (i + 1) (write16 m (dest + 2 * i) (u16 value)) a)

-- `memsetw` fills the `count` 16-bit elements with the low half of `value`, low byte first, and
-- changes no other byte.
pub memsetw_lem :
    (dest value count : ℕ) (m : Mem) (a : ℕ)
    → memsetw dest value count m a
      ≡ (if inside dest (2 * count) a then byte16 dest value a else m a)
unfolding memsetw
memsetw_lem dest value count m a = ground (arith, memsetw_loop_lem count dest value 0 m a)

abbrev pub SameBytes : Mem → (s1 s2 from to : ℕ) → Type 0
SameBytes m s1 s2 from to = (j : ℕ) → from ≤ j → j < to → m (s1 + j) ≡ m (s2 + j)

-- The outcome of a comparison of the bytes from index `from` to index `to`.
pub data Compared (m : Mem) (s1 s2 from to : ℕ) : ℤ → Type 0 where
  same : SameBytes m s1 s2 from to → Compared m s1 s2 from to (pos 0)
  differ :
      (i : ℕ)
      → i < to
      → SameBytes m s1 s2 from i
      → m (s1 + i) ≢ m (s2 + i)
      → Compared m s1 s2 from to (sub_ℕ (m (s1 + i)) (m (s2 + i)))

module _ (m : Mem) (s1 s2 : ℕ) where
  SameBytes-cons :
      (from to : ℕ)
      → m (s1 + from) ≡ m (s2 + from)
      → SameBytes m s1 s2 (from + 1) to
      → SameBytes m s1 s2 from to
  SameBytes-cons from to e rest j h k = elim (dec_lt from j) [
    | yes p ↦ rest j (omega arith) k
    | no p ↦ let e' : j ≡ from = omega arith in rw e' e
  ]

  Compared-cons :
      (from to : ℕ) {r : ℤ}
      → m (s1 + from) ≡ m (s2 + from)
      → Compared m s1 s2 (from + 1) to r
      → Compared m s1 s2 from to r
  Compared-cons from to e (same all) = same (SameBytes-cons from to e all)
  Compared-cons from to e (differ i h all ne) = differ i h (SameBytes-cons from i e all) ne

  memcmp_loop-Compared :
      (left i to : ℕ) → i + left ≡ to → Compared m s1 s2 i to (memcmp_loop left s1 s2 i m)
  unfolding memcmp_loop
  memcmp_loop-Compared zero i to e = same (λ j h k. absurd (omega arith))
  memcmp_loop-Compared (suc left) i to e = elim (Bool-cases (m (s1 + i) == m (s2 + i))) [
    | inl eq ↦ rw eq (
        Compared-cons i to ((==_iff _ _).0 eq) (memcmp_loop-Compared left (i + 1) to (omega arith)))
    | inr ne ↦ rw ne (differ i (omega arith) (λ j h k. absurd (omega arith)) (ground arith))
  ]

  -- `memcmp` returns 0 if the `count` bytes agree; otherwise the difference of the first two bytes
  -- that do not, which is not 0.
  pub memcmp-Compared : (count : ℕ) → Compared m s1 s2 0 count (memcmp s1 s2 count m)
  unfolding memcmp
  memcmp-Compared count = memcmp_loop-Compared count 0 count (omega arith)
