-- ===== src/Utils/Memory.antt =====
-- src/utils/memory.c over a byte-addressed memory, and memcpy of src/utils/memory.asm. A loop over
-- `i` runs on the rounds left.
pub mod Laws
pub mod Copy
mod Tests
use rainstorm_os.Base.{
  ℕ, zero, suc, ◌+◌, ◌-◌, ◌*◌, ◌/◌, ◌%◌, ◌^◌, Bool, true, false, not, ◌||◌, ◌&&◌, ◌==◌, ltb, leb,
  if◌then◌else◌, u8, u16, bit_and, ◌>>>◌,
}
use rainstorm_os.Base.Int.{ℤ, pos, sub_ℕ}

abbrev pub Mem : Type 0
Mem = ℕ → ℕ

abbrev pub write : Mem → ℕ → ℕ → Mem
write m p v a = if p == a then v else m a

-- `for (i = i; …; i++) dest[i] = src[i]`
pub copy_up : ℕ → (dest src i : ℕ) → Mem → Mem
copy_up zero dest src i m = m
copy_up (suc left) dest src i m = copy_up left dest src (i + 1) (write m (dest + i) (m (src + i)))

-- `for (i = i; i != 0; i--) dest[i - 1] = src[i - 1]`
pub copy_down : ℕ → (dest src : ℕ) → Mem → Mem
copy_down zero dest src m = m
copy_down (suc i) dest src m = copy_down i dest src (write m (dest + i) (m (src + i)))

pub memmove : (dest src count : ℕ) → Mem → Mem
memmove dest src count m =
    if ltb dest src || leb (src + count) dest
    then copy_up count dest src 0 m
    else copy_down count dest src m

-- `rep movsq` and `rep movsb`, on the rounds in rcx: a round reads eight bytes, or one, from rsi,
-- writes them to rdi and moves both on.
pub rep_movsq : (rcx rdi rsi : ℕ) → Mem → Mem
rep_movsq zero rdi rsi m = m
rep_movsq (suc rcx) rdi rsi m =
    rep_movsq rcx (rdi + 8) (rsi + 8)
      (λ a. if leb rdi a && ltb a (rdi + 8) then m (rsi + (a - rdi)) else m a)

pub rep_movsb : (rcx rdi rsi : ℕ) → Mem → Mem
rep_movsb zero rdi rsi m = m
rep_movsb (suc rcx) rdi rsi m = rep_movsb rcx (rdi + 1) (rsi + 1) (write m rdi (m rsi))

pub memcpy : (dest src count : ℕ) → Mem → Mem
memcpy dest src count m =
    let q = count >>> 3 in
    rep_movsb (bit_and count 7) (dest + 8 * q) (src + 8 * q) (rep_movsq q dest src m)

pub memset_loop : ℕ → (dest value i : ℕ) → Mem → Mem
memset_loop zero dest value i m = m
memset_loop (suc left) dest value i m =
    memset_loop left dest value (i + 1) (write m (dest + i) (u8 value))

unfoldable pub memset : (dest value count : ℕ) → Mem → Mem
unfolding memset_loop
memset dest value count m = memset_loop count dest value 0 m

-- A 16-bit store, low byte first.
abbrev pub write16 : Mem → ℕ → ℕ → Mem
write16 m p v = write (write m p (v % 256)) (p + 1) (v / 256)

pub memsetw_loop : ℕ → (dest value i : ℕ) → Mem → Mem
memsetw_loop zero dest value i m = m
memsetw_loop (suc left) dest value i m =
    memsetw_loop left dest value (i + 1) (write16 m (dest + 2 * i) (u16 value))

pub memsetw : (dest value count : ℕ) → Mem → Mem
memsetw dest value count m = memsetw_loop count dest value 0 m

pub memcmp_loop : ℕ → (s1 s2 i : ℕ) → Mem → ℤ
memcmp_loop zero s1 s2 i m = pos 0
memcmp_loop (suc left) s1 s2 i m =
    let rest = memcmp_loop left s1 s2 (i + 1) m in
    if not (m (s1 + i) == m (s2 + i)) then sub_ℕ (m (s1 + i)) (m (s2 + i)) else rest

pub memcmp : (s1 s2 count : ℕ) → Mem → ℤ
memcmp s1 s2 count m = memcmp_loop count s1 s2 0 m
