-- ===== src/Utils/Memory/Copy.antt =====
-- memcpy of src/utils/memory.asm, eight bytes at a time and then one.
use rainstorm_os.Base.{
  ℕ, zero, suc, ◌+◌, ◌-◌, ◌*◌, ◌/◌, ◌%◌, ◌≤◌, ◌≡◌, ◌⊎◌, ◌∙◌, sym, if◌then◌else◌, bit_and, arith,
}
use rainstorm_os.Base.Bits.{bit_and_low}
use rainstorm_os.Utils.Memory.{Mem, rep_movsq, rep_movsb, memcpy, memmove}
use rainstorm_os.Utils.Memory.Laws.{inside, memmove_lem}

-- The two ranges have no byte in common.
abbrev pub AreApart : (dest src count : ℕ) → Type 0
AreApart dest src count = (dest + count ≤ src) ⊎ (src + count ≤ dest)

-- The memory `n` after the first `i` bytes are copied, told by the memory `m` before.
abbrev Copied : (dest src i : ℕ) → Mem → Mem → Type 0
Copied dest src i m n = (a : ℕ) → n a ≡ (if inside dest i a then m (src + (a - dest)) else m a)

module _ (dest src count : ℕ) (m : Mem) (apart : AreApart dest src count) where
  rep_movsq-Copied :
      (rcx i : ℕ) (n : Mem)
      → i + 8 * rcx ≤ count
      → Copied dest src i m n
      → Copied dest src (i + 8 * rcx) m (rep_movsq rcx (dest + i) (src + i) n)
  unfolding rep_movsq
  rep_movsq-Copied zero i n h done a = ground (arith, done a)
  rep_movsq-Copied (suc rcx) i n h done a =
      let at : dest + i + 8 ≡ dest + (i + 8) = omega arith in
      let from : src + i + 8 ≡ src + (i + 8) = omega arith in
      let end : i + 8 * suc rcx ≡ i + 8 + 8 * rcx = omega arith in
      rw (at, from, end)
        (rep_movsq-Copied rcx (i + 8) _ (omega arith)
          (λ b. ground (arith, done b, done (src + i + (b - (dest + i))))) a)

  rep_movsb-Copied :
      (rcx i : ℕ) (n : Mem)
      → i + rcx ≤ count
      → Copied dest src i m n
      → Copied dest src (i + rcx) m (rep_movsb rcx (dest + i) (src + i) n)
  unfolding rep_movsb
  rep_movsb-Copied zero i n h done a = ground (arith, done a)
  rep_movsb-Copied (suc rcx) i n h done a =
      let at : dest + i + 1 ≡ dest + (i + 1) = omega arith in
      let from : src + i + 1 ≡ src + (i + 1) = omega arith in
      let end : i + suc rcx ≡ i + 1 + rcx = omega arith in
      rw (at, from, end)
        (rep_movsb-Copied rcx (i + 1) _ (omega arith) (λ b. ground (arith, done b, done (src + i)))
          a)

  memcpy-Copied : Copied dest src count m (memcpy dest src count m)
  unfolding memcpy
  memcpy-Copied a =
      let low : bit_and count 7 ≡ count % 8 = bit_and_low 3 count in
      let start : dest + 0 ≡ dest = omega arith in
      let start' : src + 0 ≡ src = omega arith in
      let words = rep_movsq-Copied (count / 8) 0 m (omega arith) (λ b. ground arith) in
      let bytes = rep_movsb-Copied (count % 8) (0 + 8 * (count / 8)) _ (omega arith) words in
      let total : 0 + 8 * (count / 8) + count % 8 ≡ count = omega arith in
      let first : 0 + 8 * (count / 8) ≡ 8 * (count / 8) = omega arith in
      rw low (rw (total, first, start, start') at (bytes a))

  -- On ranges without a common byte, memcpy of the assembly and memmove of the C code leave the same
  -- memory: the `count` bytes are copied, whatever `count` is modulo 8, and no other byte changes.
  pub memcpy-memmove : (a : ℕ) → memcpy dest src count m a ≡ memmove dest src count m a
  memcpy-memmove a = memcpy-Copied a ∙ sym (memmove_lem dest src count m a)
