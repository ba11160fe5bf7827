-- ===== src/Memory/Mm.antt =====
-- The page macros of src/memory/mm.h, at `uint64_t`, and their arithmetic.
use rainstorm_os.Base.{
  ℕ, ◌+◌, ◌-◌, ◌*◌, ◌/◌, ◌%◌, ◌^◌, ◌<◌, bit_and, ◌≡◌, Bool, true, arith, u64, ◌==◌,
}
use rainstorm_os.Base.Bits.{bit_and_low, bit_and_field}

abbrev pub page_size : ℕ
page_size = 0x1000

abbrev pub page_mask : ℕ
page_mask = page_size - 1

-- `~PAGE_MASK`
abbrev pub not_page_mask : ℕ
not_page_mask = 2 ^ 64 - 1 - page_mask

pub page_align_down : ℕ → ℕ
page_align_down addr = bit_and addr not_page_mask

unfoldable pub page_align_up : ℕ → ℕ
page_align_up addr = bit_and (u64 (addr + page_mask)) not_page_mask

unfoldable pub page_count : ℕ → ℕ
unfolding page_align_up
page_count size = page_align_up size / page_size

unfoldable pub is_page_aligned : ℕ → Bool
is_page_aligned addr = bit_and addr page_mask == 0

pub is_page_aligned_mod : (addr : ℕ) → is_page_aligned addr ≡ (addr % 4096 == 0)
unfolding is_page_aligned
is_page_aligned_mod addr = ground (arith, bit_and_low 12 addr)

pub aligned_mul : (f : ℕ) → is_page_aligned (f * 4096) ≡ true
aligned_mul f = ground (arith, is_page_aligned_mod (f * 4096))

pub aligned→mod : (addr : ℕ) → is_page_aligned addr ≡ true → addr % 4096 ≡ 0
aligned→mod addr h = ground (arith, is_page_aligned_mod addr)

pub mod→aligned : (addr : ℕ) → addr % 4096 ≡ 0 → is_page_aligned addr ≡ true
mod→aligned addr h = ground (arith, is_page_aligned_mod addr)

-- The macros as arithmetic: the multiples of the page size next to an address, the upper one
-- where the rounding does not wrap around.
pub page_align_down_eq : (addr : ℕ) → addr < 2 ^ 64 → page_align_down addr ≡ addr / 4096 * 4096
unfolding page_align_down
page_align_down_eq addr h = omega (arith, bit_and_field 52 12 addr)

pub page_align_up_eq :
    (addr : ℕ) → addr + 4095 < 2 ^ 64 → page_align_up addr ≡ (addr + 4095) / 4096 * 4096
unfolding page_align_up
page_align_up_eq addr h = omega (arith, bit_and_field 52 12 (u64 (addr + page_mask)))

pub page_count_eq : (size : ℕ) → size + 4095 < 2 ^ 64 → page_count size ≡ (size + 4095) / 4096
unfolding page_count
page_count_eq size h = omega (arith, page_align_up_eq size h)
