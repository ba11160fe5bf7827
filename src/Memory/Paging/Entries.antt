-- ===== src/Memory/Paging/Entries.antt =====
-- Page-table entries as bits: the present flag and the address field, and the index fields of a
-- virtual address as digits of its page number.
use rainstorm_os.Base.{
  ℕ, ◌+◌, ◌*◌, ◌/◌, ◌%◌, ◌^◌, ◌<◌, ◌≡◌, refl, bit_and, bit_or, true, false, not, arith, ◌==◌, ◌>>>◌,
  ◌∙◌,
}
use rainstorm_os.Base.Bits.{
  bit_and_low, bit_and_field, bit_and-bit_or, bit_or_zero, bit_or_disjoint, bit_or_step,
}
use rainstorm_os.Memory.Paging.{
  pml4_index, pdpt_index, pd_index, pt_index, page_offset, present, target, phys_addr_mask,
}

-- Flags that leave the address field alone.
abbrev pub AreFlags : ℕ → Type 0
AreFlags flags = bit_and flags phys_addr_mask ≡ 0

target_eq : (e : ℕ) → target e ≡ e / 4096 % 2 ^ 40 * 4096
unfolding target
target_eq e = bit_and_field 40 12 e

present_eq : (e : ℕ) → present e ≡ not (e % 2 == 0)
unfolding present
present_eq e = ground (arith, bit_and_low 1 e)

pub target-frame : (f : ℕ) → f < 2 ^ 40 → target (f * 4096) ≡ f * 4096
target-frame f h = omega (arith, target_eq (f * 4096))

pub target-or : (e flags : ℕ) → AreFlags flags → target (bit_or e flags) ≡ target e
unfolding target
target-or e flags h =
    bit_and-bit_or e flags phys_addr_mask ∙ (rw h (bit_or_zero (bit_and e phys_addr_mask)))

pub present-zero : present 0 ≡ false
unfolding present
present-zero = refl

pub present-or : (e flags : ℕ) → present flags ≡ true → present (bit_or e flags) ≡ true
present-or e flags h =
    ground (arith, present_eq flags, present_eq (bit_or e flags), bit_or_step e flags)

-- An aligned address has no present bit of its own.
pub present-leaf : (phys flags : ℕ) → phys % 4096 ≡ 0 → present (bit_or phys flags) ≡ present flags
present-leaf phys flags h =
    ground (arith, present_eq flags, present_eq (bit_or phys flags), bit_or_step phys flags)

-- The page of a virtual address, without its sign extension.
abbrev pub page_of : ℕ → ℕ
page_of virt = virt / 4096 % 2 ^ 36

-- The index of a page in the tables `d` levels above the last.
abbrev pub index_at : (d page : ℕ) → ℕ
index_at d page = page / 512 ^ d % 512

pub pml4_index_eq : (virt : ℕ) → pml4_index virt ≡ index_at 3 (page_of virt)
unfolding pml4_index
pml4_index_eq virt = omega (arith, bit_and_low 9 (virt >>> 39))

pub pdpt_index_eq : (virt : ℕ) → pdpt_index virt ≡ index_at 2 (page_of virt)
unfolding pdpt_index
pdpt_index_eq virt = omega (arith, bit_and_low 9 (virt >>> 30))

pub pd_index_eq : (virt : ℕ) → pd_index virt ≡ index_at 1 (page_of virt)
unfolding pd_index
pd_index_eq virt = omega (arith, bit_and_low 9 (virt >>> 21))

pub pt_index_eq : (virt : ℕ) → pt_index virt ≡ index_at 0 (page_of virt)
unfolding pt_index
pt_index_eq virt = omega (arith, bit_and_low 9 (virt >>> 12))

pub page_offset_eq : (virt : ℕ) → page_offset virt ≡ virt % 4096
unfolding page_offset
page_offset_eq virt = bit_and_low 12 virt

-- The address that an entry and an offset make.
pub physical_eq :
    (phys flags virt : ℕ)
    → phys % 4096 ≡ 0
    → phys < 2 ^ 52
    → AreFlags flags
    → bit_or (target (bit_or phys flags)) (page_offset virt) ≡ phys + virt % 4096
physical_eq phys flags virt al small h =
    let q = phys / 4096 in
    let e : target (bit_or phys flags) ≡ phys / 4096 * 2 ^ 12 =
      omega (arith, target-or phys flags h, target_eq phys) in
    rw (e, page_offset_eq virt)
      (omega (arith, bit_or_disjoint 12 (phys / 4096) (virt % 4096) (omega arith)))
