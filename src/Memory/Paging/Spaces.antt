-- ===== src/Memory/Paging/Spaces.antt =====
-- Address spaces as a whole in src/memory/paging.c: the kernel's own, new ones that share its
-- upper half, and their end.
pub mod Create
pub mod Sweep
pub mod Destroy
pub mod Fill
pub mod Regions
pub mod Init
pub mod Extends
pub mod Shared
pub mod Lifetime
use rainstorm_os.Base.{
  ℕ, zero, suc, ◌+◌, ◌-◌, ◌*◌, ◌/◌, ◌^◌, bit_or, Bool, true, false, not, List, [], ◌∷◌, u64, ltb,
  if◌then◌else◌, Run, ok, fault, Cmd, pure, get, ◌>>=◌, ◌>>◌,
}
use rainstorm_os.Memory.Mm.{is_page_aligned}
use rainstorm_os.Memory.Event.{debug, error}
use rainstorm_os.Memory.Pmm
use rainstorm_os.Memory.Pmm.{Unit0}
use rainstorm_os.Memory.Paging.{
  Machine, lift, klog, present, target, slot, read_entry, write_entry, clear_page, switch_dir,
  map_range, page_present, page_writable, page_global, page_no_execute,
}

-- `paging_create_pml4`, its two loops
pub clear_entries : ℕ → (pml4 i : ℕ) → Cmd Machine Unit0
clear_entries zero pml4 i = pure tt
clear_entries (suc left) pml4 i = do write_entry pml4 i 0; clear_entries left pml4 (i + 1)

pub share_entries : ℕ → (pml4 i : ℕ) → Cmd Machine Unit0
share_entries zero pml4 i = pure tt
share_entries (suc left) pml4 i = do
  m ← get
  write_entry pml4 (i + 256) (m.kernel_pml4_entries i)
  share_entries left pml4 (i + 1)

pub create_pml4 : Cmd Machine ℕ
create_pml4 = do
  pml4 ← lift Pmm.alloc_frame
  clear_entries 256 pml4 0
  share_entries 256 pml4 0
  pure pml4

-- `paging_destroy_pml4`, its loops from the inside out
pub destroy_pts : ℕ → (pd i : ℕ) → Cmd Machine Unit0
destroy_pts zero pd i = pure tt
destroy_pts (suc left) pd i =
    let rest = destroy_pts left pd (i + 1) in
    do
      e ← read_entry pd i
      if not (present e)
          then rest
          else do e' ← read_entry pd i; lift (Pmm.free_frame (target e')); rest

pub destroy_pds : ℕ → (pdpt i : ℕ) → Cmd Machine Unit0
destroy_pds zero pdpt i = pure tt
destroy_pds (suc left) pdpt i =
    let rest = destroy_pds left pdpt (i + 1) in
    do
      e ← read_entry pdpt i
      if not (present e) then rest else do
        e' ← read_entry pdpt i
        destroy_pts 512 (target e') 0
        lift (Pmm.free_frame (target e'))
        rest

pub destroy_pdpts : ℕ → (pml4 i : ℕ) → Cmd Machine Unit0
destroy_pdpts zero pml4 i = pure tt
destroy_pdpts (suc left) pml4 i =
    let rest = destroy_pdpts left pml4 (i + 1) in
    do
      e ← read_entry pml4 i
      if not (present e) then rest else do
        e' ← read_entry pml4 i
        destroy_pds 512 (target e') 0
        lift (Pmm.free_frame (target e'))
        rest

pub destroy_pml4 : ℕ → Cmd Machine Unit0
destroy_pml4 pml4 =
    if not (is_page_aligned pml4)
    then klog error "paging_switch_pml4: pml4 address is not page alligned 0x%p" (pml4 ∷ [])
    else do destroy_pdpts 256 pml4 0; lift (Pmm.free_frame pml4)

-- The bounds of the kernel's image, by the linker.
pub record SegmentInfo : Type 0 where
  pub limine_start : ℕ
  pub limine_end : ℕ
  pub text_start : ℕ
  pub text_end : ℕ
  pub rodata_start : ℕ
  pub rodata_end : ℕ
  pub data_start : ℕ
  pub data_end : ℕ

-- Subtraction of `uint64_t`.
abbrev pub sub64 : ℕ → ℕ → ℕ
sub64 x y = u64 (x + (2 ^ 64 - y))

pub fill_kernel : ℕ → (pml4 i : ℕ) → Cmd Machine Unit0
fill_kernel zero pml4 i = pure tt
fill_kernel (suc left) pml4 i = do
  pdpt ← lift Pmm.alloc_frame
  clear_page pdpt
  write_entry pml4 i (bit_or (bit_or pdpt page_present) page_writable)
  fill_kernel left pml4 (i + 1)

pub map_segment : (pml4 kernel_phys kernel_virt start end flags : ℕ) → Cmd Machine Unit0
map_segment pml4 kernel_phys kernel_virt start end flags =
    map_range pml4 start (u64 (sub64 start kernel_virt + kernel_phys)) (sub64 end start) flags

-- `for (i = 0; i < 256; i++) kernel_pml4_entries[i] = pml4_entries[i + 256]`
pub save_entries : ℕ → (pml4 i : ℕ) → Cmd Machine Unit0
save_entries zero pml4 i = pure tt
save_entries (suc left) pml4 i = do
  e ← read_entry pml4 (i + 256)
  (λ m. ok tt (record m { kernel_pml4_entries = Pmm.update m.kernel_pml4_entries i e }))
  save_entries left pml4 (i + 1)

pub enable_nxe : Cmd Machine Unit0
enable_nxe m = ok tt (record m { nxe = true })

pub paging_init : (kernel_phys kernel_virt : ℕ) → SegmentInfo → Cmd Machine ℕ
paging_init kernel_phys kernel_virt seg = do
  pml4 ← lift Pmm.alloc_frame
  clear_page pml4
  fill_kernel 256 pml4 256
  memsize ← lift Pmm.get_total_size
  m ← get
  map_range pml4 m.pmm.hhdm_offset 0 memsize
      (bit_or (bit_or (bit_or page_writable page_global) page_no_execute) page_present)
  map_segment pml4 kernel_phys kernel_virt seg.limine_start seg.limine_end
      (bit_or (bit_or page_global page_no_execute) page_present)
  map_segment pml4 kernel_phys kernel_virt seg.text_start seg.text_end
      (bit_or page_global page_present)
  map_segment pml4 kernel_phys kernel_virt seg.rodata_start seg.rodata_end
      (bit_or (bit_or page_global page_no_execute) page_present)
  map_segment pml4 kernel_phys kernel_virt seg.data_start seg.data_end
      (bit_or (bit_or (bit_or page_global page_no_execute) page_writable) page_present)
  save_entries 256 pml4 0
  enable_nxe
  switch_dir pml4
  klog debug "paging_init: paging initialised without crashing, pml4_phys=0x%p" (pml4 ∷ [])
  pure pml4
