-- ===== src/Memory/Paging.antt =====
-- src/memory/paging.c: four-level page tables. Physical memory is read and written through the
-- direct map, so the model keys the 64-bit words by their physical address; an access to a frame
-- that the physical memory manager does not track is a fault.
pub mod Entries
pub mod Tree
pub mod Grown
pub mod Growing
pub mod Fresh
pub mod Descent
pub mod Leaf
pub mod Walk
pub mod Steps
pub mod Owned
pub mod Map
pub mod Unmap
pub mod Rounds
pub mod Ranges
pub mod Spaces
pub mod Spec
mod Tests
use rainstorm_os.Base.{
  ℕ, zero, suc, ◌+◌, ◌-◌, ◌*◌, ◌/◌, ◌%◌, ◌^◌, bit_and, bit_or, Bool, true, false, not, ◌&&◌, Option,
  none, some, List, [], ◌∷◌, String, u64, ◌>>>◌, ◌==◌, ltb, leb, if◌then◌else◌, Run, ok, panic,
  fault, out_of_fuel, halted, Cmd, pure, get, put, ◌>>=◌, ◌>>◌,
}
use rainstorm_os.Memory.Mm.{page_size, page_count, is_page_aligned}
use rainstorm_os.Memory.Event.{Level, debug, warn, error, Event}
use rainstorm_os.Memory.Pmm
use rainstorm_os.Memory.Pmm.{Pmm, Unit0}

pub record Machine : Type 0 where
  pub pmm : Pmm
  pub word : ℕ → ℕ
  pub kernel_pml4_entries : ℕ → ℕ
  pub cr3 : ℕ
  pub nxe : Bool
  pub invalidated : List ℕ

-- A call into the physical memory manager.
unfoldable pub lifted : {A : Type 0} → Machine → Run Pmm A → Run Machine A
lifted m (ok a p) = ok a (record m { pmm = p })
lifted m (panic message p) = panic message (record m { pmm = p })
lifted m (halted p) = halted (record m { pmm = p })
lifted m fault = fault
lifted m out_of_fuel = out_of_fuel

abbrev pub lift : {A : Type 0} → Cmd Pmm A → Cmd Machine A
lift c m = lifted m (c m.pmm)

pub klog : Level → String → List ℕ → Cmd Machine Unit0
unfolding lifted
klog level format args = lift (Pmm.klog level format args)

abbrev pub page_present : ℕ
page_present = 1

abbrev pub page_writable : ℕ
page_writable = 2

abbrev pub page_user : ℕ
page_user = 4

abbrev pub page_global : ℕ
page_global = 2 ^ 8

abbrev pub page_no_execute : ℕ
page_no_execute = 2 ^ 63

abbrev pub phys_addr_mask : ℕ
phys_addr_mask = 0x000FFFFFFFFFF000

abbrev pub pmm_invalid_address : ℕ
pmm_invalid_address = 2 ^ 64 - 1

pub pml4_index : ℕ → ℕ
pml4_index vaddr = bit_and (vaddr >>> 39) 0x1ff

pub pdpt_index : ℕ → ℕ
pdpt_index vaddr = bit_and (vaddr >>> 30) 0x1ff

pub pd_index : ℕ → ℕ
pd_index vaddr = bit_and (vaddr >>> 21) 0x1ff

pub pt_index : ℕ → ℕ
pt_index vaddr = bit_and (vaddr >>> 12) 0x1ff

pub page_offset : ℕ → ℕ
page_offset vaddr = bit_and vaddr 0xfff

-- `entry & PAGE_PRESENT`, as a condition, and `entry & PHYS_ADDR_MASK`.
unfoldable pub present : ℕ → Bool
present entry = not (bit_and entry page_present == 0)

unfoldable pub target : ℕ → ℕ
target entry = bit_and entry phys_addr_mask

-- The address of an entry of the table at `table`.
abbrev pub slot : ℕ → ℕ → ℕ
slot table i = table + 8 * i

abbrev pub set_word : (ℕ → ℕ) → ℕ → ℕ → ℕ → ℕ
set_word w a v b = if a == b then v else w b

pub read_entry : ℕ → ℕ → Cmd Machine ℕ
read_entry table i m =
    if ltb (table / page_size) m.pmm.total_frames then ok (m.word (slot table i)) m else fault

pub write_entry : ℕ → ℕ → ℕ → Cmd Machine Unit0
write_entry table i v m =
    if ltb (table / page_size) m.pmm.total_frames
    then ok tt (record m { word = set_word m.word (slot table i) v })
    else fault

abbrev pub clear_words : (ℕ → ℕ) → ℕ → ℕ → ℕ
clear_words w frame a = if leb frame a && ltb a (frame + page_size) then 0 else w a

-- `memset(HHDM_PHYS_TO_VIRT(frame), 0, PAGE_SIZE)`, on words.
pub clear_page : ℕ → Cmd Machine Unit0
clear_page frame m =
    if ltb (frame / page_size) m.pmm.total_frames
    then ok tt (record m { word = clear_words m.word frame })
    else fault

-- The assembly helpers: `invlpg`, and the load of cr3.
pub invalidate_page : ℕ → Cmd Machine Unit0
invalidate_page virt m = ok tt (record m { invalidated = virt ∷ m.invalidated })

pub switch_dir : ℕ → Cmd Machine Unit0
switch_dir pml4 m = ok tt (record m { cr3 = pml4 })

pub switch_pml4 : ℕ → Cmd Machine Unit0
switch_pml4 pml4 =
    if not (is_page_aligned pml4)
    then klog error "paging_switch_pml4: pml4 address is not page alligned 0x%p" (pml4 ∷ [])
    else switch_dir pml4

-- One level of `paging_map`: make the entry present, with a cleared table, and follow it.
pub next_table : (table i flags : ℕ) → Cmd Machine ℕ
next_table table i flags = do
  e ← read_entry table i
  (if present e
      then pure tt
      else do frame ← lift Pmm.alloc_frame; clear_page frame; write_entry table i frame)
  e' ← read_entry table i
  write_entry table i (bit_or e' flags)
  e'' ← read_entry table i
  pure (target e'')

abbrev pub intermediate_flags : ℕ → ℕ
intermediate_flags flags =
    if not (bit_and flags page_user == 0)
    then bit_or (bit_or page_present page_writable) page_user
    else bit_or page_present page_writable

-- The last level of `paging_map`.
pub set_leaf : (pt virt phys flags : ℕ) → Cmd Machine Unit0
set_leaf pt virt phys flags = do
  old ← read_entry pt (pt_index virt)
  (if present old
      then klog warn "paging_map: remapping already mapped address 0x%p from 0x%p to 0x%p"
          (virt ∷ target old ∷ phys ∷ [])
      else pure tt)
  write_entry pt (pt_index virt) (bit_or phys flags)
  invalidate_page virt

pub map : (pml4 virt phys flags : ℕ) → Cmd Machine Unit0
map pml4 virt phys flags =
    if not (is_page_aligned pml4)
    then klog error "paging_map: pml4 address is not page alligned 0x%p" (pml4 ∷ [])
    else if not (is_page_aligned virt)
    then klog error "paging_map: virtual address is not page alligned 0x%p" (virt ∷ [])
    else if not (is_page_aligned phys)
    then klog error "paging_map: physical address is not page alligned 0x%p" (phys ∷ [])
    else do
      pdpt ← next_table pml4 (pml4_index virt) (intermediate_flags flags)
      pd ← next_table pdpt (pdpt_index virt) (intermediate_flags flags)
      pt ← next_table pd (pd_index virt) (intermediate_flags flags)
      set_leaf pt virt phys flags

pub map_loop : ℕ → (pml4 virt phys flags i : ℕ) → Cmd Machine Unit0
map_loop zero pml4 virt phys flags i = pure tt
map_loop (suc left) pml4 virt phys flags i = do
  map pml4 (u64 (virt + u64 (i * page_size))) (u64 (phys + u64 (i * page_size))) flags
  map_loop left pml4 virt phys flags (i + 1)

pub map_range : (pml4 virt phys size flags : ℕ) → Cmd Machine Unit0
map_range pml4 virt phys size flags =
    if not (is_page_aligned pml4)
    then klog error "paging_map_range: pml4 address is not page alligned 0x%p" (pml4 ∷ [])
    else if not (is_page_aligned virt)
    then klog error "paging_map_range: virtual address is not page alligned 0x%p" (virt ∷ [])
    else if not (is_page_aligned phys)
    then klog error "paging_map_range: physical address is not page alligned 0x%p" (phys ∷ [])
    else map_loop (page_count size) pml4 virt phys flags 0

-- The walk down three levels that `paging_unmap`, `paging_is_mapped` and `paging_get_physical`
-- share: the address of the last table, if all three entries are present.
pub descend : (table i : ℕ) → Cmd Machine (Option ℕ)
descend table i = do
  e ← read_entry table i
  if not (present e) then pure none else do e' ← read_entry table i; pure (some (target e'))

abbrev pub or_none : (ℕ → Cmd Machine (Option ℕ)) → Option ℕ → Cmd Machine (Option ℕ)
or_none k none = pure none
or_none k (some t) = k t

pub walk : (pml4 virt : ℕ) → Cmd Machine (Option ℕ)
walk pml4 virt = do
  pdpt ← descend pml4 (pml4_index virt)
  pd ← or_none (λ t. descend t (pdpt_index virt)) pdpt
  or_none (λ t. descend t (pd_index virt)) pd

not_mapped : ℕ → Cmd Machine Unit0
not_mapped virt = klog warn "paging_unmap: address 0x%p is not mapped" (virt ∷ [])

pub unmap : (pml4 virt : ℕ) → Cmd Machine Unit0
unfolding not_mapped
unmap pml4 virt =
    if not (is_page_aligned pml4)
    then klog error "paging_unmap: pml4 address is not page alligned 0x%p" (pml4 ∷ [])
    else if not (is_page_aligned virt)
    then klog error "paging_unmap: virtual address is not page alligned 0x%p" (virt ∷ [])
    else do
      found ← walk pml4 virt
      elim found [
        | none ↦ not_mapped virt
        | some pt ↦ do
          e ← read_entry pt (pt_index virt)
          if not (present e)
              then not_mapped virt
              else do write_entry pt (pt_index virt) 0; invalidate_page virt
      ]

pub unmap_loop : ℕ → (pml4 virt i : ℕ) → Cmd Machine Unit0
unmap_loop zero pml4 virt i = pure tt
unmap_loop (suc left) pml4 virt i = do
  unmap pml4 (u64 (virt + u64 (i * page_size)))
  unmap_loop left pml4 virt (i + 1)

pub unmap_range : (pml4 virt size : ℕ) → Cmd Machine Unit0
unmap_range pml4 virt size =
    if not (is_page_aligned pml4)
    then klog error "paging_unmap_range: pml4 address is not page alligned 0x%p" (pml4 ∷ [])
    else if not (is_page_aligned virt)
    then klog error "paging_unmap_range: virtual address is not page alligned 0x%p" (virt ∷ [])
    else unmap_loop (page_count size) pml4 virt 0

pub is_mapped : (pml4 virt : ℕ) → Cmd Machine Bool
is_mapped pml4 virt =
    if not (is_page_aligned pml4)
    then (do
      klog error "paging_is_mapped: pml4 address is not page alligned 0x%p" (pml4 ∷ [])
      pure false)
    else do
      found ← walk pml4 virt
      elim found [
        | none ↦ pure false
        | some pt ↦ do e ← read_entry pt (pt_index virt); pure (present e)
      ]

pub get_physical : (pml4 virt : ℕ) → Cmd Machine ℕ
get_physical pml4 virt =
    if not (is_page_aligned pml4)
    then (do
      klog error "paging_is_mapped: pml4 address is not page alligned 0x%p" (pml4 ∷ [])
      pure pmm_invalid_address)
    else do
      found ← walk pml4 virt
      elim found [
        | none ↦ pure pmm_invalid_address
        | some pt ↦ do
          e ← read_entry pt (pt_index virt)
          if not (present e) then pure pmm_invalid_address else do
            e' ← read_entry pt (pt_index virt)
            pure (bit_or (target e') (page_offset virt))
      ]

pub get_current_pml4 : Cmd Machine ℕ
get_current_pml4 = do m ← get; pure m.cr3
