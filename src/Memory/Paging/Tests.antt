-- ===== src/Memory/Paging/Tests.antt =====
-- Runs of the theorems of the page tables on four tables with one mapped page.
pub mod Small
use rainstorm_os.Base.{
  ℕ, suc, ◌+◌, ◌*◌, ◌/◌, ◌^◌, ◌<◌, ◌≡◌, refl, true, false, none, arith, ◌==◌, if◌then◌else◌, ◌⊎◌,
  inl, inr, ok, and_then, Returns, Ends, [],
}
use rainstorm_os.Memory.Pmm.{Pmm}
use rainstorm_os.Memory.Pmm.State.{IsValid, allocated}
use rainstorm_os.Memory.Paging.{
  Machine, present, target, slot, map, unmap, get_physical, map_range, unmap_range, walk, descend,
  read_entry, pml4_index, pdpt_index, pd_index, pt_index, page_offset,
}
use rainstorm_os.Base.Bytes.{bit_set}
use rainstorm_os.Memory.Mm.{is_page_aligned}
use rainstorm_os.Memory.Paging.Spaces.{create_pml4, destroy_pml4, SegmentInfo, paging_init}
use rainstorm_os.Memory.Paging.Spaces.Init.{kernel_regions, AllFit, InitDone, paging_init-InitDone}
use rainstorm_os.Memory.Paging.Spaces.Destroy.{IsDestroyed, destroy_pml4-IsDestroyed}
use rainstorm_os.Memory.Paging.Spaces.Lifetime.{Shares, create_pml4-Shares}
use rainstorm_os.Memory.Paging.Entries.{present-zero}
use rainstorm_os.Memory.Paging.Tree.{IsTree, look, lookup}
use rainstorm_os.Memory.Paging.Grown.{OutOfMemory}
use rainstorm_os.Memory.Paging.Walk.{physical, get_physical-lookup}
use rainstorm_os.Memory.Paging.Map.{Done, map-Remapped}
use rainstorm_os.Memory.Paging.Unmap.{Unmapped, unmap-Remapped}
use rainstorm_os.Memory.Paging.Rounds.{get_physical-map, unmap-map}
use rainstorm_os.Memory.Paging.Ranges.{
  RangeMapped, onto, map_range-RangeMapped, unmap_range-RangeMapped,
}
use rainstorm_os.Memory.Paging.Tests.Small.{frames, frames-IsValid, machine, machine-IsTree}

-- The page at 0x5000 is mapped to 0x9000.
mapped_page : get_physical 0x1000 0x5123 machine ≡ ok 0x9123 machine
unfolding get_physical walk descend read_entry present target is_page_aligned pml4_index pdpt_index
    pd_index pt_index page_offset
mapped_page = refl

map-Remapped_example :
    Ends
      (Done machine-IsTree 0x6000 0x7000 3 refl refl refl)
      OutOfMemory
      (map 0x1000 0x6000 0x7000 3 machine)
map-Remapped_example = map-Remapped machine-IsTree 0x6000 0x7000 3 refl refl refl

unmap-Remapped_example : Returns (Unmapped machine-IsTree 0x5000) (unmap 0x1000 0x5000 machine)
unmap-Remapped_example = unmap-Remapped machine-IsTree 0x5000 refl

get_physical-map_example :
    Ends
      (λ _ m'. (o : ℕ) → o < 4096 → get_physical 0x1000 (0x6000 + o) m' ≡ ok (0x7000 + o) m')
      OutOfMemory
      (map 0x1000 0x6000 0x7000 3 machine)
unfolding present
get_physical-map_example =
    get_physical-map machine-IsTree 0x6000 0x7000 3 refl refl refl (omega arith) refl

unmap-map_example :
    Ends
      (λ _ m'. (q : ℕ) → q < 2 ^ 36 → lookup m' 0x1000 q ≡ lookup machine 0x1000 q)
      OutOfMemory
      (and_then (map 0x1000 0x6000 0x7000 3 machine) (λ _. unmap 0x1000 0x6000))
unfolding present target look
unmap-map_example = unmap-map machine-IsTree 0x6000 0x7000 3 refl refl refl refl

get_physical-lookup_example :
    get_physical 0x1000 0x5123 machine ≡ ok (physical (lookup machine 0x1000 5) 0x5123) machine
get_physical-lookup_example = get_physical-lookup machine-IsTree 0x5123

kernel_half :
    (i : ℕ) → i < 256 → machine.kernel_pml4_entries i ≡ machine.word (slot 0x1000 (i + 256))
kernel_half i h = ground arith

create_pml4-Shares_example :
    Ends (λ pml4 m'. Shares machine-IsTree kernel_half pml4 m') OutOfMemory (create_pml4 machine)
create_pml4-Shares_example = create_pml4-Shares machine-IsTree kernel_half

destroy_pml4-IsDestroyed_example :
    Returns (λ _ m'. IsDestroyed machine-IsTree m') (destroy_pml4 0x1000 machine)
destroy_pml4-IsDestroyed_example = destroy_pml4-IsDestroyed machine-IsTree

-- 4096 frames, all of them free, and a kernel of four parts of one page.
abbrev empty_frames : Pmm
empty_frames = record {
  bitmap = λ i. 0;
  bitmap_start = 0;
  bitmap_size = 512;
  total_frames = 4096;
  hhdm_offset = 0xFFFF800000000000;
  log = [];
}

empty_frames-IsValid : IsValid empty_frames
empty_frames-IsValid = record {
  bytes = λ i. omega arith;
  size = refl;
  padding = λ f h k. absurd (omega arith);
  fits = omega arith;
}

abbrev kernel_image : SegmentInfo
kernel_image = record {
  limine_start = 0xFFFFFFFF80000000;
  limine_end = 0xFFFFFFFF80001000;
  text_start = 0xFFFFFFFF80001000;
  text_end = 0xFFFFFFFF80002000;
  rodata_start = 0xFFFFFFFF80002000;
  rodata_end = 0xFFFFFFFF80003000;
  data_start = 0xFFFFFFFF80003000;
  data_end = 0xFFFFFFFF80004000;
}

abbrev empty_machine : Machine
empty_machine = record machine { pmm = empty_frames; word = λ a. 0 }

image_fits : AllFit (kernel_regions 0x200000 0xFFFFFFFF80000000 kernel_image empty_frames)
image_fits = omega arith

paging_init-InitDone_example :
    Ends
      (InitDone 0x200000 0xFFFFFFFF80000000 kernel_image empty_frames)
      OutOfMemory
      (paging_init 0x200000 0xFFFFFFFF80000000 kernel_image empty_machine)
paging_init-InitDone_example =
    paging_init-InitDone 0x200000 0xFFFFFFFF80000000 kernel_image empty_machine empty_frames-IsValid
      (omega arith) image_fits
