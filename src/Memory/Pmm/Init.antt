-- ===== src/Memory/Pmm/Init.antt =====
-- `pmm_init` of src/memory/pmm.c: the bitmap is sized from the memory map, placed in the first
-- usable region that holds it, and filled. The memory map comes from the boot loader.
pub mod Sweep
pub mod Place
pub mod Ready
use rainstorm_os.Base.{
  ℕ, zero, suc, ◌+◌, ◌*◌, ◌/◌, Bool, true, false, not, ◌||◌, List, [], ◌∷◌, u64, ◌==◌, ltb,
  if◌then◌else◌, ok, out_of_fuel, Cmd, pure, get, put, ◌>>=◌, ◌>>◌,
}
use rainstorm_os.Memory.Mm.{page_size, page_count}
use rainstorm_os.Memory.Event.{debug, info}
use rainstorm_os.Memory.Pmm.{
  Pmm, Unit0, klog, kpanic, bitmap_size_from_frames, free_frame, mark_allocated,
}
use rainstorm_os.Utils.Memory.{Mem, memset}

-- LIMINE_MEMMAP_*
pub data EntryType : Type 0 where
  usable reserved acpi_reclaimable acpi_nvs bad_memory bootloader_reclaimable : EntryType
  executable_and_modules framebuffer reserved_mapped : EntryType

pub record Entry : Type 0 where
  pub base : ℕ
  pub length : ℕ
  pub type : EntryType

abbrev pub is_usable : EntryType → Bool
is_usable usable = true
is_usable _ = false

-- The types that do not count for the highest address.
abbrev pub is_skipped : EntryType → Bool
is_skipped reserved = true
is_skipped framebuffer = true
is_skipped bad_memory = true
is_skipped _ = false

unfoldable pub highest_addr : List Entry → ℕ → ℕ
highest_addr [] highest = highest
highest_addr (e ∷ es) highest = highest_addr es (
    if is_skipped e.type
    then highest
    else let end = u64 (e.base + e.length) in if ltb highest end then end else highest)

-- 0 if no region is large enough.
unfoldable pub find_region : ℕ → List Entry → ℕ
find_region size [] = 0
find_region size (e ∷ es) =
    let rest = find_region size es in
    if not (is_usable e.type) then rest else if ltb e.length size then rest else e.base

pub free_region : ℕ → (base length j : ℕ) → Cmd Pmm Unit0
free_region zero base length j = λ _. out_of_fuel
free_region (suc fuel) base length j =
    let rest = free_region fuel base length (u64 (j + page_size)) in
    if ltb j length then (free_frame (u64 (base + j)) >> rest) else pure tt

pub free_regions : List Entry → Cmd Pmm Unit0
free_regions [] = pure tt
free_regions (e ∷ es) =
    (if is_usable e.type then free_region (e.length / page_size + 2) e.base e.length 0 else pure tt)
    >> free_regions es

pub mark_bitmap : ℕ → (start frame : ℕ) → Cmd Pmm Unit0
mark_bitmap zero start frame = pure tt
mark_bitmap (suc left) start frame = do
  mark_allocated (u64 (start + u64 (frame * page_size)))
  mark_bitmap left start (frame + 1)

-- The state once the bitmap is sized.
unfoldable pub sized : List Entry → (hhdm_offset : ℕ) → Pmm → Pmm
sized memmap hhdm_offset s =
    let frames = page_count (highest_addr memmap 0) in
    record s {
      hhdm_offset = hhdm_offset;
      total_frames = frames;
      bitmap_size = bitmap_size_from_frames frames;
    }

-- The state once the bitmap is placed at `start` and filled with ones.
unfoldable pub placed : List Entry → (hhdm_offset start : ℕ) → Mem → Pmm → Pmm
placed memmap hhdm_offset start ram s =
    let frames = page_count (highest_addr memmap 0) in
    let size = bitmap_size_from_frames frames in
    let virt = u64 (start + hhdm_offset) in
    record s {
      hhdm_offset = hhdm_offset;
      total_frames = frames;
      bitmap_size = size;
      bitmap_start = virt;
      bitmap = λ i. memset virt 0xff size ram (virt + i);
    }

-- `ram` is the memory at the kernel's virtual addresses before the call.
pub pmm_init : List Entry → ℕ → Mem → Cmd Pmm Unit0
pmm_init memmap hhdm_offset ram =
    let start = find_region (bitmap_size_from_frames (page_count (highest_addr memmap 0))) memmap in
    (λ s. ok tt (sized memmap hhdm_offset s))
    >> (if start == 0 then kpanic "pmm_init: No usable region found for bitmap" else do
      s ← get
      put (placed memmap hhdm_offset start ram s)
      free_regions memmap
      t ← get
      mark_bitmap (page_count t.bitmap_size) start 0
      klog debug "bitmap_size=%lluKB frames=%llu" (t.bitmap_size ∷ t.total_frames ∷ [])
      klog info "pmm_init: initialized sucessfully" [])
