-- ===== src/Memory/Paging/Spec.antt =====
-- What the users of src/memory/paging.c are promised: an address space is a table of entries by
-- page, and each call that changes it sets or clears the entries of some pages and of no others.
pub mod Refines
pub mod Order
mod Tests
use rainstorm_os.Base.{
  ℕ, ◌+◌, ◌-◌, ◌*◌, ◌/◌, ◌%◌, ◌^◌, ◌≤◌, ◌<◌, ◌≡◌, Bool, Option, none, List, [], ◌∷◌, ◌==◌,
  if◌then◌else◌, Cmd, pure, ◌>>=◌, ◌>>◌,
}
use rainstorm_os.Memory.Pmm.{Unit0}
use rainstorm_os.Memory.Paging.{Machine, map, unmap, map_range, unmap_range}
use rainstorm_os.Memory.Paging.Entries.{AreFlags, page_of}
use rainstorm_os.Memory.Paging.Map.{mapping}
use rainstorm_os.Memory.Paging.Ranges.{onto}
use rainstorm_os.Memory.Paging.Spaces.Regions.{Region, Fits, covers}

-- The entry that translates each page, if any.
abbrev pub Space : Type 0
Space = ℕ → Option ℕ

-- A call that changes an address space.
pub data Change : Type 0 where
  map_page : (virt phys flags : ℕ) → Change
  unmap_page : (virt : ℕ) → Change
  map_pages : Region → Change
  unmap_pages : Region → Change

-- The pages that it changes, and what it sets them to.
abbrev pub touches : Change → ℕ → Bool
touches (map_page virt phys flags) page = page == page_of virt
touches (unmap_page virt) page = page == page_of virt
touches (map_pages r) page = covers r page
touches (unmap_pages r) page = covers r page

abbrev pub entry_of : Change → Space
entry_of (map_page virt phys flags) page = mapping phys flags
entry_of (unmap_page virt) page = none
entry_of (map_pages r) page = onto r.phys r.flags (page - page_of r.virt)
entry_of (unmap_pages r) page = none

abbrev pub changed : Change → Space → Space
changed c s page = if touches c page then entry_of c page else s page

unfoldable pub changed_by : List Change → Space → Space
changed_by [] s = s
changed_by (c ∷ cs) s = changed_by cs (changed c s)

-- The calls as the code makes them. The physical addresses of an unmapped region play no part.
abbrev pub perform : (root : ℕ) → Change → Cmd Machine Unit0
perform root (map_page virt phys flags) = map root virt phys flags
perform root (unmap_page virt) = unmap root virt
perform root (map_pages r) = map_range root r.virt r.phys r.size r.flags
perform root (unmap_pages r) = unmap_range root r.virt r.size

unfoldable pub perform_all : (root : ℕ) → List Change → Cmd Machine Unit0
perform_all root [] = pure tt
perform_all root (c ∷ cs) = do perform root c; perform_all root cs

-- The arguments are aligned, and ranges do not wrap around.
abbrev pub IsSound : Change → Type 0
IsSound (map_page virt phys flags) = (virt % 4096 ≡ 0) × (phys % 4096 ≡ 0) × AreFlags flags
IsSound (unmap_page virt) = virt % 4096 ≡ 0
IsSound (map_pages r) = Fits r
IsSound (unmap_pages r) = Fits r

abbrev pub AllSound : List Change → Type 0
AllSound [] = Unit {0}
AllSound (c ∷ cs) = IsSound c × AllSound cs
