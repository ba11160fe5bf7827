-- ===== src/Memory/Paging/Spec/Refines.antt =====
-- The page tables implement the table of entries, through any sequence of calls.
use rainstorm_os.Base.{
  ℕ, ◌+◌, ◌-◌, ◌^◌, ◌<◌, ◌≡◌, Option, List, [], ◌∷◌, ◌==◌, arith, ◌∙◌, ap, sym, ok, ℕ_discrete,
  returns, Ends, Ends-and_then, Ends-mono, Bool-cases, inl, inr, if◌then◌else◌,
}
use rainstorm_os.Memory.Paging.{Machine, is_mapped, get_physical}
use rainstorm_os.Memory.Paging.Entries.{page_of}
use rainstorm_os.Memory.Paging.Tree.{IsTree, lookup}
use rainstorm_os.Memory.Paging.Grown.{OutOfMemory}
use rainstorm_os.Memory.Paging.Walk.{physical, is_some, get_physical-lookup, is_mapped-lookup}
use rainstorm_os.Memory.Paging.Map.{Remapped, map-Remapped}
use rainstorm_os.Memory.Paging.Unmap.{unmap-Remapped}
use rainstorm_os.Memory.Paging.Ranges.{RangeMapped, map_range-RangeMapped, unmap_range-RangeMapped}
use rainstorm_os.Memory.Paging.Spaces.Regions.{Region, pages, covers}
use rainstorm_os.Memory.Paging.Spec.{
  Space, Change, map_page, unmap_page, map_pages, unmap_pages, changed, changed_by, perform,
  perform_all, IsSound, AllSound,
}

-- The tables at `root` are a tree that translates each page as `s` says.
pub record Represents (root : ℕ) (s : Space) (m : Machine) : Type 0 where
  pub level' : ℕ → ℕ
  pub path' : ℕ → ℕ
  pub tree : IsTree m root level' path'
  pub agrees : (page : ℕ) → page < 2 ^ 36 → lookup m root page ≡ s page

module _ {root : ℕ} {s : Space} {m : Machine} (r : Represents root s m) where
  one_page :
      {m' : Machine} (virt : ℕ) (entry : Option ℕ)
      → Remapped m root (page_of virt) entry m'
      → Represents root (λ page. if page == page_of virt then entry else s page) m'
  one_page {m'} virt entry done = record {
    level' = done.level';
    path' = done.path';
    tree = done.tree;
    agrees = λ page h. elim (ℕ_discrete page (page_of virt)) [
      | yes e ↦ ap (lookup m' root) e ∙ (done.here ∙ ground (arith, e))
      | no ne ↦ done.others page h ne ∙ (r.agrees page h ∙ ground (arith, ne))
    ];
  }

  page_range :
      {m' : Machine} (reg : Region) (entry : ℕ → Option ℕ)
      → RangeMapped m root (page_of reg.virt) (pages reg) entry m'
      → Represents root
          (λ page. if covers reg page then entry (page - page_of reg.virt) else s page)
          m'
  page_range {m'} reg entry done = record {
    level' = done.level';
    path' = done.path';
    tree = done.tree;
    agrees = λ page h. elim (Bool-cases (covers reg page)) [
      | inl covered ↦
          let index : page_of reg.virt + (page - page_of reg.virt) ≡ page = ground arith in
          rw covered
            (ap (lookup m' root) (sym index) ∙ done.inside (page - page_of reg.virt) (ground arith))
      | inr outside ↦ rw outside (done.outside page h (ground arith) ∙ r.agrees page h)
    ];
  }

  perform-Represents :
      (c : Change)
      → IsSound c
      → Ends (λ _ m'. Represents root (changed c s) m') OutOfMemory (perform root c m)
  perform-Represents (map_page virt phys flags) (al, al', are_flags) =
      Ends-mono (map-Remapped r.tree virt phys flags al al' are_flags)
        (λ _ m' (done, _). one_page virt _ done) (λ _ _ q. q)
  perform-Represents (unmap_page virt) al =
      Ends-mono (unmap-Remapped r.tree virt al) (λ _ m' (done, _, _). one_page virt _ done)
        (λ _ _ never. absurd never)
  perform-Represents (map_pages reg) fits =
      Ends-mono
        (map_range-RangeMapped r.tree reg.virt reg.phys reg.size reg.flags fits.virt_aligned
          fits.phys_aligned fits.are_flags fits.bounded fits.in_space fits.virt_end fits.phys_end)
        (λ _ m' done. page_range reg _ done) (λ _ _ q. q)
  perform-Represents (unmap_pages reg) fits =
      Ends-mono
        (unmap_range-RangeMapped r.tree reg.virt reg.size fits.virt_aligned fits.bounded
          fits.in_space fits.virt_end)
        (λ _ m' done. page_range reg _ done) (λ _ _ never. absurd never)

pub perform_all-Represents :
    (cs : List Change) {root : ℕ} {s : Space} {m : Machine}
    → Represents root s m
    → AllSound cs
    → Ends (λ _ m'. Represents root (changed_by cs s) m') OutOfMemory (perform_all root cs m)
unfolding changed_by perform_all
perform_all-Represents [] r sound = returns r
perform_all-Represents (c ∷ cs) r (sound, rest) =
    Ends-and_then (perform-Represents r c sound) (λ _ m1 r1. perform_all-Represents cs r1 rest)

-- The queries answer by the table of entries.
pub record Answers (root : ℕ) (s : Space) (m : Machine) : Type 0 where
  pub is_mapped' : (virt : ℕ) → is_mapped root virt m ≡ ok (is_some (s (page_of virt))) m
  pub get_physical' :
      (virt : ℕ) → get_physical root virt m ≡ ok (physical (s (page_of virt)) virt) m

Represents-Answers : {root : ℕ} {s : Space} {m : Machine} → Represents root s m → Answers root s m
Represents-Answers {m} r = record {
  is_mapped' = λ virt.
      is_mapped-lookup r.tree virt
      ∙ ap (λ e. ok (is_some e) m) (r.agrees (page_of virt) (omega arith));
  get_physical' = λ virt.
      get_physical-lookup r.tree virt
      ∙ ap (λ e. ok (physical e virt) m) (r.agrees (page_of virt) (omega arith));
}

-- Where the tables represent an address space, any sequence of calls of `paging_map`,
-- `paging_unmap`, `paging_map_range` and `paging_unmap_range` with aligned arguments that do not
-- wrap around returns with tables that represent the address space after the same changes, and by
-- which `paging_is_mapped` and `paging_get_physical` answer for every address; or it panics with no
-- frame free.
pub perform_all-Answers :
    (cs : List Change) {root : ℕ} {s : Space} {m : Machine}
    → Represents root s m
    → AllSound cs
    → Ends
        (λ _ m'. Represents root (changed_by cs s) m' × Answers root (changed_by cs s) m')
        OutOfMemory
        (perform_all root cs m)
perform_all-Answers cs r sound =
    Ends-mono (perform_all-Represents cs r sound) (λ _ m' r'. (r', Represents-Answers r'))
      (λ _ _ q. q)
