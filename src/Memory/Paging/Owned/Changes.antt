-- ===== src/Memory/Paging/Owned/Changes.antt =====
-- Any calls that change pages of the lower half keep the account of an address space's own frames.
use rainstorm_os.Base.{
  ℕ, zero, suc, ◌+◌, ◌*◌, ◌%◌, ◌^◌, ◌≤◌, ◌<◌, ◌≡◌, Bool, List, [], ◌∷◌, arith, Returns, returns,
  Ends, Ends-mono, Ends-and_then, u64,
}
use rainstorm_os.Memory.Mm.{mod→aligned, page_size, page_count_eq}
use rainstorm_os.Memory.Paging.{Machine, map_loop, map_range, unmap_loop, unmap_range}
use rainstorm_os.Memory.Paging.Entries.{AreFlags, page_of}
use rainstorm_os.Memory.Paging.Tree.{IsTree}
use rainstorm_os.Memory.Paging.Grown.{OutOfMemory}
use rainstorm_os.Memory.Paging.Walk.{root_aligned}
use rainstorm_os.Memory.Paging.Spaces.Regions.{pages}
use rainstorm_os.Memory.Paging.Spec.{
  Change, map_page, unmap_page, map_pages, unmap_pages, perform, perform_all, IsSound, AllSound,
}
use rainstorm_os.Memory.Paging.Owned.{Owned}
use rainstorm_os.Memory.Paging.Owned.Calls.{map-Held, unmap-Held}

-- Tables at `root` whose frames, and those of `base`, are the ones in use.
pub record Account (base : ℕ → Bool) (root : ℕ) (m : Machine) : Type 0 where
  pub level' : ℕ → ℕ
  pub path' : ℕ → ℕ
  pub tree : IsTree m root level' path'
  pub owned : Owned base root m level' path'

-- A change that gives tables to pages of the lower half only.
abbrev pub IsLow : Change → Type 0
IsLow (map_page virt phys flags) = page_of virt < 2 ^ 35
IsLow (unmap_page virt) = Unit {0}
IsLow (map_pages r) = page_of r.virt + pages r ≤ 2 ^ 35
IsLow (unmap_pages r) = Unit {0}

abbrev pub AllLow : List Change → Type 0
AllLow [] = Unit {0}
AllLow (c ∷ cs) = IsLow c × AllLow cs

module _ {base : ℕ → Bool} {root : ℕ} where
  map-Account :
      (virt phys flags : ℕ) {m : Machine}
      → virt % 4096 ≡ 0
      → phys % 4096 ≡ 0
      → AreFlags flags
      → page_of virt < 2 ^ 35
      → Account base root m
      → Ends (λ _ m'. Account base root m') OutOfMemory (perform root (map_page virt phys flags) m)
  map-Account virt phys flags al al' are_flags low a =
      Ends-mono (map-Held a.tree a.owned virt al phys flags al' are_flags low)
        (λ _ m' held. record {
          level' = held.remapped.level';
          path' = held.remapped.path';
          tree = held.remapped.tree;
          owned = held.owned;
        })
        (λ _ _ q. q)

  unmap-Account :
      (virt : ℕ) {m : Machine}
      → virt % 4096 ≡ 0
      → Account base root m
      → Returns (λ _ m'. Account base root m') (perform root (unmap_page virt) m)
  unmap-Account virt al a =
      Ends-mono (unmap-Held a.tree a.owned virt al)
        (λ _ m' held. record {
          level' = held.remapped.level';
          path' = held.remapped.path';
          tree = held.remapped.tree;
          owned = held.owned;
        })
        (λ _ _ never. never)

  map_loop-Account :
      (virt phys flags left i : ℕ) (m : Machine)
      → virt % 4096 ≡ 0
      → phys % 4096 ≡ 0
      → AreFlags flags
      → (page_of virt + (left + i) ≤ 2 ^ 35)
        × (virt + (left + i) * 4096 ≤ 2 ^ 64)
        × (phys + (left + i) * 4096 ≤ 2 ^ 64)
      → Account base root m
      → Ends (λ _ m'. Account base root m') OutOfMemory (map_loop left root virt phys flags i m)
  unfolding map_loop
  map_loop-Account virt phys flags zero i m al al' are_flags fits a = returns a
  map_loop-Account virt phys flags (suc left) i m al al' are_flags fits a =
      let at : u64 (virt + u64 (i * page_size)) ≡ virt + i * 4096 = omega (arith, fits) in
      let to : u64 (phys + u64 (i * page_size)) ≡ phys + i * 4096 = omega (arith, fits) in
      rw (at, to)
        (Ends-and_then
          (map-Account (virt + i * 4096) (phys + i * 4096) flags (omega arith) (omega arith)
            are_flags (omega (arith, fits)) a)
          (λ _ m1 a1.
            map_loop-Account virt phys flags left (i + 1) m1 al al' are_flags (omega (arith, fits))
              a1))

  unmap_loop-Account :
      (virt left i : ℕ) (m : Machine)
      → virt % 4096 ≡ 0
      → virt + (left + i) * 4096 ≤ 2 ^ 64
      → Account base root m
      → Returns (λ _ m'. Account base root m') (unmap_loop left root virt i m)
  unfolding unmap_loop
  unmap_loop-Account virt zero i m al fits a = returns a
  unmap_loop-Account virt (suc left) i m al fits a =
      let at : u64 (virt + u64 (i * page_size)) ≡ virt + i * 4096 = omega arith in
      rw at (
        Ends-and_then (unmap-Account (virt + i * 4096) (omega arith) a)
          (λ _ m1 a1. unmap_loop-Account virt left (i + 1) m1 al (omega arith) a1))

  perform-Account :
      (c : Change) {m : Machine}
      → IsSound c
      → IsLow c
      → Account base root m
      → Ends (λ _ m'. Account base root m') OutOfMemory (perform root c m)
  unfolding map_range unmap_range
  perform-Account (map_page virt phys flags) (al, al', are_flags) low a =
      map-Account virt phys flags al al' are_flags low a
  perform-Account (unmap_page virt) al low a =
      Ends-mono (unmap-Account virt al a) (λ _ _ done. done) (λ _ _ never. absurd never)
  perform-Account (map_pages r) {m} fits low a =
      rw
        (
          root_aligned a.tree,
          mod→aligned r.virt fits.virt_aligned,
          mod→aligned r.phys fits.phys_aligned,
          page_count_eq r.size fits.bounded,
        )
        (map_loop-Account r.virt r.phys r.flags (pages r) 0 m fits.virt_aligned fits.phys_aligned
          fits.are_flags (omega (arith, low, fits.virt_end, fits.phys_end)) a)
  perform-Account (unmap_pages r) {m} fits low a =
      rw
        (
          root_aligned a.tree,
          mod→aligned r.virt fits.virt_aligned,
          page_count_eq r.size fits.bounded,
        )
        (Ends-mono
          (unmap_loop-Account r.virt (pages r) 0 m fits.virt_aligned (omega (arith, fits.virt_end))
            a)
          (λ _ _ done. done) (λ _ _ never. absurd never))

  pub perform_all-Account :
      (cs : List Change) {m : Machine}
      → AllSound cs
      → AllLow cs
      → Account base root m
      → Ends (λ _ m'. Account base root m') OutOfMemory (perform_all root cs m)
  unfolding perform_all
  perform_all-Account [] sound low a = returns a
  perform_all-Account (c ∷ cs) (sound, rest) (low, below) a =
      Ends-and_then (perform-Account c sound low a)
        (λ _ m1 a1. perform_all-Account cs rest below a1)
