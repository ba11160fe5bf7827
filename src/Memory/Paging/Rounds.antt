-- ===== src/Memory/Paging/Rounds.antt =====
-- The round trips of the operations on one page.
use rainstorm_os.Base.{
  ℕ, ◌+◌, ◌%◌, ◌^◌, ◌<◌, ◌≡◌, true, false, none, arith, ◌∙◌, ap, sym, ℕ_discrete, ok, and_then,
  Returns, Ends, Ends-and_then, Ends-mono,
}
use rainstorm_os.Memory.Paging.{
  Machine, present, map, unmap, get_physical, is_mapped, pmm_invalid_address,
}
use rainstorm_os.Memory.Paging.Entries.{AreFlags, page_of, physical_eq}
use rainstorm_os.Memory.Paging.Tree.{IsTree, lookup}
use rainstorm_os.Memory.Paging.Grown.{OutOfMemory}
use rainstorm_os.Memory.Paging.Walk.{physical, is_some, get_physical-lookup, is_mapped-lookup}
use rainstorm_os.Memory.Paging.Map.{Remapped, mapping, map-Remapped}
use rainstorm_os.Memory.Paging.Unmap.{unmap-Remapped}

module _ {m : Machine} {root : ℕ} {level path : ℕ → ℕ} (tree : IsTree m root level path)
    (virt phys flags : ℕ) (al : virt % 4096 ≡ 0) (al' : phys % 4096 ≡ 0)
    (are_flags : AreFlags flags) where
  -- What `paging_get_physical` answers anywhere in the page.
  abbrev Answers : ℕ → Machine → Type 0
  Answers base m' = (o : ℕ) → o < 4096 → get_physical root (virt + o) m' ≡ ok (base + o) m'

  map_answer :
      (m' : Machine)
      → Remapped m root (page_of virt) (mapping phys flags) m'
      → phys < 2 ^ 52
      → present flags ≡ true
      → Answers phys m'
  unfolding physical
  map_answer m' done small here o h =
      let page : page_of (virt + o) ≡ page_of virt = omega arith in
      get_physical-lookup done.tree (virt + o)
      ∙ rw (page, done.here, here)
          (ap (λ a. ok a m') (physical_eq phys flags (virt + o) al' small are_flags ∙ omega arith))

  -- On a tree of tables, for aligned addresses with `phys` below 2^52 and present flags that keep
  -- out of the address field: after `paging_map`, `paging_get_physical` answers `phys + o` at
  -- `virt + o` for each offset `o` into the page, unless the call panicked with no frame free.
  pub get_physical-map :
      phys < 2 ^ 52
      → present flags ≡ true
      → Ends (λ _ m'. Answers phys m') OutOfMemory (map root virt phys flags m)
  get_physical-map small here =
      Ends-mono (map-Remapped tree virt phys flags al al' are_flags)
        (λ _ m' (done, _). map_answer m' done small here) (λ _ _ q. q)

  -- On a tree of tables, for aligned addresses and flags that keep out of the address field:
  -- `paging_map` of a page without a translation, then `paging_unmap` of it, leave every page
  -- translated as it was, unless `paging_map` panicked with no frame free.
  pub unmap-map :
      lookup m root (page_of virt) ≡ none
      → Ends
          (λ _ m'. (q : ℕ) → q < 2 ^ 36 → lookup m' root q ≡ lookup m root q)
          OutOfMemory
          (and_then (map root virt phys flags m) (λ _. unmap root virt))
  unmap-map was =
      Ends-and_then (map-Remapped tree virt phys flags al al' are_flags) (λ _ m1 (mapped, _).
        Ends-mono (unmap-Remapped mapped.tree virt al)
          (λ _ m2 (unmapped, _, _) q h. both mapped unmapped q h) (λ _ _ never. absurd never))
    where
      both :
          {m1 m2 : Machine}
          → Remapped m root (page_of virt) (mapping phys flags) m1
          → Remapped m1 root (page_of virt) none m2
          → (q : ℕ) → q < 2 ^ 36
          → lookup m2 root q ≡ lookup m root q
      both {m2 = m2} mapped unmapped q h = elim (ℕ_discrete q (page_of virt)) [
        | yes e ↦ ap (lookup m2 root) e ∙ (unmapped.here ∙ (sym was ∙ ap (lookup m root) (sym e)))
        | no ne ↦ unmapped.others q h ne ∙ mapped.others q h ne
      ]

-- On a tree of tables, for an aligned address: after `paging_unmap`, `paging_is_mapped` answers
-- false and `paging_get_physical` PMM_INVALID_ADDRESS everywhere in the page.
pub get_physical-unmap :
    {m : Machine} {root : ℕ} {level path : ℕ → ℕ} (tree : IsTree m root level path) (virt : ℕ)
    → virt % 4096 ≡ 0
    → Returns
        (λ _ m'.
          (o : ℕ)
          → o < 4096
          → (is_mapped root (virt + o) m' ≡ ok false m')
            × (get_physical root (virt + o) m' ≡ ok pmm_invalid_address m'))
        (unmap root virt m)
unfolding is_some physical
get_physical-unmap {root = root} tree virt al =
    Ends-mono (unmap-Remapped tree virt al)
      (λ _ m' (done, _, _) o h.
        let page : page_of (virt + o) ≡ page_of virt = omega arith in
        (
          is_mapped-lookup done.tree (virt + o) ∙ rw (page, done.here),
          get_physical-lookup done.tree (virt + o) ∙ rw (page, done.here),
        ))
      (λ _ _ never. absurd never)
