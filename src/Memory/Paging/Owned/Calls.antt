-- ===== src/Memory/Paging/Owned/Calls.antt =====
-- `paging_map` and `paging_unmap` of pages of the lower half keep the account of an address space's
-- own frames.
use rainstorm_os.Base.{
  ℕ, ◌*◌, ◌%◌, ◌^◌, ◌<◌, ◌≡◌, Bool, true, Option, none, arith, ◌∙◌, ap, bit_or, Ends, Ends-mono,
  Ends-and_then, Returns,
}
use rainstorm_os.Memory.Mm.{mod→aligned}
use rainstorm_os.Memory.Paging.{Machine, map, unmap, slot, set_leaf, set_word, intermediate_flags}
use rainstorm_os.Memory.Paging.Entries.{
  AreFlags, page_of, index_at, pml4_index_eq, pdpt_index_eq, pd_index_eq, pt_index_eq,
}
use rainstorm_os.Memory.Paging.Tree.{IsTree}
use rainstorm_os.Memory.Paging.Grown.{Grown, OutOfMemory}
use rainstorm_os.Memory.Paging.Descent.{next_table-Grown}
use rainstorm_os.Memory.Paging.Leaf.{upper_kept, upper_tree}
use rainstorm_os.Memory.Paging.Walk.{root_aligned}
use rainstorm_os.Memory.Paging.Steps.{Reached, child_level, child_path, three_steps-Reached}
use rainstorm_os.Memory.Paging.Map.{
  Remapped, mapping, set_leaf-LeafSet, leaf-Remapped, intermediate_AreFlags,
}
use rainstorm_os.Memory.Paging.Unmap.{unmap-Remapped}
use rainstorm_os.Memory.Paging.Owned.{Owned, Owned-Grown, Owned-same, is_lower}

-- The page is translated by `entry`, and the account is kept.
pub record Held (base : ℕ → Bool) (m : Machine) (root page : ℕ) (entry : Option ℕ) (m' : Machine)
    : Type 0 where
  pub remapped : Remapped m root page entry m'
  pub owned : Owned base root m' remapped.level' remapped.path'

is_lower_3 : (l p : ℕ) → l ≡ 3 → p < 256 → is_lower l p ≡ true
unfolding is_lower
is_lower_3 l p at on = ground (arith, at, on)

is_lower_2 : (l p : ℕ) → l ≡ 2 → p < 256 * 512 → is_lower l p ≡ true
unfolding is_lower
is_lower_2 l p at on = ground (arith, at, on)

is_lower_1 : (l p : ℕ) → l ≡ 1 → p < 256 * 512 * 512 → is_lower l p ≡ true
unfolding is_lower
is_lower_1 l p at on = ground (arith, at, on)

is_lower_root : (l p : ℕ) → l ≡ 4 → is_lower l p ≡ true
unfolding is_lower
is_lower_root l p at = ground (arith, at)

-- Three steps down from the root to a page of the lower half.
module _ {base : ℕ → Bool} {m m1 m2 m3 : Machine} {root c1 c2 c3 : ℕ} (page : ℕ)
    {level path : ℕ → ℕ} (small : page < 2 ^ 35) (tree : IsTree m root level path)
    (owned : Owned base root m level path)
    (g1 : Grown m root level path root (index_at 3 page) c1 m1)
    (g2 : Grown m1 root g1.level' g1.path' c1 (index_at 2 page) c2 m2)
    (g3 : Grown m2 root g2.level' g2.path' c2 (index_at 1 page) c3 m3) where
  level1 : g1.level' c1 ≡ 3
  level1 = omega (arith, child_level g1 (omega (arith, tree.is_root)) (omega arith), tree.is_root)

  path1 : g1.path' c1 ≡ index_at 3 page
  path1 = omega (arith, child_path g1 (omega (arith, tree.is_root)) (omega arith), tree.root_path)

  level2 : g2.level' c2 ≡ 2
  level2 = omega (arith, child_level g2 (omega (arith, level1)) (omega arith), level1)

  path2 : g2.path' c2 < 256 * 512
  path2 = omega (arith, child_path g2 (omega (arith, level1)) (omega arith), path1)

  owned1 : Owned base root m1 g1.level' g1.path'
  owned1 =
      Owned-Grown owned g1 (omega (arith, tree.is_root)) (omega arith)
        (is_lower_root _ _ tree.is_root) (is_lower_3 _ _ level1 (omega (arith, path1)))

  owned2 : Owned base root m2 g2.level' g2.path'
  owned2 =
      Owned-Grown owned1 g2 (omega (arith, level1)) (omega arith)
        (is_lower_3 _ _ level1 (omega (arith, path1))) (is_lower_2 _ _ level2 path2)

  pub three_steps-Owned : Owned base root m3 g3.level' g3.path'
  three_steps-Owned =
      Owned-Grown owned2 g3 (omega (arith, level2)) (omega arith) (is_lower_2 _ _ level2 path2) (
        is_lower_1 _ _ (omega (arith, child_level g3 (omega (arith, level2)) (omega arith), level2))
          (omega (arith, child_path g3 (omega (arith, level2)) (omega arith), path2)))

module _ {base : ℕ → Bool} {m : Machine} {root : ℕ} {level path : ℕ → ℕ}
    (tree : IsTree m root level path) (owned : Owned base root m level path) (virt : ℕ)
    (al : virt % 4096 ≡ 0) where
  leaf-Held :
      (phys flags pt : ℕ) (m3 : Machine)
      → phys % 4096 ≡ 0
      → (r : Reached m root (page_of virt) pt m3) → Owned base root m3 r.level' r.path'
      → Returns
          (λ _ m4. Held base m root (page_of virt) (mapping phys flags) m4)
          (set_leaf pt virt phys flags m3)
  unfolding leaf-Remapped
  leaf-Held phys flags pt m3 al' r o =
      Ends-mono
        (set_leaf-LeafSet m3 pt virt phys flags r.tree.valid
          (r.tree.tracked pt (omega (arith, r.last))))
        (λ _ m4 set. record {
          remapped = leaf-Remapped virt phys flags al' r set;
          owned = Owned-same o set.pmm (λ a j up h.
              ap (λ w. w (slot a j))
                (set.words
                  ∙ ap (λ i. set_word m3.word (slot pt i) (bit_or phys flags)) (pt_index_eq virt))
              ∙ upper_kept r.tree pt (index_at 0 (page_of virt)) (bit_or phys flags) r.last
                  (omega arith) a j up h);
        })
        (λ _ _ never. never)

  pub map-Held :
      (phys flags : ℕ)
      → phys % 4096 ≡ 0
      → AreFlags flags
      → page_of virt < 2 ^ 35
      → Ends
          (λ _ m'. Held base m root (page_of virt) (mapping phys flags) m')
          OutOfMemory
          (map root virt phys flags m)
  unfolding map three_steps-Reached
  map-Held phys flags al' are_flags low =
      let inner = intermediate_AreFlags flags in
      let root_up : 1 < level root = omega (arith, tree.is_root) in
      rw
        (
          root_aligned tree,
          mod→aligned virt al,
          mod→aligned phys al',
          pml4_index_eq virt,
          pdpt_index_eq virt,
          pd_index_eq virt,
        )
        (Ends-and_then
          (next_table-Grown tree root (index_at 3 (page_of virt)) (intermediate_flags flags) root_up
            (omega arith) inner.0 inner.1)
          (λ c1 m1 g1.
            let one = child_level g1 root_up (omega arith) in
            Ends-and_then
              (next_table-Grown g1.tree c1 (index_at 2 (page_of virt)) (intermediate_flags flags)
                (omega (arith, one, tree.is_root)) (omega arith) inner.0 inner.1)
              (λ c2 m2 g2.
                let two = child_level g2 (omega (arith, one, tree.is_root)) (omega arith) in
                Ends-and_then
                  (next_table-Grown g2.tree c2 (index_at 1 (page_of virt))
                    (intermediate_flags flags) (omega (arith, one, two, tree.is_root)) (omega arith)
                    inner.0 inner.1)
                  (λ c3 m3 g3.
                    Ends-mono
                      (leaf-Held phys flags c3 m3 al'
                        (three_steps-Reached (page_of virt) (omega arith) tree g1 g2 g3)
                        (three_steps-Owned (page_of virt) low tree owned g1 g2 g3))
                      (λ _ _ held. held) (λ _ _ never. absurd never)))))

  pub unmap-Held : Returns (λ _ m'. Held base m root (page_of virt) none m') (unmap root virt m)
  unmap-Held =
      Ends-mono (unmap-Remapped tree virt al)
        (λ _ m' (done, pmm, upper). record {
          remapped = record {
            level' = level;
            path' = path;
            tree = upper_tree tree m' pmm upper;
            here = done.here;
            others = done.others;
          };
          owned = Owned-same owned pmm upper;
        })
        (λ _ _ never. never)
