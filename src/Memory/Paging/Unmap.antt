-- ===== src/Memory/Paging/Unmap.antt =====
-- `paging_unmap`, and the round trips of the operations on one page.
use rainstorm_os.Base.{
  ◌<◌, ℕ, ◌/◌, ◌%◌, ◌≡◌, refl, not, Option, none, some, arith, if◌then◌else◌, Bool-cases, inl, inr,
  ◌∙◌, Run, and_then, lt→ltb, Returns, returns, ◌>>=◌, ◌>>◌, [], ◌∷◌,
}
use rainstorm_os.Memory.Mm.{mod→aligned}
use rainstorm_os.Memory.Event.{event, warn}
use rainstorm_os.Memory.Pmm
use rainstorm_os.Memory.Pmm.{Pmm, Unit0}
use rainstorm_os.Memory.Pmm.State.{logged, logged-IsValid, allocated-logged}
use rainstorm_os.Memory.Paging.{
  Machine, present, slot, unmap, not_mapped, set_word, read_entry, write_entry, invalidate_page,
  klog, lifted, pt_index,
}
use rainstorm_os.Memory.Paging.Entries.{index_at, page_of, present-zero, pt_index_eq}
use rainstorm_os.Memory.Paging.Tree.{IsTree, look, lookup, look_leaf}
use rainstorm_os.Memory.Paging.Leaf.{SamePmm, upper_kept, leaf_tree, look_others}
use rainstorm_os.Memory.Paging.Walk.{KeepsUpper, root_aligned, walk-Walked, Walked, found, missing}
use rainstorm_os.Memory.Paging.Map.{Remapped}

leaf_zero :
    (w : ℕ → ℕ) (pt page : ℕ) → look 0 (set_word w (slot pt (index_at 0 page)) 0) pt page ≡ none
leaf_zero w pt page =
    look_leaf (set_word w (slot pt (index_at 0 page)) 0) pt page ∙ ground (arith, present-zero)

module _ {m : Machine} {root : ℕ} {level path : ℕ → ℕ} (tree : IsTree m root level path)
    (virt : ℕ) where
  -- The frames and the upper tables are as they were, and the page has no translation.
  abbrev pub Unmapped : Unit0 → Machine → Type 0
  Unmapped _ m' =
      Remapped m root (page_of virt) none m'
      × SamePmm m'.pmm m.pmm
      × ((a j : ℕ) → 1 < level a → j < 512 → m'.word (slot a j) ≡ m.word (slot a j))

  -- Where the page has no translation, the call only warns.
  warned : lookup m root (page_of virt) ≡ none → Returns Unmapped (not_mapped virt m)
  unfolding not_mapped klog lifted Pmm.klog logged
  warned gone =
      let e = event warn "paging_unmap: address 0x%p is not mapped" (virt ∷ []) in
      returns (
        record {
          level' = level;
          path' = path;
          tree = record {
            valid =
                logged-IsValid tree.valid
                  (event warn "paging_unmap: address 0x%p is not mapped" (virt ∷ []));
            small = tree.small;
            is_root = tree.is_root;
            root_path = tree.root_path;
            aligned = tree.aligned;
            tracked = tree.tracked;
            taken = λ t h. allocated-logged m.pmm _ (t / 4096) ∙ tree.taken t h;
            below = tree.below;
            extends_path = tree.extends_path;
          };
          here = gone;
          others = λ q h ne. refl;
        },
        record {
          valid = logged-IsValid tree.valid _;
          total = refl;
          frames = allocated-logged m.pmm _;
        },
        λ a j h k. refl,
      )

  cleared :
      (pt : ℕ)
      → level pt ≡ 1
      → path pt ≡ page_of virt / 512
      → ((w : ℕ → ℕ)
          → KeepsUpper tree w
          → look 3 w root (page_of virt) ≡ look 0 w pt (page_of virt))
      → Returns Unmapped ((write_entry pt (pt_index virt) 0 >> invalidate_page virt) m)
  unfolding write_entry invalidate_page
  cleared pt at on leads =
      let pmm : SamePmm m.pmm m.pmm = record {
        valid = tree.valid;
        total = refl;
        frames = λ f. refl;
      } in
      rw
        (
          lt→ltb (pt / 4096) m.pmm.total_frames (tree.tracked pt (omega (arith, at))),
          pt_index_eq virt,
        )
        (returns (
          record {
            level' = level;
            path' = path;
            tree = leaf_tree tree pt (index_at 0 (page_of virt)) 0 at (omega arith) _ refl pmm;
            here =
                leads _ (upper_kept tree pt (index_at 0 (page_of virt)) 0 at (omega arith))
                ∙ leaf_zero m.word pt (page_of virt);
            others = λ q h ne.
                look_others tree pt (index_at 0 (page_of virt)) 0 at (omega arith) q h
                  (λ e. ne (omega arith));
          },
          pmm,
          upper_kept tree pt (index_at 0 (page_of virt)) 0 at (omega arith),
        ))

  unmap_after :
      {r : Run Machine (Option ℕ)}
      → Walked tree (page_of virt) r
      → Returns Unmapped (
          and_then r (λ found. elim found [
            | none ↦ not_mapped virt
            | some pt ↦ read_entry pt (pt_index virt) >>= (λ e.
                if not (present e)
                then not_mapped virt
                else write_entry pt (pt_index virt) 0 >> invalidate_page virt)
          ]))
  unfolding read_entry
  unmap_after (found pt at on leads) =
      elim (Bool-cases (present (m.word (slot pt (pt_index virt))))) [
        | inl here ↦
            rw (lt→ltb (pt / 4096) m.pmm.total_frames (tree.tracked pt (omega (arith, at))), here)
              (cleared pt at on leads)
        | inr gone ↦
            rw (lt→ltb (pt / 4096) m.pmm.total_frames (tree.tracked pt (omega (arith, at))), gone)
              (warned (
                ground (
                  arith,
                  leads m.word (λ a j h k. refl),
                  look_leaf m.word pt (page_of virt),
                  pt_index_eq virt,
                )))
      ]
  unmap_after (missing e) = warned e

  -- On a tree of tables, for an aligned address, `paging_unmap` returns with the page of `virt`
  -- translated by nothing, every other page translated as before and a tree of tables again; it
  -- allocates and frees no frame and writes to no table above the last level.
  pub unmap-Remapped : virt % 4096 ≡ 0 → Returns Unmapped (unmap root virt m)
  unfolding unmap
  unmap-Remapped al =
      rw (root_aligned tree, mod→aligned virt al) (unmap_after (walk-Walked tree virt))
