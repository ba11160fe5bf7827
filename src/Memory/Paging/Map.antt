-- ===== src/Memory/Paging/Map.antt =====
-- `paging_map`: one page is translated anew, every other page as before.
use rainstorm_os.Base.{
  ℕ, ◌/◌, ◌%◌, ◌^◌, ◌<◌, ◌≡◌, ◌≢◌, refl, bit_and, bit_or, true, Option, none, some, arith, ◌==◌,
  if◌then◌else◌, Bool-cases, inl, inr, ◌∙◌, ap, lt→ltb, Returns, returns, Ends, Ends-and_then,
  Ends-mono, ◌>>◌, [], ◌∷◌,
}
use rainstorm_os.Memory.Mm.{mod→aligned}
use rainstorm_os.Memory.Event.{event, warn}
use rainstorm_os.Memory.Pmm
use rainstorm_os.Memory.Pmm.{Pmm, Unit0}
use rainstorm_os.Memory.Pmm.State.{IsValid, logged, logged-IsValid, allocated-logged}
use rainstorm_os.Memory.Paging.{
  Machine, present, target, slot, map, set_leaf, set_word, read_entry, write_entry, invalidate_page,
  klog, lifted, intermediate_flags, page_user, pt_index,
}
use rainstorm_os.Memory.Paging.Entries.{
  AreFlags, index_at, page_of, present-leaf, pml4_index_eq, pdpt_index_eq, pd_index_eq, pt_index_eq,
}
use rainstorm_os.Memory.Paging.Tree.{IsTree, look, lookup, look_leaf}
use rainstorm_os.Memory.Paging.Grown.{OutOfMemory}
use rainstorm_os.Memory.Paging.Descent.{next_table-Grown}
use rainstorm_os.Memory.Paging.Leaf.{SamePmm, leaf_words, upper_kept, leaf_tree, look_others}
use rainstorm_os.Memory.Paging.Walk.{root_aligned}
use rainstorm_os.Memory.Paging.Steps.{Reached, three_steps-Reached, child_level}

-- The flags of the upper levels keep out of the address field, and are present.
pub intermediate_AreFlags :
    (flags : ℕ) → AreFlags (intermediate_flags flags) × (present (intermediate_flags flags) ≡ true)
unfolding present
intermediate_AreFlags flags = elim (Bool-cases (bit_and flags page_user == 0)) [
  | inl h ↦ rw h (refl, refl)
  | inr h ↦ rw h (refl, refl)
]

-- What `set_leaf` leaves.
pub record LeafSet (m : Machine) (pt virt v : ℕ) (m' : Machine) : Type 0 where
  pub words : m'.word ≡ set_word m.word (slot pt (pt_index virt)) v
  pub pmm : SamePmm m'.pmm m.pmm
  pub flushed : m'.invalidated ≡ virt ∷ m.invalidated

write_leaf :
    (m : Machine) (p : Pmm) (pt virt v : ℕ)
    → SamePmm p m.pmm
    → pt / 4096 < m.pmm.total_frames
    → Returns
        (λ _ m'. LeafSet m pt virt v m')
        ((write_entry pt (pt_index virt) v >> invalidate_page virt) (record m { pmm = p }))
unfolding write_entry invalidate_page
write_leaf m p pt virt v pmm tracked =
    rw (lt→ltb (pt / 4096) p.total_frames (omega (arith, pmm.total)))
      (returns (record { words = refl; pmm = pmm; flushed = refl }))

pub set_leaf-LeafSet :
    (m : Machine) (pt virt phys flags : ℕ)
    → IsValid m.pmm
    → pt / 4096 < m.pmm.total_frames
    → Returns (λ _ m'. LeafSet m pt virt (bit_or phys flags) m') (set_leaf pt virt phys flags m)
unfolding set_leaf read_entry
set_leaf-LeafSet m pt virt phys flags valid tracked =
    elim (Bool-cases (present (m.word (slot pt (pt_index virt))))) [
      | inl here ↦
          unfold klog lifted Pmm.klog logged in
          rw (lt→ltb (pt / 4096) m.pmm.total_frames tracked, here)
            (write_leaf m
              (logged m.pmm (
                event warn "paging_map: remapping already mapped address 0x%p from 0x%p to 0x%p"
                  (virt ∷ target (m.word (slot pt (pt_index virt))) ∷ phys ∷ [])))
              pt virt (bit_or phys flags)
              (record {
                valid = logged-IsValid valid _;
                total = refl;
                frames = allocated-logged m.pmm _;
              })
              tracked)
      | inr gone ↦
          rw (lt→ltb (pt / 4096) m.pmm.total_frames tracked, gone)
            (write_leaf m m.pmm pt virt (bit_or phys flags)
              (record { valid = valid; total = refl; frames = λ f. refl }) tracked)
    ]

-- `page` is translated by `entry` below `root`, and every other page as before.
pub record Remapped (m : Machine) (root page : ℕ) (entry : Option ℕ) (m' : Machine) : Type 0 where
  pub level' : ℕ → ℕ
  pub path' : ℕ → ℕ
  pub tree : IsTree m' root level' path'
  pub here : lookup m' root page ≡ entry
  pub others : (q : ℕ) → q < 2 ^ 36 → q ≢ page → lookup m' root q ≡ lookup m root q

-- The entry that is set is the translation of the page.
pub leaf_entry :
    (w : ℕ → ℕ) (pt page phys flags : ℕ)
    → phys % 4096 ≡ 0
    → look 0 (set_word w (slot pt (index_at 0 page)) (bit_or phys flags)) pt page
      ≡ (if present flags then some (bit_or phys flags) else none)
leaf_entry w pt page phys flags al =
    look_leaf (set_word w (slot pt (index_at 0 page)) (bit_or phys flags)) pt page
    ∙ ground (arith, present-leaf phys flags al)

unfoldable pub leaf-Remapped :
    {m m3 m4 : Machine} {root pt : ℕ} (virt phys flags : ℕ)
    → phys % 4096 ≡ 0
    → (r : Reached m root (page_of virt) pt m3) → LeafSet m3 pt virt (bit_or phys flags) m4
    → Remapped m root (page_of virt) (if present flags then some (bit_or phys flags) else none) m4
leaf-Remapped {m3 = m3} {m4 = m4} {root = root} {pt = pt} virt phys flags al r set =
    let words : m4.word
        ≡ leaf_words r.tree pt (index_at 0 (page_of virt)) (bit_or phys flags) r.last
            (omega arith) =
      set.words ∙ ap (λ i. set_word m3.word (slot pt i) (bit_or phys flags)) (pt_index_eq virt) in
    record {
      level' = r.level';
      path' = r.path';
      tree =
          leaf_tree r.tree pt (index_at 0 (page_of virt)) (bit_or phys flags) r.last (omega arith)
            m4 words set.pmm;
      here =
          ap (λ w. look 3 w root (page_of virt)) words
          ∙ (r.leads _ (
                upper_kept r.tree pt (index_at 0 (page_of virt)) (bit_or phys flags) r.last
                  (omega arith))
              ∙ leaf_entry m3.word pt (page_of virt) phys flags al);
      others = λ q h ne.
          ap (λ w. look 3 w root q) words
          ∙ (look_others r.tree pt (index_at 0 (page_of virt)) (bit_or phys flags) r.last
                (omega arith) q h (λ e. ne (e ∙ r.at))
              ∙ r.translations q);
    }

-- `phys | flags` as a translation: none, where the flags lack PAGE_PRESENT.
abbrev pub mapping : (phys flags : ℕ) → Option ℕ
mapping phys flags = if present flags then some (bit_or phys flags) else none

module _ {m : Machine} {root : ℕ} {level path : ℕ → ℕ} (tree : IsTree m root level path)
    (virt phys flags : ℕ) (al : virt % 4096 ≡ 0) (al' : phys % 4096 ≡ 0)
    (are_flags : AreFlags flags) where
  abbrev pub Done : Unit0 → Machine → Type 0
  Done _ m' =
      Remapped m root (page_of virt) (mapping phys flags) m'
      × (m'.invalidated ≡ virt ∷ m.invalidated)

  leaf-Done :
      (pt : ℕ) (m3 : Machine)
      → (r : Reached m root (page_of virt) pt m3)
      → Ends Done OutOfMemory (set_leaf pt virt phys flags m3)
  leaf-Done pt m3 r =
      Ends-mono
        (set_leaf-LeafSet m3 pt virt phys flags r.tree.valid
          (r.tree.tracked pt (omega (arith, r.last))))
        (λ _ m4 set. (
          leaf-Remapped virt phys flags al' r set,
          set.flushed ∙ ap (λ l. virt ∷ l) r.same_flushes,
        ))
        (λ _ _ never. absurd never)

  -- On a tree of tables, for aligned addresses and flags that keep out of the address field,
  -- `paging_map` returns with the page of `virt` translated by `phys | flags` (or by nothing, without
  -- PAGE_PRESENT), every other page translated as before, a tree of tables again, and `virt`
  -- flushed; or it panics with no frame free.
  pub map-Remapped : Ends Done OutOfMemory (map root virt phys flags m)
  unfolding map
  map-Remapped =
      let inner = intermediate_AreFlags flags in
      let root_up : 1 < level root = omega (arith, tree.is_root) in
      rw
        (
          root_aligned tree,
          mod→aligned virt al,
          mod→aligned phys al',
          pml4_index_eq virt,
          pdpt_index_eq virt,
          pd_index_eq virt,
        )
        (Ends-and_then
          (next_table-Grown tree root (index_at 3 (page_of virt)) (intermediate_flags flags) root_up
            (omega arith) inner.0 inner.1)
          (λ c1 m1 g1.
            Ends-and_then
              (next_table-Grown g1.tree c1 (index_at 2 (page_of virt)) (intermediate_flags flags)
                (omega (arith, child_level g1 root_up (omega arith), tree.is_root)) (omega arith)
                inner.0 inner.1)
              (λ c2 m2 g2.
                Ends-and_then
                  (next_table-Grown g2.tree c2 (index_at 1 (page_of virt))
                    (intermediate_flags flags)
                    (omega (
                      arith,
                      child_level g1 root_up (omega arith),
                      child_level g2
                          (omega (arith, child_level g1 root_up (omega arith), tree.is_root))
                          (omega arith),
                      tree.is_root,
                    ))
                    (omega arith) inner.0 inner.1)
                  (λ c3 m3 g3.
                    leaf-Done c3 m3
                      (three_steps-Reached (page_of virt) (omega arith) tree g1 g2 g3)))))
