-- ===== src/Memory/Paging/Walk.antt =====
-- The reads of a page table, `paging_is_mapped` and `paging_get_physical`, against the translation
-- of the page that the tree gives.
use rainstorm_os.Base.{
  ℕ, suc, ◌/◌, ◌^◌, ◌<◌, ◌≡◌, refl, bit_or, Bool, true, false, not, Option, none, some, arith,
  if◌then◌else◌, ◌∙◌, ap, Run, ok, and_then, lt→ltb, ◌>>=◌, pure,
}
use rainstorm_os.Memory.Mm.{is_page_aligned, is_page_aligned_mod}
use rainstorm_os.Memory.Paging.{
  Machine, present, target, slot, descend, or_none, walk, read_entry, is_mapped, get_physical,
  page_offset, pt_index, pmm_invalid_address,
}
use rainstorm_os.Memory.Paging.Entries.{
  index_at, page_of, pml4_index_eq, pdpt_index_eq, pd_index_eq, pt_index_eq,
}
use rainstorm_os.Memory.Paging.Tree.{IsTree, look, lookup, look_step, look_stop, look_leaf}
use rainstorm_os.Memory.Paging.Leaf.{page_up}

-- What the translation of a page says of it.
unfoldable pub is_some : Option ℕ → Bool
is_some none = false
is_some (some e) = true

unfoldable pub physical : Option ℕ → ℕ → ℕ
physical none virt = pmm_invalid_address
physical (some e) virt = bit_or (target e) (page_offset virt)

module _ {m : Machine} {root : ℕ} {level path : ℕ → ℕ} (tree : IsTree m root level path) where
  -- The upper tables are as they were.
  abbrev pub KeepsUpper : (ℕ → ℕ) → Type 0
  KeepsUpper w = (a j : ℕ) → 1 < level a → j < 512 → w (slot a j) ≡ m.word (slot a j)

  -- One step down from `t`, `d + 1` levels above the last.
  data Step (d t page : ℕ) : Run Machine (Option ℕ) → Type 0 where
    down :
        (c : ℕ)
        → level c ≡ suc d
        → path c ≡ page / 512 ^ suc d
        → ((w : ℕ → ℕ) → KeepsUpper w → look (suc d) w t page ≡ look d w c page)
        → Step d t page (ok (some c) m)
    stop : look (suc d) m.word t page ≡ none → Step d t page (ok none m)

  descend_eq :
      (t i : ℕ)
      → 0 < level t
      → descend t i m
        ≡ ok (if present (m.word (slot t i)) then some (target (m.word (slot t i))) else none) m
  unfolding descend read_entry
  descend_eq t i up = ground (arith, tree.tracked t up)

  from-Step :
      (d t page : ℕ)
      → level t ≡ suc (suc d)
      → path t ≡ page / 512 ^ suc (suc d)
      → (b : Bool) → present (m.word (slot t (index_at (suc d) page))) ≡ b
      → Step d t page
          (ok (if b then some (target (m.word (slot t (index_at (suc d) page)))) else none) m)
  from-Step d t page at on true here =
      let child = tree.below t (index_at (suc d) page) (omega arith) (omega arith) here in
      let child_path =
        tree.extends_path t (index_at (suc d) page) (omega arith) (omega arith) here in
      down (target (m.word (slot t (index_at (suc d) page)))) (omega arith)
        (omega (arith, child_path, page_up d page))
        (λ w kept.
          let e = kept t (index_at (suc d) page) (omega arith) (omega arith) in
          look_step d w t page (ap present e ∙ here) ∙ ap (λ n. look d w (target n) page) e)
  from-Step d t page at on false gone = stop (look_stop (suc d) m.word t page gone)

  descend-Step :
      (d t page : ℕ)
      → level t ≡ suc (suc d)
      → path t ≡ page / 512 ^ suc (suc d)
      → Step d t page (descend t (index_at (suc d) page) m)
  descend-Step d t page at on =
      rw (descend_eq t (index_at (suc d) page) (omega arith)) (from-Step d t page at on _ refl)

  -- The walk ends at the last table of the page, or the page has no translation.
  pub data Walked (page : ℕ) : Run Machine (Option ℕ) → Type 0 where
    found :
        (pt : ℕ)
        → level pt ≡ 1
        → path pt ≡ page / 512
        → ((w : ℕ → ℕ) → KeepsUpper w → look 3 w root page ≡ look 0 w pt page)
        → Walked page (ok (some pt) m)
    missing : lookup m root page ≡ none → Walked page (ok none m)

  walk_last :
      {page t : ℕ} {r : Run Machine (Option ℕ)}
      → ((w : ℕ → ℕ) → KeepsUpper w → look 3 w root page ≡ look 1 w t page)
      → Step 0 t page r
      → Walked page r
  walk_last e (down c at on e') = found c at (omega arith) (λ w k. e w k ∙ e' w k)
  walk_last e (stop e') = missing (e m.word (λ a j h k. refl) ∙ e')

  walk_middle :
      {page t : ℕ} {r : Run Machine (Option ℕ)}
      → ((w : ℕ → ℕ) → KeepsUpper w → look 3 w root page ≡ look 2 w t page)
      → Step 1 t page r
      → Walked page (and_then r (or_none (λ u. descend u (index_at 1 page))))
  walk_middle e (down c at on e') = walk_last (λ w k. e w k ∙ e' w k) (descend-Step 0 c _ at on)
  walk_middle e (stop e') = missing (e m.word (λ a j h k. refl) ∙ e')

  walk_first :
      {page : ℕ} {r : Run Machine (Option ℕ)}
      → Step 2 root page r
      → Walked page (
          and_then r (λ pdpt.
            or_none (λ u. descend u (index_at 2 page)) pdpt
            >>= (λ pd. or_none (λ u. descend u (index_at 1 page)) pd)))
  walk_first (down c at on e') = walk_middle e' (descend-Step 1 c _ at on)
  walk_first (stop e') = missing e'

  pub walk-Walked : (virt : ℕ) → Walked (page_of virt) (walk root virt m)
  unfolding walk
  walk-Walked virt =
      rw (pml4_index_eq virt, pdpt_index_eq virt, pd_index_eq virt)
        (walk_first
          (descend-Step 2 root (page_of virt) tree.is_root (omega (arith, tree.root_path))))

  pub root_aligned : is_page_aligned root ≡ true
  root_aligned =
      ground (arith, is_page_aligned_mod root, tree.aligned root (omega (arith, tree.is_root)))

  read_last : (pt i : ℕ) → level pt ≡ 1 → read_entry pt i m ≡ ok (m.word (slot pt i)) m
  unfolding read_entry
  read_last pt i at = rw (lt→ltb (pt / 4096) m.pmm.total_frames (tree.tracked pt (omega arith)))

  mapped_after :
      (virt : ℕ) {r : Run Machine (Option ℕ)}
      → Walked (page_of virt) r
      → and_then r (λ found. elim found [
        | none ↦ pure false
        | some pt ↦ read_entry pt (pt_index virt) >>= (λ e. pure (present e))
      ])
        ≡ ok (is_some (lookup m root (page_of virt))) m
  unfolding is_some
  mapped_after virt (found pt at on e) = ground (
    arith,
    read_last pt (pt_index virt) at,
    look_leaf m.word pt (page_of virt),
    e m.word (λ a j h k. refl),
    pt_index_eq virt,
  )
  mapped_after virt (missing e) = rw e

  physical_after :
      (virt : ℕ) {r : Run Machine (Option ℕ)}
      → Walked (page_of virt) r
      → and_then r (λ found. elim found [
        | none ↦ pure pmm_invalid_address
        | some pt ↦ read_entry pt (pt_index virt) >>= (λ e.
            if not (present e)
            then pure pmm_invalid_address
            else read_entry pt (pt_index virt)
              >>= (λ e'. pure (bit_or (target e') (page_offset virt))))
      ])
        ≡ ok (physical (lookup m root (page_of virt)) virt) m
  unfolding physical
  physical_after virt (found pt at on e) = ground (
    arith,
    read_last pt (pt_index virt) at,
    look_leaf m.word pt (page_of virt),
    e m.word (λ a j h k. refl),
    pt_index_eq virt,
  )
  physical_after virt (missing e) = rw e

  -- On a tree of tables, `paging_is_mapped` says whether the page of the address has a translation,
  -- for every address, and changes nothing.
  pub is_mapped-lookup :
      (virt : ℕ) → is_mapped root virt m ≡ ok (is_some (lookup m root (page_of virt))) m
  unfolding is_mapped
  is_mapped-lookup virt = rw root_aligned (mapped_after virt (walk-Walked virt))

  -- On a tree of tables, `paging_get_physical` gives the address in the entry that translates the
  -- page joined with the offset, or PMM_INVALID_ADDRESS where the page has no translation.
  pub get_physical-lookup :
      (virt : ℕ) → get_physical root virt m ≡ ok (physical (lookup m root (page_of virt)) virt) m
  unfolding get_physical
  get_physical-lookup virt = rw root_aligned (physical_after virt (walk-Walked virt))
