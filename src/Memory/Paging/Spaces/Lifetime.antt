-- ===== src/Memory/Paging/Spaces/Lifetime.antt =====
-- An address space from its creation to its end.
use rainstorm_os.Base.{
  ℕ, zero, suc, ◌+◌, ◌/◌, ◌^◌, ◌≤◌, ◌<◌, ◌≡◌, refl, sym, ap, ◌∙◌, ltb, none, arith, if◌then◌else◌,
  inl, inr, Bool-cases, dec_lt, Ends, Ends-mono,
}
use rainstorm_os.Memory.Paging.{Machine, present, target, slot}
use rainstorm_os.Memory.Paging.Entries.{index_at, present-zero}
use rainstorm_os.Memory.Paging.Tree.{IsTree, look, look_stop, lookup}
use rainstorm_os.Memory.Paging.Grown.{OutOfMemory}
use rainstorm_os.Memory.Paging.Spaces.{create_pml4}
use rainstorm_os.Memory.Paging.Spaces.Create.{IsCreated, create_pml4-IsCreated}
use rainstorm_os.Memory.Paging.Spec.Refines.{Represents}
use rainstorm_os.Memory.Paging.Spaces.Shared.{
  same_word, upper_entry, level_of, path_of, created-IsTree,
}

-- The kernel's tables at `kernel`, whose upper half is kept for new address spaces.
module _ {m : Machine} {kernel : ℕ} {level path : ℕ → ℕ} (tree : IsTree m kernel level path)
    (saved : (i : ℕ) → i < 256 → m.kernel_pml4_entries i ≡ m.word (slot kernel (i + 256))) where
  module _ {pml4 : ℕ} {m' : Machine} (made : IsCreated m pml4 m') where
    -- The kernel's tables translate as before.
    look-same : (d t page : ℕ) → level t ≡ suc d → look d m'.word t page ≡ look d m.word t page
    unfolding look
    look-same zero t page at =
        rw (same_word tree saved made t (index_at 0 page) (omega (arith, at)) (omega arith)) refl
    look-same (suc d) t page at =
        let same =
          same_word tree saved made t (index_at (suc d) page) (omega (arith, at)) (omega arith) in
        rw same (elim (Bool-cases (present (m.word (slot t (index_at (suc d) page))))) [
          | inl on ↦ rw on (
              look-same d (target (m.word (slot t (index_at (suc d) page)))) page (
                omega (
                  arith,
                  tree.below t (index_at (suc d) page) (omega (arith, at)) (omega arith) on,
                  at,
                )))
          | inr off ↦ rw off refl
        ])

    -- The new root translates the upper half as the kernel's does.
    upper_page :
        (page : ℕ) → 2 ^ 35 ≤ page → page < 2 ^ 36 → lookup m' pml4 page ≡ lookup m kernel page
    unfolding look
    upper_page page h h' =
        let same = upper_entry tree saved made (index_at 3 page) (omega arith) (omega arith) in
        rw same (elim (Bool-cases (present (m.word (slot kernel (index_at 3 page))))) [
          | inl on ↦ rw on (
              look-same 2 (target (m.word (slot kernel (index_at 3 page)))) page (
                omega (
                  arith,
                  tree.below kernel (index_at 3 page) (omega (arith, tree.is_root)) (omega arith)
                      on,
                  tree.is_root,
                )))
          | inr off ↦ rw off refl
        ])

    lower_page : (page : ℕ) → page < 2 ^ 35 → lookup m' pml4 page ≡ none
    lower_page page h =
        look_stop 3 m'.word pml4 page
          (ground (arith, ap present (made.empty (index_at 3 page) (omega arith)), present-zero))

    pub created-Represents :
        Represents pml4 (λ page. if ltb page (2 ^ 35) then none else lookup m kernel page) m'
    created-Represents = record {
      level' = level_of tree saved made;
      path' = path_of tree saved made;
      tree = created-IsTree tree saved made;
      agrees = λ page h. elim (dec_lt page (2 ^ 35)) [
        | yes low ↦ lower_page page low ∙ ground (arith, low)
        | no high ↦ upper_page page (omega (arith, high)) h ∙ ground (arith, high)
      ];
    }

    pub kernel-Represents : Represents kernel (λ page. lookup m kernel page) m'
    kernel-Represents = record {
      level' = level;
      path' = path;
      tree = record {
        valid = made.valid;
        small = rw made.total tree.small;
        is_root = tree.is_root;
        root_path = tree.root_path;
        aligned = tree.aligned;
        tracked = λ t up. rw made.total (tree.tracked t up);
        taken = λ t up. ground (arith, made.frames (t / 4096), tree.taken t up);
        below = λ t i up h on.
            let same = same_word tree saved made t i (omega (arith, up)) h in
            rw same (tree.below t i up h (ap present (sym same) ∙ on));
        extends_path = λ t i up h on.
            let same = same_word tree saved made t i (omega (arith, up)) h in
            rw same (tree.extends_path t i up h (ap present (sym same) ∙ on));
      };
      agrees = λ page h. look-same 3 kernel page tree.is_root;
    }

  -- A new address space translates the pages of the upper half as the kernel's does, and no page of
  -- the lower half; the kernel's own translates as before.
  abbrev pub Shares : ℕ → Machine → Type 0
  Shares pml4 m' =
      Represents pml4 (λ page. if ltb page (2 ^ 35) then none else lookup m kernel page) m'
      × Represents kernel (λ page. lookup m kernel page) m'

  -- Where the kernel's tables are a tree whose upper half is kept: `paging_create_pml4` returns the
  -- root of a tree of tables that translates every page of the upper half as the kernel's and none of
  -- the lower half, and leaves the kernel's tables a tree with the same translations; or it panics
  -- with no frame free.
  pub create_pml4-Shares : Ends (λ pml4 m'. Shares pml4 m') OutOfMemory (create_pml4 m)
  create_pml4-Shares =
      Ends-mono (create_pml4-IsCreated m tree.valid)
        (λ pml4 m' made. (created-Represents made, kernel-Represents made)) (λ _ _ q. q)
