-- ===== src/Memory/Paging/Leaf.antt =====
-- A write to an entry of a last-level table: the tree stays, and one page is translated anew.
use native.Mathlib.Nat.{pow-suc, div-div-eq-div-mul}
use rainstorm_os.Base.{
  ℕ, zero, suc, ◌+◌, ◌*◌, ◌/◌, ◌^◌, ◌<◌, ◌≡◌, ◌≢◌, arith, Bool-cases, inl, inr, ◌∙◌, ap, sym,
}
use rainstorm_os.Memory.Pmm.{Pmm}
use rainstorm_os.Memory.Pmm.State.{allocated, IsValid}
use rainstorm_os.Memory.Paging.{Machine, present, target, slot, set_word}
use rainstorm_os.Memory.Paging.Entries.{index_at}
use rainstorm_os.Memory.Paging.Tree.{IsTree, look, look_step, look_stop, look_leaf, slot-ne}

-- One digit fewer of the page number, one table up.
pub page_up : (d page : ℕ) → page / 512 ^ suc (suc d) ≡ page / 512 ^ suc d / 512
page_up d page =
    ap (λ n. page / n) (pow-suc 512 (suc d)) ∙ sym (div-div-eq-div-mul page (512 ^ suc d) 512)

-- `p` has the frames and the bitmap of `q`.
pub record SamePmm (p q : Pmm) : Type 0 where
  pub valid : IsValid p
  pub total : p.total_frames ≡ q.total_frames
  pub frames : (f : ℕ) → allocated p f ≡ allocated q f

-- A machine with the same frames and the same tables above the last level.
pub upper_tree :
    {m : Machine} {root : ℕ} {level path : ℕ → ℕ}
    → IsTree m root level path
    → (m' : Machine) → SamePmm m'.pmm m.pmm
    → ((a j : ℕ) → 1 < level a → j < 512 → m'.word (slot a j) ≡ m.word (slot a j))
    → IsTree m' root level path
upper_tree tree m' pmm upper = record {
  valid = pmm.valid;
  small = rw pmm.total tree.small;
  is_root = tree.is_root;
  root_path = tree.root_path;
  aligned = tree.aligned;
  tracked = λ t h. rw pmm.total (tree.tracked t h);
  taken = λ t h. pmm.frames (t / 4096) ∙ tree.taken t h;
  below = λ t j h k p.
      let same = upper t j h k in rw same (tree.below t j h k (ap present (sym same) ∙ p));
  extends_path = λ t j h k p.
      let same = upper t j h k in rw same (tree.extends_path t j h k (ap present (sym same) ∙ p));
}

module _ {m : Machine} {root : ℕ} {level path : ℕ → ℕ} (tree : IsTree m root level path)
    (pt i v : ℕ) (last : level pt ≡ 1) (in_table : i < 512) where
  abbrev pub leaf_words : ℕ → ℕ
  leaf_words = set_word m.word (slot pt i) v

  pub upper_kept : (a j : ℕ) → 1 < level a → j < 512 → leaf_words (slot a j) ≡ m.word (slot a j)
  upper_kept a j h k =
      let differ : pt ≢ a = λ e. absurd (omega (arith, ap level e)) in
      let ne =
        slot-ne pt a i j (tree.aligned pt (omega arith)) (tree.aligned a (omega arith)) in_table k
          (inl differ) in
      ground (arith, ne)

  pub leaf_tree :
      (m' : Machine) → m'.word ≡ leaf_words → SamePmm m'.pmm m.pmm → IsTree m' root level path
  leaf_tree m' e pmm =
      upper_tree tree m' pmm (λ a j h k. ap (λ w. w (slot a j)) e ∙ upper_kept a j h k)

  -- The page of the entry that is written.
  abbrev pub written : ℕ
  written = path pt * 512 + i

  -- Below a table on its way, every other page is translated as before.
  look_other :
      (d t page : ℕ)
      → level t ≡ suc d
      → path t ≡ page / 512 ^ suc d
      → page ≢ written
      → look d leaf_words t page ≡ look d m.word t page
  look_other zero t page at on ne =
      let differ : slot pt i ≢ slot t (index_at 0 page) = λ e.
        let same : pt ≡ t =
          omega (arith, tree.aligned pt (omega arith), tree.aligned t (omega arith)) in
        ne (
          omega
            (arith, ap path same, tree.aligned pt (omega arith), tree.aligned t (omega arith))) in
      let kept : leaf_words (slot t (index_at 0 page)) ≡ m.word (slot t (index_at 0 page)) =
        ground (arith, differ) in
      rw (look_leaf leaf_words t page, look_leaf m.word t page, kept)
  look_other (suc d) t page at on ne =
      let j = index_at (suc d) page in
      let kept = upper_kept t (index_at (suc d) page) (omega arith) (omega arith) in
      elim (Bool-cases (present (m.word (slot t (index_at (suc d) page))))) [
        | inl here ↦
            let child = tree.below t (index_at (suc d) page) (omega arith) (omega arith) here in
            let child_path =
              tree.extends_path t (index_at (suc d) page) (omega arith) (omega arith) here in
            look_step d leaf_words t page (ap present kept ∙ here)
            ∙ (ap (λ e. look d leaf_words (target e) page) kept
                ∙ (look_other d (target (m.word (slot t (index_at (suc d) page)))) page
                      (omega arith) (omega (arith, child_path, page_up d page)) ne
                    ∙ sym (look_step d m.word t page here)))
        | inr gone ↦
            look_stop (suc d) leaf_words t page (ap present kept ∙ gone)
            ∙ sym (look_stop (suc d) m.word t page gone)
      ]

  pub look_others :
      (page : ℕ)
      → page < 2 ^ 36
      → page ≢ written
      → look 3 leaf_words root page ≡ look 3 m.word root page
  look_others page h ne = look_other 3 root page tree.is_root (omega (arith, tree.root_path)) ne
