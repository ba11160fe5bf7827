-- ===== src/Memory/Paging/Fresh.antt =====
-- One level of `paging_map` where the entry is not present: a free frame becomes the table.
use mathlib.Core.Path.{ap₂, subst}
use rainstorm_os.Base.{
  ℕ, suc, ◌+◌, ◌-◌, ◌*◌, ◌/◌, ◌<◌, ◌≡◌, ◌≢◌, refl, bit_or, true, false, arith, ◌==◌, if◌then◌else◌,
  ◌⊎◌, inl, inr, ◌∙◌, ap, sym, ok, and_then, ◌>>◌, dec_lt, ℕ_discrete,
}
use rainstorm_os.Memory.Pmm.State.{allocated, mark, allocated-mark, mark-IsValid, mark-total}
use rainstorm_os.Memory.Paging.{
  Machine, lifted, present, target, slot, set_word, clear_words, write_entry, clear_page,
}
use rainstorm_os.Memory.Paging.Entries.{AreFlags, target-or, present-or, target-frame, present-zero}
use rainstorm_os.Memory.Paging.Tree.{IsTree, Agrees, same, fresh, look-Agrees}
use rainstorm_os.Memory.Paging.Grown.{
  Grown, set_word_twice, set_word_self, set_flags, set_flags_lem,
}

module _ {m : Machine} {root : ℕ} {level path : ℕ → ℕ} (tree : IsTree m root level path)
    (t i flags : ℕ) (upper : 1 < level t) (in_table : i < 512) (are_flags : AreFlags flags)
    (sets_present : present flags ≡ true) where
  abbrev old : ℕ
  old = m.word (slot t i)

  -- The machine once the frame at `f * 4096` is a new table.
  module _ (f : ℕ) (gone : present old ≡ false) (in_ram : f < m.pmm.total_frames)
      (unused : allocated m.pmm f ≡ false) where
    abbrev pub new : ℕ
    new = f * 4096

    abbrev pub grown_words : ℕ → ℕ
    grown_words = set_word (clear_words m.word new) (slot t i) (bit_or new flags)

    abbrev pub grown : Machine
    grown = record m { pmm = mark m.pmm f; word = grown_words }

    abbrev level_with : ℕ → ℕ
    level_with a = if a == new then level t - 1 else level a

    abbrev path_with : ℕ → ℕ
    path_with a = if a == new then path t * 512 + i else path a

    -- A frame that was free is no table.
    new_is_no_table : level new ≡ 0
    new_is_no_table = elim (dec_lt 0 (level new)) [
      | yes p ↦ absurd (ground (arith, tree.taken new p))
      | no p ↦ omega arith
    ]

    table-ne-new : (a : ℕ) → 0 < level a → a ≢ new
    table-ne-new a h e = omega (arith, new_is_no_table, ap level e)

    old_level : (a : ℕ) → 0 < level a → level_with a ≡ level a
    old_level a h = ground (arith, table-ne-new a h)

    old_path : (a : ℕ) → 0 < level a → path_with a ≡ path a
    old_path a h = ground (arith, table-ne-new a h)

    new-target : target (bit_or new flags) ≡ new
    new-target = target-or new flags are_flags ∙ target-frame f (omega (arith, tree.small))

    new-present : present (bit_or new flags) ≡ true
    new-present = present-or new flags sets_present

    entry_is : grown_words (slot t i) ≡ bit_or new flags
    entry_is = ground arith

    -- Entries of the tables that were there are left alone, but for the one that is set.
    pub other_entry :
        (a j : ℕ)
        → 0 < level a
        → j < 512
        → grown_words (slot a j)
          ≡ (if slot t i == slot a j then bit_or new flags else m.word (slot a j))
    other_entry a j h k = ground (arith, tree.aligned a h, table-ne-new a h)

    pub new_entry : (k : ℕ) → k < 512 → grown_words (slot new k) ≡ 0
    new_entry k h = ground (arith, tree.aligned t (omega arith), table-ne-new t (omega arith))

    same_slot : (a j : ℕ) → 0 < level a → j < 512 → slot t i ≡ slot a j → (t ≡ a) × (i ≡ j)
    same_slot a j h k e = omega (arith, tree.aligned a h, tree.aligned t (omega arith))

    level_new : level_with new ≡ level t - 1
    level_new = ground arith

    path_new : path_with new ≡ path t * 512 + i
    path_new = ground arith

    -- An entry of an old table is the one that is set, or is what it was.
    abbrev IsReplaced : (a j : ℕ) → Type 0
    IsReplaced a j =
        (t ≡ a)
        × (i ≡ j)
        × (target (grown_words (slot a j)) ≡ new)
        × (present (grown_words (slot a j)) ≡ true)

    abbrev IsKept : (a j : ℕ) → Type 0
    IsKept a j = grown_words (slot a j) ≡ m.word (slot a j)

    entry_cases : (a j : ℕ) → 0 < level a → j < 512 → IsReplaced a j ⊎ IsKept a j
    entry_cases a j h k = elim (ℕ_discrete (slot t i) (slot a j)) [
      | yes e ↦
          let at = same_slot a j h k e in
          let value : grown_words (slot a j) ≡ bit_or new flags =
            ap grown_words (sym e) ∙ entry_is in
          inl (at.0, at.1, ap target value ∙ new-target, ap present value ∙ new-present)
      | no ne ↦ inr (other_entry a j h k ∙ ground (arith, ne))
    ]

    no_new_entry : (j : ℕ) → j < 512 → present (grown_words (slot new j)) ≡ true → ⊥
    no_new_entry j k p = cc (sym p ∙ (ap present (new_entry j k) ∙ present-zero))

    -- A table with a present entry, one level up at least, is an old one.
    is_old :
        (a j : ℕ)
        → 1 < level_with a
        → j < 512
        → present (grown_words (slot a j)) ≡ true
        → 1 < level a
    is_old a j h k p = elim (ℕ_discrete a new) [
      | yes e ↦ absurd (no_new_entry j k (subst (λ b. present (grown_words (slot b j)) ≡ true) e p))
      | no ne ↦ ground (arith, ne)
    ]

    grown_below :
        (a j : ℕ)
        → 1 < level_with a
        → j < 512
        → present (grown_words (slot a j)) ≡ true
        → suc (level_with (target (grown_words (slot a j)))) ≡ level_with a
    grown_below a j h k p =
        let up = is_old a j h k p in
        let at = old_level a (omega arith) in
        elim (entry_cases a j (omega arith) k) [
          | inl (ta, ij, leads, here) ↦
              omega (arith, ap level_with leads, level_new, at, ap level ta, upper)
          | inr kept ↦
              let p' = ap present (sym kept) ∙ p in
              let child = tree.below a j up k p' in
              omega (
                arith,
                ap level_with (ap target kept),
                old_level (target (m.word (slot a j))) (omega arith),
                at,
                child,
              )
        ]

    grown_path :
        (a j : ℕ)
        → 1 < level_with a
        → j < 512
        → present (grown_words (slot a j)) ≡ true
        → path_with (target (grown_words (slot a j))) ≡ path_with a * 512 + j
    grown_path a j h k p =
        let up = is_old a j h k p in
        let at = old_path a (omega arith) in
        elim (entry_cases a j (omega arith) k) [
          | inl (ta, ij, leads, here) ↦
              omega (arith, ap path_with leads, path_new, at, ap path ta, ij)
          | inr kept ↦
              let p' = ap present (sym kept) ∙ p in
              let child = tree.below a j up k p' in
              omega (
                arith,
                ap path_with (ap target kept),
                old_path (target (m.word (slot a j))) (omega arith),
                at,
                tree.extends_path a j up k p',
              )
        ]

    grown_tree : IsTree grown root level_with path_with
    grown_tree = record {
      valid = mark-IsValid tree.valid f;
      small = rw (mark-total m.pmm f) tree.small;
      is_root = old_level root (omega (arith, tree.is_root)) ∙ tree.is_root;
      root_path = old_path root (omega (arith, tree.is_root)) ∙ tree.root_path;
      aligned = λ a h. ground (arith, tree.aligned a);
      tracked = λ a h. ground (arith, tree.tracked a, mark-total m.pmm f);
      taken = λ a h. ground (arith, tree.taken a, allocated-mark tree.valid f (a / 4096));
      below = grown_below;
      extends_path = grown_path;
    }

    grown-Agrees : (a j : ℕ) → 1 < level a → j < 512 → Agrees m.word grown_words (slot a j)
    grown-Agrees a j h k = elim (entry_cases a j (omega arith) k) [
      | inl (ta, ij, leads, here) ↦
          fresh (ap (λ b. present (m.word b)) (sym (ap₂ slot ta ij)) ∙ gone)
            (λ n q. ap (λ b. grown_words (slot b n)) leads ∙ new_entry n q)
      | inr kept ↦ same (ap present kept) (ap target kept)
    ]

    grown_last : (a j : ℕ) → level a ≡ 1 → j < 512 → grown_words (slot a j) ≡ m.word (slot a j)
    grown_last a j at k = elim (entry_cases a j (omega arith) k) [
      | inl (ta, ij, leads, here) ↦ absurd (omega (arith, ap level ta))
      | inr kept ↦ kept
    ]

    -- An entry that was present is not the one that is set.
    link_kept :
        (a j : ℕ)
        → 1 < level a
        → j < 512
        → present (m.word (slot a j)) ≡ true
        → grown_words (slot a j) ≡ m.word (slot a j)
    link_kept a j h k p = elim (entry_cases a j (omega arith) k) [
      | inl (ta, ij, leads, here) ↦
          cc (sym p ∙ (ap (λ b. present (m.word b)) (sym (ap₂ slot ta ij)) ∙ gone))
      | inr kept ↦ kept
    ]

    pub grown-Grown : Grown m root level path t i new grown
    grown-Grown = record {
      level' = level_with;
      path' = path_with;
      tree = grown_tree;
      keeps_level = old_level;
      keeps_path = old_path;
      linked = ap present entry_is ∙ new-present;
      leads = ap target entry_is ∙ new-target;
      keeps_links = λ a j h k p. ap present (link_kept a j h k p) ∙ p;
      keeps_targets = λ a j h k p. ap target (link_kept a j h k p);
      translations =
          λ page. look-Agrees tree grown_words grown-Agrees grown_last 3 root page tree.is_root;
      same_log = unfold mark in refl;
      same_flushes = refl;
      keeps_frames = λ b p. ground (arith, allocated-mark tree.valid f b);
      new_table = λ a h. elim (ℕ_discrete a new) [
        | yes e ↦
            let frame : a / 4096 ≡ f = omega (arith, e) in
            inr (e, ap (allocated m.pmm) frame ∙ unused)
        | no ne ↦ inl (ground (arith, h, ne))
      ];
      new_frame = λ b p. ground (arith, allocated-mark tree.valid f b, p);
    }

    -- The rest of the call once the frame is allocated.
    pub after_alloc :
        and_then
          (lifted m (ok new (mark m.pmm f)))
          (λ frame. clear_page frame >> write_entry t i frame)
        ≡ ok tt (record m {
          pmm = mark m.pmm f;
          word = set_word (clear_words m.word new) (slot t i) new;
        })
    unfolding lifted clear_page write_entry mark
    after_alloc = ground (arith, tree.tracked t (omega arith))

    pub finish :
        set_flags t i flags
          (record m { pmm = mark m.pmm f; word = set_word (clear_words m.word new) (slot t i) new })
        ≡ ok new grown
    finish =
        set_flags_lem t i flags
          (record m { pmm = mark m.pmm f; word = set_word (clear_words m.word new) (slot t i) new })
          (rw (mark-total m.pmm f) (tree.tracked t (omega arith)))
        ∙ (rw (
          set_word_self (clear_words m.word new) (slot t i) new,
          set_word_twice (clear_words m.word new) (slot t i) new (bit_or new flags),
          new-target,
        ))
