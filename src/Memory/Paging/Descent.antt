-- ===== src/Memory/Paging/Descent.antt =====
-- One level of `paging_map`: the entry is made present, the tree stays a tree, and no page is
-- translated otherwise than before.
use rainstorm_os.Base.{
  ℕ, ◌/◌, ◌<◌, ◌≡◌, ◌≢◌, refl, bit_or, true, false, arith, Bool-cases, inl, inr, ◌∙◌, ap, sym, Run,
  ok, Ends, returns, panics, and_then, ◌>>◌, lt→ltb,
}
use rainstorm_os.Memory.Pmm.{Pmm, alloc_frame}
use rainstorm_os.Memory.Pmm.Alloc.{AllocResult, taken, exhausted, alloc_frame-AllocResult}
use rainstorm_os.Memory.Paging.{
  Machine, lifted, present, target, slot, set_word, read_entry, write_entry, clear_page, next_table,
}
use rainstorm_os.Memory.Paging.Entries.{AreFlags, target-or, present-or}
use rainstorm_os.Memory.Paging.Tree.{IsTree, same, look-Agrees, slot-ne}
use rainstorm_os.Memory.Paging.Grown.{Grown, OutOfMemory, with_word, set_flags}
use rainstorm_os.Memory.Paging.Fresh.{grown-Grown, after_alloc, finish}

module _ {m : Machine} {root : ℕ} {level path : ℕ → ℕ} (tree : IsTree m root level path)
    (t i flags : ℕ) (upper : 1 < level t) (in_table : i < 512) (are_flags : AreFlags flags)
    (sets_present : present flags ≡ true) where
  abbrev old : ℕ
  old = m.word (slot t i)

  next_table-present :
      present old ≡ true
      → next_table t i flags m
        ≡ ok (target old) (with_word m (set_word m.word (slot t i) (bit_or old flags)))
  unfolding next_table read_entry write_entry
  next_table-present here =
      ground (arith, tree.tracked t (omega arith), target-or old flags are_flags)

  flags_kept :
      present old ≡ true
      → (b : ℕ) → present (set_word m.word (slot t i) (bit_or old flags) b) ≡ present (m.word b)
  flags_kept here b = ground (arith, present-or old flags sets_present)

  targets_kept :
      (b : ℕ) → target (set_word m.word (slot t i) (bit_or old flags) b) ≡ target (m.word b)
  targets_kept b = ground (arith, target-or old flags are_flags)

  last_kept :
      (v a j : ℕ)
      → level a ≡ 1
      → j < 512
      → set_word m.word (slot t i) v (slot a j) ≡ m.word (slot a j)
  last_kept v a j at h =
      let differ : t ≢ a = λ e. absurd (omega (arith, ap level e)) in
      let ne =
        slot-ne t a i j (tree.aligned t (omega arith)) (tree.aligned a (omega arith)) in_table h
          (inl differ) in
      ground (arith, ne)

  present-Grown :
      present old ≡ true
      → Grown m root level path t i
          (target old)
          (with_word m (set_word m.word (slot t i) (bit_or old flags)))
  present-Grown here = record {
    level' = level;
    path' = path;
    tree = record {
      valid = tree.valid;
      small = tree.small;
      is_root = tree.is_root;
      root_path = tree.root_path;
      aligned = tree.aligned;
      tracked = tree.tracked;
      taken = tree.taken;
      below = λ a j h k p.
          rw (targets_kept (slot a j)) (tree.below a j h k (sym (flags_kept here (slot a j)) ∙ p));
      extends_path = λ a j h k p.
          rw (targets_kept (slot a j))
            (tree.extends_path a j h k (sym (flags_kept here (slot a j)) ∙ p));
    };
    keeps_level = λ a h. refl;
    keeps_path = λ a h. refl;
    linked = flags_kept here (slot t i) ∙ here;
    leads = targets_kept (slot t i);
    keeps_links = λ a j h k p. flags_kept here (slot a j) ∙ p;
    keeps_targets = λ a j h k p. targets_kept (slot a j);
    translations = λ page.
        look-Agrees tree (set_word m.word (slot t i) (bit_or old flags))
          (λ a j h k. same (flags_kept here (slot a j)) (targets_kept (slot a j)))
          (λ a j h k. last_kept (bit_or old flags) a j h k) 3 root page tree.is_root;
    same_log = refl;
    same_flushes = refl;
    keeps_frames = λ f p. p;
    new_table = λ a h. inl h;
    new_frame = λ f p. inl p;
  }

  next_table-absent :
      {r : Run Pmm ℕ}
      → present old ≡ false
      → AllocResult m.pmm r
      → Ends
          (λ c m'. Grown m root level path t i c m')
          OutOfMemory
          (and_then
            (and_then (lifted m r) (λ frame. clear_page frame >> write_entry t i frame))
            (λ _. set_flags t i flags))
  next_table-absent gone (taken f in_ram unused below) =
      rw
        (
          after_alloc tree t i flags upper in_table are_flags sets_present f gone in_ram unused,
          finish tree t i flags upper in_table are_flags sets_present f gone in_ram unused,
        )
        (returns
          (grown-Grown tree t i flags upper in_table are_flags sets_present f gone in_ram unused))
  next_table-absent gone (exhausted all) = unfold lifted in panics all

  -- Where `t` is a table above the last level, and the flags are present and keep out of the address
  -- field, making entry `i` present and following it keeps the tree and every translation, and
  -- panics only when no frame is free.
  pub next_table-Grown :
      Ends (λ c m'. Grown m root level path t i c m') OutOfMemory (next_table t i flags m)
  next_table-Grown = elim (Bool-cases (present old)) [
    | inl here ↦ rw (next_table-present here) (returns (present-Grown here))
    | inr gone ↦ rw (enters gone) (next_table-absent gone (alloc_frame-AllocResult tree.valid))
  ]
    where
      enters :
          present old ≡ false
          → next_table t i flags m
            ≡ and_then
                (and_then
                  (lifted m (alloc_frame m.pmm))
                  (λ frame. clear_page frame >> write_entry t i frame))
                (λ _. set_flags t i flags)
      enters gone =
          unfold next_table read_entry set_flags in
          rw (lt→ltb (t / 4096) m.pmm.total_frames (tree.tracked t (omega arith)), gone)
