-- ===== src/Memory/Paging/Spaces/Destroy.antt =====
-- What `paging_destroy_pml4` frees.
use rainstorm_os.Base.{
  ℕ, zero, suc, ◌+◌, ◌*◌, ◌/◌, ◌≤◌, ◌<◌, ◌≡◌, refl, true, false, arith, returns, Returns,
  Ends-and_then, Ends-mono, Bool-cases, inl, inr,
}
use rainstorm_os.Memory.Pmm.State.{allocated}
use rainstorm_os.Memory.Paging.{Machine, present, target, slot}
use rainstorm_os.Memory.Paging.Tree.{IsTree}
use rainstorm_os.Memory.Paging.Walk.{root_aligned}
use rainstorm_os.Memory.Paging.Spaces.{destroy_pts, destroy_pds, destroy_pdpts, destroy_pml4}
use rainstorm_os.Memory.Paging.Spaces.Sweep.{
  Shrunk, Freed-Stays, Freed, Swept-none, Swept-one, Swept-gap, Swept, free_table, free-Swept,
  read_table,
}

module _ {m : Machine} {root : ℕ} {level path : ℕ → ℕ} (tree : IsTree m root level path) where
  destroy_pts-Swept :
      (left pd i : ℕ) (m1 : Machine)
      → (level pd ≡ 2) × (path pd < 256 * 512)
      → left + i ≤ 512
      → Shrunk tree m1
      → Returns (λ _ m2. Swept tree m1 0 pd i (left + i) m2) (destroy_pts left pd i m1)
  unfolding destroy_pts Freed
  destroy_pts-Swept zero pd i m1 at h s = returns (Swept-none tree 0 pd i s)
  destroy_pts-Swept (suc left) pd i m1 at h s = elim (Bool-cases (present (m.word (slot pd i)))) [
    | inl here ↦
        rw (read_table tree pd i m1 (omega arith) s, here)
          (rw (read_table tree pd i m1 (omega arith) s) (
            Ends-and_then
              (free_table tree (target (m.word (slot pd i))) m1
                (omega (
                  arith,
                  tree.below pd i (omega arith) (omega arith) here,
                  tree.extends_path pd i (omega arith) (omega arith) here,
                ))
                s)
              (λ _ m2 (s2, stays, gone).
                Ends-mono (destroy_pts-Swept left pd (i + 1) m2 at (omega arith) s2)
                  (λ _ _ rest. Swept-one tree 0 pd i left stays gone rest) (λ _ _ never. never))))
    | inr gone ↦
        rw (read_table tree pd i m1 (omega arith) s, gone)
          (Ends-mono (destroy_pts-Swept left pd (i + 1) m1 at (omega arith) s)
            (λ _ _ rest. Swept-gap tree 0 pd i left gone rest) (λ _ _ never. never))
  ]

  destroy_pds-Swept :
      (left pdpt i : ℕ) (m1 : Machine)
      → (level pdpt ≡ 3) × (path pdpt < 256)
      → left + i ≤ 512
      → Shrunk tree m1
      → Returns (λ _ m2. Swept tree m1 1 pdpt i (left + i) m2) (destroy_pds left pdpt i m1)
  unfolding destroy_pds
  destroy_pds-Swept zero pdpt i m1 at h s = returns (Swept-none tree 1 pdpt i s)
  destroy_pds-Swept (suc left) pdpt i m1 at h s =
      elim (Bool-cases (present (m.word (slot pdpt i)))) [
        | inl here ↦
            let down = tree.below pdpt i (omega arith) (omega arith) here in
            let along = tree.extends_path pdpt i (omega arith) (omega arith) here in
            rw (read_table tree pdpt i m1 (omega arith) s, here)
              (rw (read_table tree pdpt i m1 (omega arith) s) (
                Ends-and_then
                  (destroy_pts-Swept 512 (target (m.word (slot pdpt i))) 0 m1
                    (omega (arith, down, along)) (omega arith) s)
                  (λ _ m2 sw.
                    Ends-and_then
                      (free-Swept tree 0 (target (m.word (slot pdpt i))) m2
                        (omega (arith, down, along)) sw)
                      (λ _ m3 (s3, stays, gone).
                        Ends-mono (destroy_pds-Swept left pdpt (i + 1) m3 at (omega arith) s3)
                          (λ _ _ rest. Swept-one tree 1 pdpt i left stays gone rest)
                          (λ _ _ never. never)))))
        | inr gone ↦
            rw (read_table tree pdpt i m1 (omega arith) s, gone)
              (Ends-mono (destroy_pds-Swept left pdpt (i + 1) m1 at (omega arith) s)
                (λ _ _ rest. Swept-gap tree 1 pdpt i left gone rest) (λ _ _ never. never))
      ]

  destroy_pdpts-Swept :
      (left i : ℕ) (m1 : Machine)
      → left + i ≤ 256
      → Shrunk tree m1
      → Returns (λ _ m2. Swept tree m1 2 root i (left + i) m2) (destroy_pdpts left root i m1)
  unfolding destroy_pdpts
  destroy_pdpts-Swept zero i m1 h s = returns (Swept-none tree 2 root i s)
  destroy_pdpts-Swept (suc left) i m1 h s = elim (Bool-cases (present (m.word (slot root i)))) [
    | inl here ↦
        let up : 1 < level root = omega (arith, tree.is_root) in
        let down = tree.below root i up (omega arith) here in
        let along = tree.extends_path root i up (omega arith) here in
        rw (read_table tree root i m1 (omega (arith, up)) s, here)
          (rw (read_table tree root i m1 (omega (arith, up)) s) (
            Ends-and_then
              (destroy_pds-Swept 512 (target (m.word (slot root i))) 0 m1
                (omega (arith, down, along, tree.is_root, tree.root_path)) (omega arith) s)
              (λ _ m2 sw.
                Ends-and_then
                  (free-Swept tree 1 (target (m.word (slot root i))) m2
                    (omega (arith, down, along, tree.is_root, tree.root_path)) sw)
                  (λ _ m3 (s3, stays, gone).
                    Ends-mono (destroy_pdpts-Swept left (i + 1) m3 (omega arith) s3)
                      (λ _ _ rest. Swept-one tree 2 root i left stays gone rest)
                      (λ _ _ never. never)))))
    | inr gone ↦
        rw (read_table tree root i m1 (omega (arith, tree.is_root)) s, gone)
          (Ends-mono (destroy_pdpts-Swept left (i + 1) m1 (omega arith) s)
            (λ _ _ rest. Swept-gap tree 2 root i left gone rest) (λ _ _ never. never))
  ]

  -- The root and every table of the lower half, whose entries in the root are the first 256.
  pub record IsDestroyed (m1 : Machine) : Type 0 where
    pub shrunk : Shrunk tree m1
    pub root_freed : allocated m1.pmm (root / 4096) ≡ false
    pub lower_freed :
        (i : ℕ)
        → i < 256
        → present (m.word (slot root i)) ≡ true
        → Freed tree 2 m1 (target (m.word (slot root i)))

  -- On a tree of tables, `paging_destroy_pml4` returns without an access outside the tables. It
  -- frees the root's frame and the frames of all tables of the lower half, at all three levels
  -- below the root's first 256 entries; it frees no other frame, so the tables of the upper half stay,
  -- changes no word, and keeps the frame manager valid.
  pub destroy_pml4-IsDestroyed : Returns (λ _ m'. IsDestroyed m') (destroy_pml4 root m)
  unfolding destroy_pml4
  destroy_pml4-IsDestroyed = rw (root_aligned tree) (
      Ends-and_then
        (destroy_pdpts-Swept 256 0 m (omega arith) (record {
          words = refl;
          valid = tree.valid;
          total = refl;
          others = λ f none. refl;
          fewer = λ f h. h;
        }))
        (λ _ m2 sw.
          Ends-mono (free_table tree root m2 (omega (arith, tree.is_root)) sw.shrunk)
            (λ _ m3 (s3, stays, gone). record {
              shrunk = s3;
              root_freed = gone;
              lower_freed = λ i lt here.
                  Freed-Stays tree 2 _ _ _ stays (sw.swept i (omega arith) (omega arith) here);
            })
            (λ _ _ never. never)))
