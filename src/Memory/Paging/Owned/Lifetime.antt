-- ===== src/Memory/Paging/Owned/Lifetime.antt =====
-- An address space from its creation, over the changes of its lower half, to its end.
use rainstorm_os.Base.{
  ℕ, ◌+◌, ◌*◌, ◌/◌, ◌<◌, ◌≡◌, ap, sym, ◌∙◌, true, false, ◌==◌, List, arith, Ends, Ends-mono,
  Ends-and_then, and_then, Bool-cases, inl, inr,
}
use rainstorm_os.Memory.Pmm.State.{allocated}
use rainstorm_os.Memory.Pmm.Rounds.{SameFrames}
use rainstorm_os.Memory.Paging.{Machine, slot}
use rainstorm_os.Memory.Paging.Tree.{IsTree}
use rainstorm_os.Memory.Paging.Grown.{OutOfMemory}
use rainstorm_os.Memory.Paging.Spaces.{create_pml4, destroy_pml4}
use rainstorm_os.Memory.Paging.Spaces.Create.{IsCreated, create_pml4-IsCreated}
use rainstorm_os.Memory.Paging.Spaces.Destroy.{destroy_pml4-IsDestroyed}
use rainstorm_os.Memory.Paging.Spaces.Shared.{
  is_upper, level_of, path_of, shared_place, root_place, created-IsTree,
}
use rainstorm_os.Memory.Paging.Spec.{Change, AllSound, perform_all}
use rainstorm_os.Memory.Paging.Owned.{is_lower, lower-lt}
use rainstorm_os.Memory.Paging.Owned.Freed.{own_frames_freed}
use rainstorm_os.Memory.Paging.Owned.Changes.{Account, AllLow, perform_all-Account}

-- A table of the upper half is none of the lower half, and no root.
upper_only : (l p : ℕ) → is_upper l p ≡ true → (l < 4) × (is_lower l p ≡ false)
unfolding is_lower
upper_only l p h = (ground (arith, h), ground (arith, h))

-- The kernel's tables at `kernel`, whose upper half is kept for new address spaces.
module _ {m : Machine} {kernel : ℕ} {level path : ℕ → ℕ} (tree : IsTree m kernel level path)
    (saved : (i : ℕ) → i < 256 → m.kernel_pml4_entries i ≡ m.word (slot kernel (i + 256))) where
  module _ {pml4 : ℕ} {m1 : Machine} (made : IsCreated m pml4 m1) where
    abbrev levels : ℕ → ℕ
    levels = level_of tree saved made

    abbrev paths : ℕ → ℕ
    paths = path_of tree saved made

    -- No table of the new address space but its root is of its own.
    only_root_lower : (t : ℕ) → is_lower (levels t) (paths t) ≡ true → t ≡ pml4
    only_root_lower t lower = elim (Bool-cases (t == pml4)) [
      | inl e ↦ ground (arith, e)
      | inr ne ↦
          let (upper, at, along) =
            shared_place tree saved made t ne (lower-lt (levels t) (paths t) lower) in
          let lower' : is_lower (level t) (path t) ≡ true =
            ap (λ l. is_lower l (path t)) (sym at)
            ∙ (ap (λ p. is_lower (levels t) p) (sym along) ∙ lower) in
          absurd (ground (arith, (upper_only (level t) (path t) upper).1, lower'))
    ]

    root_lower : is_lower (levels pml4) (paths pml4) ≡ true
    unfolding is_lower
    root_lower = ground (arith, root_place tree saved made)

    root_only : (t : ℕ) → levels t ≡ 4 → t ≡ pml4
    unfolding is_lower
    root_only t at = only_root_lower t (ground (arith, at))

    pub created-Account : Account (allocated m.pmm) pml4 m1
    created-Account = record {
      level' = levels;
      path' = paths;
      tree = created-IsTree tree saved made;
      owned = record {
        only_root = root_only;
        parent = λ t lower ne. absurd (ne (only_root_lower t lower));
        in_use = λ f used. elim (Bool-cases (pml4 / 4096 == f)) [
          | inl e ↦
              let here : f * 4096 ≡ pml4 = ground (arith, e, made.aligned) in
              inr (rw here root_lower)
          | inr ne ↦ inl (ground (arith, made.frames f, used, ne))
        ];
        kept = λ f before. ground (arith, made.frames f, before);
        own = λ f lower.
            let here : f ≡ pml4 / 4096 = omega (arith, only_root_lower (f * 4096) lower) in
            rw here made.free;
      };
    }

  -- Where the kernel's tables are a tree whose upper half is kept: `paging_create_pml4`, then any
  -- sequence of calls of `paging_map`, `paging_unmap`, `paging_map_range` and `paging_unmap_range`
  -- on the new address space, with aligned arguments that do not wrap around and of which those that
  -- map are of the lower half, then `paging_destroy_pml4` of it leave the same frames allocated as
  -- before; or a call panics with no frame free.
  pub destroy_pml4-perform_all :
      (cs : List Change)
      → AllSound cs
      → AllLow cs
      → Ends
          (λ _ m'. SameFrames m.pmm m'.pmm)
          OutOfMemory
          (and_then
            (create_pml4 m)
            (λ pml4 m1. and_then (perform_all pml4 cs m1) (λ _. destroy_pml4 pml4)))
  destroy_pml4-perform_all cs sound low =
      Ends-and_then (create_pml4-IsCreated m tree.valid) (λ pml4 m1 made.
        Ends-and_then (perform_all-Account cs sound low (created-Account made)) (λ _ m2 a.
          Ends-mono (destroy_pml4-IsDestroyed a.tree)
            (λ _ m' done. own_frames_freed a.tree a.owned done) (λ _ _ never. absurd never)))
