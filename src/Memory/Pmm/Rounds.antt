-- ===== src/Memory/Pmm/Rounds.antt =====
-- Taking frames and giving them back.
use rainstorm_os.Base.{ℕ, ◌*◌, ◌≤◌, ◌≡◌, arith, Run, ok}
use rainstorm_os.Memory.Pmm.{Pmm, alloc_frame, alloc_frames, free_frame, free_frames}
use rainstorm_os.Memory.Pmm.State.{
  allocated, IsValid, mark, allocated-mark, mark-total, mark-IsValid,
}
use rainstorm_os.Memory.Pmm.Alloc.{AllocResult, alloc_frame-AllocResult}
use rainstorm_os.Memory.Pmm.Runs.{
  RunResult, mark_all, within_range, mark_all-total, mark_all-IsValid, allocated-mark_all,
  alloc_frames-RunResult,
}
use rainstorm_os.Memory.Pmm.Free.{freed, free_frame-freed, allocated-freed, free_frames_lem}

-- `u` has the same frames allocated as `s`.
abbrev pub SameFrames : Pmm → Pmm → Type 0
SameFrames s u = (g : ℕ) → allocated u g ≡ allocated s g

module _ {s : Pmm} (v : IsValid s) where
  give_back_frame :
      (addr : ℕ) (t : Pmm) {r : Run Pmm ℕ}
      → AllocResult s r
      → r ≡ ok addr t
      → (u : Pmm) × (free_frame addr t ≡ ok tt u) × SameFrames s u
  give_back_frame addr t (AllocResult.taken f h free below) e =
      let at : f * 4096 ≡ addr = cc in
      let after : mark s f ≡ t = cc in
      rw (← at, ← after)
        (
          freed (mark s f) (f * 4096),
          free_frame-freed (mark-IsValid v f) (f * 4096),
          λ g. ground (
            arith,
            allocated-freed (mark-IsValid v f) (f * 4096) g,
            allocated-mark v f g,
            mark-total s f,
            free,
          ),
        )
  give_back_frame addr t (AllocResult.exhausted all) e = cc

  -- The frame that `pmm_alloc_frame` returns can be freed, and then the same frames are allocated
  -- as before the two calls.
  pub free_frame-alloc_frame :
      (addr : ℕ) (t : Pmm)
      → alloc_frame s ≡ ok addr t
      → (u : Pmm) × (free_frame addr t ≡ ok tt u) × SameFrames s u
  free_frame-alloc_frame addr t = give_back_frame addr t (alloc_frame-AllocResult v)

  give_back_run :
      (count addr : ℕ) (t : Pmm) {r : Run Pmm ℕ}
      → RunResult s count r
      → r ≡ ok addr t
      → (u : Pmm) × (free_frames addr count t ≡ ok tt u) × SameFrames s u
  give_back_run count addr t (RunResult.taken start h free low) e =
      let at : start * 4096 ≡ addr = cc in
      let after : mark_all count start s ≡ t = cc in
      let v' = mark_all-IsValid count start v in
      let done = free_frames_lem start count v' (rw (mark_all-total count start s) h) in
      rw (← at, ← after)
        (
          done.0,
          done.1,
          λ g. ground (
            arith,
            done.3 g,
            allocated-mark_all count start v g,
            free g,
            (within_range start count g),
          ),
        )
  give_back_run count addr t (RunResult.exhausted none_free) e = cc

  -- A run of two or more frames that `pmm_alloc_frames` returns can be freed as one, and then the
  -- same frames are allocated as before the two calls.
  pub free_frames-alloc_frames :
      (count addr : ℕ) (t : Pmm)
      → 2 ≤ count
      → alloc_frames count s ≡ ok addr t
      → (u : Pmm) × (free_frames addr count t ≡ ok tt u) × SameFrames s u
  free_frames-alloc_frames count addr t h =
      give_back_run count addr t (alloc_frames-RunResult v count h)
