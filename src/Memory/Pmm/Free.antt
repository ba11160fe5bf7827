-- ===== src/Memory/Pmm/Free.antt =====
-- `pmm_free_frame`, `pmm_free_frames`, `pmm_mark_allocated` and `pmm_is_frame_free` on every branch.
use rainstorm_os.Base.{
  ◌∙◌, ℕ, zero, suc, ◌+◌, ◌*◌, ◌/◌, ◌%◌, ◌≤◌, ◌≡◌, refl, not, ◌&&◌, [], ◌∷◌, arith, leb,
  leb_false→lt, ◌==◌, if◌then◌else◌, ok, Bool-cases, inl, inr, u64,
}
use rainstorm_os.Memory.Mm.{is_page_aligned_mod}
use rainstorm_os.Memory.Event.{error, warn, Event, event}
use rainstorm_os.Memory.Pmm.{Pmm, load, store, klog, free_frame, free_frames_loop, free_frames}
use rainstorm_os.Memory.Pmm.State.{
  logged, logged-IsValid, allocated-logged, accepts, allocated, IsValid, clear, allocated-clear,
  clear-IsValid,
}
use rainstorm_os.Memory.Pmm.Runs.{within}

abbrev pub free_unaligned : ℕ → Event
free_unaligned addr = event error "pmm_free_frame: address 0x%llx is not page alligned" (addr ∷ [])

abbrev pub free_untracked : ℕ → Event
free_untracked addr =
    event error "pmm_free_frame: address 0x%llx is not tracked by the physical memory manager"
      (addr ∷ [])

abbrev pub free_again : Event
free_again = event warn "pmm_free_frame: attempting to free already free frame" []

-- The state after a call for `addr`.
pub freed : Pmm → ℕ → Pmm
freed s addr =
    if not (addr % 4096 == 0)
    then logged s (free_unaligned addr)
    else if leb s.total_frames (addr / 4096)
    then logged s (free_untracked addr)
    else if allocated s (addr / 4096)
    then clear s (addr / 4096)
    else logged s free_again

module _ {s : Pmm} (v : IsValid s) (addr : ℕ) where
  pub free_frame-freed : free_frame addr s ≡ ok tt (freed s addr)
  unfolding free_frame freed load store klog allocated clear logged
  free_frame-freed = rw (is_page_aligned_mod addr) (ground (arith, v.size))

  pub allocated-freed :
      (g : ℕ)
      → allocated (freed s addr) g ≡ (allocated s g && not (accepts s addr && (addr / 4096 == g)))
  unfolding freed
  allocated-freed g = ground (
    arith,
    allocated-clear v (addr / 4096) g,
    allocated-logged s (free_unaligned addr) g,
    allocated-logged s (free_untracked addr) g,
    allocated-logged s free_again g,
  )

  pub freed-total : (freed s addr).total_frames ≡ s.total_frames
  unfolding freed logged clear
  freed-total = ground arith

  pub freed-offset : (freed s addr).hhdm_offset ≡ s.hhdm_offset
  unfolding freed logged clear
  freed-offset = ground arith

  pub freed-start : (freed s addr).bitmap_start ≡ s.bitmap_start
  unfolding freed logged clear
  freed-start = ground arith

  pub freed-size : (freed s addr).bitmap_size ≡ s.bitmap_size
  unfolding freed logged clear
  freed-size = ground arith

  pub freed-IsValid : IsValid (freed s addr)
  unfolding freed
  freed-IsValid = elim (Bool-cases (addr % 4096 == 0)) [
    | inr e ↦ rw e (logged-IsValid v _)
    | inl e ↦ rw e (elim (Bool-cases (leb s.total_frames (addr / 4096))) [
      | inl e' ↦ rw e' (logged-IsValid v _)
      | inr e' ↦ rw e' (elim (Bool-cases (allocated s (addr / 4096))) [
        | inl e'' ↦ rw e'' (clear-IsValid v (addr / 4096) (leb_false→lt _ _ e'))
        | inr e'' ↦ rw e'' (logged-IsValid v _)
      ])
    ])
  ]

  freed-log : (freed s addr).log ≡ (
      if not (addr % 4096 == 0)
      then free_unaligned addr ∷ s.log
      else if leb s.total_frames (addr / 4096)
      then free_untracked addr ∷ s.log
      else if allocated s (addr / 4096)
      then s.log
      else free_again ∷ s.log)
  unfolding freed logged clear
  freed-log = ground arith

  -- In a valid state `pmm_free_frame` returns in a valid state. It frees the frame at `addr` if
  -- the address is a multiple of the page size and the frame is tracked, and changes no other
  -- frame; it logs nothing if the frame was allocated, a warning if it was free, and an error if
  -- the address is not accepted.
  pub free_frame_lem :
      (t : Pmm) × (free_frame addr s ≡ ok tt t)
      × IsValid t
      × ((g : ℕ) → allocated t g ≡ (allocated s g && not (accepts s addr && (addr / 4096 == g))))
      × (t.log ≡ (
          if not (addr % 4096 == 0)
          then free_unaligned addr ∷ s.log
          else if leb s.total_frames (addr / 4096)
          then free_untracked addr ∷ s.log
          else if allocated s (addr / 4096)
          then s.log
          else free_again ∷ s.log))
  free_frame_lem = (freed s addr, free_frame-freed, freed-IsValid, allocated-freed, freed-log)

-- The frames of a call for a run that is tracked throughout.
pub freed_all : ℕ → (addr i : ℕ) → Pmm → Pmm
freed_all zero addr i s = s
freed_all (suc left) addr i s = freed_all left addr (i + 1) (freed s (u64 (addr + u64 (i * 4096))))

pub free_frames_loop-freed_all :
    (left addr i : ℕ) {s : Pmm}
    → IsValid s
    → free_frames_loop left addr i s ≡ ok tt (freed_all left addr i s)
unfolding free_frames_loop freed_all
free_frames_loop-freed_all zero addr i v = refl
free_frames_loop-freed_all (suc left) addr i v =
    rw (free_frame-freed v (u64 (addr + u64 (i * 4096))))
      (free_frames_loop-freed_all left addr (i + 1) (freed-IsValid v (u64 (addr + u64 (i * 4096)))))

freed_all-IsValid : (left addr i : ℕ) {s : Pmm} → IsValid s → IsValid (freed_all left addr i s)
unfolding freed_all
freed_all-IsValid zero addr i v = v
freed_all-IsValid (suc left) addr i v = freed_all-IsValid left addr (i + 1) (freed-IsValid v _)

freed_all-total :
    (left addr i : ℕ) {s : Pmm}
    → IsValid s
    → (freed_all left addr i s).total_frames ≡ s.total_frames
unfolding freed_all
freed_all-total zero addr i v = refl
freed_all-total (suc left) addr i v =
    freed_all-total left addr (i + 1) (freed-IsValid v _) ∙ freed-total v _

allocated-freed_all :
    (left start i : ℕ) {s : Pmm}
    → IsValid s
    → start + i + left ≤ s.total_frames
    → (g : ℕ)
    → allocated (freed_all left (start * 4096) i s) g
      ≡ (allocated s g && not (within (start + i) left g))
unfolding freed_all within
allocated-freed_all zero start i v h g = ground arith
allocated-freed_all (suc left) start i {s} v h g =
    let e : u64 (start * 4096 + u64 (i * 4096)) ≡ (start + i) * 4096 = omega (arith, v.fits) in
    rw e (
      ground (
        arith,
        allocated-freed_all left start (i + 1) (freed-IsValid v ((start + i) * 4096))
            (rw (freed-total v ((start + i) * 4096)) (omega arith)) g,
        allocated-freed v ((start + i) * 4096) g,
      ))

-- In a valid state `pmm_free_frames`, given a run of tracked frames, returns in a valid state
-- with exactly the frames of that run freed and as many frames tracked.
pub free_frames_lem :
    {s : Pmm} (start count : ℕ)
    → IsValid s
    → start + count ≤ s.total_frames
    → (t : Pmm) × (free_frames (start * 4096) count s ≡ ok tt t)
      × IsValid t
      × ((g : ℕ) → allocated t g ≡ (allocated s g && not (within start count g)))
      × (t.total_frames ≡ s.total_frames)
unfolding free_frames
free_frames_lem {s} start count v h = (
  freed_all count (start * 4096) 0 s,
  free_frames_loop-freed_all count (start * 4096) 0 v,
  freed_all-IsValid count (start * 4096) 0 v,
  λ g. ground (arith, allocated-freed_all count start 0 v (omega arith) g, same_run g),
  freed_all-total count (start * 4096) 0 v,
)
  where
    same_run : (g : ℕ) → within (start + 0) count g ≡ within start count g
    same_run g = unfold within in ground arith
