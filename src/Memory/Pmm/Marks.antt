-- ===== src/Memory/Pmm/Marks.antt =====
-- `pmm_mark_allocated` and `pmm_is_frame_free` on every branch.
use rainstorm_os.Base.{
  ℕ, ◌/◌, ◌%◌, ◌≡◌, not, ◌&&◌, ◌||◌, [], ◌∷◌, arith, leb, ◌==◌, if◌then◌else◌, ok, Bool-cases, inl,
  inr,
}
use rainstorm_os.Memory.Mm.{is_page_aligned_mod}
use rainstorm_os.Memory.Event.{error, warn, Event, event}
use rainstorm_os.Memory.Pmm.{Pmm, load, store, klog, mark_allocated, is_frame_free}
use rainstorm_os.Memory.Pmm.State.{
  allocated, IsValid, mark, allocated-mark, mark-IsValid, logged, logged-IsValid, allocated-logged,
  accepts,
}

abbrev pub mark_unaligned : ℕ → Event
mark_unaligned addr =
    event error "pmm_mark_allocated: address 0x%llx is not page alligned" (addr ∷ [])

abbrev pub mark_untracked : ℕ → Event
mark_untracked addr =
    event error "pmm_mark_allocated: address 0x%llx is not tracked by the physical memory manager"
      (addr ∷ [])

-- The state after a call for `addr`.
pub marked : Pmm → ℕ → Pmm
marked s addr =
    if not (addr % 4096 == 0)
    then logged s (mark_unaligned addr)
    else if leb s.total_frames (addr / 4096)
    then logged s (mark_untracked addr)
    else mark s (addr / 4096)

module _ {s : Pmm} (v : IsValid s) (addr : ℕ) where
  pub mark_allocated-marked : mark_allocated addr s ≡ ok tt (marked s addr)
  unfolding mark_allocated marked load store klog mark logged
  mark_allocated-marked = rw (is_page_aligned_mod addr) (ground (arith, v.size))

  pub allocated-marked :
      (g : ℕ)
      → allocated (marked s addr) g ≡ ((accepts s addr && (addr / 4096 == g)) || allocated s g)
  unfolding marked
  allocated-marked g = ground (
    arith,
    allocated-mark v (addr / 4096) g,
    allocated-logged s (mark_unaligned addr) g,
    allocated-logged s (mark_untracked addr) g,
  )

  pub marked-total : (marked s addr).total_frames ≡ s.total_frames
  unfolding marked logged mark
  marked-total = ground arith

  pub marked-offset : (marked s addr).hhdm_offset ≡ s.hhdm_offset
  unfolding marked logged mark
  marked-offset = ground arith

  pub marked-start : (marked s addr).bitmap_start ≡ s.bitmap_start
  unfolding marked logged mark
  marked-start = ground arith

  pub marked-IsValid : IsValid (marked s addr)
  unfolding marked
  marked-IsValid = elim (Bool-cases (addr % 4096 == 0)) [
    | inr e ↦ rw e (logged-IsValid v _)
    | inl e ↦ rw e (elim (Bool-cases (leb s.total_frames (addr / 4096))) [
      | inl e' ↦ rw e' (logged-IsValid v _)
      | inr e' ↦ rw e' (mark-IsValid v (addr / 4096))
    ])
  ]

  marked-log : (marked s addr).log ≡ (
      if not (addr % 4096 == 0)
      then mark_unaligned addr ∷ s.log
      else if leb s.total_frames (addr / 4096)
      then mark_untracked addr ∷ s.log
      else s.log)
  unfolding marked logged mark
  marked-log = ground arith

  -- In a valid state `pmm_mark_allocated` returns in a valid state. It marks the frame at `addr`
  -- if the address is a multiple of the page size and the frame is tracked, and changes no other
  -- frame; it logs nothing then, and an error otherwise.
  pub mark_allocated_lem :
      (t : Pmm) × (mark_allocated addr s ≡ ok tt t)
      × IsValid t
      × ((g : ℕ) → allocated t g ≡ ((accepts s addr && (addr / 4096 == g)) || allocated s g))
      × (t.log ≡ (
          if not (addr % 4096 == 0)
          then mark_unaligned addr ∷ s.log
          else if leb s.total_frames (addr / 4096)
          then mark_untracked addr ∷ s.log
          else s.log))
  mark_allocated_lem =
      (marked s addr, mark_allocated-marked, marked-IsValid, allocated-marked, marked-log)

  -- In a valid state `pmm_is_frame_free` answers whether `addr` is a multiple of the page size
  -- whose frame is tracked and free; it changes no frame, and logs an error or a warning exactly
  -- if the address is not aligned or not tracked.
  pub is_frame_free_lem :
      is_frame_free addr s
      ≡ ok (accepts s addr && not (allocated s (addr / 4096))) (
          if not (addr % 4096 == 0)
          then logged s
              (event error "pmm_is_frame_free: address 0x%llx is not page alligned" (addr ∷ []))
          else if leb s.total_frames (addr / 4096)
          then logged s (
              event warn
                "pmm_is_frame_free: address 0x%llx is not tracked by the physical memory manager"
                (addr ∷ []))
          else s)
  unfolding is_frame_free load klog allocated logged
  is_frame_free_lem = rw (is_page_aligned_mod addr) (ground (arith, v.size))
