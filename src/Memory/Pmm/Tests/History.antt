-- ===== src/Memory/Pmm/Tests/History.antt =====
-- A run of four frames and one frame more are taken, and one of the run is given back.
use rainstorm_os.Base.{◌*◌, ◌≡◌, refl, [], ◌∷◌, arith, ok}
use rainstorm_os.Base.Bytes.{bit_set, with_bit, without_bit}
use rainstorm_os.Memory.Mm.{is_page_aligned}
use rainstorm_os.Memory.Pmm.{
  Pmm, alloc_frame, alloc_bytes, alloc_bits, free_frame, klog, load, store,
}
use rainstorm_os.Memory.Pmm.History.{
  Reached, at_first, next, allocates, allocates_run, frees, Accounted, holds, without, with_run,
  Reached-Accounted,
}
use rainstorm_os.Memory.Pmm.Tests.{small, small-IsValid, first_run}

-- Frame 9 is the lowest one left.
one_more : (t : Pmm) × (alloc_frame first_run.0 ≡ ok 0x9000 t)
unfolding first_run alloc_frame alloc_bytes alloc_bits load store bit_set with_bit
one_more = (_, refl)

given_back : (t : Pmm) × (free_frame (13 * 4096) one_more.0 ≡ ok tt t)
unfolding one_more first_run free_frame klog is_page_aligned load store bit_set without_bit with_bit
given_back = (_, refl)

history : Reached small given_back.0 (9 ∷ 12 ∷ 14 ∷ 15 ∷ [])
unfolding holds without with_run
history =
    next (next (next at_first (allocates_run 4 (omega arith) first_run.1)) (allocates one_more.1))
      (frees 13 refl given_back.1)

Reached-Accounted_example : Accounted small given_back.0 (9 ∷ 12 ∷ 14 ∷ 15 ∷ [])
Reached-Accounted_example = Reached-Accounted small-IsValid history
