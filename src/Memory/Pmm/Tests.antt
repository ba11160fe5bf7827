-- ===== src/Memory/Pmm/Tests.antt =====
-- A manager of twenty frames: runs of the code, and the theorems at it.
mod History
use rainstorm_os.Base.{
  inl, inr, ap, ℕ, ◌*◌, ◌≤◌, ◌/◌, ◌%◌, ◌≡◌, refl, true, not, ◌&&◌, ◌||◌, [], ◌∷◌, arith, ltb, leb,
  ◌==◌, if◌then◌else◌, ok, panic, all_below, all_below_sound, Returns, List,
}
use rainstorm_os.Base.Bytes.{bit_set, with_bit}
use rainstorm_os.Memory.Mm.{page_count}
use rainstorm_os.Memory.Pmm.{
  Pmm, alloc_frame, alloc_frames, free_frame, free_frames, get_free_size, get_total_size, load,
  store, alloc_bytes, alloc_bits, scan_run, mark_run, free_bytes, free_bits,
  bitmap_size_from_frames,
}
use rainstorm_os.Memory.Pmm.State.{allocated, IsValid, mark, accepts}
use rainstorm_os.Memory.Pmm.Alloc.{AllocResult, alloc_frame-AllocResult}
use rainstorm_os.Memory.Pmm.Runs.{RunResult, within, alloc_frames-RunResult}
use rainstorm_os.Memory.Pmm.Free.{
  free_unaligned, free_untracked, free_again, free_frame_lem, free_frames_lem,
}
use rainstorm_os.Memory.Pmm.Sizes.{
  count_free, get_free_size-count_free, get_total_size-get_free_size,
}
use rainstorm_os.Memory.Pmm.Rounds.{SameFrames, free_frames-alloc_frames}
use rainstorm_os.Memory.Pmm.Init.{
  Entry, usable, reserved, framebuffer, pmm_init, find_region, highest_addr, sized, is_usable,
}
use rainstorm_os.Memory.Pmm.Init.Place.{EndsAt, FirstFit, first, later, size_of}
use rainstorm_os.Memory.Pmm.Init.Ready.{IsReady, pmm_init-IsReady, pmm_init_panics}

-- Frames 0 to 7 are allocated, of 8 to 15 those with a bit in 0x0d, and of 16 to 19 the first.
abbrev bytes : ℕ → ℕ
bytes i = if i == 0 then 0xff else if i == 1 then 0x0d else 0xf1

abbrev pub small : Pmm
small = record {
  bitmap = bytes;
  bitmap_start = 0x1000;
  bitmap_size = 3;
  total_frames = 20;
  hhdm_offset = 0;
  log = [];
}

padding_table : all_below 24 (λ f. ltb f 20 || allocated small f) ≡ true
unfolding all_below allocated bit_set
padding_table = refl

pub small-IsValid : IsValid small
small-IsValid = record {
  bytes = λ i. ground arith;
  size = refl;
  padding = λ f h k.
      ground (arith, all_below_sound 24 (λ f. ltb f 20 || allocated small f) f padding_table);
  fits = omega arith;
}

-- Frame 9 is the lowest free one; its bit is set and its address returned.
first_fit : alloc_frame small ≡ ok 0x9000 (mark small 9)
unfolding alloc_frame alloc_bytes alloc_bits load store bit_set with_bit mark
first_fit = refl

-- Frames 12 to 15 are the lowest four free frames in a row.
unfoldable pub first_run : (t : Pmm) × (alloc_frames 4 small ≡ ok 0xc000 t)
unfolding alloc_frames scan_run mark_run load store bit_set with_bit
first_run = (_, refl)

-- The free frames are 9, 12 to 15, and 17 to 19.
free_size : get_free_size small ≡ ok 0x8000 small
unfolding get_free_size free_bytes free_bits load bit_set
free_size = refl

alloc_frame-AllocResult_example : AllocResult small (alloc_frame small)
alloc_frame-AllocResult_example = alloc_frame-AllocResult small-IsValid

alloc_frames-RunResult_example : RunResult small 4 (alloc_frames 4 small)
alloc_frames-RunResult_example = alloc_frames-RunResult small-IsValid 4 (omega arith)

free_frame_lem_example :
    (t : Pmm) × (free_frame 0xa000 small ≡ ok tt t)
    × IsValid t
    × ((g : ℕ)
        → allocated t g ≡ (allocated small g && not (accepts small 0xa000 && (0xa000 / 4096 == g))))
    × (t.log ≡ (
        if not (0xa000 % 4096 == 0)
        then free_unaligned 0xa000 ∷ []
        else if leb 20 (0xa000 / 4096)
        then free_untracked 0xa000 ∷ []
        else if allocated small (0xa000 / 4096)
        then []
        else free_again ∷ []))
free_frame_lem_example = free_frame_lem small-IsValid 0xa000

get_free_size-count_free_example : get_free_size small ≡ ok (count_free small 20 * 4096) small
get_free_size-count_free_example = get_free_size-count_free small small-IsValid

free_frames-alloc_frames_example :
    (u : Pmm) × (free_frames 0xc000 4 (first_run.0) ≡ ok tt u) × SameFrames small u
free_frames-alloc_frames_example =
    free_frames-alloc_frames small-IsValid 4 0xc000 first_run.0 (omega arith) first_run.1

abbrev bitmap_region : Entry
bitmap_region = record { base = 0x2000; length = 0x8000; type = usable }

-- 40 frames, of which 2 to 9 and 16 to 39 are usable; the last region is the framebuffer.
abbrev regions : List Entry
regions =
    record { base = 0; length = 0x2000; type = reserved }
    ∷ bitmap_region
    ∷ record { base = 0x10000; length = 0x18000; type = usable }
    ∷ record { base = 0xfd000000; length = 0x300000; type = framebuffer }
    ∷ []

-- The same with a usable region at address 0 first.
abbrev zero_regions : List Entry
zero_regions = record { base = 0; length = 0x2000; type = usable } ∷ regions

regions-EndsAt : EndsAt regions 0x28000
regions-EndsAt = record {
  by = (
    λ never. omega arith,
    (λ memory. omega arith, (λ memory. omega arith, (λ never. absurd (ground (arith, never)), tt))),
  );
  at = inr (inr (inr (inl (refl, refl))));
}

regions-FirstFit : FirstFit (size_of 0x28000) regions bitmap_region
regions-FirstFit =
    later _ _ _ (λ never. absurd (ground (arith, ap is_usable never)))
      (first _ _ refl (omega arith))

pmm_init-IsReady_example :
    Returns (λ _ t. IsReady regions 0x28000 0x2000 0 t) (pmm_init regions 0 (λ a. 0) small)
pmm_init-IsReady_example =
    pmm_init-IsReady regions 0 (λ a. 0) small (omega arith) (λ a. omega arith) 0x28000
      regions-EndsAt bitmap_region regions-FirstFit (omega arith) refl

zero_region_panics :
    pmm_init zero_regions 0 (λ a. 0) small
    ≡ panic "pmm_init: No usable region found for bitmap" (sized zero_regions 0 small)
unfolding find_region highest_addr page_count bitmap_size_from_frames
zero_region_panics = pmm_init_panics zero_regions 0 (λ a. 0) small refl
