-- ===== src/Memory/Pmm.antt =====
-- src/memory/pmm.c: the physical memory manager, one bit for each 4 KiB frame, 1 for allocated.
-- The bitmap's bytes are a function of the index; an access at or above `bitmap_size` is a fault.
pub mod State
pub mod Init
pub mod Free
pub mod Alloc
pub mod Marks
pub mod Rounds
pub mod History
mod Tests
pub mod Sizes
pub mod Runs
use rainstorm_os.Base.{
  ℕ, zero, suc, ◌+◌, ◌-◌, ◌*◌, ◌/◌, ◌%◌, ◌^◌, ◌≡◌, Bool, true, false, not, ◌||◌, Option, none, some,
  List, [], ◌∷◌, String, u64, ◌==◌, ltb, leb, if◌then◌else◌, Run, ok, panic, fault, Cmd, pure, get,
  put, ◌>>=◌, ◌>>◌,
}
use rainstorm_os.Base.Bytes.{bit_set, with_bit, without_bit}
use rainstorm_os.Memory.Mm.{page_size, page_count, is_page_aligned}
use rainstorm_os.Memory.Event.{Level, debug, info, warn, error, Event, event}

pub record Pmm : Type 0 where
  pub bitmap : ℕ → ℕ
  pub bitmap_start : ℕ
  pub bitmap_size : ℕ
  pub total_frames : ℕ
  pub hhdm_offset : ℕ
  pub log : List Event

abbrev pub Unit0 : Type 0
Unit0 = Unit {0}

abbrev pub update : (ℕ → ℕ) → ℕ → ℕ → ℕ → ℕ
update f i v j = if i == j then v else f j

-- `bitmap_start[i]`, read and written
pub load : ℕ → Cmd Pmm ℕ
load i s = if ltb i s.bitmap_size then ok (s.bitmap i) s else fault

pub store : ℕ → ℕ → Cmd Pmm Unit0
store i v s =
    if ltb i s.bitmap_size then ok tt (record s { bitmap = update s.bitmap i v }) else fault

unfoldable pub klog : Level → String → List ℕ → Cmd Pmm Unit0
klog l format args s = ok tt (record s { log = event l format args ∷ s.log })

abbrev pub kpanic : {A : Type 0} → String → Cmd Pmm A
kpanic message s = panic message s

unfoldable pub bitmap_size_from_frames : ℕ → ℕ
bitmap_size_from_frames frame_count = u64 (frame_count + 7) / 8

-- The bits of one byte that are left, from `bit` up; `none` when the loop ends or breaks.
pub alloc_bits : ℕ → (bit byte : ℕ) → Cmd Pmm (Option ℕ)
alloc_bits zero bit byte = pure none
alloc_bits (suc left) bit byte =
    let rest = alloc_bits left (bit + 1) byte in
    do
      s ← get
      if leb s.total_frames (u64 (byte * 8 + bit)) then pure none else do
        v ← load byte
        if bit_set v bit then rest else do
          store byte (with_bit v bit)
          pure (some (u64 (u64 (byte * 8 + bit) * page_size)))

pub alloc_bytes : ℕ → (byte : ℕ) → Cmd Pmm ℕ
alloc_bytes zero byte = kpanic "pmm_alloc_frame: out of memory"
alloc_bytes (suc left) byte =
    let rest = alloc_bytes left (byte + 1) in
    do
      v ← load byte
      if v == 0xff
          then rest
          else do r ← alloc_bits 8 0 byte; elim r [ none ↦ rest | some addr ↦ pure addr ]

pub alloc_frame : Cmd Pmm ℕ
alloc_frame = do s ← get; alloc_bytes s.bitmap_size 0

-- The marking of a run, `left` frames from `i` up.
pub mark_run : ℕ → (i : ℕ) → Cmd Pmm Unit0
mark_run zero i = pure tt
mark_run (suc left) i = do
  v ← load (i / 8)
  store (i / 8) (with_bit v (i % 8))
  mark_run left (i + 1)

pub scan_run : ℕ → (count frame run_start run_len : ℕ) → Cmd Pmm ℕ
scan_run zero count frame run_start run_len = kpanic "pmm_alloc_frames: out of contiguous memory"
scan_run (suc left) count frame run_start run_len =
    let start = if run_len == 0 then frame else run_start in
    let broken = scan_run left count (frame + 1) run_start 0 in
    let longer = scan_run left count (frame + 1) start (run_len + 1) in
    do
      v ← load (frame / 8)
      if bit_set v (frame % 8)
          then broken
          else if not (run_len + 1 == count)
          then longer
          else do mark_run count start; pure (u64 (start * page_size))

pub alloc_frames : ℕ → Cmd Pmm ℕ
alloc_frames count =
    if count == 0
    then pure 0
    else if count == 1
    then alloc_frame
    else do s ← get; scan_run s.total_frames count 0 0 0

pub free_frame : ℕ → Cmd Pmm Unit0
free_frame addr =
    if not (is_page_aligned addr)
    then klog error "pmm_free_frame: address 0x%llx is not page alligned" (addr ∷ [])
    else let frame = addr / page_size in
      do
        s ← get
        if leb s.total_frames frame
            then klog error
                "pmm_free_frame: address 0x%llx is not tracked by the physical memory manager"
                (addr ∷ [])
            else do
              v ← load (frame / 8)
              if not (bit_set v (frame % 8))
                  then klog warn "pmm_free_frame: attempting to free already free frame" []
                  else do w ← load (frame / 8); store (frame / 8) (without_bit w (frame % 8))

-- `i` counts up to `count`, `left` rounds from the end.
pub free_frames_loop : ℕ → (addr i : ℕ) → Cmd Pmm Unit0
free_frames_loop zero addr i = pure tt
free_frames_loop (suc left) addr i = do
  free_frame (u64 (addr + u64 (i * page_size)))
  free_frames_loop left addr (i + 1)

pub free_frames : ℕ → ℕ → Cmd Pmm Unit0
free_frames addr count = free_frames_loop count addr 0

pub mark_allocated : ℕ → Cmd Pmm Unit0
mark_allocated addr =
    if not (is_page_aligned addr)
    then klog error "pmm_mark_allocated: address 0x%llx is not page alligned" (addr ∷ [])
    else let frame = addr / page_size in
      do
        s ← get
        if leb s.total_frames frame
            then klog error
                "pmm_mark_allocated: address 0x%llx is not tracked by the physical memory manager"
                (addr ∷ [])
            else do v ← load (frame / 8); store (frame / 8) (with_bit v (frame % 8))

pub is_frame_free : ℕ → Cmd Pmm Bool
is_frame_free addr =
    if not (is_page_aligned addr)
    then (do
      klog error "pmm_is_frame_free: address 0x%llx is not page alligned" (addr ∷ [])
      pure false)
    else let frame = addr / page_size in
      do
        s ← get
        if leb s.total_frames frame
            then (do
              klog warn
                  "pmm_is_frame_free: address 0x%llx is not tracked by the physical memory manager"
                  (addr ∷ [])
              pure false)
            else do v ← load (frame / 8); pure (not (bit_set v (frame % 8)))

pub free_bits : ℕ → (bit byte free : ℕ) → Cmd Pmm ℕ
free_bits zero bit byte free = pure free
free_bits (suc left) bit byte free = do
  v ← load byte
  free_bits left (bit + 1) byte (if not (bit_set v bit) then u64 (free + 1) else free)

pub free_bytes : ℕ → (byte free : ℕ) → Cmd Pmm ℕ
free_bytes zero byte free = pure free
free_bytes (suc left) byte free =
    let rest = λ (n : ℕ). free_bytes left (byte + 1) n in
    do
      v ← load byte
      if v == 0
          then rest (u64 (free + 8))
          else if v == 0xff
          then rest free
          else do n ← free_bits 8 0 byte free; rest n

pub get_free_size : Cmd Pmm ℕ
get_free_size = do s ← get; free ← free_bytes s.bitmap_size 0 0; pure (u64 (free * page_size))

unfoldable pub get_total_size : Cmd Pmm ℕ
get_total_size = do s ← get; pure (u64 (s.total_frames * page_size))
