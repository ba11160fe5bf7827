-- ===== src/Memory/Pmm/Runs.antt =====
-- `pmm_alloc_frames`: the lowest run of free frames, marked as one.
use rainstorm_os.Base.{
  ℕ, zero, suc, ◌+◌, ◌*◌, ◌≤◌, ◌<◌, ◌≡◌, ◌≢◌, refl, true, false, ◌&&◌, ◌||◌, arith, leb, ltb, ◌==◌,
  if◌then◌else◌, Run, ok, panic, Bool-cases, inl, inr, ==_iff, pure, dec_lt, ◌∙◌, u64, ◌>>◌, Bool,
}
use rainstorm_os.Memory.Pmm.{Pmm, load, store, mark_run, scan_run, alloc_frames}
use rainstorm_os.Memory.Pmm.State.{
  in_bitmap, allocated, IsValid, mark, allocated-mark, mark-IsValid,
}

pub mark_all : ℕ → ℕ → Pmm → Pmm
mark_all zero i s = s
mark_all (suc n) i s = mark_all n (i + 1) (mark s i)

unfoldable pub within : ℕ → ℕ → ℕ → Bool
within i n g = leb i g && ltb g (i + n)

pub mark_all-total : (n i : ℕ) (s : Pmm) → (mark_all n i s).total_frames ≡ s.total_frames
unfolding mark_all mark
mark_all-total zero i s = refl
mark_all-total (suc n) i s = mark_all-total n (i + 1) (mark s i)

pub mark_all-IsValid : (n i : ℕ) {s : Pmm} → IsValid s → IsValid (mark_all n i s)
unfolding mark_all
mark_all-IsValid zero i v = v
mark_all-IsValid (suc n) i v = mark_all-IsValid n (i + 1) (mark-IsValid v i)

pub allocated-mark_all :
    (n i : ℕ) {s : Pmm}
    → IsValid s
    → (g : ℕ) → allocated (mark_all n i s) g ≡ (within i n g || allocated s g)
unfolding mark_all within
allocated-mark_all zero i v g = ground arith
allocated-mark_all (suc n) i v g =
    ground (arith, allocated-mark_all n (i + 1) (mark-IsValid v i) g, allocated-mark v i g)

mark_run-suc :
    (n i : ℕ) {s : Pmm}
    → IsValid s
    → i < s.total_frames
    → mark_run (suc n) i s ≡ mark_run n (i + 1) (mark s i)
unfolding mark_run load store mark
mark_run-suc n i v h = ground (arith, in_bitmap v i h)

pub mark_run-mark_all :
    (n i : ℕ) {s : Pmm}
    → IsValid s
    → i + n ≤ s.total_frames
    → mark_run n i s ≡ ok tt (mark_all n i s)
unfolding mark_all
mark_run-mark_all zero i v h = unfold mark_run in refl
mark_run-mark_all (suc n) i {s} v h =
    mark_run-suc n i v (omega arith)
    ∙ mark_run-mark_all n (i + 1) (mark-IsValid v i) (unfold mark in omega arith)

-- A run of `count` frames from `a` up is blocked by an allocated frame in it.
abbrev pub Blocked : Pmm → ℕ → ℕ → Type 0
Blocked s count a = (g : ℕ) × (a ≤ g) × (g < a + count) × (allocated s g ≡ true)

abbrev pub AllFree : Pmm → ℕ → ℕ → Type 0
AllFree s from to = (g : ℕ) → from ≤ g → g < to → allocated s g ≡ false

-- `pmm_alloc_frames` takes the lowest run of `count` free frames, or panics as there is none.
pub data RunResult (s : Pmm) (count : ℕ) : Run Pmm ℕ → Type 0 where
  taken :
      (start : ℕ)
      → start + count ≤ s.total_frames
      → AllFree s start (start + count)
      → ((a : ℕ) → a < start → Blocked s count a)
      → RunResult s count (ok (start * 4096) (mark_all count start s))
  exhausted :
      ((a : ℕ) → a + count ≤ s.total_frames → Blocked s count a)
      → RunResult s count (panic "pmm_alloc_frames: out of contiguous memory" s)

-- The state of the scan before `frame`: the current run begins at `base` and cannot be extended
-- downwards, and no run below it is free.
record IsScanned (s : Pmm) (count base frame run_start run_len : ℕ) : Type 0 where
  length : base + run_len ≡ frame
  short : run_len < count
  begins : (if run_len == 0 then frame else run_start) ≡ base
  free : AllFree s base frame
  blocked : (a : ℕ) → a < base → Blocked s count a

module _ {s : Pmm} (v : IsValid s) (count : ℕ) where
  IsScanned-broken :
      {base frame run_start run_len : ℕ}
      → IsScanned s count base frame run_start run_len
      → allocated s frame ≡ true
      → IsScanned s count (frame + 1) (frame + 1) run_start 0
  IsScanned-broken {base} {frame} i used = record {
    length = omega arith;
    short = omega (arith, i.short);
    begins = refl;
    free = λ g h k. absurd (omega arith);
    blocked = λ a h. elim (dec_lt a base) [
      | yes p ↦ i.blocked a p
      | no p ↦ (frame, omega arith, omega (arith, i.length, i.short), used)
    ];
  }

  IsScanned-longer :
      {base frame run_start run_len : ℕ}
      → IsScanned s count base frame run_start run_len
      → allocated s frame ≡ false
      → run_len + 1 ≢ count
      → IsScanned s count base (frame + 1) (if run_len == 0 then frame else run_start) (run_len + 1)
  IsScanned-longer {base} {frame} {run_start} {run_len} i free more = record {
    length = omega (arith, i.length);
    short = omega (arith, i.short);
    begins = ground (arith, i.begins);
    free = λ g h k. ground (arith, i.free g);
    blocked = i.blocked;
  }

  scan_run-suc :
      (left frame run_start run_len : ℕ)
      → frame < s.total_frames
      → run_len < frame + 1
      → scan_run (suc left) count frame run_start run_len s ≡ (
          if allocated s frame
          then scan_run left count (frame + 1) run_start 0 s
          else if run_len + 1 == count
          then (mark_run count (if run_len == 0 then frame else run_start)
                >> pure (u64 ((if run_len == 0 then frame else run_start) * 4096)))
              s
          else scan_run left count
              (frame + 1)
              (if run_len == 0 then frame else run_start)
              (run_len + 1)
              s)
  unfolding scan_run load allocated
  scan_run-suc left frame run_start run_len h k = ground (arith, in_bitmap v frame h)

  take_run :
      {base frame run_start run_len : ℕ}
      → IsScanned s count base frame run_start run_len
      → frame < s.total_frames
      → allocated s frame ≡ false
      → run_len + 1 ≡ count
      → RunResult s count (
          (mark_run count (if run_len == 0 then frame else run_start)
              >> pure (u64 ((if run_len == 0 then frame else run_start) * 4096)))
            s)
  take_run {base} {frame} i h free full =
      let e : u64 (base * 4096) ≡ base * 4096 = omega (arith, v.fits, i.length) in
      rw (i.begins, mark_run-mark_all count base v (omega (arith, i.length)), e)
        (taken base (omega (arith, i.length)) (λ g p q. ground (arith, i.free g, i.length))
          i.blocked)

  scan_run-RunResult :
      (left : ℕ) {base frame run_start run_len : ℕ}
      → frame + left ≡ s.total_frames
      → IsScanned s count base frame run_start run_len
      → RunResult s count (scan_run left count frame run_start run_len s)
  scan_run-RunResult zero e i =
      unfold scan_run in exhausted λ a h. i.blocked a (omega (arith, i.length, i.short))
  scan_run-RunResult (suc left) {base} {frame} {run_start} {run_len} e i =
      rw (scan_run-suc left frame run_start run_len (omega arith) (omega (arith, i.length)))
        (elim (Bool-cases (allocated s frame)) [
          | inl used ↦ rw used (scan_run-RunResult left (omega arith) (IsScanned-broken i used))
          | inr free ↦ rw free (elim (Bool-cases (run_len + 1 == count)) [
            | inl full ↦ rw full (take_run i (omega arith) free ((==_iff _ _).0 full))
            | inr more ↦
                rw more
                  (scan_run-RunResult left (omega arith) (IsScanned-longer i free (ground arith)))
          ])
        ])

  -- Called for two frames or more in a valid state, `pmm_alloc_frames` stays inside the bitmap;
  -- it returns the lowest run of that many free frames, all marked, or panics as there is none.
  pub alloc_frames-RunResult : 2 ≤ count → RunResult s count (alloc_frames count s)
  alloc_frames-RunResult h = rw enters (
      scan_run-RunResult s.total_frames (omega arith) (record {
        length = omega arith;
        short = omega arith;
        begins = refl;
        free = λ g p q. absurd (omega arith);
        blocked = λ a p. absurd (omega arith);
      }))
    where
      enters : alloc_frames count s ≡ scan_run s.total_frames count 0 0 0 s
      enters = unfold alloc_frames in ground arith

pub within_range : (start n g : ℕ) → within start n g ≡ (leb start g && ltb g (start + n))
unfolding within
within_range start n g = refl
