-- ===== src/Memory/Pmm/History.antt =====
-- The frame manager through a history of calls: which frames are in use, and that none is given out
-- twice.
use rainstorm_os.Base.{
  ℕ, zero, suc, ◌+◌, ◌-◌, ◌*◌, ◌/◌, ◌≤◌, ◌<◌, ◌≡◌, refl, Bool, true, false, not, ◌&&◌, ◌||◌, List,
  [], ◌∷◌, arith, ◌∙◌, ◌==◌, if◌then◌else◌, Run, ok, Bool-cases, inl, inr,
}
use rainstorm_os.Memory.Pmm.{Pmm, alloc_frame, alloc_frames, free_frame, free_frames}
use rainstorm_os.Memory.Pmm.State.{
  allocated, IsValid, mark, allocated-mark, mark-total, mark-IsValid,
}
use rainstorm_os.Memory.Pmm.Alloc.{AllocResult, alloc_frame-AllocResult}
use rainstorm_os.Memory.Pmm.Runs.{
  RunResult, mark_all, within, within_range, mark_all-total, mark_all-IsValid, allocated-mark_all,
  alloc_frames-RunResult,
}
use rainstorm_os.Memory.Pmm.Free.{
  freed, free_frame-freed, allocated-freed, freed-total, freed-IsValid, free_frames_lem,
}

-- The frames that are given out, as a list.
unfoldable pub holds : List ℕ → ℕ → Bool
holds [] g = false
holds (f ∷ fs) g = (f == g) || holds fs g

unfoldable pub without : ℕ → List ℕ → List ℕ
without f [] = []
without f (g ∷ gs) = let rest = without f gs in if f == g then rest else g ∷ rest

-- `count` frames from `start` up, put before a list; or taken out of it.
unfoldable pub with_run : (count start : ℕ) → List ℕ → List ℕ
with_run zero start fs = fs
with_run (suc count) start fs = start ∷ with_run count (start + 1) fs

unfoldable pub without_run : (count start : ℕ) → List ℕ → List ℕ
without_run zero start fs = fs
without_run (suc count) start fs = without_run count (start + 1) (without start fs)

unfoldable pub Distinct : List ℕ → Type 0
Distinct [] = Unit {0}
Distinct (f ∷ fs) = (holds fs f ≡ false) × Distinct fs

-- One call: an allocation that returns, or a caller that gives back what it has.
pub data Step : (s : Pmm) (live : List ℕ) (t : Pmm) (live' : List ℕ) → Type 0 where
  allocates :
      {s t : Pmm} {live : List ℕ} {addr : ℕ}
      → alloc_frame s ≡ ok addr t
      → Step s live t (addr / 4096 ∷ live)
  allocates_run :
      {s t : Pmm} {live : List ℕ} {addr : ℕ} (count : ℕ)
      → 2 ≤ count
      → alloc_frames count s ≡ ok addr t
      → Step s live t (with_run count (addr / 4096) live)
  frees :
      {s t : Pmm} {live : List ℕ} (f : ℕ)
      → holds live f ≡ true
      → free_frame (f * 4096) s ≡ ok tt t
      → Step s live t (without f live)
  frees_run :
      {s t : Pmm} {live : List ℕ} (count start : ℕ)
      → 0 < count
      → ((g : ℕ) → within start count g ≡ true → holds live g ≡ true)
      → free_frames (start * 4096) count s ≡ ok tt t
      → Step s live t (without_run count start live)

pub data Reached (s0 : Pmm) : (s : Pmm) (live : List ℕ) → Type 0 where
  at_first : Reached s0 s0 []
  next :
      {s t : Pmm} {live live' : List ℕ}
      → Reached s0 s live
      → Step s live t live'
      → Reached s0 t live'

holds-without :
    (f : ℕ) (fs : List ℕ) (g : ℕ) → holds (without f fs) g ≡ (not (f == g) && holds fs g)
unfolding holds without
holds-without f [] g = ground arith
holds-without f (h ∷ fs) g = elim (Bool-cases (f == h)) [
  | inl e ↦ rw e (ground (arith, holds-without f fs g, e))
  | inr ne ↦ rw ne (ground (arith, holds-without f fs g, ne))
]

Distinct-without : (f : ℕ) (fs : List ℕ) → Distinct fs → Distinct (without f fs)
unfolding Distinct without
Distinct-without f [] d = d
Distinct-without f (h ∷ fs) (fresh, d) = elim (Bool-cases (f == h)) [
  | inl e ↦ rw e (Distinct-without f fs d)
  | inr ne ↦ rw ne ((ground (arith, holds-without f fs h, fresh), Distinct-without f fs d))
]

holds-with_run :
    (count start : ℕ) (fs : List ℕ) (g : ℕ)
    → holds (with_run count start fs) g ≡ (within start count g || holds fs g)
unfolding holds with_run within
holds-with_run zero start fs g = ground arith
holds-with_run (suc count) start fs g = ground (arith, holds-with_run count (start + 1) fs g)

Distinct-with_run :
    (count start : ℕ) (fs : List ℕ)
    → ((g : ℕ) → within start count g ≡ true → holds fs g ≡ false)
    → Distinct fs
    → Distinct (with_run count start fs)
unfolding Distinct with_run within
Distinct-with_run zero start fs fresh d = d
Distinct-with_run (suc count) start fs fresh d = (
  ground (arith, holds-with_run count (start + 1) fs start, fresh start),
  Distinct-with_run count (start + 1) fs (λ g h. ground (arith, fresh g, h)) d,
)

holds-without_run :
    (count start : ℕ) (fs : List ℕ) (g : ℕ)
    → holds (without_run count start fs) g ≡ (not (within start count g) && holds fs g)
unfolding without_run within
holds-without_run zero start fs g = ground arith
holds-without_run (suc count) start fs g =
    ground
      (arith, holds-without_run count (start + 1) (without start fs) g, holds-without start fs g)

Distinct-without_run :
    (count start : ℕ) (fs : List ℕ) → Distinct fs → Distinct (without_run count start fs)
unfolding without_run
Distinct-without_run zero start fs d = d
Distinct-without_run (suc count) start fs d =
    Distinct-without_run count (start + 1) _ (Distinct-without start fs d)

-- After a history from `s0` on, with the frames `live` given out: each of them is tracked, was free
-- at the start and is listed once, and the frames in use are those and the ones of the start.
pub record Accounted (s0 s : Pmm) (live : List ℕ) : Type 0 where
  pub valid : IsValid s
  pub total : s.total_frames ≡ s0.total_frames
  pub distinct : Distinct live
  pub in_ram : (g : ℕ) → holds live g ≡ true → g < s0.total_frames
  pub was_free : (g : ℕ) → holds live g ≡ true → allocated s0 g ≡ false
  pub in_use : (g : ℕ) → allocated s g ≡ (allocated s0 g || holds live g)

module _ {s0 s : Pmm} {live : List ℕ} (acc : Accounted s0 s live) where
  after_alloc :
      {addr : ℕ} {t : Pmm} {r : Run Pmm ℕ}
      → AllocResult s r
      → r ≡ ok addr t
      → Accounted s0 t (addr / 4096 ∷ live)
  unfolding holds Distinct
  after_alloc {addr} {t} (AllocResult.taken f h free below) e =
      let at : f * 4096 ≡ addr = cc in
      let after : mark s f ≡ t = cc in
      let frame : addr / 4096 ≡ f = omega (arith, at) in
      rw (← after, frame)
        (record {
          valid = mark-IsValid acc.valid f;
          total = mark-total s f ∙ acc.total;
          distinct = (ground (arith, acc.in_use f, free), acc.distinct);
          in_ram = λ g k. ground (arith, acc.in_ram g, acc.total, h, k);
          was_free = λ g k. ground (arith, acc.was_free g, acc.in_use g, free, k);
          in_use = λ g. ground (arith, allocated-mark acc.valid f g, acc.in_use g);
        })
  after_alloc (AllocResult.exhausted all) e = cc

  after_run :
      (count : ℕ) {addr : ℕ} {t : Pmm} {r : Run Pmm ℕ}
      → RunResult s count r
      → r ≡ ok addr t
      → Accounted s0 t (with_run count (addr / 4096) live)
  after_run count {addr} {t} (RunResult.taken start h free low) e =
      let at : start * 4096 ≡ addr = cc in
      let after : mark_all count start s ≡ t = cc in
      let frame : addr / 4096 ≡ start = omega (arith, at) in
      rw (← after, frame)
        (record {
          valid = mark_all-IsValid count start acc.valid;
          total = mark_all-total count start s ∙ acc.total;
          distinct =
              Distinct-with_run count start live
                (λ g k. ground (arith, acc.in_use g, free g, within_range start count g, k))
                acc.distinct;
          in_ram = λ g k. ground (
            arith,
            acc.in_ram g,
            acc.total,
            h,
            k,
            holds-with_run count start live g,
            within_range start count g,
          );
          was_free = λ g k. ground (
            arith,
            acc.was_free g,
            acc.in_use g,
            free g,
            k,
            holds-with_run count start live g,
            within_range start count g,
          );
          in_use = λ g. ground (
            arith,
            allocated-mark_all count start acc.valid g,
            acc.in_use g,
            holds-with_run count start live g,
          );
        })
  after_run count (RunResult.exhausted none_free) e = cc

  after_free :
      (f : ℕ) {t : Pmm}
      → holds live f ≡ true
      → free_frame (f * 4096) s ≡ ok tt t
      → Accounted s0 t (without f live)
  after_free f {t} mine e =
      let done = free_frame-freed acc.valid (f * 4096) in
      let after : freed s (f * 4096) ≡ t = cc in
      let tracked = acc.in_ram f mine in
      rw (← after) (record {
        valid = freed-IsValid acc.valid (f * 4096);
        total = freed-total acc.valid (f * 4096) ∙ acc.total;
        distinct = Distinct-without f live acc.distinct;
        in_ram = λ g k. acc.in_ram g (ground (arith, holds-without f live g, k));
        was_free = λ g k. acc.was_free g (ground (arith, holds-without f live g, k));
        in_use = λ g. ground (
          arith,
          allocated-freed acc.valid (f * 4096) g,
          acc.in_use g,
          holds-without f live g,
          acc.total,
          tracked,
          acc.was_free f mine,
        );
      })

  after_free_run :
      (count start : ℕ) {t : Pmm}
      → 0 < count
      → ((g : ℕ) → within start count g ≡ true → holds live g ≡ true)
      → free_frames (start * 4096) count s ≡ ok tt t
      → Accounted s0 t (without_run count start live)
  after_free_run count start {t} some mine e =
      let last = start + (count - 1) in
      let tracked : last < s0.total_frames =
        acc.in_ram last (mine last (ground (arith, within_range start count last, some))) in
      let done = free_frames_lem start count acc.valid (omega (arith, tracked, acc.total, some)) in
      let after : done.0 ≡ t = cc in
      rw (← after) (record {
        valid = done.2;
        total = done.4 ∙ acc.total;
        distinct = Distinct-without_run count start live acc.distinct;
        in_ram = λ g k. acc.in_ram g (ground (arith, holds-without_run count start live g, k));
        was_free = λ g k. acc.was_free g (ground (arith, holds-without_run count start live g, k));
        in_use = λ g. ground (
          arith,
          done.3 g,
          acc.in_use g,
          holds-without_run count start live g,
          acc.was_free g,
          mine g,
        );
      })

  Step-Accounted : {t : Pmm} {live' : List ℕ} → Step s live t live' → Accounted s0 t live'
  Step-Accounted (allocates e) = after_alloc (alloc_frame-AllocResult acc.valid) e
  Step-Accounted (allocates_run count two e) =
      after_run count (alloc_frames-RunResult acc.valid count two) e
  Step-Accounted (frees f mine e) = after_free f mine e
  Step-Accounted (frees_run count start some mine e) = after_free_run count start some mine e

-- From a valid state on, through any calls of `pmm_alloc_frame`, of `pmm_alloc_frames` for two
-- frames or more, and of `pmm_free_frame` and `pmm_free_frames` for frames that the caller has: the
-- frames given out are tracked, were free at the start, and none is given out twice; exactly they
-- and the frames in use at the start are in use.
pub Reached-Accounted :
    {s0 s : Pmm} {live : List ℕ} → IsValid s0 → Reached s0 s live → Accounted s0 s live
unfolding holds Distinct
Reached-Accounted v at_first = record {
  valid = v;
  total = refl;
  distinct = tt;
  in_ram = λ g h. absurd (ground (arith, h));
  was_free = λ g h. absurd (ground (arith, h));
  in_use = λ g. ground arith;
}
Reached-Accounted v (next r step) = Step-Accounted (Reached-Accounted v r) step
