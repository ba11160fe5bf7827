-- ===== src/Kernel/Question.antt =====
-- A question about a frame leaves the frames and the tables as they are.
use rainstorm_os.Base.{
  ℕ, ◌/◌, ◌%◌, ◌≡◌, refl, not, ◌&&◌, List, ◌==◌, leb, Returns, returns, inl, inr, Bool-cases,
}
use rainstorm_os.Memory.Event.{Event}
use rainstorm_os.Memory.Pmm.{Pmm, is_frame_free}
use rainstorm_os.Memory.Pmm.State.{
  allocated, IsValid, accepts, logged, logged-IsValid, allocated-logged,
}
use rainstorm_os.Memory.Pmm.Marks.{is_frame_free_lem}
use rainstorm_os.Memory.Paging.{Machine}
use rainstorm_os.Memory.Paging.Leaf.{SamePmm}
use rainstorm_os.Memory.Paging.Spaces.Regions.{Region, IsMapped}
use rainstorm_os.Memory.Paging.Spaces.Init.{IsTree-same}

logged-Same : {p : Pmm} (e : Event) → IsValid p → SamePmm (logged p e) p
unfolding logged
logged-Same {p} e v = record {
  valid = logged-IsValid v e;
  total = refl;
  frames = λ f. allocated-logged p e f;
}

pmm-Same : {p : Pmm} → IsValid p → SamePmm p p
pmm-Same v = record { valid = v; total = refl; frames = λ f. refl }

-- A question about a frame changes no frame.
pub is_frame_free-Same :
    {p : Pmm} (v : IsValid p) (addr : ℕ)
    → Returns
        (λ free p'. (free ≡ (accepts p addr && not (allocated p (addr / 4096)))) × SamePmm p' p)
        (is_frame_free addr p)
is_frame_free-Same {p} v addr =
    rw (is_frame_free_lem v addr) (elim (Bool-cases (addr % 4096 == 0)) [
      | inr e ↦ rw e (returns (refl, logged-Same _ v))
      | inl e ↦ rw e (elim (Bool-cases (leb p.total_frames (addr / 4096))) [
        | inl e' ↦ rw e' (returns (refl, logged-Same _ v))
        | inr e' ↦ rw e' (returns (refl, pmm-Same v))
      ])
    ])

pub IsMapped-same :
    {root : ℕ} {rs : List Region} (m : Machine) {p : Pmm}
    → IsMapped root rs m
    → SamePmm p m.pmm
    → IsMapped root rs (record m { pmm = p })
IsMapped-same m mapped same = record {
  level' = mapped.level';
  path' = mapped.path';
  tree = IsTree-same mapped.tree refl same;
  translates = mapped.translates;
}
