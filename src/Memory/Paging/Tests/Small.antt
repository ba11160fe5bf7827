-- ===== src/Memory/Paging/Tests/Small.antt =====
-- A machine of 16 frames, of which the first five are in use, with four tables and one mapped page.
use rainstorm_os.Base.{
  ℕ, suc, ◌+◌, ◌*◌, ◌/◌, ◌<◌, ◌≡◌, refl, true, arith, ◌==◌, if◌then◌else◌, ◌⊎◌, inl, inr, [],
}
use rainstorm_os.Memory.Pmm.{Pmm}
use rainstorm_os.Memory.Pmm.State.{IsValid, allocated}
use rainstorm_os.Memory.Paging.{Machine, present, target, slot}
use rainstorm_os.Base.Bytes.{bit_set}
use rainstorm_os.Memory.Paging.Entries.{present-zero}
use rainstorm_os.Memory.Paging.Tree.{IsTree}

-- 16 frames, of which the first five are in use.
abbrev pub frames : Pmm
frames = record {
  bitmap = λ i. if i == 0 then 0x1f else 0;
  bitmap_start = 0;
  bitmap_size = 2;
  total_frames = 16;
  hhdm_offset = 0;
  log = [];
}

pub frames-IsValid : IsValid frames
unfolding allocated
frames-IsValid = record {
  bytes = λ i. ground arith;
  size = refl;
  padding = λ f h k. absurd (omega arith);
  fits = omega arith;
}

abbrev pub words : ℕ → ℕ
words a =
    if a == 0x1000
    then 0x2003
    else if a == 0x2000
    then 0x3003
    else if a == 0x3000
    then 0x4003
    else if a == 0x4028
    then 0x9003
    else 0

abbrev pub machine : Machine
machine = record {
  pmm = frames;
  word = words;
  kernel_pml4_entries = λ i. 0;
  cr3 = 0x1000;
  nxe = true;
  invalidated = [];
}

abbrev pub levels : ℕ → ℕ
levels t =
    if t == 0x1000
    then 4
    else if t == 0x2000
    then 3
    else if t == 0x3000
    then 2
    else if t == 0x4000
    then 1
    else 0

abbrev pub paths : ℕ → ℕ
paths t = 0

level_cases : (t : ℕ) → 0 < levels t → (t ≡ 0x1000) ⊎ ((t ≡ 0x2000) ⊎ ((t ≡ 0x3000) ⊎ (t ≡ 0x4000)))
level_cases t h = ground arith

word_cases :
    (a : ℕ)
    → present (words a) ≡ true
    → (a ≡ 0x1000) ⊎ ((a ≡ 0x2000) ⊎ ((a ≡ 0x3000) ⊎ (a ≡ 0x4028)))
word_cases a h = ground (arith, present-zero)

-- The entries of the upper tables that are present are the first ones.
entry_cases :
    (t i : ℕ)
    → 1 < levels t
    → i < 512
    → present (words (slot t i)) ≡ true
    → ((t ≡ 0x1000) × (i ≡ 0)) ⊎ (((t ≡ 0x2000) × (i ≡ 0)) ⊎ ((t ≡ 0x3000) × (i ≡ 0)))
entry_cases t i h k p = ground (arith, level_cases t (omega arith), word_cases (slot t i) p)

tables_below :
    (t i : ℕ)
    → 1 < levels t
    → i < 512
    → present (words (slot t i)) ≡ true
    → suc (levels (target (words (slot t i)))) ≡ levels t
unfolding target
tables_below t i h k p = elim (entry_cases t i h k p) [
  | inl (e, e') ↦ rw (e, e') refl
  | inr (inl (e, e')) ↦ rw (e, e') refl
  | inr (inr (e, e')) ↦ rw (e, e') refl
]

tables_path :
    (t i : ℕ)
    → 1 < levels t
    → i < 512
    → present (words (slot t i)) ≡ true
    → paths (target (words (slot t i))) ≡ paths t * 512 + i
tables_path t i h k p = omega (arith, entry_cases t i h k p)

tables_taken : (t : ℕ) → 0 < levels t → allocated frames (t / 4096) ≡ true
unfolding allocated bit_set
tables_taken t h = elim (level_cases t h) [
  | inl e ↦ rw e refl
  | inr (inl e) ↦ rw e refl
  | inr (inr (inl e)) ↦ rw e refl
  | inr (inr (inr e)) ↦ rw e refl
]

pub machine-IsTree : IsTree machine 0x1000 levels paths
machine-IsTree = record {
  valid = frames-IsValid;
  small = omega arith;
  is_root = refl;
  root_path = refl;
  aligned = λ t h. ground (arith, level_cases t h);
  tracked = λ t h. ground (arith, level_cases t h);
  taken = tables_taken;
  below = tables_below;
  extends_path = tables_path;
}
