-- ===== src/Memory/Paging/Spaces/Create.antt =====
-- What `paging_create_pml4` and the switch to an address space leave.
use rainstorm_os.Base.{
  ℕ, zero, suc, ◌+◌, ◌-◌, ◌*◌, ◌/◌, ◌%◌, ◌≤◌, ◌<◌, ◌≡◌, refl, false, ◌&&◌, ◌||◌, ◌==◌, leb, ltb,
  arith, if◌then◌else◌, ◌∙◌, Run, ok, and_then, Ends, returns, panics, Returns, ◌>>◌, lt→ltb,
  Bool-cases, ◌⊎◌, inl, inr,
}
use rainstorm_os.Memory.Pmm
use rainstorm_os.Memory.Pmm.{Pmm, Unit0}
use rainstorm_os.Memory.Pmm.State.{
  allocated, IsValid, mark, mark-IsValid, mark-total, allocated-mark,
}
use rainstorm_os.Memory.Pmm.Alloc.{AllocResult, taken, exhausted, alloc_frame-AllocResult}
use rainstorm_os.Memory.Mm.{is_page_aligned_mod}
use rainstorm_os.Memory.Paging.{
  Machine, lifted, slot, set_word, write_entry, switch_pml4, get_current_pml4, switch_dir, klog,
}
use rainstorm_os.Memory.Paging.Grown.{OutOfMemory, with_word}
use rainstorm_os.Memory.Paging.Spaces.{clear_entries, share_entries, create_pml4}

-- Entries `i` to `i + left` of a table, set to what `f` gives.
set_entries : ℕ → (table i : ℕ) → (ℕ → ℕ) → (ℕ → ℕ) → ℕ → ℕ
set_entries zero table i f w = w
set_entries (suc left) table i f w =
    set_entries left table (i + 1) f (set_word w (slot table i) (f i))

set_entries_lem :
    (left table i : ℕ) (f w : ℕ → ℕ) (j : ℕ)
    → set_entries left table i f w (slot table j)
      ≡ (if leb i j && ltb j (i + left) then f j else w (slot table j))
unfolding set_entries
set_entries_lem zero table i f w j = ground arith
set_entries_lem (suc left) table i f w j =
    ground (arith, set_entries_lem left table (i + 1) f (set_word w (slot table i) (f i)) j)

set_entries_outside :
    (left table i : ℕ) (f w : ℕ → ℕ) (a : ℕ)
    → i + left ≤ 512
    → (a < table) ⊎ (table + 4096 ≤ a)
    → set_entries left table i f w a ≡ w a
unfolding set_entries
set_entries_outside zero table i f w a h out = refl
set_entries_outside (suc left) table i f w a h out = ground (
  arith,
  set_entries_outside left table (i + 1) f (set_word w (slot table i) (f i)) a (omega arith) out,
)

clear_entries_eq :
    (left table i : ℕ) (m : Machine)
    → table / 4096 < m.pmm.total_frames
    → clear_entries left table i m ≡ ok tt (with_word m (set_entries left table i (λ j. 0) m.word))
unfolding clear_entries set_entries write_entry
clear_entries_eq zero table i m h = refl
clear_entries_eq (suc left) table i m h =
    rw (lt→ltb (table / 4096) m.pmm.total_frames h)
      (clear_entries_eq left table (i + 1) (with_word m (set_word m.word (slot table i) 0)) h)

share_entries_eq :
    (left table i : ℕ) (m : Machine)
    → table / 4096 < m.pmm.total_frames
    → share_entries left table i m
      ≡ ok tt (
          with_word m
            (set_entries left table (i + 256) (λ j. m.kernel_pml4_entries (j - 256)) m.word))
unfolding share_entries set_entries write_entry
share_entries_eq zero table i m h = refl
share_entries_eq (suc left) table i m h =
    let this : i + 256 - 256 ≡ i = omega arith in
    let next : i + 256 + 1 ≡ i + 1 + 256 = omega arith in
    rw (lt→ltb (table / 4096) m.pmm.total_frames h, this, next)
      (share_entries_eq left table (i + 1)
        (with_word m (set_word m.word (slot table (i + 256)) (m.kernel_pml4_entries i))) h)

-- A new address space at `pml4`: the frame was free, it is allocated, its lower half is empty, its
-- upper half is the kernel's, and no word outside it is changed.
pub record IsCreated (m : Machine) (pml4 : ℕ) (m' : Machine) : Type 0 where
  pub valid : IsValid m'.pmm
  pub total : m'.pmm.total_frames ≡ m.pmm.total_frames
  pub tracked : pml4 / 4096 < m.pmm.total_frames
  pub aligned : pml4 % 4096 ≡ 0
  pub free : allocated m.pmm (pml4 / 4096) ≡ false
  pub frames : (g : ℕ) → allocated m'.pmm g ≡ ((pml4 / 4096 == g) || allocated m.pmm g)
  pub empty : (i : ℕ) → i < 256 → m'.word (slot pml4 i) ≡ 0
  pub shared : (i : ℕ) → i < 256 → m'.word (slot pml4 (i + 256)) ≡ m.kernel_pml4_entries i
  pub outside : (a : ℕ) → (a < pml4) ⊎ (pml4 + 4096 ≤ a) → m'.word a ≡ m.word a

module _ (m : Machine) (v : IsValid m.pmm) where
  kernel_half : ℕ → ℕ
  kernel_half j = m.kernel_pml4_entries (j - 256)

  filled : ℕ → ℕ → ℕ
  filled pml4 = set_entries 256 pml4 256 kernel_half (set_entries 256 pml4 0 (λ j. 0) m.word)

  lower_half : (pml4 i : ℕ) → i < 256 → filled pml4 (slot pml4 i) ≡ 0
  unfolding filled
  lower_half pml4 i h = ground (
    arith,
    set_entries_lem 256 pml4 256 kernel_half (set_entries 256 pml4 0 (λ j. 0) m.word) i,
    set_entries_lem 256 pml4 0 (λ j. 0) m.word i,
  )

  upper_half : (pml4 i : ℕ) → i < 256 → filled pml4 (slot pml4 (i + 256)) ≡ m.kernel_pml4_entries i
  unfolding filled kernel_half
  upper_half pml4 i h =
      let index : i + 256 - 256 ≡ i = omega arith in
      ground (
        arith,
        set_entries_lem 256 pml4 256 kernel_half (set_entries 256 pml4 0 (λ j. 0) m.word) (i + 256),
        index,
      )

  untouched : (pml4 a : ℕ) → (a < pml4) ⊎ (pml4 + 4096 ≤ a) → filled pml4 a ≡ m.word a
  unfolding filled
  untouched pml4 a out =
      set_entries_outside 256 pml4 256 kernel_half (set_entries 256 pml4 0 (λ j. 0) m.word) a
        (omega arith) out
      ∙ set_entries_outside 256 pml4 0 (λ j. 0) m.word a (omega arith) out

  frame_of : (f : ℕ) → f * 4096 / 4096 ≡ f
  frame_of f = omega arith

  filled_eq :
      (f : ℕ)
      → f < m.pmm.total_frames
      → and_then
          (lifted m (ok (f * 4096) (mark m.pmm f)))
          (λ pml4. clear_entries 256 pml4 0 >> (share_entries 256 pml4 0 >> (λ n. ok pml4 n)))
        ≡ ok (f * 4096) (record m { pmm = mark m.pmm f; word = filled (f * 4096) })
  unfolding lifted filled kernel_half
  filled_eq f h =
      let tracked : f * 4096 / 4096 < (mark m.pmm f).total_frames =
        omega (arith, mark-total m.pmm f) in
      rw (clear_entries_eq 256 (f * 4096) 0 (record m { pmm = mark m.pmm f }) tracked) (
        rw
          (share_entries_eq 256 (f * 4096) 0
            (record m { pmm = mark m.pmm f; word = set_entries 256 (f * 4096) 0 (λ j. 0) m.word })
            tracked)
          refl)

  create_after :
      {r : Run Pmm ℕ}
      → AllocResult m.pmm r
      → Ends
          (λ pml4 m'. IsCreated m pml4 m')
          OutOfMemory
          (and_then
            (lifted m r)
            (λ pml4. clear_entries 256 pml4 0 >> (share_entries 256 pml4 0 >> (λ n. ok pml4 n))))
  create_after (taken f in_ram unused below) = rw (filled_eq f in_ram) (
      returns (record {
        valid = mark-IsValid v f;
        total = mark-total m.pmm f;
        tracked = omega arith;
        aligned = omega arith;
        free = rw (frame_of f) unused;
        frames = λ g. rw (frame_of f) (allocated-mark v f g);
        empty = λ i h. lower_half (f * 4096) i h;
        shared = λ i h. upper_half (f * 4096) i h;
        outside = untouched (f * 4096);
      }))
  create_after (exhausted all) = unfold lifted in panics all

  -- Where the physical memory manager is valid, `paging_create_pml4` returns a frame that was free,
  -- now allocated, whose lower half is empty and whose upper half is the kernel's; it changes no
  -- other word and no other frame; or it panics with no frame free.
  pub create_pml4-IsCreated : Ends (λ pml4 m'. IsCreated m pml4 m') OutOfMemory (create_pml4 m)
  unfolding create_pml4
  create_pml4-IsCreated = create_after (alloc_frame-AllocResult v)

-- After `paging_switch_pml4`, `paging_get_current_pml4` answers the new address if it is a multiple
-- of the page size, and otherwise the old one; no word and no frame changes.
pub get_current_pml4-switch_pml4 :
    (pml4 : ℕ) (m : Machine)
    → Returns
        (λ current m'.
          (current ≡ (if pml4 % 4096 == 0 then pml4 else m.cr3))
          × (m'.word ≡ m.word)
          × ((f : ℕ) → allocated m'.pmm f ≡ allocated m.pmm f))
        ((switch_pml4 pml4 >> get_current_pml4) m)
unfolding switch_pml4 get_current_pml4 switch_dir
get_current_pml4-switch_pml4 pml4 m = elim (Bool-cases (pml4 % 4096 == 0)) [
  | inl al ↦ rw (is_page_aligned_mod pml4, al) (returns (refl, refl, λ f. refl))
  | inr un ↦
      unfold klog lifted Pmm.klog allocated in
      rw (is_page_aligned_mod pml4, un) (returns (refl, refl, λ f. refl))
]
