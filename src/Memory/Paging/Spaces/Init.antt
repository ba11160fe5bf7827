-- ===== src/Memory/Paging/Spaces/Init.antt =====
-- What `paging_init` leaves.
use mathlib.Core.Path.{ap₂, subst}
use rainstorm_os.Base.{
  ℕ, zero, suc, ◌+◌, ◌*◌, ◌/◌, ◌^◌, ◌≤◌, ◌<◌, ◌≡◌, refl, bit_or, true, List, [], ◌∷◌, arith, ◌∙◌,
  ap, sym, Run, ok, and_then, Ends, Ends-and_then, returns, panics, Returns, Ends-mono, ◌>>=◌, ◌>>◌,
  lt→ltb, u64, pure, get,
}
use rainstorm_os.Memory.Event.{debug}
use rainstorm_os.Memory.Pmm
use rainstorm_os.Memory.Pmm.{Pmm, Unit0, alloc_frame}
use rainstorm_os.Memory.Pmm.State.{
  allocated, IsValid, mark, logged, logged-IsValid, allocated-logged,
}
use rainstorm_os.Memory.Pmm.Alloc.{AllocResult, taken, exhausted, alloc_frame-AllocResult}
use rainstorm_os.Memory.Paging.{
  Machine, lift, lifted, klog, slot, read_entry, clear_page, switch_dir, map_range, page_present,
  page_writable, page_global, page_no_execute,
}
use rainstorm_os.Memory.Paging.Tree.{IsTree, lookup}
use rainstorm_os.Memory.Paging.Grown.{OutOfMemory}
use rainstorm_os.Memory.Paging.Leaf.{SamePmm}
use rainstorm_os.Memory.Paging.Spaces.{
  SegmentInfo, sub64, fill_kernel, map_segment, save_entries, enable_nxe, paging_init,
}
use rainstorm_os.Memory.Paging.Spaces.Fill.{IsFilled, blank, blank-IsFilled, fill_kernel-IsFilled}
use rainstorm_os.Memory.Paging.Spaces.Regions.{
  Region, Fits, IsMapped, translation, map_range-IsMapped,
}

-- The direct map of all tracked frames.
abbrev pub direct_map : Pmm → Region
direct_map p = record {
  virt = p.hhdm_offset;
  phys = 0;
  size = u64 (p.total_frames * 4096);
  flags = bit_or (bit_or (bit_or page_writable page_global) page_no_execute) page_present;
}

-- A part of the kernel's image: its place in physical memory follows from where it was linked.
abbrev pub image : (kernel_phys kernel_virt start end flags : ℕ) → Region
image kernel_phys kernel_virt start end flags = record {
  virt = start;
  phys = u64 (sub64 start kernel_virt + kernel_phys);
  size = sub64 end start;
  flags = flags;
}

-- What the kernel's address space maps, the last first.
abbrev pub kernel_regions : (kernel_phys kernel_virt : ℕ) → SegmentInfo → Pmm → List Region
kernel_regions kernel_phys kernel_virt seg p =
    image kernel_phys kernel_virt seg.data_start seg.data_end
      (bit_or (bit_or (bit_or page_global page_no_execute) page_writable) page_present)
    ∷ image kernel_phys kernel_virt seg.rodata_start seg.rodata_end
        (bit_or (bit_or page_global page_no_execute) page_present)
    ∷ image kernel_phys kernel_virt seg.text_start seg.text_end (bit_or page_global page_present)
    ∷ image kernel_phys kernel_virt seg.limine_start seg.limine_end
        (bit_or (bit_or page_global page_no_execute) page_present)
    ∷ direct_map p
    ∷ []

abbrev pub AllFit : List Region → Type 0
AllFit [] = Unit {0}
AllFit (r ∷ rs) = Fits r × AllFit rs

-- The same words and frames make the same tree.
pub IsTree-same :
    {m m' : Machine} {root : ℕ} {level path : ℕ → ℕ}
    → IsTree m root level path
    → m'.word ≡ m.word
    → SamePmm m'.pmm m.pmm
    → IsTree m' root level path
IsTree-same tree words pmm = record {
  valid = pmm.valid;
  small = rw pmm.total tree.small;
  is_root = tree.is_root;
  root_path = tree.root_path;
  aligned = tree.aligned;
  tracked = λ t h. rw pmm.total (tree.tracked t h);
  taken = λ t h. pmm.frames (t / 4096) ∙ tree.taken t h;
  below = rw words tree.below;
  extends_path = rw words tree.extends_path;
}

-- `paging_init` is done: the tables at `pml4` translate exactly the regions, and are in use; the
-- processor knows of NXE; and the entries of the upper half are kept for later address spaces.
pub record IsInitialised (pml4 : ℕ) (rs : List Region) (m : Machine) : Type 0 where
  pub level' : ℕ → ℕ
  pub path' : ℕ → ℕ
  pub tree : IsTree m pml4 level' path'
  pub translates : (q : ℕ) → q < 2 ^ 36 → lookup m pml4 q ≡ translation rs q
  pub current : m.cr3 ≡ pml4
  pub no_execute : m.nxe ≡ true
  pub saved : (i : ℕ) → i < 256 → m.kernel_pml4_entries i ≡ m.word (slot pml4 (i + 256))

-- The loop that keeps the upper half.
record Saved (root i : ℕ) (m m' : Machine) : Type 0 where
  words : m'.word ≡ m.word
  pmm : m'.pmm ≡ m.pmm
  upper : (j : ℕ) → j < i → m'.kernel_pml4_entries j ≡ m.word (slot root (j + 256))

save_entries-Saved :
    (left root i : ℕ) (m m1 : Machine)
    → left + i ≡ 256
    → root / 4096 < m1.pmm.total_frames
    → Saved root i m m1
    → Returns (λ _ m'. Saved root 256 m m') (save_entries left root i m1)
unfolding save_entries read_entry
save_entries-Saved zero root i m m1 e tracked s =
    returns (record { words = s.words; pmm = s.pmm; upper = λ j h. s.upper j (omega arith) })
save_entries-Saved (suc left) root i m m1 e tracked s =
    rw (lt→ltb (root / 4096) m1.pmm.total_frames tracked) (
      save_entries-Saved left root (i + 1) m _ (omega arith) tracked (record {
        words = s.words;
        pmm = s.pmm;
        upper = λ j h. ground (arith, s.upper j, ap (λ w. w (slot root (i + 256))) s.words);
      }))

-- The end of the call, after the mappings.
last_steps : ℕ → Machine → Run Machine ℕ
last_steps root =
    save_entries 256 root 0
    >> (enable_nxe
        >> (switch_dir root
            >> (klog debug "paging_init: paging initialised without crashing, pml4_phys=0x%p"
                  (root ∷ [])
                >> pure root)))

module _ (root : ℕ) (rs : List Region) where
  ended :
      {m m' : Machine}
      → IsMapped root rs m
      → Saved root 256 m m'
      → Returns
          (λ pml4 n. (pml4 ≡ root) × IsInitialised pml4 rs n)
          ((enable_nxe
              >> (switch_dir root
                  >> (klog debug "paging_init: paging initialised without crashing, pml4_phys=0x%p"
                        (root ∷ [])
                      >> pure root)))
            m')
  unfolding enable_nxe switch_dir klog lifted Pmm.klog logged
  ended {m' = m'} mapped saved = returns (
    refl,
    record {
      level' = mapped.level';
      path' = mapped.path';
      tree = IsTree-same mapped.tree saved.words (record {
        valid = logged-IsValid (rw saved.pmm mapped.tree.valid) _;
        total = ap (λ p. p.total_frames) saved.pmm;
        frames = λ f. allocated-logged m'.pmm _ f ∙ ap (λ p. allocated p f) saved.pmm;
      });
      translates = rw saved.words mapped.translates;
      current = refl;
      no_execute = refl;
      saved = rw saved.words saved.upper;
    },
  )

  last_steps-IsInitialised :
      (m : Machine)
      → IsMapped root rs m
      → Returns (λ pml4 n. (pml4 ≡ root) × IsInitialised pml4 rs n) (last_steps root m)
  unfolding last_steps
  last_steps-IsInitialised m mapped =
      Ends-and_then
        (save_entries-Saved 256 root 0 m m (omega arith)
          (mapped.tree.tracked root (omega (arith, mapped.tree.is_root)))
          (record { words = refl; pmm = refl; upper = λ j h. absurd (omega arith) }))
        (λ _ m' saved. ended mapped saved)

module _ (kernel_phys kernel_virt : ℕ) (seg : SegmentInfo) where
  abbrev pub InitDone : Pmm → ℕ → Machine → Type 0
  InitDone p pml4 n = IsInitialised pml4 (kernel_regions kernel_phys kernel_virt seg p) n

  -- The mappings, from the size of memory on.
  mappings : ℕ → Machine → Run Machine ℕ
  mappings root = lift Pmm.get_total_size >>= (λ memsize. get >>= (λ n.
      map_range root n.pmm.hhdm_offset 0 memsize
        (bit_or (bit_or (bit_or page_writable page_global) page_no_execute) page_present)
      >> (map_segment root kernel_phys kernel_virt seg.limine_start seg.limine_end
            (bit_or (bit_or page_global page_no_execute) page_present)
          >> (map_segment root kernel_phys kernel_virt seg.text_start seg.text_end
                (bit_or page_global page_present)
              >> (map_segment root kernel_phys kernel_virt seg.rodata_start seg.rodata_end
                    (bit_or (bit_or page_global page_no_execute) page_present)
                  >> (map_segment root kernel_phys kernel_virt seg.data_start seg.data_end (
                        bit_or (bit_or (bit_or page_global page_no_execute) page_writable)
                          page_present)
                      >> last_steps root))))))

  mappings-IsInitialised :
      (root : ℕ) (n : Machine)
      → AllFit (kernel_regions kernel_phys kernel_virt seg n.pmm)
      → IsMapped root [] n
      → Ends
          (λ pml4 n'. IsInitialised pml4 (kernel_regions kernel_phys kernel_virt seg n.pmm) n')
          OutOfMemory
          (mappings root n)
  unfolding mappings map_segment lifted Pmm.get_total_size
  mappings-IsInitialised root n
        (data_fits, (rodata_fits, (text_fits, (limine_fits, (direct_fits, _))))) start =
      Ends-and_then (map_range-IsMapped (direct_map n.pmm) direct_fits start) (λ _ n1 s1.
        Ends-and_then (map_range-IsMapped _ limine_fits s1) (λ _ n2 s2.
          Ends-and_then (map_range-IsMapped _ text_fits s2) (λ _ n3 s3.
            Ends-and_then (map_range-IsMapped _ rodata_fits s3) (λ _ n4 s4.
              Ends-and_then (map_range-IsMapped _ data_fits s4) (λ _ n5 s5.
                Ends-mono (last_steps-IsInitialised root _ n5 s5) (λ pml4 n' (_, done). done)
                  (λ _ _ never. absurd never))))))

  module _ (m : Machine) (v : IsValid m.pmm) (small : m.pmm.total_frames ≤ 2 ^ 40)
      (fit : AllFit (kernel_regions kernel_phys kernel_virt seg m.pmm)) where
    filled-InitDone :
        (root : ℕ) (n : Machine)
        → IsFilled m.pmm.hhdm_offset m.pmm.total_frames root 512 n
        → Ends (InitDone m.pmm) OutOfMemory (mappings root n)
    filled-InitDone root n filled =
        let same : kernel_regions kernel_phys kernel_virt seg n.pmm
            ≡ kernel_regions kernel_phys kernel_virt seg m.pmm =
          ap₂
            (λ h total.
              kernel_regions kernel_phys kernel_virt seg
                (record m.pmm { hhdm_offset = h; total_frames = total }))
            filled.offset filled.same_total in
        Ends-mono
          (mappings-IsInitialised root n (subst AllFit (sym same) fit) (record {
            level' = filled.level';
            path' = filled.path';
            tree = filled.tree;
            translates = λ q h. unfold translation in filled.nothing q;
          }))
          (λ pml4 n' done. subst (λ rs. IsInitialised pml4 rs n') same done) (λ _ _ q. q)

    cleared_eq :
        (f : ℕ)
        → (h : f < m.pmm.total_frames)
        → and_then
            (lifted m (ok (f * 4096) (mark m.pmm f)))
            (λ pml4. clear_page pml4 >> (fill_kernel 256 pml4 256 >> mappings pml4))
          ≡ (fill_kernel 256 (f * 4096) 256 >> mappings (f * 4096)) (blank m v small f h)
    unfolding lifted clear_page mark
    cleared_eq f h = rw (lt→ltb (f * 4096 / 4096) m.pmm.total_frames (omega arith))

    init_after :
        {r : Run Pmm ℕ}
        → AllocResult m.pmm r
        → Ends (InitDone m.pmm) OutOfMemory (
            and_then
              (lifted m r)
              (λ pml4. clear_page pml4 >> (fill_kernel 256 pml4 256 >> mappings pml4)))
    init_after (taken f in_ram unused below) = rw (cleared_eq f in_ram) (
        Ends-and_then
          (fill_kernel-IsFilled _ _ _ 256 256 _ (omega arith)
            (blank-IsFilled m v small f in_ram 256))
          (λ _ n filled. filled-InitDone (f * 4096) n filled))
    init_after (exhausted all) = unfold lifted in panics all

    -- In a valid state of at most 2^40 frames, where the direct map and the parts of the kernel's
    -- image are aligned and do not wrap around, `paging_init` returns the root of a tree of tables
    -- that translates every page as the last region mapped over it says and no other page; the
    -- tables are in use, NXE is on, and the entries of the upper half are kept; or it panics with no
    -- frame free.
    pub paging_init-InitDone :
        Ends (InitDone m.pmm) OutOfMemory (paging_init kernel_phys kernel_virt seg m)
    unfolding paging_init mappings last_steps
    paging_init-InitDone = init_after (alloc_frame-AllocResult v)
