-- ===== src/Kernel/MemoryUp.antt =====
-- The memory management comes up: the frames of the boot loader's map, then the kernel's tables.
use mathlib.Core.Path.{ap₂, subst}
use rainstorm_os.Base.{
  ℕ, ◌+◌, ◌*◌, ◌/◌, ◌^◌, ◌≤◌, ◌<◌, ◌≡◌, ◌≢◌, ◌%◌, ◌∙◌, sym, true, false, some, List, arith, refl,
  String, Run, Ends, Ends-mono, Returns, returns, panics, Ends-and_then, Returns-and_then,
}
use rainstorm_os.Memory.Event.{debug, info}
use rainstorm_os.Utils.Console.{Arg}
use rainstorm_os.Memory.Pmm.{Pmm}
use rainstorm_os.Memory.Pmm.State.{allocated}
use rainstorm_os.Memory.Pmm.Init.{Entry}
use rainstorm_os.Memory.Pmm.Init.Sweep.{FitsAll, usable_frame}
use rainstorm_os.Memory.Pmm.Init.Place.{EndsAt, FirstFit, frames_of, size_of}
use rainstorm_os.Memory.Pmm.Init.Ready.{IsReady, pmm_init-IsReady}
use rainstorm_os.Memory.Mm.{page_align_up_eq}
use rainstorm_os.Memory.Paging.{Machine, lifted}
use rainstorm_os.Memory.Paging.Grown.{OutOfMemory}
use rainstorm_os.Memory.Paging.Growing.{Extends}
use rainstorm_os.Memory.Paging.Spaces.{SegmentInfo, paging_init}
use rainstorm_os.Memory.Paging.Spaces.Regions.{Region}
use rainstorm_os.Memory.Paging.Spaces.Init.{
  AllFit, kernel_regions, IsInitialised, paging_init-InitDone,
}
use rainstorm_os.Memory.Paging.Spaces.Extends.{paging_init-Extends}
use rainstorm_os.Kernel.{Requests, Symbols, Kernel, segments, response, run_machine, memory_init}
use rainstorm_os.Kernel.Steps.{
  CanPanic, Keeps, Keeps-refl, Panics, Stepped, klog-Stepped, machine-Stepped,
}

pmm-lifted :
    {A : Type 0} {P : A → Pmm → Type 0} (m : Machine) {run : Run Pmm A}
    → Returns P run
    → Ends (λ a n. P a n.pmm) OutOfMemory (lifted m run)
unfolding lifted
pmm-lifted m (returns p) = returns p
pmm-lifted m (panics never) = absurd never

-- The parts of the image: each from its first byte to the end of the page of its last.
abbrev pub page_end : ℕ → ℕ
page_end addr = (addr + 4095) / 4096 * 4096

abbrev pub parts : Symbols → SegmentInfo
parts l = record {
  limine_start = l.limine_begin;
  limine_end = page_end l.limine_end;
  text_start = l.text_begin;
  text_end = page_end l.text_end;
  rodata_start = l.rodata_begin;
  rodata_end = page_end l.rodata_end;
  data_start = l.data_begin;
  data_end = page_end l.data_end;
}

-- The image does not reach into the last page of the addresses.
pub record IsPlaced (l : Symbols) : Type 0 where
  pub limine : l.limine_end + 4095 < 2 ^ 64
  pub text : l.text_end + 4095 < 2 ^ 64
  pub rodata : l.rodata_end + 4095 < 2 ^ 64
  pub data_end : l.data_end + 4095 < 2 ^ 64

segments-parts : (l : Symbols) → IsPlaced l → segments l ≡ parts l
segments-parts l placed =
    rw
      (
        page_align_up_eq l.limine_end placed.limine,
        page_align_up_eq l.text_end placed.text,
        page_align_up_eq l.rodata_end placed.rodata,
        page_align_up_eq l.data_end placed.data_end,
      )
      refl

-- The memory management once it is up: the tables at `pml4` are as `paging_init` leaves them, the
-- frames are those of the memory map, and no frame outside its usable regions is free.
pub record IsMemoryUp (es : List Entry) (h offset pml4 : ℕ) (rs : List Region) (m : Machine)
    : Type 0 where
  pub tables : IsInitialised pml4 rs m
  pub total : m.pmm.total_frames ≡ frames_of h
  pub offset' : m.pmm.hhdm_offset ≡ offset
  pub reserved : (f : ℕ) → f < frames_of h → usable_frame es f ≡ false → allocated m.pmm f ≡ true

IsMemoryUp-Extends :
    {es : List Entry} {h start offset pml4 : ℕ} {rs : List Region} {n m : Machine}
    → IsReady es h start offset n.pmm
    → IsInitialised pml4 rs m
    → Extends false n m
    → IsMemoryUp es h offset pml4 rs m
IsMemoryUp-Extends ready tables more = record {
  tables = tables;
  total = more.total ∙ ready.total;
  offset' = more.offset ∙ ready.offset;
  reserved = λ f in_ram unusable. more.frames f (ground (arith, ready.frames f in_ram, unusable));
}

module _ (rounds : ℕ) (render : String → List Arg → List ℕ) where
  module _ (l : Symbols) (es : List Entry) (h offset phys virt : ℕ) where
    -- The frames as `pmm_init` leaves them, as far as the kernel's regions depend on them.
    abbrev pub tracked : Pmm → Pmm
    tracked p = record p { hhdm_offset = offset; total_frames = frames_of h }

    -- The regions that the kernel's tables map.
    abbrev pub regions : Pmm → List Region
    regions p = kernel_regions phys virt (parts l) (tracked p)

    tables-Stepped :
        {k0 : Kernel} (k : Kernel) (p : Pmm) (start : ℕ)
        → Keeps rounds k0 k
        → IsReady es h start offset k.machine.pmm
        → IsPlaced l
        → frames_of h ≤ 2 ^ 40
        → AllFit (regions p)
        → Ends
            (Stepped rounds k0 (λ pml4 n. IsMemoryUp es h offset pml4 (regions p) n))
            (Panics OutOfMemory)
            (run_machine rounds render k (paging_init phys virt (segments l) k.machine))
    tables-Stepped k p start c ready placed few fit =
        let same : kernel_regions phys virt (parts l) k.machine.pmm ≡ regions p =
          ap₂
            (λ h n.
              kernel_regions phys virt (parts l)
                (record k.machine.pmm { hhdm_offset = h; total_frames = n }))
            ready.offset ready.total in
        rw (segments-parts l placed) (
          machine-Stepped rounds render k c (
            Ends-mono
              (paging_init-Extends phys virt (parts l) k.machine ready.valid (
                paging_init-InitDone phys virt (parts l) k.machine ready.valid (rw ready.total few)
                  (subst AllFit (sym same) fit)))
              (λ pml4 n (tables, more).
                IsMemoryUp-Extends ready (subst (λ rs. IsInitialised pml4 rs n) same tables) more)
              (λ _ _ q. q)))

    -- With the boot loader's answers, a memory map as for `pmm_init` that ends at `h` and is at most
    -- 2^40 frames long, an image whose parts fit as for `paging_init`, and a console that prints:
    -- `memory_init` returns the root of the tree of tables that `paging_init` leaves for the direct
    -- map of all memory up to `h` and the four parts of the image, to the end of the last page of
    -- each, with all frames up to `h` tracked and every frame outside the usable regions in use. It
    -- keeps the screen, the log's level, the gate and segment tables, and a console that prints; or
    -- it panics with no frame free, halted with the interrupts off.
    pub memory_init-Stepped :
        (q : Requests) (k : Kernel)
        → q.memmap ≡ some es
        → q.hhdm_offset ≡ some offset
        → q.physical_virtual_base ≡ some (phys, virt)
        → CanPanic rounds k.console
        → IsPlaced l
        → FitsAll es
        → ((a : ℕ) → k.bytes a < 256)
        → EndsAt es h
        → (e : Entry) → FirstFit (size_of h) es e
        → e.base ≢ 0
        → e.base % 4096 ≡ 0
        → frames_of h ≤ 2 ^ 40
        → AllFit (regions k.machine.pmm)
        → Ends
            (Stepped rounds k (λ pml4 n. IsMemoryUp es h offset pml4 (regions k.machine.pmm) n))
            (Panics OutOfMemory)
            (memory_init rounds render q l k)
    unfolding memory_init response
    memory_init-Stepped q k map at bases c placed fits bytes ends e room nonzero aligned few fit =
        rw (map, at, bases)
          (Ends-and_then
            (machine-Stepped rounds render k (Keeps-refl c) (
              pmm-lifted k.machine (
                pmm_init-IsReady es offset k.bytes k.machine.pmm fits bytes h ends e room nonzero
                  aligned)))
            (λ _ k1 (ready, c1).
              Returns-and_then
                (klog-Stepped rounds render (λ n. IsReady es h e.base offset n.pmm) debug _ _ k1
                  (omega arith) ready c1)
                (λ _ k2 (ready', c2).
                  Ends-and_then (tables-Stepped k2 k.machine.pmm e.base c2 ready' placed few fit)
                    (λ pml4 k3 (done, c3).
                      Returns-and_then
                        (klog-Stepped rounds render
                          (λ n. IsMemoryUp es h offset pml4 (regions k.machine.pmm) n) info _ _ k3
                          (omega arith) done c3)
                        (λ _ k4 done'. returns done')))))
