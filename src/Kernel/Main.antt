-- ===== src/Kernel/Main.antt =====
-- `kmain` from its first step to its last.
use mathlib.Core.Path.{subst}
use rainstorm_os.Base.{
  ℕ, ◌/◌, ◌%◌, ◌^◌, ◌≤◌, ◌<◌, ◌≡◌, ◌≢◌, refl, sym, ◌∙◌, ap, true, false, not, ◌&&◌, List, [], ◌∷◌,
  arith, String, Run, ok, Returns-within, inr, Halts, halts, Halts-and_then, Halts-then, ◌>>=◌,
  ◌>>◌,
}
use rainstorm_os.Memory.Event.{debug, info}
use rainstorm_os.Utils.Memory.{memset}
use rainstorm_os.Utils.Memory.Laws.{memset_lem}
use rainstorm_os.Utils.Console.{Console, Arg, kprintf}
use rainstorm_os.Utils.Console.Text.{kprintf-Printed}
use rainstorm_os.Memory.Pmm.State.{allocated, accepts}
use rainstorm_os.Memory.Pmm.Init.{Entry}
use rainstorm_os.Memory.Pmm.Init.Sweep.{FitsAll, usable_frame}
use rainstorm_os.Memory.Pmm.Init.Place.{EndsAt, FirstFit, frames_of, size_of}
use rainstorm_os.Memory.Paging.{Machine}
use rainstorm_os.Memory.Paging.Grown.{OutOfMemory}
use rainstorm_os.Memory.Paging.Spaces.{sub64}
use rainstorm_os.Memory.Paging.Spaces.Regions.{Region, IsMapped, Fits}
use rainstorm_os.Memory.Paging.Spaces.Init.{AllFit, IsInitialised}
use rainstorm_os.Cpu.Gdt.{gdt_init}
use rainstorm_os.Cpu.Gdt.Segments.{Segmented, gdt_init_lem}
use rainstorm_os.Cpu.Idt.Gates.{Gated, idt_init-handler}
use rainstorm_os.Cpu.Idt.{idt_init}
use rainstorm_os.Drivers.Framebuffer.{color_int}
use rainstorm_os.Drivers.Framebuffer.Visible as Visible
use rainstorm_os.Drivers.Framebuffer.Paint.{PaintedAt}
use rainstorm_os.Kernel.{
  Requests, Symbols, Kernel, halt, bring_up_color, klog, in_console, memory_init, screen_init,
  kmain,
}
use rainstorm_os.Kernel.Boot.{
  IsAnswered, Validated, goes_on, stops, validate_limine_or_halt-Validated,
}
use rainstorm_os.Kernel.Up.{IsDown, IsUp, ConsoleUp, console_init-IsUp}
use rainstorm_os.Kernel.Steps.{
  CanPanic, Keeps, Keeps-refl, Keeps-trans, Keeps-Printed, Panics, klog-Stepped,
}
use rainstorm_os.Kernel.MemoryUp.{IsPlaced, IsMemoryUp, regions, memory_init-Stepped}
use rainstorm_os.Kernel.ScreenUp.{ScreenUp, framebuffer_region, screen_of, screen_init-ScreenUp}

Validated-eq :
    {q : Requests} {k : Kernel} {run : Run Kernel (Unit {0})}
    → IsAnswered q
    → Validated q k run
    → run ≡ ok tt k
Validated-eq a (goes_on _) = refl
Validated-eq a (stops not_answered) = absurd (not_answered a)

-- The tables translate what they are set up for.
IsInitialised-IsMapped :
    {pml4 : ℕ} {rs : List Region} {m : Machine} → IsInitialised pml4 rs m → IsMapped pml4 rs m
IsInitialised-IsMapped t = record {
  level' = t.level';
  path' = t.path';
  tree = t.tree;
  translates = t.translates;
}

-- A frame outside the usable regions is not free.
not_free :
    {es : List Entry} {h offset pml4 : ℕ} {rs : List Region} {m : Machine} (addr : ℕ)
    → IsMemoryUp es h offset pml4 rs m
    → usable_frame es (addr / 4096) ≡ false
    → (accepts m.pmm addr && not (allocated m.pmm (addr / 4096))) ≡ false
not_free addr up unusable = ground (arith, up.total, up.reserved (addr / 4096), unusable)

-- The console of a halted kernel still has its sinks.
off_line :
    {rounds : ℕ} {c : Console} → IsUp rounds c → IsUp rounds (record c { interrupts = false })
off_line up = record {
  id = up.id;
  log_id = up.log_id;
  default = up.default;
  prints = up.prints;
  log = up.log;
  logs = up.logs;
}

-- What the boot loader hands over, and the place of the image: the memory map is as `pmm_init`
-- needs it and ends at `h`, the image and its stubs have 64-bit addresses, the regions of the kernel's tables fit, and the first framebuffer is one of colours,
-- outside the usable regions, with pixels in `s`.
pub record IsBootable (q : Requests) (l : Symbols) (k : Kernel) (a : IsAnswered q) (h : ℕ)
    : Type 0 where
  pub maps : FitsAll a.entries
  pub ends : EndsAt a.entries h
  pub place : Entry
  pub room : FirstFit (size_of h) a.entries place
  pub nonzero : place.base ≢ 0
  pub aligned : place.base % 4096 ≡ 0
  pub few : frames_of h ≤ 2 ^ 40
  pub image : IsPlaced l
  pub stubs : (n : ℕ) → n < 256 → l.stub n < 2 ^ 64
  pub bytes : (p : ℕ) → k.bytes p < 256
  pub model : a.first.memory_model ≡ 1
  pub reserved : usable_frame a.entries (sub64 a.first.address a.offset / 4096) ≡ false
  pub fits : Fits (framebuffer_region a.first a.offset)
  pub pixels : Visible.IsValid (screen_of a.first k.console.screen)

module _ (rounds : ℕ) (render : String → List Arg → List ℕ) (q : Requests) (l : Symbols)
    (k : Kernel) (a : IsAnswered q) (h : ℕ) where
  -- What `paging_init` maps, and what the kernel's tables map in the end.
  abbrev pub first_regions : List Region
  first_regions = regions rounds render l a.entries h a.offset a.bases.0 a.bases.1 k.machine.pmm

  abbrev pub boot_regions : List Region
  boot_regions = framebuffer_region a.first a.offset ∷ first_regions

  -- The kernel at its end: halted, with its parts up.
  pub record Booted (k' : Kernel) : Type 0 where
    pub off : k'.console.interrupts ≡ false
    pub console : IsUp rounds k'.console
    pub pml4 : ℕ
    pub mapped : IsMapped pml4 boot_regions k'.machine
    pub current : k'.machine.cr3 ≡ pml4
    pub no_execute : k'.machine.nxe ≡ true
    pub cleared :
        PaintedAt
          (screen_of a.first k.console.screen)
          (λ x y. true)
          (λ x y. color_int bring_up_color)
          k'.console.screen
    pub level : k'.console.current_level ≡ debug
    pub gdt : Segmented l.gdt_address k.gdt k'.gdt
    pub idt : Gated l.idt_address l.stub k'.idt

  -- The kernel from the set-up of the tables of segments and gates on.
  record IsReady (k4 : Kernel) : Type 0 where
    console : CanPanic rounds k4.console
    level : k4.console.current_level ≡ debug
    screen : k4.console.screen ≡ k.console.screen
    bytes : (p : ℕ) → k4.bytes p < 256
    gdt : Segmented l.gdt_address k.gdt k4.gdt
    idt : Gated l.idt_address l.stub k4.idt

  module _ (b : IsBootable q l k a h) {k4 : Kernel} (ready : IsReady k4) where
    -- The last line of the log and the halt.
    farewell :
        {k6 : Kernel} {pml4 : ℕ} (k7 : Kernel)
        → Keeps rounds k4 k6
        → IsMemoryUp a.entries h a.offset pml4 first_regions k6.machine
        → ScreenUp rounds render a.first pml4 first_regions k6 k7
        → Halts Booted (Panics OutOfMemory) ((klog rounds render info "Halting...." [] >> halt) k7)
    unfolding halt
    farewell {k6} {pml4} k7 kept memory up =
        let (mapped, cr3, nxe) = up.mapped in
        Halts-then
          (klog-Stepped rounds render
            (λ m. IsMapped pml4 boot_regions m × (m.cr3 ≡ pml4) × (m.nxe ≡ true)) info _ _ k7
            (omega arith)
            (
              subst (λ o. IsMapped pml4 (framebuffer_region a.first o ∷ first_regions) k7.machine)
                  memory.offset' mapped,
              cr3 ∙ memory.tables.current,
              nxe ∙ memory.tables.no_execute,
            )
            (Keeps-refl up.console))
          (λ _ k8 ((mapped', current, no_execute), after). halts (record {
            off = refl;
            console = off_line after.console.up;
            pml4 = pml4;
            mapped = mapped';
            current = current;
            no_execute = no_execute;
            cleared = rw after.screen (
                subst
                  (λ s.
                    PaintedAt (screen_of a.first s) (λ x y. true) (λ x y. color_int bring_up_color)
                      k7.console.screen)
                  (kept.screen ∙ ready.screen) up.painted');
            level = after.level ∙ (up.level ∙ (kept.level ∙ ready.level));
            gdt =
                subst (Segmented l.gdt_address k.gdt) (sym (after.gdt ∙ (up.gdt ∙ kept.gdt)))
                  ready.gdt;
            idt =
                subst (Gated l.idt_address l.stub) (sym (after.idt ∙ (up.idt ∙ kept.idt)))
                  ready.idt;
          }))

    -- From the memory management on.
    body :
        AllFit first_regions
        → Halts Booted (Panics OutOfMemory) (
            (klog rounds render info "gdt and idt are working" []
                >> (memory_init rounds render q l >>= (λ kernel_pml4.
                    screen_init rounds render q kernel_pml4
                    >> (klog rounds render info "Halting...." [] >> halt))))
              k4)
    body fit =
        Halts-then
          (klog-Stepped rounds render (λ _. Unit {0}) info _ _ k4 (omega arith) tt
            (Keeps-refl ready.console))
          (λ _ k5 (_, kept5).
            Halts-and_then
              (memory_init-Stepped rounds render l a.entries h a.offset a.bases.0 a.bases.1 q k5
                a.has_memmap a.has_offset a.has_bases kept5.console b.image b.maps
                (rw kept5.bytes ready.bytes) b.ends b.place b.room b.nonzero b.aligned b.few fit)
              (λ pml4 k6 (up, kept6).
                let kept = Keeps-trans kept5 kept6 in
                Halts-and_then
                  (screen_init-ScreenUp rounds render a.first pml4 first_regions k6 kept6.console
                    (subst (λ s. Visible.IsValid (screen_of a.first s))
                      (sym (kept.screen ∙ ready.screen)) b.pixels)
                    q a.rest a.has_framebuffer b.model
                    (subst
                      (λ o.
                        (accepts k6.machine.pmm (sub64 a.first.address o)
                          && not (allocated k6.machine.pmm (sub64 a.first.address o / 4096)))
                        ≡ false)
                      (sym up.offset') (not_free (sub64 a.first.address a.offset) up b.reserved))
                    (subst (λ o. Fits (framebuffer_region a.first o)) (sym up.offset') b.fits)
                    (IsInitialised-IsMapped up.tables))
                  (λ _ k7 shown. farewell k7 kept up shown)))

  -- The start of the kernel, with its variables of zero.
  abbrev zeroed : Kernel
  zeroed = record k { bytes = memset l.bss_start 0 (sub64 l.bss_end l.bss_start) k.bytes }

  module _ (b : IsBootable q l k a h) (dark : k.console.screen.framebuffer.is_ready ≡ false)
      (fit : AllFit first_regions) where
    zeroed-bytes : (p : ℕ) → zeroed.bytes p < 256
    zeroed-bytes p =
        ground (arith, memset_lem l.bss_start 0 (sub64 l.bss_end l.bss_start) k.bytes p, b.bytes p)

    -- The console is up: the first line, then the two tables of the processor.
    greeting :
        (k2 : Kernel)
        → ConsoleUp rounds zeroed k2
        → Halts Booted (Panics OutOfMemory) (
            (in_console (kprintf rounds render "Hello from RainstormOS :)\n" [])
                >> ((λ k. ok tt (record k { gdt = gdt_init l.gdt_address k.gdt }))
                    >> ((λ k. ok tt (record k { idt = idt_init l.idt_address l.stub k.idt }))
                        >> (klog rounds render info "gdt and idt are working" []
                            >> (memory_init rounds render q l >>= (λ kernel_pml4.
                                screen_init rounds render q kernel_pml4
                                >> (klog rounds render info "Halting...." [] >> halt)))))))
              k2)
    greeting k2 up =
        let before : Keeps rounds k2 k2 = Keeps-refl (record {
          up = up.up;
          screen = inr (ap (λ s. s.framebuffer.is_ready) up.screen ∙ dark);
        }) in
        Halts-then
          (Returns-within {P' = λ _ k3. Keeps rounds k2 k3} k2 (λ k c. record k { console = c })
            (kprintf-Printed render "Hello from RainstormOS :)\n" [] up.up.id up.up.prints
              up.up.default)
            (λ _ _ done. Keeps-Printed before done))
          (λ _ k3 kept.
            body b
              (record {
                console = kept.console;
                level = kept.level ∙ up.level;
                screen = kept.screen ∙ up.screen;
                bytes = rw (kept.bytes ∙ up.bytes) zeroed-bytes;
                gdt =
                    subst (λ g. Segmented l.gdt_address g (gdt_init l.gdt_address k3.gdt))
                      (kept.gdt ∙ up.gdt) (gdt_init_lem l.gdt_address k3.gdt);
                idt = idt_init-handler l.idt_address l.stub k3.idt b.stubs;
              })
              fit)

    -- Where the boot loader answers every request, with a memory map that ends at `h` as for `pmm_init`, an
    -- image and a framebuffer that fit, where nothing is set up before and COM1 answers and gets
    -- empty in time: `kmain` never returns. It halts with the interrupts off, the default sink and
    -- the log's sink both on COM1, the log at its lowest level, the processor given the tables of
    -- segments and gates, page tables in use that map the direct map of all memory up to `h`, the
    -- four parts of the image and, on top, the framebuffer, NXE on, and every pixel of the colour; or
    -- it panics, with the interrupts off, because no frame is free.
    pub kmain-Booted :
        IsDown k.console rounds → Halts Booted (Panics OutOfMemory) (kmain rounds render q l k)
    unfolding kmain
    kmain-Booted down =
        rw (Validated-eq a (validate_limine_or_halt-Validated q zeroed))
          (Halts-then (console_init-IsUp zeroed down) (λ _ k2 up. greeting k2 up))
