-- ===== src/Kernel/ScreenUp.antt =====
-- The framebuffer comes up: it is mapped, and its screen is cleared.
use rainstorm_os.Kernel.Question.{is_frame_free-Same, IsMapped-same}
use rainstorm_os.Base.{
  ℕ, ◌*◌, ◌/◌, ◌≡◌, refl, ◌∙◌, bit_or, Bool, true, false, not, ◌&&◌, some, List, [], ◌∷◌, arith,
  String, ◌==◌, u64, Run, ◌>>◌, Ends, Returns, returns, panics, Ends-and_then, Ends-mono,
  within_run, inl,
}
use rainstorm_os.Memory.Event.{info}
use rainstorm_os.Memory.Pmm.{Pmm, is_frame_free}
use rainstorm_os.Memory.Pmm.State.{allocated, accepts}
use rainstorm_os.Memory.Paging.{
  Machine, lifted, map_range, page_present, page_writable, page_global, page_no_execute,
}
use rainstorm_os.Memory.Paging.Grown.{OutOfMemory}
use rainstorm_os.Memory.Paging.Leaf.{SamePmm}
use rainstorm_os.Memory.Paging.Spaces.{sub64}
use rainstorm_os.Memory.Paging.Spaces.Regions.{Region, Fits, IsMapped, map_range-IsMapped}
use rainstorm_os.Drivers.Framebuffer.{Screen, color_int, fb_init, fb_clear_screen}
use rainstorm_os.Drivers.Framebuffer.Visible as Visible
use rainstorm_os.Drivers.Framebuffer.Plot.{IsValid-words}
use rainstorm_os.Drivers.Framebuffer.Paint.{PaintedAt, painted, fb_clear_screen-PaintedAt}
use rainstorm_os.Utils.Console.{Arg, in_screen}
use rainstorm_os.Memory.Paging.Growing.{with_growth, map_range-Growing}
use rainstorm_os.Kernel.{
  Requests, LimineFramebuffer, Kernel, page_cache_disable, bring_up_color, in_console, klog,
  in_machine, use_framebuffer, screen_init, response,
}
use rainstorm_os.Kernel.Steps.{CanPanic, Panics, Keeps-refl, Kept, kept, machine-Kept, klog-Stepped}

-- The framebuffer's place in the kernel's tables, by the offset of the direct map.
abbrev pub framebuffer_region : LimineFramebuffer → (hhdm_offset : ℕ) → Region
framebuffer_region fb hhdm_offset = record {
  virt = fb.address;
  phys = sub64 fb.address hhdm_offset;
  size = u64 (fb.pitch * fb.height);
  flags =
      bit_or (bit_or (bit_or (bit_or page_cache_disable page_writable) page_no_execute) page_global)
        page_present;
}

-- The screen on that framebuffer.
abbrev pub screen_of : LimineFramebuffer → Screen → Screen
screen_of fb s = record s {
  framebuffer = record {
    address = fb.address;
    height = fb.height;
    width = fb.width;
    pitch = fb.pitch;
    is_ready = true;
  };
}

module _ (rounds : ℕ) (render : String → List Arg → List ℕ) (fb : LimineFramebuffer) (pml4 : ℕ)
    (rs : List Region) (k : Kernel) where
  -- The tables at `pml4` map the regions, and the processor's registers are as they were.
  abbrev pub Mapped : List Region → Machine → Type 0
  Mapped rs' m = IsMapped pml4 rs' m × (m.cr3 ≡ k.machine.cr3) × (m.nxe ≡ k.machine.nxe)

  -- What `screen_init` leaves: the framebuffer is mapped on top of `rs`, every pixel has the colour.
  pub record ScreenUp (k' : Kernel) : Type 0 where
    pub mapped : Mapped (framebuffer_region fb k.machine.pmm.hhdm_offset ∷ rs) k'.machine
    pub painted' :
        PaintedAt
          (screen_of fb k.console.screen)
          (λ a b. true)
          (λ a b. color_int bring_up_color)
          k'.console.screen
    pub console : CanPanic rounds k'.console
    pub level : k'.console.current_level ≡ k.console.current_level
    pub gdt : k'.gdt ≡ k.gdt
    pub idt : k'.idt ≡ k.idt

  data Cleared (m : Machine) : Unit {0} → Kernel → Type 0 where
    cleared :
        (s : Screen)
        → PaintedAt
            (screen_of fb k.console.screen)
            (λ a b. true)
            (λ a b. color_int bring_up_color)
            s
        → Cleared m tt (record k { machine = m; console = record k.console { screen = s } })

  painted-IsValid :
      {s t : Screen} {done : ℕ → ℕ → Bool} {new : ℕ → ℕ → ℕ}
      → Visible.IsValid s
      → PaintedAt s done new t
      → Visible.IsValid t
  painted-IsValid v (painted w p) = IsValid-words v

  module _ (c : CanPanic rounds k.console)
      (v : Visible.IsValid (screen_of fb k.console.screen)) where
    finish :
        {m : Machine} {k' : Kernel}
        → Mapped (framebuffer_region fb k.machine.pmm.hhdm_offset ∷ rs) m
        → Cleared m tt k'
        → Returns (λ _ k'. ScreenUp k') (klog rounds render info "Framebuffer up and working" [] k')
    finish {m} mapped (cleared s all) =
        Ends-mono
          (klog-Stepped rounds render
            (λ n. Mapped (framebuffer_region fb k.machine.pmm.hhdm_offset ∷ rs) n) info _ _
            (record k { machine = m; console = record k.console { screen = s } }) (omega arith)
            mapped
            (Keeps-refl (record {
              up = record {
                id = c.up.id;
                log_id = c.up.log_id;
                default = c.up.default;
                prints = c.up.prints;
                log = c.up.log;
                logs = c.up.logs;
              };
              screen = inl (painted-IsValid v all);
            })))
          (λ _ k' (mapped', after). record {
            mapped = mapped';
            painted' = rw after.screen all;
            console = after.console;
            level = after.level;
            gdt = after.gdt;
            idt = after.idt;
          })
          (λ _ _ never. never)

    -- The clearing, in the kernel's state.
    cleared_within :
        (m : Machine) {run : Run Screen (Unit {0})}
        → Returns
            (λ _ s.
              PaintedAt
                (screen_of fb k.console.screen)
                (λ a b. true)
                (λ a b. color_int bring_up_color)
                s)
            run
        → Returns (Cleared m) (
            within_run
              (record k {
                machine = m;
                console = record k.console { screen = screen_of fb k.console.screen };
              })
              (λ k c. record k { console = c })
              (within_run
                (record k.console { screen = screen_of fb k.console.screen })
                (λ c s. record c { screen = s })
                run))
    cleared_within m (returns all) = returns (cleared _ all)
    cleared_within m (panics never) = absurd never

    -- The steps after the mapping.
    show :
        {k' : Kernel}
        → Kept rounds render k
            (λ (_ : Unit {0}) n. Mapped (framebuffer_region fb k.machine.pmm.hhdm_offset ∷ rs) n)
            tt
            k'
        → Returns
            (λ _ k'. ScreenUp k')
            ((in_console (
                  in_screen (
                    fb_init (record {
                      address = fb.address;
                      height = fb.height;
                      width = fb.width;
                      pitch = fb.pitch;
                      is_ready = false;
                    })))
                >> (in_console (in_screen (fb_clear_screen bring_up_color))
                    >> klog rounds render info "Framebuffer up and working" []))
              k')
    unfolding fb_init
    show (kept m mapped) =
        Ends-and_then (cleared_within m (fb_clear_screen-PaintedAt bring_up_color v))
          (λ _ _ all. finish mapped all)

    -- The steps after the question whether the frame is free.
    map_step :
        {free : Bool} {k' : Kernel}
        → Fits (framebuffer_region fb k.machine.pmm.hhdm_offset)
        → Kept rounds render k (λ _ n. Mapped rs n) free k'
        → Ends
            (λ _ k'. ScreenUp k')
            (Panics OutOfMemory)
            ((in_machine rounds render (
                  map_range pml4 fb.address
                    (sub64 fb.address k.machine.pmm.hhdm_offset)
                    (u64 (fb.pitch * fb.height))
                    (framebuffer_region fb k.machine.pmm.hhdm_offset).flags)
                >> (in_console (
                      in_screen (
                        fb_init (record {
                          address = fb.address;
                          height = fb.height;
                          width = fb.width;
                          pitch = fb.pitch;
                          is_ready = false;
                        })))
                    >> (in_console (in_screen (fb_clear_screen bring_up_color))
                        >> klog rounds render info "Framebuffer up and working" [])))
              k')
    map_step fits (kept m (mapped, cr3, nxe)) =
        Ends-and_then
          (machine-Kept rounds render (record k { machine = m }) c
            (Ends-mono
              (with_growth
                (map_range-IsMapped (framebuffer_region fb k.machine.pmm.hhdm_offset) fits mapped)
                (map_range-Growing {cpu = true} _ _ _ _ _ m mapped.tree.valid))
              (λ _ n (mapped', more). (mapped', more.cr3 refl ∙ cr3, more.nxe refl ∙ nxe))
              (λ _ _ q. q)))
          (λ _ _ done. Ends-mono (show (moved done)) (λ _ _ up. up) (λ _ _ never. absurd never))
      where
        moved :
            {a : Unit {0}} {k' : Kernel}
            → Kept rounds render
                (record k { machine = m })
                (λ (_ : Unit {0}) n.
                  Mapped (framebuffer_region fb k.machine.pmm.hhdm_offset ∷ rs) n)
                a
                k'
            → Kept rounds render k
                (λ (_ : Unit {0}) n.
                  Mapped (framebuffer_region fb k.machine.pmm.hhdm_offset ∷ rs) n)
                tt
                k'
        moved (kept m' mapped') = kept m' mapped'

    question :
        IsMapped pml4 rs k.machine
        → Ends
            (λ free n.
              (free ≡ (
                accepts k.machine.pmm (sub64 fb.address k.machine.pmm.hhdm_offset)
                && not
                    (allocated k.machine.pmm (sub64 fb.address k.machine.pmm.hhdm_offset / 4096))))
              × Mapped rs n)
            OutOfMemory
            (lifted k.machine
              (is_frame_free (sub64 fb.address k.machine.pmm.hhdm_offset) k.machine.pmm))
    unfolding lifted
    question mapped =
        asked (is_frame_free-Same mapped.tree.valid (sub64 fb.address k.machine.pmm.hhdm_offset))
      where
        asked :
            {run : Run Pmm Bool} {answer : Bool}
            → Returns (λ free p. (free ≡ answer) × SamePmm p k.machine.pmm) run
            → Ends (λ free n. (free ≡ answer) × Mapped rs n) OutOfMemory (lifted k.machine run)
        asked (returns (e, same)) = returns (e, (IsMapped-same k.machine mapped same, refl, refl))
        asked (panics never) = absurd never

    answered :
        {answer free : Bool} {k' : Kernel}
        → Kept rounds render k (λ free n. (free ≡ answer) × Mapped rs n) free k'
        → (free ≡ answer) × Kept rounds render k (λ _ n. Mapped rs n) free k'
    answered (kept m (e, mapped)) = (e, kept m mapped)

    use_framebuffer-ScreenUp :
        fb.memory_model ≡ 1
        → (accepts k.machine.pmm (sub64 fb.address k.machine.pmm.hhdm_offset)
            && not (allocated k.machine.pmm (sub64 fb.address k.machine.pmm.hhdm_offset / 4096)))
          ≡ false
        → Fits (framebuffer_region fb k.machine.pmm.hhdm_offset)
        → IsMapped pml4 rs k.machine
        → Ends (λ _ k'. ScreenUp k') (Panics OutOfMemory) (use_framebuffer rounds render fb pml4 k)
    unfolding use_framebuffer
    use_framebuffer-ScreenUp model taken fits mapped =
        let right_model : (fb.memory_model == 1) ≡ true = ground (arith, model) in
        simp right_model (
          Ends-and_then (machine-Kept rounds render k c (question mapped))
            (λ _ _ done. let (e, done') = answered done in rw (e ∙ taken) (map_step fits done')))

    -- With a console that prints, and tables at `kernel_pml4` that map some regions, `screen_init` for
    -- a first framebuffer of memory model 1, whose frame is not free, whose place is aligned and does
    -- not wrap around and whose pixels make a valid screen: it returns with the framebuffer mapped on
    -- top of the regions and every pixel of the colour, the segment and gate tables and the log's
    -- level as they were, and a console that prints; or it panics with no frame free.
    pub screen_init-ScreenUp :
        (q : Requests) (others : List LimineFramebuffer)
        → q.framebuffers ≡ some (fb ∷ others)
        → fb.memory_model ≡ 1
        → (accepts k.machine.pmm (sub64 fb.address k.machine.pmm.hhdm_offset)
            && not (allocated k.machine.pmm (sub64 fb.address k.machine.pmm.hhdm_offset / 4096)))
          ≡ false
        → Fits (framebuffer_region fb k.machine.pmm.hhdm_offset)
        → IsMapped pml4 rs k.machine
        → Ends (λ _ k'. ScreenUp k') (Panics OutOfMemory) (screen_init rounds render q pml4 k)
    unfolding screen_init response
    screen_init-ScreenUp q others has model taken fits mapped =
        rw has (use_framebuffer-ScreenUp model taken fits mapped)
