-- ===== src/Kernel.antt =====
-- src/kernel_entry.c: the entry of the kernel, on the boot loader's answers to its requests. The
-- parts have their own states, which stand for their variables; `bytes` is the memory apart from
-- them. A panic of the memory management goes to the console.
pub mod Boot
pub mod Up
pub mod Steps
pub mod MemoryUp
pub mod Question
pub mod ScreenUp
pub mod Main
mod Tests
use rainstorm_os.Base.{
  ℕ, zero, suc, ◌+◌, ◌-◌, ◌*◌, ◌/◌, ◌%◌, ◌^◌, bit_or, String, Bool, true, false, not, List, [], ◌∷◌,
  Option, none, some, u64, ltb, ◌==◌, if◌then◌else◌, Run, ok, panic, fault, halted, out_of_fuel,
  Cmd, within, within_run, and_then, pure, get, ◌>>=◌, ◌>>◌,
}
use rainstorm_os.Base.Int.{ℤ}
use rainstorm_os.Utils.Memory.{Mem, memset}
use rainstorm_os.Utils.Console.{
  Console, Arg, number, in_serial, in_screen, kprintf_set_default_sink, kprintf,
}
use rainstorm_os.Utils.Klog.{klogf, klog_set_level}
use rainstorm_os.Memory.Event.{Level, debug, info, panic_level}
use rainstorm_os.Memory.Mm.{page_align_up}
use rainstorm_os.Memory.Pmm.{Pmm, is_frame_free}
use rainstorm_os.Memory.Pmm.Init.{Entry, pmm_init}
use rainstorm_os.Memory.Paging.{
  Machine, lift, map_range, page_present, page_writable, page_global, page_no_execute,
}
use rainstorm_os.Memory.Paging.Spaces.{SegmentInfo, sub64, paging_init}
use rainstorm_os.Cpu.Gdt.{Gdt, gdt_init}
use rainstorm_os.Cpu.Idt.{Idt, idt_init}
use rainstorm_os.Drivers.Serial.{serial_init}
use rainstorm_os.Drivers.Framebuffer.{FbColor, fb_init, fb_clear_screen}

-- The fields of a framebuffer of the boot loader that the kernel reads.
pub record LimineFramebuffer : Type 0 where
  pub address : ℕ
  pub width : ℕ
  pub height : ℕ
  pub pitch : ℕ
  pub memory_model : ℕ

-- The answers to the requests, NULL as `none`.
pub record Requests : Type 0 where
  pub revision_supported : Bool
  pub framebuffers : Option (List LimineFramebuffer)
  pub memmap : Option (List Entry)
  pub hhdm_offset : Option ℕ
  pub physical_virtual_base : Option (ℕ × ℕ)

-- What the linker places: the bounds of the parts of the image, the segment table, the stubs.
pub record Symbols : Type 0 where
  pub bss_start : ℕ
  pub bss_end : ℕ
  pub limine_begin : ℕ
  pub limine_end : ℕ
  pub text_begin : ℕ
  pub text_end : ℕ
  pub rodata_begin : ℕ
  pub rodata_end : ℕ
  pub data_begin : ℕ
  pub data_end : ℕ
  pub gdt_address : ℕ
  pub idt_address : ℕ
  pub stub : ℕ → ℕ

pub record Kernel : Type 0 where
  pub bytes : Mem
  pub machine : Machine
  pub console : Console
  pub gdt : Gdt
  pub idt : Idt

abbrev pub in_console : {A : Type 0} → Cmd Console A → Cmd Kernel A
in_console = within (λ k. k.console) (λ k c. record k { console = c })

-- A response that the code dereferences.
unfoldable pub response : {A : Type 0} → Option A → Cmd Kernel A
response none k = fault
response (some a) k = ok a k

abbrev pub page_cache_disable : ℕ
page_cache_disable = 16

abbrev pub serial_com1_base : ℕ
serial_com1_base = 0x3F8

unfoldable pub halt : Cmd Kernel (Unit {0})
halt k = halted (record k { console = record k.console { interrupts = false } })

abbrev pub segments : Symbols → SegmentInfo
segments l = record {
  limine_start = l.limine_begin;
  limine_end = page_align_up l.limine_end;
  text_start = l.text_begin;
  text_end = page_align_up l.text_end;
  rodata_start = l.rodata_begin;
  rodata_end = page_align_up l.rodata_end;
  data_start = l.data_begin;
  data_end = page_align_up l.data_end;
}

abbrev pub no_framebuffer : Option (List LimineFramebuffer) → Bool
no_framebuffer none = true
no_framebuffer (some []) = true
no_framebuffer (some (fb ∷ fbs)) = false

abbrev pub is_null : {A : Type 0} → Option A → Bool
is_null none = true
is_null (some a) = false

pub validate_limine_or_halt : Requests → Cmd Kernel (Unit {0})
validate_limine_or_halt q =
    if not q.revision_supported
    then halt
    else if no_framebuffer q.framebuffers
    then halt
    else if is_null q.memmap
    then halt
    else if is_null q.hhdm_offset
    then halt
    else if is_null q.physical_virtual_base
    then halt
    else pure tt

abbrev pub bring_up_color : FbColor
bring_up_color = record { red = 40; green = 40; blue = 60 }

-- The serial port as the default sink, and the log on it.
pub console_init : Cmd Kernel (Unit {0})
console_init = do
  serial_sink_id ← in_console (in_serial (serial_init serial_com1_base))
  in_console (kprintf_set_default_sink serial_sink_id)
  in_console (klog_set_level debug)

module _ (rounds : ℕ) (render : String → List Arg → List ℕ) where
  abbrev pub klog : Level → String → List Arg → Cmd Kernel (Unit {0})
  klog level format args = in_console (klogf rounds render level format args)

  unfoldable pub kpanic : {A : Type 0} → String → List Arg → Cmd Kernel A
  kpanic format args = klog panic_level format args >>= λ _ k. halted k

  -- A call into the memory management.
  unfoldable pub run_machine : {A : Type 0} → Kernel → Run Machine A → Run Kernel A
  run_machine k (ok a m) = ok a (record k { machine = m })
  run_machine k (panic message m) = kpanic message [] (record k { machine = m })
  run_machine k (halted m) = halted (record k { machine = m })
  run_machine k fault = fault
  run_machine k out_of_fuel = out_of_fuel

  abbrev pub in_machine : {A : Type 0} → Cmd Machine A → Cmd Kernel A
  in_machine c k = run_machine k (c k.machine)

  pub memory_init : Requests → Symbols → Cmd Kernel ℕ
  memory_init q l = do
    memmap ← response q.memmap
    offset ← response q.hhdm_offset
    k ← get
    in_machine (lift (pmm_init memmap offset k.bytes))
    bases ← response q.physical_virtual_base
    klog debug "kernel_virtual_base=0x%p, kernel_physical_base=0x%p"
        (number bases.1 ∷ number bases.0 ∷ [])
    kernel_pml4 ← in_machine (paging_init bases.0 bases.1 (segments l))
    klog info "Memory management stuff is working" []
    pure kernel_pml4

  -- With the first framebuffer.
  unfoldable pub use_framebuffer : LimineFramebuffer → (kernel_pml4 : ℕ) → Cmd Kernel (Unit {0})
  use_framebuffer fb kernel_pml4 =
      if not (fb.memory_model == 1)
      then kpanic "screen_init: framebuffer memory_model is %u, expected 1"
          (number fb.memory_model ∷ [])
      else (do
        k ← get
        let fb_phys = sub64 fb.address k.machine.pmm.hhdm_offset
        free ← in_machine (lift (is_frame_free fb_phys))
        if free then kpanic "screen_init: framebuffer memory is free" [] else pure tt
        in_machine (
            map_range kernel_pml4 fb.address fb_phys (u64 (fb.pitch * fb.height)) (
              bit_or
                (bit_or (bit_or (bit_or page_cache_disable page_writable) page_no_execute)
                  page_global)
                page_present))
        in_console (
            in_screen (
              fb_init (record {
                address = fb.address;
                height = fb.height;
                width = fb.width;
                pitch = fb.pitch;
                is_ready = false;
              })))
        in_console (in_screen (fb_clear_screen bring_up_color))
        klog info "Framebuffer up and working" [])

  unfoldable pub screen_init : Requests → (kernel_pml4 : ℕ) → Cmd Kernel (Unit {0})
  screen_init q kernel_pml4 = response q.framebuffers >>= first
    where
      first : List LimineFramebuffer → Cmd Kernel (Unit {0})
      first [] k = fault
      first (fb ∷ fbs) k = use_framebuffer fb kernel_pml4 k

  pub kmain : Requests → Symbols → Cmd Kernel (Unit {0})
  kmain q l = do
    λ k. ok tt (record k { bytes = memset l.bss_start 0 (sub64 l.bss_end l.bss_start) k.bytes })
    validate_limine_or_halt q
    console_init
    in_console (kprintf rounds render "Hello from RainstormOS :)\n" [])
    λ k. ok tt (record k { gdt = gdt_init l.gdt_address k.gdt })
    λ k. ok tt (record k { idt = idt_init l.idt_address l.stub k.idt })
    klog info "gdt and idt are working" []
    kernel_pml4 ← memory_init q l
    screen_init q kernel_pml4
    klog info "Halting...." []
    halt
