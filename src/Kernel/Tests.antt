-- ===== src/Kernel/Tests.antt =====
-- The start of the kernel on a machine of 16 MiB, with COM1 and a framebuffer.
mod Screen
mod Main
use rainstorm_os.Base.{
  ℕ, ◌+◌, ◌*◌, ◌<◌, ◌≡◌, refl, true, false, none, some, [], ◌∷◌, List, ◌==◌, if◌then◌else◌, arith,
  Returns, Ends, inl, inr, ap, String,
}
use rainstorm_os.Base.Bytes.{bit_set}
use rainstorm_os.Base.Int.{pos, negsuc}
use rainstorm_os.Memory.Event.{debug, info}
use rainstorm_os.Memory.Pmm.Init.{
  Entry, reserved, usable, framebuffer, executable_and_modules, is_usable,
}
use rainstorm_os.Memory.Pmm.Init.Place.{EndsAt, FirstFit, first, later, size_of}
use rainstorm_os.Memory.Pmm.State as State
use rainstorm_os.Memory.Pmm.State.{allocated, accepts}
use rainstorm_os.Memory.Paging.{present}
use rainstorm_os.Memory.Paging.Tree.{look}
use rainstorm_os.Memory.Paging.Spaces.Regions.{IsMapped, Fits, translation}
use rainstorm_os.Memory.Paging.Grown.{OutOfMemory}
use rainstorm_os.Memory.Paging.Spaces.Init.{AllFit, IsInitialised}
use rainstorm_os.Utils.Console.{Console, Arg, debug_callback}
use rainstorm_os.Utils.Console.Text.{Listens}
use rainstorm_os.Kernel.{
  Requests, Symbols, Kernel, LimineFramebuffer, screen_init, validate_limine_or_halt, console_init,
  memory_init,
}
use rainstorm_os.Kernel.Boot.{Validated, validate_limine_or_halt-Validated}
use rainstorm_os.Kernel.Up.{IsDown, ConsoleUp, console_init-IsUp}
use rainstorm_os.Drivers.Framebuffer.Visible as Visible
use rainstorm_os.Kernel.ScreenUp.{ScreenUp, framebuffer_region, screen_of, screen_init-ScreenUp}
use rainstorm_os.Kernel.Steps.{CanPanic, Stepped, Panics}
use rainstorm_os.Kernel.MemoryUp.{IsPlaced, IsMemoryUp, regions, memory_init-Stepped}

abbrev bitmap_region : Entry
bitmap_region = record { base = 0x2000; length = 0x8000; type = usable }

-- 4096 frames, of which 2 to 9, 16 to 511 and 1024 to 4095 are usable; between is the image.
abbrev memmap : List Entry
memmap =
    record { base = 0; length = 0x2000; type = reserved }
    ∷ bitmap_region
    ∷ record { base = 0x10000; length = 0x1f0000; type = usable }
    ∷ record { base = 0x200000; length = 0x200000; type = executable_and_modules }
    ∷ record { base = 0x400000; length = 0xc00000; type = usable }
    ∷ record { base = 0xfd000000; length = 0x300000; type = framebuffer }
    ∷ []

abbrev requests : Requests
requests = record {
  revision_supported = true;
  framebuffers = some (
      record {
        address = 0xFFFF8000FD000000;
        width = 800;
        height = 600;
        pitch = 3200;
        memory_model = 1;
      }
      ∷ []);
  memmap = some memmap;
  hhdm_offset = some 0xFFFF800000000000;
  physical_virtual_base = some (0x200000, 0xFFFFFFFF80000000);
}

abbrev symbols : Symbols
symbols = record {
  bss_start = 0xFFFFFFFF80003800;
  bss_end = 0xFFFFFFFF80003900;
  limine_begin = 0xFFFFFFFF80000000;
  limine_end = 0xFFFFFFFF80000800;
  text_begin = 0xFFFFFFFF80001000;
  text_end = 0xFFFFFFFF80001FFF;
  rodata_begin = 0xFFFFFFFF80002000;
  rodata_end = 0xFFFFFFFF80002010;
  data_begin = 0xFFFFFFFF80003000;
  data_end = 0xFFFFFFFF80005000;
  gdt_address = 0xFFFFFFFF80003100;
  idt_address = 0xFFFFFFFF80004000;
  stub = λ n. 0xFFFFFFFF80001000 + n * 16;
}

-- No driver is set up; the port answers the loop-back and is always empty after it.
abbrev down : Console
down = record {
  serial = record {
    is_initialised = false;
    current_com = 0;
    answers = λ n p. if p == 0x3F8 then 0xAE else 0x60;
    reads = 0;
    sent = [];
    registry = record { sinks = λ n. none; next = 0; calls = [] };
  };
  screen = record {
    framebuffer = record { address = 0; width = 0; height = 0; pitch = 0; is_ready = false };
    word = λ p. 0;
    object_start = 0;
    object_end = 0;
  };
  default_sink = negsuc 0;
  current_level = info;
  debug_sink = negsuc 0;
  interrupts = true;
  rbp = 0;
  stack = λ p. 0;
}

abbrev up : Console
up = record down {
  serial = record {
    is_initialised = true;
    current_com = 0x3F8;
    answers = λ n p. 0x60;
    reads = 1;
    sent = [];
    registry = record {
      sinks = λ n. if n == 1 then some debug_callback else (if n == 0 then some 0 else none);
      next = 2;
      calls = [];
    };
  };
  default_sink = pos 0;
  current_level = debug;
  debug_sink = pos 1;
}

abbrev kernel : Console → Kernel
kernel c = record {
  bytes = λ a. 0;
  machine = record {
    pmm = record {
      bitmap = λ i. 0;
      bitmap_start = 0;
      bitmap_size = 0;
      total_frames = 0;
      hhdm_offset = 0;
      log = [];
    };
    word = λ a. 0;
    kernel_pml4_entries = λ i. 0;
    cr3 = 0;
    nxe = false;
    invalidated = [];
  };
  console = c;
  gdt = record {
    gdt = λ n. record {
      limit_low = 0;
      base_low = 0;
      base_middle = 0;
      access_byte = 0;
      granularity = 0;
      base_high = 0;
    };
    size = 0;
    address = 0;
    flushed = none;
    log = [];
  };
  idt = record {
    idt = λ n. record {
      addr_low = 0;
      kernel_cs = 0;
      ist = 0;
      flags = 0;
      addr_mid = 0;
      addr_high = 0;
      reserved = 0;
    };
    size = 0;
    address = 0;
    loaded = none;
  };
}

validate_limine_or_halt-Validated_example :
    Validated requests (kernel down) (validate_limine_or_halt requests (kernel down))
validate_limine_or_halt-Validated_example = validate_limine_or_halt-Validated requests (kernel down)

down-IsDown : IsDown down 1
down-IsDown = record {
  off = refl;
  answers = refl;
  drains = record { wait = λ n. 0; in_time = λ n. omega arith; empties = λ n. refl };
  valid = record { bounded = omega arith; unused = λ n h. refl };
  room = omega arith;
  no_log = refl;
}

console_init-IsUp_example :
    Returns (λ _ k'. ConsoleUp 1 (kernel down) k') (console_init (kernel down))
console_init-IsUp_example = console_init-IsUp (kernel down) down-IsDown

default-Listens : Listens up.serial 1 0
default-Listens = record {
  small = omega arith;
  callback = inl refl;
  on = refl;
  drains = record { wait = λ n. 0; in_time = λ n. omega arith; empties = λ n. refl };
}

log-Listens : Listens up.serial 1 1
log-Listens = record {
  small = omega arith;
  callback = inr refl;
  on = refl;
  drains = record { wait = λ n. 0; in_time = λ n. omega arith; empties = λ n. refl };
}

up-CanPanic : CanPanic 1 up
up-CanPanic = record {
  up = record {
    id = 0;
    log_id = 1;
    default = refl;
    prints = default-Listens;
    log = refl;
    logs = log-Listens;
  };
  screen = inr refl;
}

memmap-EndsAt : EndsAt memmap 0x1000000
memmap-EndsAt = record {
  by = (
    λ never. omega arith,
    (
      λ memory. omega arith,
      (
        λ memory. omega arith,
        (
          λ memory. omega arith,
          (λ memory. omega arith, (λ never. absurd (ground (arith, never)), tt)),
        ),
      ),
    ),
  );
  at = inr (inr (inr (inr (inr (inl (refl, refl))))));
}

memmap-FirstFit : FirstFit (size_of 0x1000000) memmap bitmap_region
memmap-FirstFit =
    later _ _ _ (λ never. absurd (ground (arith, ap is_usable never)))
      (first _ _ refl (omega arith))

symbols-IsPlaced : IsPlaced symbols
symbols-IsPlaced = record {
  limine = omega arith;
  text = omega arith;
  rodata = omega arith;
  data_end = omega arith;
}

abbrev render : String → List Arg → List ℕ
render format args = 10 ∷ []

image_fits : AllFit (
    regions 1 render symbols memmap 0x1000000 0xFFFF800000000000 0x200000 0xFFFFFFFF80000000
      (kernel up).machine.pmm)
image_fits = omega arith

memory_init-Stepped_example :
    Ends
      (Stepped 1 (kernel up) (λ pml4 n.
        IsMemoryUp memmap 0x1000000 0xFFFF800000000000 pml4
          (regions 1 render symbols memmap 0x1000000 0xFFFF800000000000 0x200000 0xFFFFFFFF80000000
            (kernel up).machine.pmm)
          n))
      (Panics OutOfMemory)
      (memory_init 1 render requests symbols (kernel up))
memory_init-Stepped_example =
    memory_init-Stepped 1 render symbols memmap 0x1000000 0xFFFF800000000000 0x200000
      0xFFFFFFFF80000000 requests (kernel up) refl refl refl up-CanPanic symbols-IsPlaced
      (omega arith) (λ a. omega arith) memmap-EndsAt bitmap_region memmap-FirstFit (omega arith)
      refl (omega arith) image_fits
