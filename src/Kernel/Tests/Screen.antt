-- ===== src/Kernel/Tests/Screen.antt =====
-- The framebuffer, mapped over an empty address space.
use rainstorm_os.Base.{ℕ, ◌<◌, ◌≡◌, refl, [], ◌==◌, if◌then◌else◌, arith, Ends, inr}
use rainstorm_os.Base.Bytes.{bit_set}
use rainstorm_os.Memory.Pmm.State as State
use rainstorm_os.Memory.Pmm.State.{allocated, accepts}
use rainstorm_os.Memory.Paging.{present}
use rainstorm_os.Memory.Paging.Tree.{look}
use rainstorm_os.Memory.Paging.Spaces.Regions.{IsMapped, Fits, translation}
use rainstorm_os.Memory.Paging.Grown.{OutOfMemory}
use rainstorm_os.Kernel.{Kernel, LimineFramebuffer, screen_init}
use rainstorm_os.Drivers.Framebuffer.Visible as Visible
use rainstorm_os.Kernel.ScreenUp.{ScreenUp, framebuffer_region, screen_of, screen_init-ScreenUp}
use rainstorm_os.Kernel.Steps.{CanPanic, Panics}
use rainstorm_os.Kernel.Tests.{requests, up, kernel, default-Listens, log-Listens, render}

-- Tables with an empty root in frame 1, the only one in use of 40.
abbrev pub rooted : Kernel
rooted = record (kernel up) {
  machine = record (kernel up).machine {
    pmm = record {
      bitmap = λ i. if i == 0 then 2 else 0;
      bitmap_start = 0;
      bitmap_size = 5;
      total_frames = 40;
      hhdm_offset = 0xFFFF800000000000;
      log = [];
    };
  };
  console = record up {
    screen = record up.screen {
      object_start = 0xFFFF8000FD000000;
      object_end = 0xFFFF8000FD1D4C00;
    };
  };
}

rooted-IsValid : State.IsValid rooted.machine.pmm
rooted-IsValid = record {
  bytes = λ i. ground arith;
  size = refl;
  padding = λ f h k. absurd (omega arith);
  fits = omega arith;
}

only_root : (t : ℕ) → 0 < (if t == 0x1000 then 4 else 0) → t ≡ 0x1000
only_root t h = ground arith

rooted-IsMapped : IsMapped 0x1000 [] rooted.machine
unfolding translation present allocated look bit_set
rooted-IsMapped = record {
  level' = λ t. if t == 0x1000 then 4 else 0;
  path' = λ t. 0;
  tree = record {
    valid = rooted-IsValid;
    small = omega arith;
    is_root = refl;
    root_path = refl;
    aligned = λ t h. ground arith;
    tracked = λ t h. ground arith;
    taken = λ t h. rw (only_root t h) refl;
    below = λ t i h h' on. absurd (ground (arith, on));
    extends_path = λ t i h h' on. absurd (ground (arith, on));
  };
  translates = λ q h. refl;
}

abbrev pub fb : LimineFramebuffer
fb = record {
  address = 0xFFFF8000FD000000;
  width = 800;
  height = 600;
  pitch = 3200;
  memory_model = 1;
}

rooted-CanPanic : CanPanic 1 rooted.console
rooted-CanPanic = record {
  up = record {
    id = 0;
    log_id = 1;
    default = refl;
    prints = default-Listens;
    log = refl;
    logs = log-Listens;
  };
  screen = inr refl;
}

pub fb-IsValid : Visible.IsValid (screen_of fb rooted.console.screen)
fb-IsValid = record {
  ready = refl;
  stride = omega arith;
  starts = omega arith;
  ends = omega arith;
  in_memory = omega arith;
  narrow = omega arith;
  low = omega arith;
}

pub fb-Fits : Fits (framebuffer_region fb 0xFFFF800000000000)
fb-Fits = omega arith

screen_init-ScreenUp_example :
    Ends
      (λ _ k'. ScreenUp 1 render fb 0x1000 [] rooted k')
      (Panics OutOfMemory)
      (screen_init 1 render requests 0x1000 rooted)
screen_init-ScreenUp_example =
    screen_init-ScreenUp 1 render fb 0x1000 [] rooted rooted-CanPanic fb-IsValid requests [] refl
      refl (ground arith) fb-Fits rooted-IsMapped
