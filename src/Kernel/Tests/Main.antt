-- ===== src/Kernel/Tests/Main.antt =====
-- The whole start of the kernel, on the machine of 16 MiB.
use rainstorm_os.Base.{refl, [], arith, Halts}
use rainstorm_os.Memory.Paging.Grown.{OutOfMemory}
use rainstorm_os.Memory.Paging.Spaces.Init.{AllFit}
use rainstorm_os.Kernel.{Kernel, kmain}
use rainstorm_os.Kernel.Boot.{IsAnswered}
use rainstorm_os.Kernel.Up.{IsDown}
use rainstorm_os.Kernel.Steps.{Panics}
use rainstorm_os.Kernel.Main.{IsBootable, Booted, first_regions, kmain-Booted}
use rainstorm_os.Kernel.Tests.{
  requests, symbols, memmap, down, kernel, render, bitmap_region, memmap-EndsAt, memmap-FirstFit,
  symbols-IsPlaced,
}
use rainstorm_os.Kernel.Tests.Screen.{fb, fb-Fits, fb-IsValid}

abbrev asleep : Kernel
asleep = kernel (record down {
  screen = record down.screen {
    object_start = 0xFFFF8000FD000000;
    object_end = 0xFFFF8000FD1D4C00;
  };
})

abbrev requests-IsAnswered : IsAnswered requests
requests-IsAnswered = record {
  supported = refl;
  first = fb;
  rest = [];
  has_framebuffer = refl;
  entries = memmap;
  has_memmap = refl;
  offset = 0xFFFF800000000000;
  has_offset = refl;
  bases = (0x200000, 0xFFFFFFFF80000000);
  has_bases = refl;
}

asleep-IsBootable : IsBootable requests symbols asleep requests-IsAnswered 0x1000000
asleep-IsBootable = record {
  maps = omega arith;
  ends = memmap-EndsAt;
  place = bitmap_region;
  room = memmap-FirstFit;
  nonzero = omega arith;
  aligned = refl;
  few = omega arith;
  image = symbols-IsPlaced;
  stubs = λ n h. omega arith;
  bytes = λ p. omega arith;
  model = refl;
  reserved = refl;
  fits = fb-Fits;
  pixels = fb-IsValid;
}

asleep-IsDown : IsDown asleep.console 1
asleep-IsDown = record {
  off = refl;
  answers = refl;
  drains = record { wait = λ n. 0; in_time = λ n. omega arith; empties = λ n. refl };
  valid = record { bounded = omega arith; unused = λ n h. refl };
  room = omega arith;
  no_log = refl;
}

asleep-fits : AllFit (first_regions 1 render requests symbols asleep requests-IsAnswered 0x1000000)
asleep-fits = omega arith

kmain-Booted_example :
    Halts
      (Booted 1 render requests symbols asleep requests-IsAnswered 0x1000000)
      (Panics OutOfMemory)
      (kmain 1 render requests symbols asleep)
kmain-Booted_example =
    kmain-Booted 1 render requests symbols asleep requests-IsAnswered 0x1000000 asleep-IsBootable
      refl asleep-fits asleep-IsDown
