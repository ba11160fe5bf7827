-- ===== src/Utils/Memory/Tests.antt =====
-- Runs of the memory routines, and their theorems at inputs.
use rainstorm_os.Base.{◌+◌, ◌-◌, ◌≡◌, refl, if◌then◌else◌, inr, arith}
use rainstorm_os.Base.Int.{negsuc}
use rainstorm_os.Utils.Memory.{Mem, memmove, memcpy, memcmp, copy_up, copy_down, memcmp_loop}
use rainstorm_os.Utils.Memory.Copy.{memcpy-memmove}
use rainstorm_os.Utils.Memory.Laws.{inside, memmove_lem, Compared, memcmp-Compared}

-- Each byte holds its address.
abbrev ramp : Mem
ramp a = a

-- The ranges overlap from behind: a copy upwards would repeat byte 10.
overlap : memmove 12 10 8 ramp 19 ≡ 17
unfolding memmove copy_up copy_down
overlap = refl

first_less : memcmp 3 5 4 ramp ≡ negsuc 1
unfolding memcmp memcmp_loop
first_less = refl

memmove_lem_example :
    memmove 12 10 8 ramp 19 ≡ (if inside 12 8 19 then ramp (10 + (19 - 12)) else ramp 19)
memmove_lem_example = memmove_lem 12 10 8 ramp 19

memcmp-Compared_example : Compared ramp 3 5 0 4 (memcmp 3 5 4 ramp)
memcmp-Compared_example = memcmp-Compared ramp 3 5 4

memcpy-memmove_example : memcpy 100 10 13 ramp 112 ≡ memmove 100 10 13 ramp 112
memcpy-memmove_example = memcpy-memmove 100 10 13 ramp (inr (omega arith)) 112
