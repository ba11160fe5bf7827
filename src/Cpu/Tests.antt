-- ===== src/Cpu/Tests.antt =====
-- The theorems of the descriptor tables at concrete values.
use rainstorm_os.Base.{ℕ, ◌+◌, ◌*◌, none, arith}
use rainstorm_os.Base.{[]}
use rainstorm_os.Cpu.Gdt.{Gdt, gdt_init}
use rainstorm_os.Cpu.Gdt.Segments.{Segmented, gdt_init_lem}
use rainstorm_os.Cpu.Idt.{Idt, zeroed, idt_init}
use rainstorm_os.Cpu.Idt.Gates.{Gated, idt_init-handler}

abbrev empty_gdt : Gdt
empty_gdt = record {
  gdt = λ n. record {
    limit_low = 0;
    base_low = 0;
    base_middle = 0;
    access_byte = 0;
    granularity = 0;
    base_high = 0;
  };
  size = 0;
  address = 0;
  flushed = none;
  log = [];
}

gdt_init_lem_example :
    Segmented 0xFFFFFFFF80005000 empty_gdt (gdt_init 0xFFFFFFFF80005000 empty_gdt)
gdt_init_lem_example = gdt_init_lem 0xFFFFFFFF80005000 empty_gdt

-- Stubs of sixteen bytes each, from a higher-half address.
abbrev stubs : ℕ → ℕ
stubs n = 0xFFFFFFFF80001000 + 16 * n

abbrev empty_idt : Idt
empty_idt = record { idt = λ n. zeroed; size = 0; address = 0; loaded = none }

idt_init-handler_example :
    Gated 0xFFFFFFFF80006000 stubs (idt_init 0xFFFFFFFF80006000 stubs empty_idt)
idt_init-handler_example = idt_init-handler 0xFFFFFFFF80006000 stubs empty_idt (λ n h. omega arith)
