-- ===== src/Cpu/Idt.antt =====
-- src/cpu/idt.c and src/cpu/isr_gen.c: the interrupt descriptor table, as a function of the
-- vector. The stubs are assembly; their addresses are a parameter.
pub mod Gates
use rainstorm_os.Base.{
  ℕ, zero, suc, ◌+◌, ◌-◌, ◌*◌, ◌/◌, ◌%◌, ◌^◌, bit_and, bit_or, Option, some, List, [], ◌∷◌, u8, u16,
  u32, ◌>>>◌, ◌<<<◌, ◌==◌, if◌then◌else◌,
}

pub record IdtEntry : Type 0 where
  pub addr_low : ℕ
  pub kernel_cs : ℕ
  pub ist : ℕ
  pub flags : ℕ
  pub addr_mid : ℕ
  pub addr_high : ℕ
  pub reserved : ℕ

-- The table, the limit and the address in the descriptor, and the descriptor that the processor was
-- given last.
pub record Idt : Type 0 where
  pub idt : ℕ → IdtEntry
  pub size : ℕ
  pub address : ℕ
  pub loaded : Option (ℕ × ℕ)

abbrev pub idt_flag_interrupt_gate_64 : ℕ
idt_flag_interrupt_gate_64 = 0x0E

abbrev pub idt_flag_ring_0 : ℕ
idt_flag_ring_0 = 0 <<< 5

abbrev pub idt_flag_present : ℕ
idt_flag_present = 0x80

abbrev pub sizeof_idt_entry : ℕ
sizeof_idt_entry = 16

abbrev pub zeroed : IdtEntry
zeroed = record {
  addr_low = 0;
  kernel_cs = 0;
  ist = 0;
  flags = 0;
  addr_mid = 0;
  addr_high = 0;
  reserved = 0;
}

-- The fields that `idt_set_gate` writes; it leaves the others as they were.
abbrev pub gate : IdtEntry → (addr flags : ℕ) → IdtEntry
gate e addr flags = record e {
  addr_low = u16 (bit_and addr 0xFFFF);
  addr_mid = u16 (bit_and (addr >>> 16) 0xFFFF);
  addr_high = u32 (bit_and (addr >>> 32) 0xFFFFFFFF);
  kernel_cs = 0x08;
  flags = flags;
}

pub idt_set_gate : (num addr flags : ℕ) → Idt → Idt
idt_set_gate num addr flags s = record s {
  idt = λ n. if num == n then gate (s.idt num) addr flags else s.idt n;
}

-- The stubs that src/cpu/isr_gen.c declares: `isr n` is the function `_isr` followed by the number.
pub data Stub : Type 0 where
  isr : ℕ → Stub

pub stubs : ℕ → (n : ℕ) → List Stub
stubs zero n = []
stubs (suc left) n = isr n ∷ stubs left (n + 1)

-- `_isr0` to `_isr127`, and `_isr128` to `_isr255`.
abbrev pub low_stubs : List Stub
low_stubs = stubs 128 0

abbrev pub high_stubs : List Stub
high_stubs = stubs 128 128

-- Where a stub is, by the addresses that the linker gives.
abbrev pub address_of : (ℕ → ℕ) → Stub → ℕ
address_of stub (isr n) = stub n

-- The calls of `isr_init` for these stubs, from vector `n` on.
pub set_gates : List Stub → (stub : ℕ → ℕ) → (n : ℕ) → Idt → Idt
set_gates [] stub n s = s
set_gates (f ∷ fs) stub n s = set_gates fs stub (n + 1) (
    idt_set_gate n (address_of stub f)
      (bit_or (bit_or idt_flag_interrupt_gate_64 idt_flag_ring_0) idt_flag_present) s)

-- The calls for the vectors 0 to 127, and those for 128 to 255.
pub low_gates : (ℕ → ℕ) → Idt → Idt
low_gates stub s = set_gates low_stubs stub 0 s

pub high_gates : (ℕ → ℕ) → Idt → Idt
high_gates stub s = set_gates high_stubs stub 128 s

pub isr_init : (ℕ → ℕ) → Idt → Idt
isr_init stub s = high_gates stub (low_gates stub s)

-- `address` is where the linker puts the table.
pub idt_init : (address : ℕ) → (ℕ → ℕ) → Idt → Idt
idt_init address stub s =
    let s0 = record s { size = sizeof_idt_entry * 256 - 1; address = address } in
    let t = isr_init stub (record s0 { idt = λ n. zeroed }) in
    record t { loaded = some (t.size, t.address) }
