-- ===== src/Cpu/Gdt.antt =====
-- src/cpu/gdt.c: the segment descriptors, as a function of the index below 5.
pub mod Segments
use rainstorm_os.Base.{
  ℕ, ◌+◌, ◌-◌, ◌*◌, ◌/◌, ◌%◌, ◌^◌, bit_and, bit_or, Option, some, u8, u16, ◌>>>◌, ◌==◌,
  if◌then◌else◌,
}
use rainstorm_os.Base.{List, [], ◌∷◌}
use rainstorm_os.Memory.Event.{Event, event, debug}

pub record GdtEntry : Type 0 where
  pub limit_low : ℕ
  pub base_low : ℕ
  pub base_middle : ℕ
  pub access_byte : ℕ
  pub granularity : ℕ
  pub base_high : ℕ

-- The table, the limit and the address in the descriptor, the descriptor that the processor was
-- given last, and what went to the log.
pub record Gdt : Type 0 where
  pub gdt : ℕ → GdtEntry
  pub size : ℕ
  pub address : ℕ
  pub flushed : Option (ℕ × ℕ)
  pub log : List Event

abbrev pub gdt_entries_count : ℕ
gdt_entries_count = 5

abbrev pub sizeof_gdt_entry : ℕ
sizeof_gdt_entry = 8

unfoldable pub segment : (base limit access gran : ℕ) → GdtEntry
segment base limit access gran = record {
  base_low = u16 (bit_and base 0xFFFF);
  base_middle = u8 (bit_and (base >>> 16) 0xFF);
  base_high = u8 (bit_and (base >>> 24) 0xFF);
  limit_low = u16 (bit_and limit 0xFFFF);
  granularity = u8 (bit_or (bit_and (limit >>> 16) 0x0F) (bit_and gran 0xF0));
  access_byte = access;
}

unfoldable pub gdt_set_entry : (num base limit access gran : ℕ) → Gdt → Gdt
gdt_set_entry num base limit access gran s = record s {
  gdt = λ n. if num == n then segment base limit access gran else s.gdt n;
}

-- `address` is where the linker puts the table.
pub gdt_init : (address : ℕ) → Gdt → Gdt
gdt_init address s =
    let s0 = record s { size = sizeof_gdt_entry * gdt_entries_count - 1; address = address } in
    let s1 = gdt_set_entry 0 0 0 0 0 s0 in
    let s2 = gdt_set_entry 1 0 0xFFFFF 0x9A 0xA0 s1 in
    let s3 = gdt_set_entry 2 0 0xFFFFF 0x92 0xC0 s2 in
    let s4 = gdt_set_entry 3 0 0xFFFFF 0xFA 0xA0 s3 in
    let s5 = gdt_set_entry 4 0 0xFFFFF 0xF2 0xC0 s4 in
    let s6 = record s5 {
      log = event debug "GDT address: 0x%llx  size: %u" (s5.address ∷ s5.size ∷ []) ∷ s5.log;
    } in
    record s6 { flushed = some (s6.size, s6.address) }
