-- ===== src/Cpu.antt =====
-- The descriptor tables of src/cpu, and the dispatch of interrupts.
pub mod Gdt
pub mod Idt
pub mod Isr
pub mod Stubs
mod Tests
