-- ===== src/Memory.antt =====
-- The memory subsystem: src/memory/.
pub mod Mm
pub mod Event
pub mod Pmm
pub mod Paging
