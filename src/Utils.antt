-- ===== src/Utils.antt =====
-- src/utils: the memory routines, the registry of character sinks, the way of a character to them, and
-- the log.
pub mod Memory
pub mod Sink
pub mod Console
pub mod Klog
