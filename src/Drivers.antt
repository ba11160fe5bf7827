-- ===== src/Drivers.antt =====
-- src/drivers: the framebuffer and the serial port.
pub mod Framebuffer
pub mod Serial
