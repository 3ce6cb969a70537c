-- ===== src/Drivers.antt =====
-- The device drivers.
pub mod Pic
pub mod Vga
pub mod Uart
pub mod Acpi
pub mod Pit
