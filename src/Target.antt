-- ===== src/Target.antt =====
-- kernel/targets: what the boot loader hands over.
pub mod Multiboot
