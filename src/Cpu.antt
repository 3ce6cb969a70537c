-- ===== src/Cpu.antt =====
-- kernel/cpu/i386: the processor's part of the kernel.
pub mod Paging
pub mod Gdt
pub mod Idt
