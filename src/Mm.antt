-- ===== src/Mm.antt =====
-- kernel/common/src/mm: the physical and the virtual memory manager.
pub mod Pmm
pub mod Vmm
pub mod Link
