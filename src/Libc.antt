-- ===== src/Libc.antt =====
-- libc: the part that the kernel builds on.
pub mod Memory
