-- ===== src/Io.antt =====
-- kernel/common/src/io: the kernel's terminal and its ANSI layer.
pub mod Ansi
pub mod Terminal
