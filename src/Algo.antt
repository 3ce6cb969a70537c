-- ===== src/Algo.antt =====
-- kernel/common/src/algo: the id allocator and the doubly linked list.
pub mod Idalloc
pub mod Dllist
