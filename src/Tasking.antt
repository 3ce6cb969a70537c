-- ===== src/Tasking.antt =====
-- kernel/common/src/tasking: processes and threads.
pub mod Thread
