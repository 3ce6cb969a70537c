-- ===== src/Timing.antt =====
-- kernel/common/src/timing: the system timer.
pub mod Timer
