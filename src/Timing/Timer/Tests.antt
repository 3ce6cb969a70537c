-- ===== src/Timing/Timer/Tests.antt =====
-- Waits of a few ticks.
use neo_sys_x.Common.{ℕ, ◌≤◌, ◌<◌, ◌≡◌, some, arith}
use neo_sys_x.Timing.Timer.{timer_update, timer_stall}
use neo_sys_x.Timing.Timer.Stall.{timer_stall-Stopped}

timer_stall-Stopped_example :
    (t : ℕ) × (timer_stall 5 (λ t. timer_update t 2) 10 5 ≡ some t) × (15 ≤ t) × (t < 17)
timer_stall-Stopped_example = timer_stall-Stopped 2 (omega arith) 10 5 (omega arith)
