-- ===== src/Timing/Timer.antt =====
-- kernel/common/src/timing/timer.c: the tick counter and the wait on it. The interrupt that moves
-- the counter is the argument `halt`: the ticks after `cpu_halt`, from those before.
pub mod Stall
mod Tests
use neo_sys_x.Common.{ℕ, zero, suc, ◌+◌, ◌%◌, ◌^◌, Option, none, some, ltb, ◌==◌, if◌then◌else◌}

-- `timer_update`, on 64 bits.
unfoldable pub timer_update : ℕ → ℕ → ℕ
timer_update ticks delta = (ticks + delta) % 2 ^ 64

-- The loop of `timer_stall` behind a rollover, which waits for 0.
unfoldable pub wait_zero : ℕ → (ℕ → ℕ) → ℕ → Option ℕ
wait_zero zero halt ticks = if ticks == 0 then some ticks else none
wait_zero (suc fuel) halt ticks =
    let rest = wait_zero fuel halt (halt ticks) in if ticks == 0 then some ticks else rest

-- The loop that waits for the end.
unfoldable pub wait_until : ℕ → (ℕ → ℕ) → ℕ → ℕ → Option ℕ
wait_until zero halt end ticks = if ltb ticks end then none else some ticks
wait_until (suc fuel) halt end ticks =
    let rest = wait_until fuel halt end (halt ticks) in if ltb ticks end then rest else some ticks

-- The ticks on return.
unfoldable pub timer_stall : ℕ → (ℕ → ℕ) → ℕ → ℕ → Option ℕ
unfolding wait_zero wait_until
timer_stall fuel halt ticks duration =
    let end = (ticks + duration) % 2 ^ 64 in
    if ltb end ticks
    then elim (wait_zero fuel halt ticks) [ none ↦ none | some t ↦ wait_until fuel halt end t ]
    else wait_until fuel halt end ticks
