-- ===== src/Timing/Timer/Stall.antt =====
-- When `timer_stall` returns.
use neo_sys_x.Common.{
  ℕ, zero, suc, ◌+◌, ◌*◌, ◌/◌, ◌%◌, ◌^◌, ◌≤◌, ◌<◌, ◌≡◌, refl, Bool-cases, inl, inr, Option, none,
  some, arith, ltb, ◌==◌, true, false,
}
use neo_sys_x.Timing.Timer.{wait_zero, wait_until, timer_update, timer_stall}

abbrev Stopped : ℕ → ℕ → Option ℕ → Type 0
Stopped end step r = (t : ℕ) × (r ≡ some t) × (end ≤ t) × (t < end + step)

module _ (step : ℕ) (moves : 1 ≤ step) where
  wait_until-Stopped :
      (fuel end ticks : ℕ)
      → end + step < 2 ^ 64
      → ticks < end + step
      → end ≤ ticks + fuel
      → Stopped end step (wait_until fuel (λ t. timer_update t step) end ticks)
  unfolding wait_until timer_update
  wait_until-Stopped zero end ticks small under enough =
      (ticks, ground arith, omega arith, omega arith)
  wait_until-Stopped (suc fuel) end ticks small under enough = elim (Bool-cases (ltb ticks end)) [
    | inl e ↦
        let lt : ticks < end = ground arith in
        let next : timer_update ticks step ≡ ticks + step = omega arith in
        let (t, f, a, b) =
          wait_until-Stopped fuel end (timer_update ticks step) small (omega arith) (omega arith) in
        (t, rw e f, a, b)
    | inr e ↦ (ticks, rw e refl, ground arith, omega arith)
  ]

  -- Where the interrupt adds `step` ticks each time and the end does not roll over, `timer_stall`
  -- returns, not before the duration is over and less than one step late.
  pub timer_stall-Stopped :
      (ticks duration : ℕ)
      → ticks + duration + step < 2 ^ 64
      → (t : ℕ) × (timer_stall duration (λ t. timer_update t step) ticks duration ≡ some t)
        × (ticks + duration ≤ t)
        × (t < ticks + duration + step)
  unfolding timer_stall
  timer_stall-Stopped ticks duration small =
      let e : (ticks + duration) % 2 ^ 64 ≡ ticks + duration = omega arith in
      let f : ltb (ticks + duration) ticks ≡ false = ground arith in
      rw (e, f)
        (wait_until-Stopped duration (ticks + duration) ticks small (omega arith) (omega arith))

wait_zero-odd :
    (fuel half k : ℕ) (ticks : ℕ)
    → ticks ≡ 2 * k + 1
    → wait_zero fuel (λ t. timer_update t (2 * half)) ticks ≡ none
unfolding wait_zero timer_update
wait_zero-odd zero half k ticks odd = ground arith
wait_zero-odd (suc fuel) half k ticks odd =
    let e : (ticks == 0) ≡ false = ground arith in
    rw e (
      wait_zero-odd fuel half ((timer_update ticks (2 * half)) / 2) (timer_update ticks (2 * half))
        (omega arith))

-- A wait whose end rolls over waits for the counter to be 0: with a counter that stands at an odd
-- number and a timer that adds an even number of ticks each time, it does not return, however
-- many interrupts there are.
timer_stall-hangs :
    (fuel half k ticks duration : ℕ)
    → ticks ≡ 2 * k + 1
    → (ticks + duration) % 2 ^ 64 < ticks
    → timer_stall fuel (λ t. timer_update t (2 * half)) ticks duration ≡ none
unfolding timer_stall
timer_stall-hangs fuel half k ticks duration odd rolls =
    let f : ltb ((ticks + duration) % 2 ^ 64) ticks ≡ true = ground arith in
    rw (f, wait_zero-odd fuel half k ticks odd) refl
