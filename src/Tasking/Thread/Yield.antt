-- ===== src/Tasking/Thread/Yield.antt =====
-- Which thread `thread_evaluate_yield` of kernel/common/src/tasking/thread.c switches to, and when.
use neo_sys_x.Common.{
  ℕ, suc, ◌+◌, ◌-◌, ◌*◌, ◌%◌, ◌^◌, ◌<◌, ◌≡◌, refl, ◌≢◌, inl, inr, false, true, Bool-cases, none,
  some, leb, ltb, ◌==◌, if◌then◌else◌, arith,
}
use neo_sys_x.Algo.Dllist.Seq.{IsSeq}
use neo_sys_x.Tasking.Thread.{
  Threads, sched_list, kernel_tcb, sched_node_of, next_thread, thread_yield, thread_evaluate_yield,
}

module _ {W : Type 0} (s : Threads W) (n : ℕ) (x : ℕ → ℕ) (seq : IsSeq (s.nodes) sched_list n x)
    (k : ℕ) (at : k < n) (running : sched_node_of (s.current) ≡ x k)
    (some_thread : s.current ≢ 0) where
  next_thread-at :
      (w : W)
      → next_thread (record s { outside = w }) ≡ (if suc k == n then kernel_tcb else x (suc k) - 16)
  unfolding next_thread
  next_thread-at w =
      let a : (s.current == 0) ≡ false = ground arith in
      elim (Bool-cases (suc k == n)) [
        | inl e ↦
            let f : s.nodes.next (x k) ≡ 0 = ground (arith, seq.next_at k) in
            rw (a, running, f, e) refl
        | inr e ↦
            let f : s.nodes.next (x k) ≡ x (suc k) = ground (arith, seq.next_at k) in
            let g : (x (suc k) == 0) ≡ false = ground (arith, seq.some_at (suc k)) in
            rw (a, running, f, g, e) refl
      ]

  -- While a thread of the scheduling list runs, `thread_evaluate_yield` switches exactly when a
  -- quantum has passed since the last switch, counted across a wrap-around of the ticks: to the
  -- next thread of the list, and behind the last one to the kernel's thread. The callback runs
  -- before that switch, and otherwise nothing changes.
  pub thread_evaluate_yield-Next :
      (tick : ℕ)
      → (pre_yield : W → W) → (passed now : ℕ) → s.prev_yield_tick < 2 ^ 64
      → passed < 2 ^ 64
      → now ≡ (s.prev_yield_tick + passed) % 2 ^ 64
      → thread_evaluate_yield tick pre_yield s now ≡ (
          if ltb passed tick then (s, none) else (
            record s { prev_yield_tick = now; outside = pre_yield (s.outside) },
            some (if suc k == n then kernel_tcb else x (suc k) - 16),
          ))
  unfolding thread_evaluate_yield thread_yield
  thread_evaluate_yield-Next tick pre_yield passed now old short later =
      let a : (s.current == 0) ≡ false = ground arith in
      let b : (now + 2 ^ 64 - s.prev_yield_tick) % 2 ^ 64 ≡ passed = omega arith in
      let c : 1 * tick ≡ tick = omega arith in
      elim (Bool-cases (ltb passed tick)) [
        | inl e ↦ let d : leb tick passed ≡ false = ground arith in rw (a, b, c, d, e) refl
        | inr e ↦
            let d : leb tick passed ≡ true = ground arith in
            rw (a, b, c, d, e, next_thread-at (pre_yield (s.outside))) refl
      ]
