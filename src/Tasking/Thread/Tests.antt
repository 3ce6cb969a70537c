-- ===== src/Tasking/Thread/Tests.antt =====
-- A process that can not get an address space, and a list of two threads.
use neo_sys_x.Common.{
  ℕ, ◌+◌, ◌-◌, ◌*◌, ◌^◌, ◌≡◌, refl, true, false, none, some, ◌==◌, if◌then◌else◌, arith,
}
use neo_sys_x.Algo.Idalloc.{Idalloc}
use neo_sys_x.Algo.Idalloc.Wf.{IsWf, IsHeap}
use neo_sys_x.Algo.Dllist.{Store}
use neo_sys_x.Algo.Dllist.Seq.{IsSeq}
use neo_sys_x.Tasking.Thread.{
  Threads, Services, sched_list, kernel_tcb, thread_new_pcb, thread_evaluate_yield,
}
use neo_sys_x.Tasking.Thread.Process.{MadeOrNot, thread_new_pcb-MadeOrNot}
use neo_sys_x.Tasking.Thread.Yield.{thread_evaluate_yield-Next}

abbrev services : Services ℕ
services = record {
  malloc = λ w. (w + 1, 0x2000);
  free = λ w p. w - 1;
  realloc = λ n. none;
  new_config = λ w. (w, 0);
  alloc_stack = λ w size. (w, 0x8000);
  alloc_user = λ w config size. (w, 0x9000);
  free_frames = λ w vaddr size. w;
  frame_size = 4096;
}

-- 32 ids, the first taken.
abbrev ids : Idalloc
ids = record { size = 4; bitmap = λ k. 1; present = true; next_to_allocate = 0; is_static = false }

ids-IsWf : IsWf ids
ids-IsWf = record {
  words = λ k. omega arith;
  whole = refl;
  bounded = omega arith;
  next_bounded = omega arith;
}

realloc-IsHeap : IsHeap (services.realloc)
realloc-IsHeap = record { fresh_words = λ n g e. cc; limit = λ n g e. cc }

abbrev nodes : ℕ → ℕ
nodes i = i * 0x100 + 0x110

abbrev store : Store
store = record {
  owner = λ j. sched_list;
  prev = λ j. if j == 0x210 then 0x110 else 0;
  next = λ j. if j == 0x110 then 0x210 else 0;
  head = λ l. 0x110;
  tail = λ l. 0x210;
}

abbrev threads : Threads ℕ
threads = record {
  pcb_id = λ p. 0;
  pcb_config = λ p. 0;
  tcb_id = λ p. 0;
  tcb_user = λ p. false;
  kernel_sp = λ p. 0;
  nodes = store;
  pids = ids;
  tids = ids;
  context = λ p. none;
  current = kernel_tcb;
  prev_yield_tick = 2 ^ 64 - 10;
  outside = 0;
}

store-IsSeq : IsSeq store sched_list 2 nodes
store-IsSeq = record {
  head_at = ground arith;
  tail_at = ground arith;
  some_at = λ i b. omega arith;
  owner_at = λ i b. omega arith;
  next_at = λ i b. ground arith;
  prev_at = λ i b. ground arith;
  apart = λ i j b c e. omega arith;
}

thread_new_pcb-MadeOrNot_example :
    (t : Threads ℕ) × (pcb : ℕ) × (thread_new_pcb services threads ≡ some (t, pcb))
    × MadeOrNot services threads t pcb
thread_new_pcb-MadeOrNot_example = thread_new_pcb-MadeOrNot services threads realloc-IsHeap ids-IsWf

thread_evaluate_yield-Next_example :
    thread_evaluate_yield 20 (λ w. w + 1) threads 15
    ≡ (record threads { prev_yield_tick = 15; outside = 1 }, some 0x200)
thread_evaluate_yield-Next_example =
    thread_evaluate_yield-Next threads 2 nodes store-IsSeq 0 (omega arith) refl (omega arith) 20
      (λ w. w + 1) 25 15 (omega arith) (omega arith) (omega arith)
