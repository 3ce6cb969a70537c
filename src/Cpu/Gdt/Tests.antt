-- ===== src/Cpu/Gdt/Tests.antt =====
-- Descriptors at concrete segments, and the first context of a thread of the user.
use neo_sys_x.Common.{true, false, ◌+◌, ◌-◌, ℕ, ◌*◌, ◌≡◌, refl, none, some, arith}
use neo_sys_x.Algo.Idalloc.{Idalloc}
use neo_sys_x.Algo.Dllist.{Store}
use neo_sys_x.Tasking.Thread.{Threads, Services, Context, thread_init_kernel_stack}
use neo_sys_x.Cpu.Gdt.{page_segment, page_cseg32, packed}
use neo_sys_x.Cpu.Gdt.Segments.{Reads, page_segment-Reads}
use neo_sys_x.Cpu.Gdt.Selectors.{Starts, thread_init_kernel_stack-Starts}

kernel_code-packed : packed (page_cseg32 0 0x100000000 1 0) ≡ 0x00cf9f000000ffff
unfolding packed page_cseg32
kernel_code-packed = refl

page_segment-Reads_example :
    Reads (packed (page_segment 0x80001000 (3 * 4096) 1 0 1 1 3 1)) 0x80001000 (3 * 4096) 3 1 0
page_segment-Reads_example =
    page_segment-Reads 0x80001000 3 1 0 3 (omega arith) (omega arith) (omega arith) (omega arith)
      (omega arith) (omega arith)

abbrev services : Services ℕ
services = record {
  malloc = λ w. (w + 1, 0x2000);
  free = λ w p. w - 1;
  realloc = λ n. none;
  new_config = λ w. (w, 0);
  alloc_stack = λ w size. (w, 0x8000);
  alloc_user = λ w config size. (w, 0x9000);
  free_frames = λ w vaddr size. w;
  frame_size = 4096;
}

abbrev ids : Idalloc
ids = record { size = 4; bitmap = λ k. 1; present = true; next_to_allocate = 0; is_static = false }

abbrev store : Store
store = record { owner = λ j. 0; prev = λ j. 0; next = λ j. 0; head = λ l. 0; tail = λ l. 0 }

-- A thread of the user, with a kernel stack that ends at 0x9000.
abbrev threads : Threads ℕ
threads = record {
  pcb_id = λ p. 0;
  pcb_config = λ p. 0;
  tcb_id = λ p. 0;
  tcb_user = λ p. true;
  kernel_sp = λ p. 0x9000;
  nodes = store;
  pids = ids;
  tids = ids;
  context = λ p. none;
  current = 0;
  prev_yield_tick = 0;
  outside = 0;
}

thread_init_kernel_stack-Starts_example :
    let t = thread_init_kernel_stack services threads 0x2000 0x400000 0xbffff000 in
    (c : Context) × (t.context (t.kernel_sp 0x2000) ≡ some c)
    × Starts services threads 0x2000 0x400000 0xbffff000 true c
thread_init_kernel_stack-Starts_example =
    thread_init_kernel_stack-Starts services threads 0x2000 0x400000 0xbffff000
