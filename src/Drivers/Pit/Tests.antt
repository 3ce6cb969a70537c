-- ===== src/Drivers/Pit/Tests.antt =====
-- A timer at 1000 Hz, with numbers of thousandths for those with a floating point.
use neo_sys_x.Common.{
  ℕ, ◌+◌, ◌-◌, ◌*◌, ◌/◌, ◌≡◌, refl, true, false, none, List, [], leb, ◌==◌, if◌then◌else◌,
}
use neo_sys_x.Common.Bits.{bit}
use neo_sys_x.Algo.Idalloc.{Idalloc}
use neo_sys_x.Algo.Dllist.{Store}
use neo_sys_x.Tasking.Thread.{Threads, sched_list, kernel_tcb}
use neo_sys_x.Drivers.Pic.{Out, Pic, HandlerLists}
use neo_sys_x.Drivers.Pit.{Floats, Pit, divisor_of, pit_init}
use neo_sys_x.Drivers.Pit.Start.{Ready, pit_init-Ready}

abbrev thousandths : Floats
thousandths = record {
  Float = ℕ;
  of_nat = λ n. n * 1000;
  add = λ a b. a + b;
  sub = λ a b. a - b;
  div = λ a b. a * 1000 / b;
  to_uint32 = λ a. a / 1000;
  to_uint64 = λ a. a / 1000;
  half_or_more = λ a. leb 500 a;
}

-- 1193182 Hz by 1000 Hz
divisor_1000 : divisor_of thousandths 1193182 ≡ 1193
unfolding divisor_of
divisor_1000 = refl

abbrev pit : Pit thousandths
pit = record { tick_freq = 0; tick_delta = 1000152; tick_remainder = 900 }

abbrev masked_lines : Pic
masked_lines = record { data1 = 0xfb; data2 = 0xff }

abbrev no_handlers : HandlerLists
no_handlers = record { heads = λ i. 0; next = λ a. 0; irq = λ a. 0 }

pit_init-Ready_example :
    (divisor : ℕ) × Ready thousandths 0x4000 masked_lines no_handlers
      (pit_init thousandths 0x4000 pit masked_lines no_handlers 1000000)
      divisor
unfolding bit
pit_init-Ready_example =
    pit_init-Ready thousandths 0x4000 pit masked_lines no_handlers 1000000 refl refl

abbrev store : Store
store = record {
  owner = λ j. sched_list;
  prev = λ j. if j == 0x210 then 0x110 else 0;
  next = λ j. if j == 0x110 then 0x210 else 0;
  head = λ l. 0x110;
  tail = λ l. 0x210;
}

abbrev ids : Idalloc
ids = record { size = 4; bitmap = λ k. 1; present = true; next_to_allocate = 0; is_static = false }

abbrev threads : Threads (List Out)
threads = record {
  pcb_id = λ p. 0;
  pcb_config = λ p. 0;
  tcb_id = λ p. 0;
  tcb_user = λ p. false;
  kernel_sp = λ p. 0;
  nodes = store;
  pids = ids;
  tids = ids;
  context = λ p. none;
  current = kernel_tcb;
  prev_yield_tick = 5000;
  outside = [];
}
