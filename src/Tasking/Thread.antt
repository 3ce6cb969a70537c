-- ===== src/Tasking/Thread.antt =====
-- kernel/common/src/tasking/thread.c, with kernel/cpu/i386/src/thread.c for the first context of a
-- thread. Control blocks are addresses; their list nodes and lists stand in the store of
-- Algo/Dllist, at their offsets.
pub mod Process
pub mod Yield
mod Tests
use neo_sys_x.Common.{
  ℕ, ◌+◌, ◌-◌, ◌*◌, ◌%◌, ◌^◌, Bool, true, false, Option, none, some, size_max, leb, ◌==◌,
  if◌then◌else◌, update,
}
use neo_sys_x.Common.Bitmap.{Bitmap}
use neo_sys_x.Algo.Idalloc.{Idalloc, alloc, free}
use neo_sys_x.Algo.Dllist.{Store, insert}

-- `idt_handler_context_t` at an address: what `thread_init_kernel_stack` writes into it. The
-- user's fields are `none` where the context ends before them.
pub record Context : Type 0 where
  pub eip : ℕ
  pub eflags : ℕ
  pub cs : ℕ
  pub segments : ℕ
  pub user : Option (ℕ × ℕ)

-- The state of this part: the fields of control blocks by address, the two lists and all nodes,
-- the two id allocators, the contexts on kernel stacks, `thread_current`,
-- `thread_prev_yield_tick`, and the rest of the machine.
pub record Threads (W : Type 0) : Type 0 where
  pub pcb_id : ℕ → ℕ
  pub pcb_config : ℕ → ℕ
  pub tcb_id : ℕ → ℕ
  pub tcb_user : ℕ → Bool
  pub kernel_sp : ℕ → ℕ
  pub nodes : Store
  pub pids : Idalloc
  pub tids : Idalloc
  pub context : ℕ → Option Context
  pub current : ℕ
  pub prev_yield_tick : ℕ
  pub outside : W

-- The functions called: those of the heap, of the virtual memory manager and of the id allocator's
-- heap. `alloc_stack` and `alloc_user` are `vmm_alloc_kernel_addrspace` and `vmm_alloc` with the
-- arguments of `thread_new_tcb`.
pub record Services (W : Type 0) : Type 0 where
  pub malloc : W → W × ℕ
  pub free : W → ℕ → W
  pub realloc : ℕ → Option Bitmap
  pub new_config : W → W × ℕ
  pub alloc_stack : W → ℕ → W × ℕ
  pub alloc_user : W → ℕ → ℕ → W × ℕ
  pub free_frames : W → ℕ → ℕ → W
  pub frame_size : ℕ

-- The addresses of static variables, and the offsets of fields.
abbrev pub pcb_list : ℕ
pcb_list = 0x10

abbrev pub sched_list : ℕ
sched_list = 0x20

abbrev pub kernel_tcb : ℕ
kernel_tcb = 0x100

abbrev pub node_of : ℕ → ℕ
node_of pcb = pcb + 8

abbrev pub thread_list_of : ℕ → ℕ
thread_list_of pcb = pcb + 20

abbrev pub proc_node_of : ℕ → ℕ
proc_node_of tcb = tcb + 4

abbrev pub sched_node_of : ℕ → ℕ
sched_node_of tcb = tcb + 16

-- `THREAD_QUANTUM`; the argument is `TIMER_TICK_1_MSEC`.
abbrev pub quantum : ℕ → ℕ
quantum tick_1_msec = 1 * tick_1_msec

-- `dllist_insert_tail`
abbrev pub insert_tail : Store → ℕ → ℕ → Store
insert_tail s list node = insert s list node (2 ^ 32 - 1)

module _ {W : Type 0} (services : Services W) where
  -- `free`
  abbrev pub release : Threads W → ℕ → Threads W
  release s p = record s { outside = services.free (s.outside) p }

  -- The end of `thread_new_pcb`.
  unfoldable pub link_pcb : Threads W → ℕ → Threads W
  link_pcb s pcb =
      let linked = insert_tail (s.nodes) pcb_list (node_of pcb) in
      record s {
        nodes = record linked {
          head = update (linked.head) (thread_list_of pcb) 0;
          tail = update (linked.tail) (thread_list_of pcb) 0;
        };
      }

  -- `thread_new_pcb`, once there is an id.
  unfoldable pub config_pcb : Threads W → ℕ → ℕ → Threads W × ℕ
  unfolding link_pcb
  config_pcb s pcb id =
      let (w, config) = services.new_config (s.outside) in
      let filled = record s { pcb_config = update (s.pcb_config) pcb config; outside = w } in
      if config == 0
      then (release (record filled { pids = free (s.pids) id }) pcb, 0)
      else (link_pcb filled pcb, pcb)

  -- `thread_new_pcb`; `none` where the allocation of the id does not end.
  unfoldable pub thread_new_pcb : Threads W → Option (Threads W × ℕ)
  unfolding config_pcb
  thread_new_pcb s =
      let (w, pcb) = services.malloc (s.outside) in
      let t = record s { outside = w } in
      if pcb == 0 then some (t, 0) else elim (alloc (services.realloc) (t.pids)) [
        | none ↦ none
        | some r ↦
            let u = record t { pids = r.1; pcb_id = update (t.pcb_id) pcb (r.0) } in
            some (if r.0 == size_max then (release u pcb, 0) else config_pcb u pcb (r.0))
      ]

  -- `sizeof(idt_handler_context_t)`, without the last two words for a thread of the kernel.
  abbrev pub context_len : Bool → ℕ
  context_len user = if user then 560 else 552

  -- `thread_init_kernel_stack`
  unfoldable pub thread_init_kernel_stack : Threads W → ℕ → ℕ → ℕ → Threads W
  thread_init_kernel_stack s tcb pc user_sp =
      let user = s.tcb_user tcb in
      let at = s.kernel_sp tcb - context_len user in
      let written : Context = record {
        eip = pc;
        eflags = 2 ^ 9 + 2 ^ 21;
        cs = if user then 0x1b else 0x8;
        segments = if user then 0x23 else 0x10;
        user = if user then some (user_sp, 0x23) else none;
      } in
      record s {
        context = update (s.context) at (some written);
        kernel_sp = update (s.kernel_sp) tcb at;
      }

  -- The end of `thread_new_tcb`.
  unfoldable pub link_tcb : Threads W → ℕ → ℕ → Threads W
  link_tcb s pcb tcb =
      let in_process = insert_tail (s.nodes) (thread_list_of pcb) (proc_node_of tcb) in
      record s { nodes = insert_tail in_process sched_list (sched_node_of tcb) }

  -- `thread_new_tcb`, once there is a kernel stack.
  unfoldable pub start_tcb : Threads W → ℕ → ℕ → ℕ → ℕ → ℕ → Threads W × ℕ
  unfolding thread_init_kernel_stack link_tcb
  start_tcb s pcb tcb id stack entry_pc =
      let (w, user_sp) =
        services.alloc_user (s.outside) (s.pcb_config pcb) (services.frame_size * 4) in
      let t = record s { outside = w } in
      if s.tcb_user tcb
      then (if user_sp == size_max
          then (
            release
                (record t {
                  outside = services.free_frames w stack (services.frame_size);
                  tids = free (t.tids) id;
                })
                tcb,
            0,
          )
          else (link_tcb (thread_init_kernel_stack t tcb entry_pc user_sp) pcb tcb, tcb))
      else (link_tcb (thread_init_kernel_stack s tcb entry_pc 0) pcb tcb, tcb)

  -- `thread_new_tcb`, once there is an id.
  unfoldable pub stack_tcb : Threads W → ℕ → ℕ → ℕ → Bool → ℕ → Threads W × ℕ
  unfolding start_tcb
  stack_tcb s pcb tcb id user entry_pc =
      let (w, stack) = services.alloc_stack (s.outside) (services.frame_size) in
      let t = record s { tcb_user = update (s.tcb_user) tcb user; outside = w } in
      let top = (stack + services.frame_size) % 2 ^ 32 in
      if stack == size_max
      then (release (record t { tids = free (t.tids) id }) tcb, 0)
      else start_tcb (record t { kernel_sp = update (t.kernel_sp) tcb top }) pcb tcb id stack
          entry_pc

  -- `thread_new_tcb`, which does not test what `malloc` answers.
  unfoldable pub thread_new_tcb : Threads W → ℕ → Bool → ℕ → Option (Threads W × ℕ)
  unfolding stack_tcb
  thread_new_tcb s pcb user entry_pc =
      let (w, tcb) = services.malloc (s.outside) in
      elim (alloc (services.realloc) (s.tids)) [
        | none ↦ none
        | some r ↦
            let t = record s { outside = w; tids = r.1; tcb_id = update (s.tcb_id) tcb (r.0) } in
            some (
              if r.0 == size_max
              then (release t tcb, 0)
              else stack_tcb t pcb tcb (r.0) user entry_pc)
      ]

-- The thread that `thread_yield` switches to.
unfoldable pub next_thread : {W : Type 0} → Threads W → ℕ
next_thread s =
    let node = s.nodes.next (sched_node_of (s.current)) in
    if s.current == 0 then kernel_tcb else if node == 0 then kernel_tcb else node - 16

-- `thread_yield`, up to `thread_switch`: the state, and the thread that it is called with.
unfoldable pub thread_yield : {W : Type 0} → Threads W → ℕ → Threads W × ℕ
thread_yield s now = (record s { prev_yield_tick = now }, next_thread s)

-- `thread_evaluate_yield`; `now` is what `timer_get` answers, `pre_yield` what the callback does to
-- the rest of the machine, and `none` is no switch.
unfoldable pub thread_evaluate_yield :
    {W : Type 0} → ℕ → (W → W) → Threads W → ℕ → Threads W × Option ℕ
thread_evaluate_yield tick pre_yield s now =
    let elapsed_ticks = (now + 2 ^ 64 - s.prev_yield_tick) % 2 ^ 64 in
    let (t, thread) = thread_yield (record s { outside = pre_yield (s.outside) }) now in
    if s.current == 0
    then (s, none)
    else if leb (quantum tick) elapsed_ticks
    then (t, some thread)
    else (s, none)
