-- ===== src/Cpu/Gdt/Selectors.antt =====
-- The selectors that kernel/cpu/i386/src/thread.c and idt_struct.c use, in the table of gdt.c.
use neo_sys_x.Common.{
  ℕ, ◌+◌, ◌-◌, ◌*◌, ◌/◌, ◌%◌, ◌^◌, ◌<◌, ◌≡◌, refl, Bool, true, false, none, some, get_elem?,
  if◌then◌else◌, update_self, arith,
}
use neo_sys_x.Cpu.Gdt.{Entry, gdt_table, page_cseg32, page_dseg32, packed}
use neo_sys_x.Cpu.Gdt.Segments.{Reads, page_segment-Reads}
use neo_sys_x.Tasking.Thread.{Threads, Services, Context, context_len, thread_init_kernel_stack}

-- A selector's bits from 3 on are the index, and bit 2, which is 0, names the table. The entry is a
-- segment of the whole address space, of the ring that the selector asks for.
abbrev pub Selects : ℕ → ℕ → ℕ → Type 0
Selects selector code conforming =
    (e : Entry) × (get_elem? gdt_table (selector / 8) ≡ some e)
    × (selector / 4 % 2 ≡ 0)
    × Reads (packed e) 0 (2 ^ 32) (selector % 4) code conforming

-- The four entries of the table that are not null.
code_selector :
    (k dpl conforming : ℕ)
    → dpl < 4
    → conforming < 2
    → k < 2 ^ 13
    → get_elem? gdt_table k ≡ some (page_cseg32 0 0x100000000 conforming dpl)
    → Selects (k * 8 + dpl) 1 conforming
unfolding page_cseg32
code_selector k dpl conforming d c small e =
    let index : (k * 8 + dpl) / 8 ≡ k = omega arith in
    let ring : (k * 8 + dpl) % 4 ≡ dpl = omega arith in
    rw (index, ring)
      (
        page_cseg32 0 0x100000000 conforming dpl,
        e,
        omega arith,
        page_segment-Reads 0 (2 ^ 20) 1 conforming dpl (omega arith) (omega arith) (omega arith)
            (omega arith) c d,
      )

data_selector :
    (k dpl : ℕ)
    → dpl < 4
    → get_elem? gdt_table k ≡ some (page_dseg32 0 0x100000000 dpl)
    → Selects (k * 8 + dpl) 0 0
unfolding page_dseg32
data_selector k dpl d e =
    let index : (k * 8 + dpl) / 8 ≡ k = omega arith in
    let ring : (k * 8 + dpl) % 4 ≡ dpl = omega arith in
    rw (index, ring)
      (
        page_dseg32 0 0x100000000 dpl,
        e,
        omega arith,
        page_segment-Reads 0 (2 ^ 20) 0 0 dpl (omega arith) (omega arith) (omega arith)
            (omega arith) (omega arith) d,
      )

pub kernel_code-Selects : Selects 0x8 1 1
unfolding gdt_table
kernel_code-Selects = code_selector 1 0 1 (omega arith) (omega arith) (omega arith) refl

kernel_data-Selects : Selects 0x10 0 0
unfolding gdt_table
kernel_data-Selects = data_selector 2 0 (omega arith) refl

user_code-Selects : Selects 0x1b 1 0
unfolding gdt_table
user_code-Selects = code_selector 3 3 0 (omega arith) (omega arith) (omega arith) refl

user_data-Selects : Selects 0x23 0 0
unfolding gdt_table
user_data-Selects = data_selector 4 3 (omega arith) refl

module _ {W : Type 0} (services : Services W) (s : Threads W) (tcb pc user_sp : ℕ) where
  -- A context from which a thread starts at `pc`, in its ring and in segments of that ring, with
  -- interrupts on, and with its own stack where it is a thread of the user.
  pub record Starts (user : Bool) (c : Context) : Type 0 where
    pub starts_at : c.eip ≡ pc
    pub interrupts_on : c.eflags / 2 ^ 9 % 2 ≡ 1
    pub code_segment : Selects (c.cs) 1 (if user then 0 else 1)
    pub code_ring : c.cs % 4 ≡ (if user then 3 else 0)
    pub data_segment : Selects (c.segments) 0 0
    pub data_ring : c.segments % 4 ≡ (if user then 3 else 0)
    pub user_stack : c.user ≡ (if user then some (user_sp, c.segments) else none)

  abbrev start_context : Bool → Context
  start_context user = record {
    eip = pc;
    eflags = 2 ^ 9 + 2 ^ 21;
    cs = if user then 0x1b else 0x8;
    segments = if user then 0x23 else 0x10;
    user = if user then some (user_sp, 0x23) else none;
  }

  start_context-Starts : (user : Bool) → Starts user (start_context user)
  start_context-Starts true = record {
    starts_at = refl;
    interrupts_on = refl;
    code_segment = user_code-Selects;
    code_ring = refl;
    data_segment = user_data-Selects;
    data_ring = refl;
    user_stack = refl;
  }
  start_context-Starts false = record {
    starts_at = refl;
    interrupts_on = refl;
    code_segment = kernel_code-Selects;
    code_ring = refl;
    data_segment = kernel_data-Selects;
    data_ring = refl;
    user_stack = refl;
  }

  -- `thread_init_kernel_stack` leaves `kernel_sp` at a context from which the thread starts at its
  -- address, in segments that the table has: they span the whole address space, and their ring is
  -- 3 for a thread of the user, and 0 for one of the kernel. A thread of the user starts on the
  -- stack `user_sp`, of which thread.h says that such a thread discards it. The code segment of ring
  -- 0 is conforming, though.
  pub thread_init_kernel_stack-Starts :
      let t = thread_init_kernel_stack services s tcb pc user_sp in
      (c : Context) × (t.context (t.kernel_sp tcb) ≡ some c) × Starts (s.tcb_user tcb) c
  unfolding thread_init_kernel_stack
  thread_init_kernel_stack-Starts =
      let user = s.tcb_user tcb in
      let at = s.kernel_sp tcb - context_len services user in
      let e = update_self (s.kernel_sp) tcb at in
      let f = update_self (s.context) at (some (start_context user)) in
      (start_context user, rw (e, f) refl, start_context-Starts user)
