-- ===== src/Cpu/Idt/Tests.antt =====
-- Interrupts on the initial tables, and a gate that is opened for a system call.
use neo_sys_x.Common.{ℕ, ◌+◌, ◌*◌, ◌≡◌, refl, List, [], ◌∷◌, some, update, arith}
use neo_sys_x.Cpu.Idt.{
  Gate, Exception, Handler, Outcome, idt_table_init, packed, idt_handlers, run_handler,
  idt_handler_stub,
}
use neo_sys_x.Cpu.Idt.Gates.{Opens, set_dpls, ring_after, idt_table_init-Opens}

page_fault : idt_handler_stub idt_handlers 14 ≡ Outcome.panic Exception.pf
unfolding idt_handler_stub idt_handlers run_handler
page_fault = refl

nmi : idt_handler_stub idt_handlers 2 ≡ Outcome.unhandled
unfolding idt_handler_stub idt_handlers
nmi = refl

reserved_vector : idt_handler_stub idt_handlers 31 ≡ Outcome.panic Exception.reserved
unfolding idt_handler_stub idt_handlers run_handler
reserved_vector = refl

-- A handler set for vector 0x80 is what that vector runs.
system_call :
    idt_handler_stub (update idt_handlers 0x80 (some (Handler.other 0x1234))) 0x80
    ≡ Outcome.calls 0x1234
unfolding idt_handler_stub run_handler
system_call = refl

abbrev entry_point : ℕ → ℕ
entry_point k = 0xc0100000 + k * 16

abbrev empty : ℕ → Gate
empty k = record {
  offset_lo = 0;
  segment = 0;
  reserved = 0;
  gate_type = 0;
  zero_bit = 0;
  dpl = 0;
  present = 0;
  offset_hi = 0;
}

-- The ring 4 is refused.
abbrev calls : List (ℕ × ℕ)
calls = (0x80, 3) ∷ ((0x80, 4) ∷ [])

idt_table_init-Opens_example :
    Opens (packed (set_dpls (idt_table_init entry_point empty) calls 0x80)) 0xc0100800 3
unfolding ring_after
idt_table_init-Opens_example =
    idt_table_init-Opens entry_point empty calls 0x80 (omega arith) (omega arith)
