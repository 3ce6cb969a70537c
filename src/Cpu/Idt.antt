-- ===== src/Cpu/Idt.antt =====
-- kernel/cpu/i386/src/idt.c, idt_struct.c, idt_handler.c and idt_exceptions.c, with
-- include/cpu/i386/idt.h: the table of gates, the table of handlers and what an interrupt runs. The
-- entry points of idt.s are an argument, a function of the vector.
pub mod Gates
mod Tests
use neo_sys_x.Common.{
  ℕ, zero, suc, ◌+◌, ◌-◌, ◌*◌, ◌/◌, ◌%◌, ◌^◌, Bool, true, false, Option, none, some, List, [], ◌∷◌,
  ltb, if◌then◌else◌, update, get_elem?,
}

-- `idt_entry_t`
pub record Gate : Type 0 where
  pub offset_lo : ℕ
  pub segment : ℕ
  pub reserved : ℕ
  pub gate_type : ℕ
  pub zero_bit : ℕ
  pub dpl : ℕ
  pub present : ℕ
  pub offset_hi : ℕ

-- `IDT_GATE_INTR32`
abbrev pub gate_intr32 : ℕ
gate_intr32 = 0xe

-- `IDT_ENTRY`; a bit-field keeps as many bits as it has.
unfoldable pub idt_entry : ℕ → ℕ → ℕ → ℕ → Gate
idt_entry seg off type_val dpl = record {
  offset_lo = off % 2 ^ 16;
  segment = seg % 2 ^ 16;
  reserved = 0;
  gate_type = type_val % 2 ^ 4;
  zero_bit = 0;
  dpl = dpl % 4;
  present = 1;
  offset_hi = off / 2 ^ 16 % 2 ^ 16;
}

-- `IDT_INTR32_ENTRY`
unfoldable pub intr32_entry : ℕ → ℕ → ℕ → Gate
unfolding idt_entry
intr32_entry seg off dpl = idt_entry seg off gate_intr32 dpl

-- The assignments of `idt_table_init` up to the one for vector `count - 1`.
unfoldable pub fill_gates : ℕ → (ℕ → ℕ) → (ℕ → Gate) → ℕ → Gate
unfolding intr32_entry
fill_gates zero handler table = table
fill_gates (suc k) handler table =
    update (fill_gates k handler table) k (intr32_entry 0x8 (handler k) 0)

-- `idt_table_init`
unfoldable pub idt_table_init : (ℕ → ℕ) → (ℕ → Gate) → ℕ → Gate
idt_table_init handler table = fill_gates 256 handler table

-- `idt_set_dpl`
unfoldable pub idt_set_dpl : (ℕ → Gate) → ℕ → ℕ → ℕ → Gate
idt_set_dpl table vector dpl =
    if ltb 3 dpl then table else update table vector (record (table vector) { dpl = dpl % 4 })

-- The size in `idt_desc`: `sizeof(idt_table) - 1`
abbrev pub idt_size : ℕ
idt_size = 8 * 256 - 1

-- The struct as it lies in memory, a number of 64 bits.
unfoldable pub packed : Gate → ℕ
packed g =
    g.offset_lo
    + g.segment * 2 ^ 16
    + g.reserved * 2 ^ 32
    + g.gate_type * 2 ^ 40
    + g.zero_bit * 2 ^ 44
    + g.dpl * 2 ^ 45
    + g.present * 2 ^ 47
    + g.offset_hi * 2 ^ 48

-- The mnemonics that the functions `exc_handler_*` give to `exc_handler_stub`.
pub data Exception : Type 0 where
  de : Exception
  db : Exception
  bp : Exception
  of : Exception
  br : Exception
  ud : Exception
  nm : Exception
  df : Exception
  cso : Exception
  ts : Exception
  np : Exception
  ss : Exception
  gp : Exception
  pf : Exception
  mf : Exception
  ac : Exception
  mc : Exception
  xm : Exception
  ve : Exception
  cp : Exception
  reserved : Exception

-- A function in `idt_handlers`: one of `exc_handler_*` as they stand where nothing overrides them,
-- or another, at its address.
pub data Handler : Type 0 where
  exc_handler : Exception → Handler
  other : ℕ → Handler

-- The initial values of `idt_handlers`; `none` is `NULL`.
abbrev pub initial_handlers : List (Option Handler)
initial_handlers =
    some (exc_handler de)
    ∷ (some (exc_handler db)
        ∷ (none
            ∷ (some (exc_handler bp)
                ∷ (some (exc_handler of)
                    ∷ (some (exc_handler br)
                        ∷ (some (exc_handler ud)
                            ∷ (some (exc_handler nm)
                                ∷ (some (exc_handler df)
                                    ∷ (some (exc_handler cso)
                                        ∷ (some (exc_handler ts)
                                            ∷ (some (exc_handler np)
                                                ∷ (some (exc_handler ss)
                                                    ∷ (some (exc_handler gp)
                                                        ∷ (some (exc_handler pf)
                                                            ∷ (some (exc_handler reserved)
                                                            ∷ (some (exc_handler mf)
                                                            ∷ (some (exc_handler ac)
                                                            ∷ (some (exc_handler mc)
                                                            ∷ (some (exc_handler xm)
                                                            ∷ (some (exc_handler ve)
                                                            ∷ (some (exc_handler cp)
                                                            ∷ [])))))))))))))))))))))

-- `idt_handlers`: 22 to 31 are `exc_handler_reserved`, and what has no initial value is `NULL`.
unfoldable pub idt_handlers : ℕ → Option Handler
idt_handlers vector = elim (get_elem? initial_handlers vector) [
  | some h ↦ h
  | none ↦ if ltb vector 32 then some (exc_handler reserved) else none
]

-- What an interrupt comes to: a panic with a mnemonic, the call of a function, or a warning alone.
pub data Outcome : Type 0 where
  panic : Exception → Outcome
  calls : ℕ → Outcome
  unhandled : Outcome

-- `exc_handler_stub`, of which the log output is left out: `kpanic` does not return.
abbrev pub exc_handler_stub : Exception → Outcome
exc_handler_stub mnemonic = panic mnemonic

unfoldable pub run_handler : Handler → Outcome
run_handler (exc_handler e) = exc_handler_stub e
run_handler (other address) = calls address

-- `idt_handler_stub`
unfoldable pub idt_handler_stub : (ℕ → Option Handler) → ℕ → Outcome
unfolding run_handler
idt_handler_stub handlers vector = elim (handlers vector) [
  | some h ↦ run_handler h
  | none ↦ unhandled
]
