-- ===== src/Drivers/Pic.antt =====
-- kernel/machine/pc_common/drivers/intr/i8259: the interrupt controllers and the lists of handlers.
-- The data port of a controller reads back what was last written to it, which is the mask register
-- once it is initialised; what the in-service and request registers answer is an argument.
pub mod Mask
pub mod Chain
mod Tests
use neo_sys_x.Common.{
  ℕ, zero, suc, ◌+◌, ◌-◌, ◌*◌, ◌/◌, ◌%◌, ◌^◌, Bool, true, false, not, ◌&&◌, ◌||◌, Option, none,
  some, ltb, leb, ◌==◌, if◌then◌else◌, u8, u16, u32, not8, bit_and, bit_or, update, List, [], ◌∷◌,
  ◌++◌,
}

-- A byte that `outb` writes to a port.
abbrev pub Out : Type 0
Out = ℕ × ℕ

abbrev pub pic1_command : ℕ
pic1_command = 0x20

abbrev pub pic1_data : ℕ
pic1_data = 0x21

abbrev pub pic2_command : ℕ
pic2_command = 0xA0

abbrev pub pic2_data : ℕ
pic2_data = 0xA1

-- The bytes that the data ports read back.
pub record Pic : Type 0 where
  pub data1 : ℕ
  pub data2 : ℕ

-- The writes of `pic_remap`, in order.
unfoldable pub remap_writes : ℕ → ℕ → List Out
remap_writes pic1_offset pic2_offset =
    (pic1_command, 0x11)
    ∷ (pic2_command, 0x11)
    ∷ (pic1_data, pic1_offset)
    ∷ (pic2_data, pic2_offset)
    ∷ (pic1_data, 2 ^ 2)
    ∷ (pic2_data, 2 ^ 1)
    ∷ (pic1_data, 1)
    ∷ (pic2_data, 1)
    ∷ (pic1_data, not8 (2 ^ 2))
    ∷ (pic2_data, 0xFF)
    ∷ []

unfoldable pub outb : Pic → Out → Pic
outb pic (port, byte) =
    if port == pic1_data
    then record pic { data1 = byte }
    else if port == pic2_data
    then record pic { data2 = byte }
    else pic

unfoldable pub outs : Pic → List Out → Pic
unfolding outb
outs pic [] = pic
outs pic (o ∷ os) = outs (outb pic o) os

unfoldable pub remap : Pic → ℕ → ℕ → Pic
unfolding outs remap_writes
remap pic pic1_offset pic2_offset = outs pic (remap_writes pic1_offset pic2_offset)

unfoldable pub disable : Pic → Pic
unfolding outs
disable pic = outs pic ((pic1_data, 0xFF) ∷ (pic2_data, 0xFF) ∷ [])

-- `pic_mask_irq`; line 2, the cascade, stays unmasked.
unfoldable pub mask_irq : Pic → ℕ → Pic
mask_irq pic mask = record pic {
  data1 =
      if mask % 2 ^ 8 == 0
      then pic.data1
      else bit_and (bit_or pic.data1 (mask % 2 ^ 8)) (not8 (2 ^ 2));
  data2 = if mask / 2 ^ 8 % 2 ^ 8 == 0 then pic.data2 else bit_or pic.data2 (mask / 2 ^ 8 % 2 ^ 8);
}

unfoldable pub unmask_irq : Pic → ℕ → Pic
unmask_irq pic mask = record pic {
  data1 =
      if mask % 2 ^ 8 == 0
      then pic.data1
      else bit_and pic.data1 (not8 (bit_or (2 ^ 2) (mask % 2 ^ 8)));
  data2 =
      if mask / 2 ^ 8 % 2 ^ 8 == 0
      then pic.data2
      else bit_and pic.data2 (not8 (mask / 2 ^ 8 % 2 ^ 8));
}

abbrev pub eoi_byte : ℕ
eoi_byte = 0x20

unfoldable pub eoi : ℕ → List Out
eoi irq =
    if ltb 7 irq
    then (pic2_command, eoi_byte) ∷ (pic1_command, eoi_byte) ∷ []
    else (pic1_command, eoi_byte) ∷ []

-- `pic_get_isr` and `pic_get_irr`, from the answers of the two controllers.
unfoldable pub both_registers : ℕ → ℕ → ℕ
both_registers answer1 answer2 = bit_or (answer2 * 2 ^ 8) answer1

-- The nodes `pic_handler_node_t`, by address, and `pic_handler_heads`; 0 is `NULL`.
pub record HandlerLists : Type 0 where
  pub heads : ℕ → ℕ
  pub next : ℕ → ℕ
  pub irq : ℕ → ℕ

unfoldable pub register_handler : HandlerLists → ℕ → HandlerLists
register_handler s node = if ltb 15 (s.irq node) then s else record s {
  next = update s.next node (s.heads (s.irq node));
  heads = update s.heads (s.irq node) node;
}

-- The loop of `pic_unregister_handler`, in which `prev_node` stays where it was. `none` is a loop
-- still running when `fuel` is spent.
unfoldable pub unlink : ℕ → (ℕ → ℕ) → ℕ → ℕ → ℕ → Option (ℕ → ℕ)
unlink zero next prev_node curr_node node = none
unlink (suc fuel) next prev_node curr_node node =
    let rest = unlink fuel next prev_node (next curr_node) node in
    if curr_node == 0
    then some next
    else if curr_node == node
    then some (update next prev_node (next curr_node))
    else rest

-- There are no more nodes in a list than addresses.
abbrev pub space : ℕ
space = 2 ^ 32

unfoldable pub unregister_handler : HandlerLists → ℕ → Option HandlerLists
unregister_handler s node =
    let head = s.heads (s.irq node) in
    if ltb 15 (s.irq node)
    then some s
    else if head == 0
    then some s
    else if head == node
    then some (record s {
      heads = update s.heads (s.irq node) (s.next node);
      next = update s.next node 0;
    })
    else elim (unlink space s.next head (s.next head) node) [
      | none ↦ none
      | some next ↦ some (record s { next = update next node 0 })
    ]

-- The handlers of a list, in the order in which they are called.
unfoldable pub handlers_from : ℕ → (ℕ → ℕ) → ℕ → Option (List ℕ)
handlers_from zero next node = none
handlers_from (suc fuel) next node =
    let rest = handlers_from fuel next (next node) in
    if node == 0 then some [] else elim rest [ none ↦ none | some xs ↦ some (node ∷ xs) ]

-- What `pic_handler_stub` does: the nodes whose handlers run, the writes, and what is added to the
-- two counters.
pub record Handled : Type 0 where
  pub ran : List ℕ
  pub writes : List Out
  pub pic1_spurious : ℕ
  pub pic2_spurious : ℕ

-- The command by which `pic1_get_isr` or `pic2_get_isr` asks for the in-service register, on the two
-- lines for which the stub calls it.
abbrev pub ask_isr : ℕ → List Out
ask_isr irq =
    if irq == 15
    then (pic2_command, 0x0B) ∷ []
    else if irq == 7
    then (pic1_command, 0x0B) ∷ []
    else []

-- `isr1` and `isr2` are what the in-service registers answer.
unfoldable pub handler_stub : ℕ → ℕ → HandlerLists → ℕ → Option Handled
unfolding eoi
handler_stub isr1 isr2 s irq =
    if irq == 15 && (bit_and isr2 (2 ^ 7) == 0)
    then some
        (record { ran = []; writes = ask_isr irq ++ eoi 2; pic1_spurious = 0; pic2_spurious = 1 })
    else if irq == 7 && (bit_and isr1 (2 ^ 7) == 0)
    then some (record { ran = []; writes = ask_isr irq; pic1_spurious = 1; pic2_spurious = 0 })
    else elim (handlers_from space s.next (s.heads irq)) [
      | none ↦ none
      | some ran ↦ some (record {
        ran = ran;
        writes = ask_isr irq ++ eoi irq;
        pic1_spurious = 0;
        pic2_spurious = 0;
      })
    ]

-- `pic_install_handlers`: the line behind an entry of `idt_handlers`, where it changes.
unfoldable pub install_handlers : ℕ → ℕ → (ℕ → Option ℕ) → ℕ → Option ℕ
install_handlers pic1_offset pic2_offset idt_handlers vector =
    if leb pic2_offset vector && ltb vector (pic2_offset + 8)
    then some (vector - pic2_offset + 8)
    else if leb pic1_offset vector && ltb vector (pic1_offset + 8)
    then some (vector - pic1_offset)
    else idt_handlers vector

-- `PIC_VECTOR`, with the default offsets
abbrev pub vector_of : ℕ → ℕ
vector_of irq = if ltb 7 irq then irq - 8 + 0x28 else irq + 0x20
