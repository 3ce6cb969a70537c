-- ===== src/Drivers/Uart/Terminal.antt =====
-- kernel/drivers/uart/16550_term, the terminal on a serial port, and
-- kernel/machine/pc_common/drivers/uart/16550_pc, the probe of the four ports of a PC.
use neo_sys_x.Common.{
  ℕ, zero, suc, ◌+◌, ◌^◌, Bool, not, Option, none, some, ◌==◌, if◌then◌else◌, bit_or,
}
use neo_sys_x.Drivers.Uart.{Port, receive, transmit, is_rx_available, is_tx_full, probe}

unfoldable pub term_read : {S : Type 0} → Port S → S → ℕ × S
term_read port s = receive port s

unfoldable pub term_write : {S : Type 0} → Port S → S → ℕ → S
term_write port s c = transmit port s c

unfoldable pub term_read_available : {S : Type 0} → Port S → S → Bool × S
term_read_available port s = is_rx_available port s

unfoldable pub term_write_available : {S : Type 0} → Port S → S → Bool × S
term_write_available port s = let (full, t) = is_tx_full port s in (not full, t)

-- What the probe finds: the bits of the ports that answer, and the first of them, which becomes the
-- default and the port of the terminal.
pub record Probed (S : Type 0) : Type 0 where
  pub state : S
  pub available_ports : ℕ
  pub default_port : Option ℕ

-- One round of the loop of `uart_16550_pc_probe`, for the port with the given base.
unfoldable pub probe_port : {S : Type 0} → (ℕ → Port S) → (ℕ → ℕ) → ℕ → Probed S → Probed S
probe_port ports bases i found =
    if bases i == 0
    then found
    else let (answers, t) = probe (ports (bases i)) found.state in
      if answers
      then record found {
        state = t;
        available_ports = bit_or found.available_ports (2 ^ i);
        default_port = elim found.default_port [ none ↦ some i | some j ↦ some j ];
      }
      else record found { state = t }

unfoldable pub probe_from : {S : Type 0} → ℕ → (ℕ → Port S) → (ℕ → ℕ) → ℕ → Probed S → Probed S
unfolding probe_port
probe_from zero ports bases i found = found
probe_from (suc left) ports bases i found =
    probe_from left ports bases (i + 1) (probe_port ports bases i found)

-- `uart_16550_pc_probe`
unfoldable pub probe_all : {S : Type 0} → (ℕ → Port S) → (ℕ → ℕ) → S → Probed S
unfolding probe_from
probe_all ports bases s =
    probe_from 4 ports bases 0 (record { state = s; available_ports = 0; default_port = none })
