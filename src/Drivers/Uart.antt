-- ===== src/Drivers/Uart.antt =====
-- kernel/drivers/uart/16550: the driver of a 16550 serial port.
-- The port is outside the model: `Port` is what `read_cb` and `write_cb` do to its state, and each
-- operation of the driver takes and returns that state.
pub mod Lines
pub mod Baud
pub mod Terminal
mod Tests
use neo_sys_x.Common.{
  ℕ, zero, suc, ◌+◌, ◌-◌, ◌*◌, ◌/◌, ◌%◌, ◌^◌, Bool, true, false, not, ◌&&◌, Option, none, some, ltb,
  leb, ◌==◌, if◌then◌else◌, u8, u16, u32, not8, bit_or, bit_and, bit_xor, List, [], ◌∷◌,
}

-- The registers of `uart_16550_t`.
pub data Register : Type 0 where
  dr ier fcr_isr lcr mcr lsr msr sr : Register

pub record Port (S : Type 0) : Type 0 where
  pub read_cb : S → Register → ℕ × S
  pub write_cb : S → Register → ℕ → S

-- Reads a register and writes a function of it to the register.
abbrev pub modify : {S : Type 0} → Port S → S → Register → (ℕ → ℕ) → S
modify port s r f = let (value, t) = port.read_cb s r in port.write_cb t r (f value)

-- `test_byte` is `UART_16550_TEST_BYTE`.
abbrev pub test_byte : ℕ
test_byte = 0xAA

unfoldable pub probe : {S : Type 0} → Port S → S → Bool × S
probe port s =
    let (value, t) = port.read_cb (port.write_cb s Register.sr test_byte) Register.sr in
    (value == test_byte, t)

-- `none` is the -1 of a divisor 0. The rounding compares with half of the clock.
unfoldable pub get_baud : ℕ → ℕ → Option ℕ
get_baud baud_clk divisor =
    if divisor == 0
    then none
    else if leb (baud_clk / 2) (baud_clk % divisor)
    then some (u32 (baud_clk / divisor + 1))
    else some (baud_clk / divisor)

unfoldable pub divisor_of : ℕ → ℕ → ℕ
divisor_of baud_clk baud =
    let limited = if ltb baud_clk baud then baud_clk else baud in
    if limited == 0
    then 0xFFFF
    else if ltb 0xFFFF (baud_clk / limited)
    then 0xFFFF
    else baud_clk / limited

unfoldable pub set_baud : {S : Type 0} → Port S → ℕ → S → ℕ → Option ℕ × S
unfolding get_baud divisor_of
set_baud port baud_clk s baud =
    let divisor = divisor_of baud_clk baud in
    let latch = modify port s Register.lcr (λ v. bit_or v (2 ^ 7)) in
    let low = port.write_cb latch Register.dr (divisor % 2 ^ 8) in
    let high = port.write_cb low Register.ier (divisor / 2 ^ 8 % 2 ^ 8) in
    (get_baud baud_clk (u16 divisor), modify port high Register.lcr (λ v. bit_and v (not8 (2 ^ 7))))

pub data Parity : Type 0 where
  no_parity odd even mark space : Parity

abbrev pub data_code : ℕ → ℕ
data_code data_bits =
    if data_bits == 5 then 0 else if data_bits == 6 then 1 else if data_bits == 7 then 2 else 3

abbrev pub parity_code : Parity → ℕ
parity_code Parity.no_parity = 0
parity_code Parity.odd = 1
parity_code Parity.even = 3
parity_code Parity.mark = 5
parity_code Parity.space = 7

-- `two_stop` is `UART_16550_STOP_2_BITS`. The three fields do not overlap, so that `|=` adds them.
unfoldable pub line_byte : ℕ → Bool → Parity → ℕ
line_byte data_bits two_stop parity =
    bit_or (bit_or (data_code data_bits) (if two_stop then 2 ^ 2 else 0))
      (parity_code parity * 2 ^ 3)

unfoldable pub configure_bits : {S : Type 0} → Port S → S → ℕ → Bool → Parity → S
unfolding line_byte
configure_bits port s data_bits two_stop parity =
    port.write_cb s Register.lcr (line_byte data_bits two_stop parity)

unfoldable pub set_break : {S : Type 0} → Port S → S → Bool → S
set_break port s on =
    modify port s Register.lcr (λ v. if on then bit_or v (2 ^ 6) else bit_and v (not8 (2 ^ 6)))

unfoldable pub set_interrupts : {S : Type 0} → Port S → S → ℕ → S
set_interrupts port s mask = port.write_cb s Register.ier (mask % 2 ^ 4)

unfoldable pub enable_interrupts : {S : Type 0} → Port S → S → ℕ → S
enable_interrupts port s mask = modify port s Register.ier (λ v. bit_or v (mask % 2 ^ 4))

unfoldable pub disable_interrupts : {S : Type 0} → Port S → S → ℕ → S
disable_interrupts port s mask = modify port s Register.ier (λ v. bit_and v (not8 (mask % 2 ^ 4)))

unfoldable pub toggle_interrupts : {S : Type 0} → Port S → S → ℕ → S
toggle_interrupts port s mask = modify port s Register.ier (λ v. bit_xor v (mask % 2 ^ 4))

pub data Interrupt : Type 0 where
  unknown rx_line rx_available rx_timeout tx_empty modem : Interrupt

unfoldable pub get_interrupt : {S : Type 0} → Port S → S → Interrupt × S
get_interrupt port s =
    let (value, t) = port.read_cb s Register.fcr_isr in
    let code = value % 2 ^ 4 in
    (
      if code == 6
          then Interrupt.rx_line
          else if code == 4
          then Interrupt.rx_available
          else if code == 12
          then Interrupt.rx_timeout
          else if code == 2
          then Interrupt.tx_empty
          else if code == 0
          then Interrupt.modem
          else Interrupt.unknown,
      t,
    )

unfoldable pub disable_fifo : {S : Type 0} → Port S → S → S
disable_fifo port s = port.write_cb s Register.fcr_isr 0

-- `rx_level` counts bytes; the bits `1`, `2`, `4` and, for DMA, `8` lie below the level.
unfoldable pub fifo_byte : ℕ → Bool → ℕ
fifo_byte rx_level dma_mode = bit_or (bit_or 7 (if dma_mode then 2 ^ 3 else 0)) (
    (if rx_level == 4 then 1 else if rx_level == 8 then 2 else if rx_level == 14 then 3 else 0)
    * 2 ^ 6)

unfoldable pub enable_fifo : {S : Type 0} → Port S → S → ℕ → Bool → S
unfolding fifo_byte
enable_fifo port s rx_level dma_mode =
    port.write_cb s Register.fcr_isr (fifo_byte rx_level dma_mode)

unfoldable pub enable_loopback : {S : Type 0} → Port S → S → S
enable_loopback port s = modify port s Register.mcr (λ v. bit_or v (2 ^ 4))

unfoldable pub disable_loopback : {S : Type 0} → Port S → S → S
disable_loopback port s = modify port s Register.mcr (λ v. bit_and v (not8 (2 ^ 4)))

unfoldable pub get_modem_lines : {S : Type 0} → Port S → S → ℕ × S
get_modem_lines port s = let (value, t) = port.read_cb s Register.mcr in (value % 2 ^ 4, t)

unfoldable pub set_modem_lines : {S : Type 0} → Port S → S → ℕ → S
set_modem_lines port s mask =
    modify port s Register.mcr (λ v. bit_or (bit_and v (not8 15)) (mask % 2 ^ 4))

unfoldable pub enable_modem_lines : {S : Type 0} → Port S → S → ℕ → S
enable_modem_lines port s mask = modify port s Register.mcr (λ v. bit_or v (mask % 2 ^ 4))

unfoldable pub disable_modem_lines : {S : Type 0} → Port S → S → ℕ → S
disable_modem_lines port s mask = modify port s Register.mcr (λ v. bit_and v (not8 (mask % 2 ^ 4)))

unfoldable pub toggle_modem_lines : {S : Type 0} → Port S → S → ℕ → S
toggle_modem_lines port s mask = modify port s Register.mcr (λ v. bit_xor v (mask % 2 ^ 4))

-- The loop of `uart_16550_test_loopback` over the four modem lines, from `mask` on.
unfoldable pub test_lines : {S : Type 0} → ℕ → Port S → S → ℕ → Bool × S
unfolding set_modem_lines
test_lines zero port s mask = (true, s)
test_lines (suc left) port s mask =
    let (status, t) = port.read_cb (set_modem_lines port s mask) Register.msr in
    let rest = test_lines left port t (mask * 2) in
    if status / 2 ^ 4 == mask then rest else (false, t)

-- `uart_16550_test_loopback` up to `end`.
unfoldable pub exchange : {S : Type 0} → Port S → S → Bool × S
unfolding test_lines
exchange port s =
    let (value, t) = port.read_cb (port.write_cb s Register.dr test_byte) Register.dr in
    let (success, u) = test_lines 4 port t 1 in
    if value == test_byte then (success, set_modem_lines port u 0) else (false, t)

unfoldable pub test_loopback : {S : Type 0} → Port S → S → Bool × S
unfolding exchange enable_loopback disable_loopback
test_loopback port s =
    let (success, t) = exchange port (enable_loopback port s) in (success, disable_loopback port t)

-- `uart_16550_init_t`
pub record Init : Type 0 where
  pub baud : ℕ
  pub data_bits : ℕ
  pub two_stop : Bool
  pub parity_bits : Parity
  pub interrupts : ℕ
  pub fifo_enabled : Bool
  pub fifo_rx_level : ℕ
  pub fifo_dma_mode : Bool

-- What `uart_16550_init` returns: -1, -2, or the baud rate.
pub data InitResult : Type 0 where
  invalid loopback_failed : InitResult
  running : Option ℕ → InitResult

-- The settings that are written between the probe and the loopback test.
unfoldable pub configure : {S : Type 0} → Port S → S → Init → S
unfolding configure_bits disable_fifo enable_fifo set_interrupts
configure port s init =
    let bits = configure_bits port s init.data_bits init.two_stop init.parity_bits in
    let fifo =
      if init.fifo_enabled
      then disable_fifo port bits
      else enable_fifo port bits init.fifo_rx_level init.fifo_dma_mode in
    set_interrupts port fifo init.interrupts

unfoldable pub init : {S : Type 0} → Port S → ℕ → S → Init → InitResult × S
unfolding probe set_baud configure test_loopback
init port baud_clk s settings =
    let (valid, t) = probe port s in
    let (baud, u) = set_baud port baud_clk t settings.baud in
    let (success, v) = test_loopback port (configure port u settings) in
    if valid
    then (if success then (InitResult.running baud, v) else (InitResult.loopback_failed, v))
    else (InitResult.invalid, t)

-- A flag of the line status.
abbrev pub line_flag : {S : Type 0} → Port S → S → ℕ → Bool × S
line_flag port s flag =
    let (value, t) = port.read_cb s Register.lsr in (not (bit_and value (2 ^ flag) == 0), t)

unfoldable pub is_tx_full : {S : Type 0} → Port S → S → Bool × S
is_tx_full port s = let (nfull, t) = line_flag port s 5 in (not nfull, t)

unfoldable pub is_tx_empty : {S : Type 0} → Port S → S → Bool × S
is_tx_empty port s = line_flag port s 6

unfoldable pub is_rx_available : {S : Type 0} → Port S → S → Bool × S
is_rx_available port s = line_flag port s 0

unfoldable pub transmit : {S : Type 0} → Port S → S → ℕ → S
transmit port s byte = port.write_cb s Register.dr byte

unfoldable pub receive : {S : Type 0} → Port S → S → ℕ × S
receive port s = port.read_cb s Register.dr

unfoldable pub get_modem_status : {S : Type 0} → Port S → S → ℕ × S
get_modem_status port s = port.read_cb s Register.msr

unfoldable pub get_line_status : {S : Type 0} → Port S → S → ℕ × S
get_line_status port s = port.read_cb s Register.lsr
