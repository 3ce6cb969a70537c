-- ===== src/Drivers/Uart/Lines.antt =====
-- The modem lines and the loopback test.
use neo_sys_x.Common.{ℕ, ◌^◌, ◌≡◌, arith, bit_and, not8}
use neo_sys_x.Common.Bits.{bit, bit-bit_and, bit_pow_self, bit_not}
use neo_sys_x.Drivers.Uart.{
  Port, Register, enable_loopback, disable_loopback, exchange, test_loopback,
}

-- A register of the port that keeps what is written to it, whatever happens to the others.
pub record IsKept {S : Type 0} (port : Port S) (r : Register) : Type 0 where
  pub view : S → ℕ
  pub read_view : (s : S) → (port.read_cb s r).0 ≡ view s
  pub write_view : (s : S) (v : ℕ) → view (port.write_cb s r v) ≡ v

module _ {S : Type 0} (port : Port S) (kept : IsKept port Register.mcr) where
  disable_loopback-off : (s : S) → bit (kept.view (disable_loopback port s)) 4 ≡ 0
  unfolding disable_loopback
  disable_loopback-off s =
      let value = (port.read_cb s Register.mcr).0 in
      let next = (port.read_cb s Register.mcr).1 in
      rw (kept.write_view next (bit_and value (not8 (2 ^ 4)))) (
        omega (
          arith,
          bit-bit_and value (not8 (2 ^ 4)) 4,
          bit_not 8 (2 ^ 4) 4 (omega arith) (omega arith),
          bit_pow_self 4,
        ))

  -- Whether the loopback test succeeds or fails, and at whichever step, the port is out of loopback
  -- afterwards, where the modem control register keeps what is written to it.
  test_loopback-off : (s : S) → bit (kept.view (test_loopback port s).1) 4 ≡ 0
  unfolding test_loopback
  test_loopback-off s = disable_loopback-off (exchange port (enable_loopback port s)).1
