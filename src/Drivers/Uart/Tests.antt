-- ===== src/Drivers/Uart/Tests.antt =====
-- The driver on a port that answers a read with what was last written to the register.
use neo_sys_x.Common.{ℕ, refl}
use neo_sys_x.Drivers.Uart.{Port, Register}
use neo_sys_x.Drivers.Uart.Lines.{IsKept}

-- The state is the modem control register and what the other registers answer.
abbrev mcr_of : ℕ × ℕ → Register → ℕ
mcr_of (mcr, other) Register.mcr = mcr
mcr_of (mcr, other) r = other

abbrev written : ℕ × ℕ → Register → ℕ → ℕ × ℕ
written (mcr, other) Register.mcr v = (v, other)
written (mcr, other) r v = (mcr, v)

abbrev echo_port : Port (ℕ × ℕ)
echo_port = record { read_cb = λ s r. (mcr_of s r, s); write_cb = written }

echo_port-IsKept : IsKept echo_port Register.mcr
echo_port-IsKept = record { view = λ s. s.0; read_view = λ s. refl; write_view = λ s v. refl }
