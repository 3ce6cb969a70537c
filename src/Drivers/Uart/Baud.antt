-- ===== src/Drivers/Uart/Baud.antt =====
-- The divisor and the baud rate.
use neo_sys_x.Common.{
  ℕ, ◌+◌, ◌*◌, ◌/◌, ◌%◌, ◌^◌, ◌≤◌, ◌<◌, ◌≡◌, refl, inl, inr, false, some, arith, ltb, leb, ◌==◌,
  if◌then◌else◌, Bool-cases,
}
use native.Mathlib.Nat.{div-lt_iff_lt-mul, mod-lt, div-mul-le_self}
use neo_sys_x.Drivers.Uart.{get_baud, divisor_of}

div_pos : (a b : ℕ) → 0 < b → b ≤ a → 0 < a / b
div_pos a b p h = elim (Bool-cases (a / b == 0)) [
  | inl e ↦
      (let q : a / b < 1 = ground arith in
        let below : a < 1 * b = (div-lt_iff_lt-mul {k = b} {x = a} {y = 1} p).0 q in
        absurd (omega arith))
  | inr e ↦ ground arith
]

chosen : ℕ → ℕ → ℕ
chosen baud_clk limited =
    if limited == 0
    then 0xFFFF
    else if ltb 0xFFFF (baud_clk / limited)
    then 0xFFFF
    else baud_clk / limited

chosen-bounds :
    (baud_clk limited : ℕ)
    → limited ≤ baud_clk
    → (0 < chosen baud_clk limited) × (chosen baud_clk limited < 2 ^ 16)
unfolding chosen
chosen-bounds baud_clk limited h = elim (Bool-cases (limited == 0)) [
  | inl e ↦ rw e (omega arith, omega arith)
  | inr e ↦ rw e (ground (arith, div_pos baud_clk limited (ground arith) h), ground arith)
]

chosen-greatest :
    (baud_clk limited : ℕ)
    → 0 < limited
    → baud_clk < 2 ^ 16 * limited
    → (chosen baud_clk limited * limited ≤ baud_clk)
      × (baud_clk < (chosen baud_clk limited + 1) * limited)
unfolding chosen
chosen-greatest baud_clk limited p h =
    let some_rate : (limited == 0) ≡ false = ground arith in
    let q : baud_clk / limited < 2 ^ 16 =
      (div-lt_iff_lt-mul {k = limited} {x = baud_clk} {y = 2 ^ 16} p).1 h in
    let fits : ltb 0xFFFF (baud_clk / limited) ≡ false = ground arith in
    rw (some_rate, fits)
      (
        div-mul-le_self baud_clk limited,
        (div-lt_iff_lt-mul {k = limited} {x = baud_clk} {y = baud_clk / limited + 1} p).0
            (omega arith),
      )

divisor_of-chosen :
    (baud_clk baud : ℕ)
    → divisor_of baud_clk baud ≡ chosen baud_clk (if ltb baud_clk baud then baud_clk else baud)
unfolding divisor_of chosen
divisor_of-chosen baud_clk baud = refl

-- The divisor for a rate up to the clock and above a 65536th of it fits a `uint16_t` and is not 0.
-- It is the greatest with which the port is not slower than the rate asked for.
pub divisor_of-greatest :
    (baud_clk baud : ℕ)
    → 0 < baud
    → baud ≤ baud_clk
    → baud_clk < 2 ^ 16 * baud
    → let divisor = divisor_of baud_clk baud in
      (0 < divisor)
      × (divisor < 2 ^ 16)
      × (divisor * baud ≤ baud_clk)
      × (baud_clk < (divisor + 1) * baud)
divisor_of-greatest baud_clk baud p h b =
    let whole : (if ltb baud_clk baud then baud_clk else baud) ≡ baud = ground arith in
    let bounds = chosen-bounds baud_clk baud h in
    let greatest = chosen-greatest baud_clk baud p b in
    rw (divisor_of-chosen baud_clk baud, whole) (bounds.0, bounds.1, greatest.0, greatest.1)

-- The rate that is reported for a divisor up to half of the clock is the quotient: it is never
-- rounded up, whatever the remainder is.
pub get_baud-rounds :
    (baud_clk divisor : ℕ)
    → 0 < divisor
    → divisor ≤ baud_clk / 2
    → get_baud baud_clk divisor ≡ some (baud_clk / divisor)
unfolding get_baud
get_baud-rounds baud_clk divisor p h =
    let some_divisor : (divisor == 0) ≡ false = ground arith in
    let down : leb (baud_clk / 2) (baud_clk % divisor) ≡ false =
      ground (arith, mod-lt baud_clk p) in
    rw (some_divisor, down) refl
