-- ===== src/Drivers/Pit/Start.antt =====
-- What `pit_init` of kernel/machine/pc_common/drivers/timer/i8253/src/i8253.c sets up.
use neo_sys_x.Common.{
  ℕ, ◌-◌, ◌/◌, ◌%◌, ◌^◌, ◌≤◌, ◌<◌, ◌≡◌, refl, false, [], ◌∷◌, ltb, update_self, arith,
}
use neo_sys_x.Common.Bits.{bit, bit-le, bit_pow_self, bit_pow_ne}
use neo_sys_x.Drivers.Pic.{Pic, HandlerLists, register_handler}
use neo_sys_x.Drivers.Pic.Mask.{masked, masked-unmask_irq}
use neo_sys_x.Drivers.Pit.{
  Floats, Pit, Started, clock_freq, pit_send_command, divisor_of, pit_init, pit_irq,
}

module _ (floats : Floats) where
  open floats use {Float, of_nat, div}

  divisor_of_bounds :
      (divisor : Float) → (1 ≤ divisor_of floats divisor) × (divisor_of floats divisor ≤ 0xffff)
  unfolding divisor_of
  divisor_of_bounds divisor = ground arith

  -- The timer runs with a divisor of 1 to 0xffff, written with its low byte first, and the frequency
  -- that is reported is that of this divisor. Line 0 is unmasked, the other lines stay as they were,
  -- and the handler is the first of line 0.
  pub record Ready (node : ℕ) (pic : Pic) (handlers : HandlerLists) (s : Started floats)
      (divisor : ℕ) : Type 0 where
    pub at_least : 1 ≤ divisor
    pub at_most : divisor ≤ 0xffff
    pub written : s.writes ≡ (0x43, 0x36) ∷ ((0x40, divisor % 256) ∷ ((0x40, divisor / 256) ∷ []))
    pub reported : s.pit.tick_freq ≡ div (of_nat clock_freq) (of_nat divisor)
    pub unmasked : masked (s.pic) 0 ≡ 0
    pub others : (irq : ℕ) → 1 ≤ irq → irq < 16 → masked (s.pic) irq ≡ masked pic irq
    pub first : s.handlers.heads 0 ≡ node
    pub behind : s.handlers.next node ≡ handlers.heads 0

  masked-le : (pic : Pic) (irq : ℕ) → masked pic irq ≤ 1
  masked-le pic irq = ground (arith, bit-le pic.data1 irq, bit-le pic.data2 (irq - 8))

  -- Whatever the numbers with a floating point do, and for a node of line 0 and unmasked cascade:
  -- `pit_init` programs the timer with a divisor of 1 to 0xffff, low byte first, and reports the
  -- frequency of this divisor; it unmasks line 0 and no other; and its handler becomes the first of
  -- line 0, before those that were there.
  pub pit_init-Ready :
      (node : ℕ) (pit : Pit floats) (pic : Pic) (handlers : HandlerLists) (desired_freq : Float)
      → handlers.irq node ≡ pit_irq
      → bit pic.data1 2 ≡ 0
      → (divisor : ℕ) × Ready node pic handlers
          (pit_init floats node pit pic handlers desired_freq)
          divisor
  unfolding pit_init pit_send_command register_handler
  pit_init-Ready node pit pic handlers desired_freq line cascade =
      let divisor = divisor_of floats (div (of_nat clock_freq) desired_freq) in
      let b = divisor_of_bounds (div (of_nat clock_freq) desired_freq) in
      let high : divisor / 2 ^ 8 % 2 ^ 8 ≡ divisor / 256 = omega arith in
      let valid : ltb 15 (handlers.irq node) ≡ false = rw line refl in
      (
        divisor,
        record {
          at_least = b.0;
          at_most = b.1;
          written = rw high refl;
          reported = refl;
          unmasked =
              omega (arith, masked-unmask_irq pic (2 ^ 0) 0 cascade (omega arith), bit_pow_self 0);
          others = λ irq low inside. omega (
            arith,
            masked-unmask_irq pic (2 ^ 0) irq cascade inside,
            bit_pow_ne 0 irq (omega arith),
            masked-le pic irq,
          );
          first = rw (valid, line) (update_self handlers.heads 0 node);
          behind = rw (valid, line) (update_self handlers.next node (handlers.heads 0));
        },
      )
