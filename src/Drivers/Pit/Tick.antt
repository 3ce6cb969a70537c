-- ===== src/Drivers/Pit/Tick.antt =====
-- What the interrupts of the timer do to the tick counter, in
-- kernel/machine/pc_common/drivers/timer/i8253/src/i8253.c.
use neo_sys_x.Common.{ℕ, zero, suc, ◌+◌, ◌-◌, ◌*◌, ◌/◌, ◌≤◌, ◌<◌, ◌≡◌, List}
use neo_sys_x.Tasking.Thread.{Threads}
use neo_sys_x.Drivers.Pic.{Out}
use neo_sys_x.Drivers.Pit.{Floats, Pit, pit_handler}

module _ (floats : Floats) where
  open floats use {Float, of_nat, add, sub, to_uint64}

  -- Numbers with a floating point that are whole numbers of parts, `unit` of them in one, and small
  -- enough that sums and differences are exact; the conversion to an integer cuts the fraction off.
  pub record IsExact (parts : Float → ℕ) (unit : ℕ) : Type 0 where
    pub some_parts : 0 < unit
    pub parts-of_nat : (k : ℕ) → parts (of_nat k) ≡ k * unit
    pub parts-add : (a b : Float) → parts (add a b) ≡ parts a + parts b
    pub parts-sub : (a b : Float) → parts b ≤ parts a → parts (sub a b) ≡ parts a - parts b
    pub cut : (a : Float) → to_uint64 a ≡ parts a / unit

  -- The variables of the driver, the ticks and the threads.
  abbrev pub State : Type 0
  State = Pit floats × ℕ × Threads (List Out)

  -- After an interrupt on `irq`; the switch to another thread is left out.
  abbrev interrupted : ℕ → State → State
  interrupted irq (pit, ticks, threads) =
      let (pit', now, t, switch) = pit_handler floats pit ticks threads irq in (pit', now, t)

  -- After `n` interrupts.
  unfoldable pub interrupts : ℕ → ℕ → State → State
  interrupts zero irq s = s
  interrupts (suc n) irq s = interrupts n irq (interrupted irq s)

  module _ (parts : Float → ℕ) (unit : ℕ) (exact : IsExact parts unit) where
    -- The time that is counted, in parts of a tick.
    abbrev pub time : State → ℕ
    time (pit, ticks, threads) = ticks * unit + parts (pit.tick_remainder)
