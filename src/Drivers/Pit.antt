-- ===== src/Drivers/Pit.antt =====
-- kernel/machine/pc_common/drivers/timer/i8253/src/i8253.c: the timer interrupt. `float` and its
-- operations are a parameter.
pub mod Start
pub mod Tick
mod Tests
use neo_sys_x.Common.{
  ℕ, ◌+◌, ◌*◌, ◌/◌, ◌%◌, ◌^◌, Bool, true, false, Option, none, some, List, [], ◌∷◌, ◌++◌, ltb, ◌==◌,
  if◌then◌else◌, u32,
}
use neo_sys_x.Timing.Timer.{timer_update}
use neo_sys_x.Tasking.Thread.{Threads, thread_evaluate_yield}
use neo_sys_x.Drivers.Pic.{Out, Pic, HandlerLists, eoi, mask_irq, unmask_irq, register_handler}

-- `float`: the operations used, the conversions to the unsigned integers, and the test against 0.5.
pub record Floats : Type 1 where
  pub Float : Type 0
  pub of_nat : ℕ → Float
  pub add : Float → Float → Float
  pub sub : Float → Float → Float
  pub div : Float → Float → Float
  pub to_uint32 : Float → ℕ
  pub to_uint64 : Float → ℕ
  pub half_or_more : Float → Bool

-- `PIT_CLOCK_FREQ`, `TIMER_TICK_1_SEC` and `TIMER_TICK_1_MSEC`
abbrev pub clock_freq : ℕ
clock_freq = 1193182

abbrev pub tick_1_sec : ℕ
tick_1_sec = 1000000000

abbrev pub tick_1_msec : ℕ
tick_1_msec = 1000000

-- The ports `PIT_CH0_DATA` and `PIT_COMMAND`.
abbrev pub pit_ch0_data : ℕ
pit_ch0_data = 0x40 + 0

abbrev pub pit_command : ℕ
pit_command = 0x40 + 3

-- `PIT_RW_LSB_MSB` and `PIT_IRQ`
abbrev pub pit_rw_lsb_msb : ℕ
pit_rw_lsb_msb = 3

abbrev pub pit_irq : ℕ
pit_irq = 0

-- `PIT_SEND_COMMAND`; the fields do not overlap.
unfoldable pub pit_send_command : ℕ → ℕ → ℕ → ℕ → Out
pit_send_command ch rw mode bcd = (pit_command, ch * 2 ^ 6 + rw * 2 ^ 4 + mode * 2 + bcd)

module _ (floats : Floats) where
  open floats use {Float, of_nat, add, sub, div, to_uint32, to_uint64, half_or_more}

  -- `pit_tick_freq`, `pit_tick_delta` and `pit_tick_remainder`
  pub record Pit : Type 0 where
    pub tick_freq : Float
    pub tick_delta : Float
    pub tick_remainder : Float

  -- `pit_get_tick_freq`
  abbrev pub pit_get_tick_freq : Pit → Float
  pit_get_tick_freq pit = pit.tick_freq

  -- `divisor_int`
  unfoldable pub divisor_of : Float → ℕ
  divisor_of divisor =
      let whole = u32 (to_uint32 divisor) in
      let rounded = if half_or_more (sub divisor (of_nat whole)) then u32 (whole + 1) else whole in
      if rounded == 0 then u32 (rounded + 1) else if ltb 0xffff rounded then 0xffff else rounded

  -- What `pit_init` has done: the variables, the writes to the timer's ports, and the interrupt
  -- controllers with their handlers.
  pub record Started : Type 0 where
    pub pit : Pit
    pub writes : List Out
    pub pic : Pic
    pub handlers : HandlerLists

  -- `pit_init`; `node` is the address of `pit_handler_node`.
  unfoldable pub pit_init : ℕ → Pit → Pic → HandlerLists → Float → Started
  unfolding divisor_of pit_send_command
  pit_init node pit pic handlers desired_freq =
      let divisor_int = divisor_of (div (of_nat clock_freq) desired_freq) in
      let freq = div (of_nat clock_freq) (of_nat divisor_int) in
      record {
        pit = record pit { tick_freq = freq; tick_delta = div (of_nat tick_1_sec) freq };
        writes =
            pit_send_command 0 pit_rw_lsb_msb 3 0
            ∷ ((pit_ch0_data, divisor_int % 2 ^ 8)
                ∷ ((pit_ch0_data, divisor_int / 2 ^ 8 % 2 ^ 8) ∷ []));
        pic = unmask_irq pic (2 ^ pit_irq);
        handlers = register_handler handlers node;
      }

  -- `pit_disable`
  abbrev pub pit_disable : Pic → Pic
  pit_disable pic = mask_irq pic (2 ^ pit_irq)

  -- `pit_pre_yield_cb`, on the writes to the interrupt controllers.
  abbrev pub pit_pre_yield_cb : ℕ → List Out → List Out
  pit_pre_yield_cb irq writes = writes ++ eoi irq

  -- `pit_handler`: the variables, the ticks, the threads, and the thread that is switched to.
  unfoldable pub pit_handler :
      Pit → ℕ → Threads (List Out) → ℕ → Pit × ℕ × Threads (List Out) × Option ℕ
  pit_handler pit ticks threads irq =
      let sum = add (pit.tick_remainder) (pit.tick_delta) in
      let delta = to_uint64 sum in
      let now = timer_update ticks delta in
      let (t, switch) = thread_evaluate_yield tick_1_msec (pit_pre_yield_cb irq) threads now in
      (record pit { tick_remainder = sub sum (of_nat delta) }, now, t, switch)
