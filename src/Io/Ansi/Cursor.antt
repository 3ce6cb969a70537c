-- ===== src/Io/Ansi/Cursor.antt =====
-- The handlers of the cursor sequences.
use neo_sys_x.Common.{ℕ, ◌+◌, ◌-◌, ◌^◌, not, ◌||◌, leb, ◌==◌, if◌then◌else◌, u32}
use neo_sys_x.Io.Ansi.{Callbacks, Terminal, Call, Calls, quiet, one, ◌>>=◌}
use neo_sys_x.Io.Ansi.Parse.{parse_dec}

-- `-n`, `INT_MIN` and `-1` as 32-bit patterns.
abbrev pub neg : ℕ → ℕ
neg n = u32 (2 ^ 32 - n)

abbrev pub int_min : ℕ
int_min = 2 ^ 31

abbrev pub minus_one : ℕ
minus_one = 2 ^ 32 - 1

-- `CSI H` and `CSI f`: an empty or missing number is 0, and a malformed one drops the sequence.
unfoldable pub handle_move : Callbacks → Terminal → Calls
handle_move cb term = if not cb.set_cursor then quiet else do
  (y_idx, x) ← parse_dec term.param_buf 0 term.param_idx
  if y_idx == 0
      then one (Call.set_cursor x 0)
      else if leb term.param_idx (y_idx + 1)
      then quiet
      else do
        (taken, y) ← parse_dec term.param_buf (y_idx + 1) (term.param_idx - (y_idx + 1))
        if taken == 0 then quiet else one (Call.set_cursor x y)

-- The common form of `CSI A` to `CSI F`: one number, which is not 0, makes the call.
abbrev pub with_delta : Callbacks → Terminal → (ℕ → Call) → Calls
with_delta cb term call = if not cb.move_cursor || term.param_idx == 0 then quiet else do
  (taken, delta) ← parse_dec term.param_buf 0 term.param_idx
  if not (taken == term.param_idx) then quiet else if delta == 0 then quiet else one (call delta)

unfoldable pub handle_move_up : Callbacks → Terminal → Calls
handle_move_up cb term = with_delta cb term (λ delta. Call.move_cursor 0 (neg delta))

unfoldable pub handle_move_down : Callbacks → Terminal → Calls
handle_move_down cb term = with_delta cb term (λ delta. Call.move_cursor 0 delta)

unfoldable pub handle_move_left : Callbacks → Terminal → Calls
handle_move_left cb term = with_delta cb term (λ delta. Call.move_cursor (neg delta) 0)

unfoldable pub handle_move_right : Callbacks → Terminal → Calls
handle_move_right cb term = with_delta cb term (λ delta. Call.move_cursor delta 0)

unfoldable pub handle_move_up_begin : Callbacks → Terminal → Calls
handle_move_up_begin cb term = with_delta cb term (λ delta. Call.move_cursor int_min (neg delta))

unfoldable pub handle_move_down_begin : Callbacks → Terminal → Calls
handle_move_down_begin cb term = with_delta cb term (λ delta. Call.move_cursor int_min delta)

unfoldable pub handle_move_x : Callbacks → Terminal → Calls
handle_move_x cb term = if not cb.set_cursor || term.param_idx == 0 then quiet else do
  (taken, x) ← parse_dec term.param_buf 0 term.param_idx
  if not (taken == term.param_idx) then quiet else one (Call.set_cursor x minus_one)
