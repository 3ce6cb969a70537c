-- ===== src/Io/Ansi/Write.antt =====
-- `ansi_terminal_write` and the functions beside it.
use neo_sys_x.Common.{
  ℕ, ◌+◌, Bool, true, false, List, [], ◌∷◌, ◌++◌, Option, none, some, leb, ◌==◌, if◌then◌else◌,
  update,
}
use neo_sys_x.Io.Ansi.{Callbacks, Terminal, State, idle, esc, bracket, buf_size, Call, Calls, ◌>>=◌}
use neo_sys_x.Io.Ansi.Cursor.{
  handle_move, handle_move_up, handle_move_down, handle_move_left, handle_move_right,
  handle_move_up_begin, handle_move_down_begin, handle_move_x,
}
use neo_sys_x.Io.Ansi.Erase.{handle_erase_display, handle_erase_line}
use neo_sys_x.Io.Ansi.Sgr.{handle_set_colour}

-- The new state and the calls made.
abbrev pub Step : Type 0
Step = Option (Terminal × List Call)

abbrev pub escape : ℕ
escape = 0x1b

-- The handler of a final character of `CSI`.
unfoldable pub command : Callbacks → Terminal → ℕ → Option Calls
command cb term c =
    if c == b'H'
    then some (handle_move cb term)
    else if c == b'f'
    then some (handle_move cb term)
    else if c == b'A'
    then some (handle_move_up cb term)
    else if c == b'B'
    then some (handle_move_down cb term)
    else if c == b'C'
    then some (handle_move_right cb term)
    else if c == b'D'
    then some (handle_move_left cb term)
    else if c == b'E'
    then some (handle_move_down_begin cb term)
    else if c == b'F'
    then some (handle_move_up_begin cb term)
    else if c == b'G'
    then some (handle_move_x cb term)
    else if c == b'J'
    then some (handle_erase_display cb term)
    else if c == b'K'
    then some (handle_erase_line cb term)
    else if c == b'm'
    then some (handle_set_colour cb term)
    else none

abbrev pub finish : Terminal → Calls → Step
finish term calls = calls >>= λ cs. some (record term { state = idle }, cs)

-- A character that ends no sequence is kept as a parameter, while there is room.
abbrev pub keep : Terminal → ℕ → Step
keep term c =
    if leb buf_size term.param_idx
    then some (record term { state = idle }, [])
    else some (
      record term {
        param_buf = update term.param_buf term.param_idx c;
        param_idx = term.param_idx + 1;
      },
      [],
    )

-- The `switch` on the state. `available` is what `write_available` answers where it is called;
-- where it is `NULL`, that call is a fault.
unfoldable pub dispatch : State → Callbacks → Bool → Terminal → ℕ → Step
dispatch idle cb available term c =
    if c == escape then some (record term { state = esc }, []) else some (term, Call.put c ∷ [])
dispatch esc cb available term c =
    if c == b'['
    then some (record term { state = bracket; param_idx = 0 }, [])
    else if cb.write_available
    then some (term, Call.put escape ∷ (if available then Call.put c ∷ [] else []))
    else none
dispatch bracket cb available term c = elim (command cb term c) [
  | some calls ↦ finish term calls
  | none ↦ keep term c
]

unfoldable pub write : Callbacks → Bool → Terminal → ℕ → Step
unfolding dispatch
write cb available term c =
    if cb.write then dispatch term.state cb available term c else some (term, [])

-- A text, character by character, with the display always ready.
unfoldable pub write_all : Callbacks → Terminal → List ℕ → Step
unfolding write
write_all cb term [] = some (term, [])
write_all cb term (c ∷ cs) = do
  (next, calls) ← write cb true term c
  (last, more) ← write_all cb next cs
  some (last, calls ++ more)

-- `ansi_terminal_read`, `ansi_terminal_read_available` and `ansi_terminal_write_available`; the
-- last argument is what the display's own function answers.
unfoldable pub read : Callbacks → ℕ → ℕ
read cb answer = if cb.read then answer else 0

unfoldable pub read_available : Callbacks → Bool → Bool
read_available cb answer = if cb.read_available then answer else false

unfoldable pub write_available : Callbacks → Bool → Bool
write_available cb answer = if cb.write_available then answer else true
