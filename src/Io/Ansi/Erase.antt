-- ===== src/Io/Ansi/Erase.antt =====
-- The handlers of the erasing sequences.
use neo_sys_x.Common.{◌&&◌, [], ◌∷◌, some, ◌==◌, if◌then◌else◌}
use neo_sys_x.Io.Ansi.{Callbacks, Terminal, Call, Calls, quiet, one}

-- The mode of `CSI J` and `CSI K`: 0, 1 or 2 where the parameter is missing or one such digit.
pub data EraseMode : Type 0 where
  to_end to_start whole other : EraseMode

abbrev pub erase_mode : Terminal → EraseMode
erase_mode term =
    if term.param_idx == 0
    then to_end
    else if term.param_idx == 1
    then (if term.param_buf 0 == b'0'
        then to_end
        else if term.param_buf 0 == b'1'
        then to_start
        else if term.param_buf 0 == b'2'
        then whole
        else other)
    else other

unfoldable pub erase_display : Callbacks → EraseMode → Calls
erase_display cb to_end =
    if cb.clear_line_right && cb.clear_lines_after
    then some (Call.clear_line_right ∷ Call.clear_lines_after ∷ [])
    else quiet
erase_display cb to_start =
    if cb.clear_line_left && cb.clear_lines_before
    then some (Call.clear_lines_before ∷ Call.clear_line_left ∷ [])
    else quiet
erase_display cb whole =
    if cb.clear_screen
    then one Call.clear_screen
    else if cb.clear_lines_before && cb.clear_lines_after
    then (if cb.clear_line
        then some (Call.clear_lines_before ∷ Call.clear_line ∷ Call.clear_lines_after ∷ [])
        else if cb.clear_line_left && cb.clear_line_right
        then some (
            Call.clear_lines_before ∷ Call.clear_line_left ∷ Call.clear_line_right
            ∷ Call.clear_lines_after ∷ [])
        else quiet)
    else quiet
erase_display cb other = quiet

unfoldable pub handle_erase_display : Callbacks → Terminal → Calls
unfolding erase_display
handle_erase_display cb term = erase_display cb (erase_mode term)

unfoldable pub erase_line : Callbacks → EraseMode → Calls
erase_line cb to_end = if cb.clear_line_right then one Call.clear_line_right else quiet
erase_line cb to_start = if cb.clear_line_left then one Call.clear_line_left else quiet
erase_line cb whole =
    if cb.clear_line
    then one Call.clear_line
    else if cb.clear_line_left && cb.clear_line_right
    then some (Call.clear_line_left ∷ Call.clear_line_right ∷ [])
    else quiet
erase_line cb other = quiet

unfoldable pub handle_erase_line : Callbacks → Terminal → Calls
unfolding erase_line
handle_erase_line cb term = erase_line cb (erase_mode term)
