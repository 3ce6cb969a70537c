-- ===== src/Io/Ansi/Tests.antt =====
-- The terminal on concrete texts.
use neo_sys_x.Common.{◌≡◌, refl, true, false, [], ◌∷◌, ◌++◌, map, some, arith}
use neo_sys_x.Io.Ansi.{Callbacks, Terminal, State, idle}
use neo_sys_x.Io.Ansi.Write.{escape, write_all}
use neo_sys_x.Io.Ansi.Moves.{Direction, final_char, digit_char, moved, value, csi_motion}

-- A display with all functions but those for 8 and 256 colours.
abbrev display : Callbacks
display = record {
  read = true;
  write = true;
  read_available = true;
  write_available = true;
  move_cursor = true;
  set_cursor = true;
  clear_line = true;
  clear_line_left = true;
  clear_line_right = true;
  clear_lines_before = true;
  clear_lines_after = true;
  clear_screen = true;
  reset_colour = λ p. true;
  set_colour_8 = λ p. false;
  set_colour_256 = λ p. false;
  set_colour_rgb = λ p. true;
}

abbrev terminal : State → Terminal
terminal s = record { state = s; param_buf = λ k. 0; param_idx = 0 }

csi_motion_example :
    (next : Terminal) × (next.state ≡ idle)
    × (write_all display
          (terminal idle)
          (escape ∷ b'[' ∷ map digit_char (1 ∷ 2 ∷ []) ++ (final_char Direction.up ∷ []))
        ≡ some (next, moved Direction.up (value 0 (1 ∷ 2 ∷ []))))
csi_motion_example =
    csi_motion display refl refl Direction.up (terminal idle) (1 ∷ 2 ∷ []) refl (ground arith)
      (omega arith) (omega arith)
