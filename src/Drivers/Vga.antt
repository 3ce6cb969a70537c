-- ===== src/Drivers/Vga.antt =====
-- kernel/machine/pc_common/drivers/video/vga_text: the text screen, its teletype and its terminal.
-- A cell of the screen is one `uint16_t`, so that twice a count of cells is the count of bytes that
-- the source passes to `memset`. `vga_text_init`, which only writes ports, is left out: here the
-- screen is there.
pub mod Screen
pub mod Terminal
mod Tests
use neo_sys_x.Common.{
  ℕ, zero, suc, ◌+◌, ◌-◌, ◌*◌, ◌/◌, ◌%◌, ◌^◌, Bool, true, false, ◌&&◌, ◌||◌, List, [], ◌∷◌, Option,
  none, some, ltb, leb, ◌==◌, if◌then◌else◌, get_elem?, u8, u16, u32, bit_or, bit_and, not8, update,
}
use neo_sys_x.Libc.Memory.{as_int}
use neo_sys_x.Io.Ansi.{Plane, foreground, background, Modifier, normal, bright}

abbrev pub width : ℕ
width = 80

abbrev pub height : ℕ
height = 25

abbrev pub tab_width : ℕ
tab_width = 8

-- The cells, the position and the attribute of the teletype, and the position in the hardware.
pub record Vga : Type 0 where
  pub cells : ℕ → ℕ
  pub tty_x : ℕ
  pub tty_y : ℕ
  pub attrib : ℕ
  pub location : ℕ

-- `memset(&vga_text_buffer[from], 0, count * 2)`
abbrev pub blank : (ℕ → ℕ) → ℕ → ℕ → ℕ → ℕ
blank cells from count k = if leb from k && ltb k (from + count) then 0 else cells k

unfoldable pub clear : Vga → Vga
clear vga = record vga { cells = blank vga.cells 0 (width * height) }

-- `lines` is at most the height, as it is 1 at each call.
unfoldable pub scroll_up : Vga → ℕ → Vga
scroll_up vga lines =
    let moved = λ (k : ℕ).
      if ltb k ((height - lines) * width) then vga.cells (k + lines * width) else vga.cells k in
    record vga { cells = blank moved ((height - lines) * width) (lines * width) }

-- The character is a `char`, which is extended with its sign.
unfoldable pub putc_at : Vga → ℕ → ℕ → ℕ → ℕ → Vga
putc_at vga x y c attrib = record vga {
  cells = update vga.cells (y * width + x) (bit_or (u16 (as_int c)) (u16 (attrib * 2 ^ 8)));
}

unfoldable pub sync_cursor : Vga → Vga
sync_cursor vga = record vga {
  tty_y = u8 (vga.location / width);
  tty_x = u8 (vga.location % width);
}

unfoldable pub update_cursor : Vga → Vga
update_cursor vga = record vga { location = u16 (vga.tty_y * width + vga.tty_x) }

unfoldable pub set_cursor : Vga → ℕ → ℕ → Vga
unfolding update_cursor
set_cursor vga x y =
    if leb width x || leb height y then vga else update_cursor (record vga { tty_x = x; tty_y = y })

-- The next line, with a scroll at the bottom.
unfoldable pub line_feed : Vga → Vga
unfolding scroll_up
line_feed vga =
    let home = record vga { tty_x = 0 } in
    if vga.tty_y == height - 1 then scroll_up home 1 else record home { tty_y = u8 (vga.tty_y + 1) }

-- The `default` of `vga_text_putc`, up to the cursor.
unfoldable pub put_glyph : Vga → ℕ → Vga
unfolding putc_at line_feed
put_glyph vga c =
    let written = putc_at vga vga.tty_x vga.tty_y c vga.attrib in
    if u8 (vga.tty_x + 1) == width
    then line_feed written
    else record written { tty_x = u8 (vga.tty_x + 1) }

-- The calls with `' '` that stand for a tab.
unfoldable pub put_spaces : ℕ → Vga → Vga
unfolding put_glyph update_cursor
put_spaces zero vga = vga
put_spaces (suc tmp) vga = put_spaces tmp (update_cursor (put_glyph vga b' '))

unfoldable pub backspace : Vga → Vga
backspace vga =
    if vga.tty_x == 0
    then (if vga.tty_y == 0 then vga else record vga { tty_y = vga.tty_y - 1; tty_x = width - 1 })
    else record vga { tty_x = vga.tty_x - 1 }

-- The `switch` of `vga_text_putc`.
unfoldable pub echo : Vga → ℕ → Vga
unfolding put_spaces backspace
echo vga c =
    if c == 8
    then backspace vga
    else if c == 10
    then line_feed vga
    else if c == 13
    then vga
    else if c == 9
    then put_spaces (tab_width - vga.tty_x % tab_width) vga
    else put_glyph vga c

unfoldable pub putc : Vga → ℕ → Vga
unfolding echo
putc vga c = update_cursor (echo vga c)

-- An `int` argument is its 32-bit pattern.
abbrev pub is_negative : ℕ → Bool
is_negative x = leb (2 ^ 31) x

abbrev pub clamp : ℕ → ℕ → ℕ
clamp limit x = if is_negative x then 0 else if leb limit x then limit - 1 else x

unfoldable pub ansi_set_cursor : Vga → ℕ → ℕ → Vga
unfolding set_cursor
ansi_set_cursor vga x y = set_cursor vga (clamp width x) (clamp height y)

unfoldable pub ansi_move_cursor : Vga → ℕ → ℕ → Vga
unfolding ansi_set_cursor
ansi_move_cursor vga dx dy = ansi_set_cursor vga (u32 (dx + vga.tty_x)) (u32 (dy + vga.tty_y))

unfoldable pub ansi_clear_line : Vga → Vga
ansi_clear_line vga = record vga { cells = blank vga.cells (vga.tty_y * width) width }

-- The count of bytes is twice the line, not the column.
unfoldable pub ansi_clear_line_left : Vga → Vga
ansi_clear_line_left vga = record vga { cells = blank vga.cells (vga.tty_y * width) vga.tty_y }

unfoldable pub ansi_clear_line_right : Vga → Vga
ansi_clear_line_right vga = record vga {
  cells = blank vga.cells (vga.tty_y * width + vga.tty_x) (width - vga.tty_x);
}

unfoldable pub ansi_clear_lines_before : Vga → Vga
ansi_clear_lines_before vga = record vga { cells = blank vga.cells 0 (vga.tty_y * width) }

unfoldable pub ansi_clear_lines_after : Vga → Vga
ansi_clear_lines_after vga = record vga {
  cells = blank vga.cells ((vga.tty_y + 1) * width) ((height - vga.tty_y - 1) * width);
}

-- The VGA colours of the ANSI ones: black, red, green, brown, blue, magenta, cyan and grey, and
-- then the bright ones in the same order.
abbrev pub vga_colours : Modifier → List ℕ
vga_colours normal = 0 ∷ 4 ∷ 2 ∷ 6 ∷ 1 ∷ 5 ∷ 3 ∷ 7 ∷ []
vga_colours bright = 8 ∷ 12 ∷ 10 ∷ 14 ∷ 9 ∷ 13 ∷ 11 ∷ 15 ∷ []

-- `vga_text_ansi_set_foreground`; a number that is no colour changes nothing.
unfoldable pub ansi_set_foreground : Vga → ℕ → Modifier → Vga
ansi_set_foreground vga colour modifier = elim (get_elem? (vga_colours modifier) colour) [
  | none ↦ vga
  | some c ↦ record vga { attrib = bit_or (bit_and vga.attrib (not8 15)) c }
]

unfoldable pub ansi_set_background : Vga → ℕ → Modifier → Vga
ansi_set_background vga colour modifier = elim (get_elem? (vga_colours modifier) colour) [
  | none ↦ vga
  | some c ↦ record vga { attrib = bit_or (bit_and vga.attrib (not8 (15 * 2 ^ 4))) (c * 2 ^ 4) }
]
