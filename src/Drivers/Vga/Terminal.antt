-- ===== src/Drivers/Vga/Terminal.antt =====
-- What the escape sequences do to the screen and to the colours.
use neo_sys_x.Common.{
  ℕ, ◌+◌, ◌*◌, ◌^◌, ◌<◌, ◌≡◌, refl, inl, inr, ◌&&◌, some, arith, ltb, leb, ◌==◌, if◌then◌else◌,
  Bool-cases, get_elem?, get_elem?-some, All-get_elem?, length, bit_and, not8, ◌∙◌,
}
use neo_sys_x.Common.Bits.{bit, bit-le, bit-bit_or, bit-bit_and, bit_not, bit_ones, bit_of_lt}
use neo_sys_x.Io.Ansi.{Modifier, normal, bright}
use neo_sys_x.Drivers.Vga.{
  Vga, width, height, ansi_clear_line, ansi_clear_line_left, ansi_clear_line_right,
  ansi_clear_lines_before, ansi_clear_lines_after, clear, vga_colours, ansi_set_foreground,
}

-- The part of a cell after a clearing: column `c` of line `l`.
abbrev pub cell : Vga → ℕ → ℕ → ℕ
cell vga c l = vga.cells (l * width + c)

-- With the cursor on the screen, the clearing sequences for the line, its right part, the lines
-- before and after, and the whole screen blank exactly these cells of the screen.
pub clear-cells :
    (vga : Vga) (c l : ℕ)
    → vga.tty_x < width
    → vga.tty_y < height
    → c < width
    → l < height
    → (cell (ansi_clear_line vga) c l ≡ (if l == vga.tty_y then 0 else cell vga c l))
      × (cell (ansi_clear_line_right vga) c l
          ≡ (if l == vga.tty_y && leb vga.tty_x c then 0 else cell vga c l))
      × (cell (ansi_clear_lines_before vga) c l ≡ (if ltb l vga.tty_y then 0 else cell vga c l))
      × (cell (ansi_clear_lines_after vga) c l ≡ (if ltb vga.tty_y l then 0 else cell vga c l))
      × (cell (clear vga) c l ≡ 0)
unfolding ansi_clear_line ansi_clear_line_right ansi_clear_lines_before ansi_clear_lines_after clear
clear-cells vga c l x y hc hl =
    (ground arith, ground arith, ground arith, ground arith, ground arith)

-- With the cursor on a line of the screen, the sequence that should clear the line to the left of
-- the cursor blanks as many cells of the line as its number, whatever the column of the cursor is.
pub clear_line_left-cells :
    (vga : Vga) (c l : ℕ)
    → vga.tty_y < height
    → c < width
    → l < height
    → cell (ansi_clear_line_left vga) c l
      ≡ (if l == vga.tty_y && ltb c vga.tty_y then 0 else cell vga c l)
unfolding ansi_clear_line_left
clear_line_left-cells vga c l y hc hl = ground arith

vga_colours-nibble :
    (m : Modifier) (colour c : ℕ) → get_elem? (vga_colours m) colour ≡ some c → c < 2 ^ 4
vga_colours-nibble normal colour c e =
    All-get_elem? (λ (t : ℕ). t < 2 ^ 4) (vga_colours normal) colour c (ground arith) e
vga_colours-nibble bright colour c e =
    All-get_elem? (λ (t : ℕ). t < 2 ^ 4) (vga_colours bright) colour c (ground arith) e

vga_colours-length : (m : Modifier) → length (vga_colours m) ≡ 8
vga_colours-length normal = refl
vga_colours-length bright = refl

low_mask : (k : ℕ) → k < 8 → bit (not8 15) k ≡ (if ltb k 4 then 0 else 1)
low_mask k h = elim (Bool-cases (ltb k 4)) [
  | inl low ↦ rw low (omega (arith, bit_not 8 15 k (omega arith) h, bit_ones 4 k (ground arith)))
  | inr high ↦
      rw high (
        omega
          (arith, bit_not 8 15 k (omega arith) h, bit_of_lt 4 15 k (omega arith) (ground arith)))
]

foreground-bits :
    (vga : Vga) (colour : ℕ) (modifier : Modifier) (c k : ℕ)
    → get_elem? (vga_colours modifier) colour ≡ some c
    → k < 8
    → bit (ansi_set_foreground vga colour modifier).attrib k
      ≡ (if ltb k 4 then bit c k else bit vga.attrib k)
unfolding ansi_set_foreground
foreground-bits vga colour modifier c k e b =
    rw (e, ansi_set_foreground)
      (bit-bit_or (bit_and vga.attrib (not8 15)) c k
        ∙ rw (bit-bit_and vga.attrib (not8 15) k, low_mask k b)
            (ground (
              arith,
              bit-le vga.attrib k,
              bit_of_lt 4 c k (vga_colours-nibble modifier colour c e),
            )))

-- Setting the foreground to one of the eight colours gives the low four bits of the attribute the
-- VGA colour of that name, and keeps the high four.
ansi_set_foreground-bits :
    (vga : Vga) (colour : ℕ) (modifier : Modifier)
    → colour < 8
    → (c : ℕ) × (get_elem? (vga_colours modifier) colour ≡ some c)
      × ((k : ℕ)
          → k < 8
          → bit (ansi_set_foreground vga colour modifier).attrib k
            ≡ (if ltb k 4 then bit c k else bit vga.attrib k))
ansi_set_foreground-bits vga colour modifier h =
    let (c, e) =
      get_elem?-some (vga_colours modifier) colour (omega (arith, vga_colours-length modifier)) in
    (c, e, λ k b. foreground-bits vga colour modifier c k e b)
