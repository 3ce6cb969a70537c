-- ===== src/Io/Ansi/Colour.antt =====
-- The colours: palettes, and what stands in for a display function that is missing. The source has
-- each function once for the foreground and once for the background.
use neo_sys_x.Common.{
  ℕ, ◌+◌, ◌-◌, ◌*◌, ◌/◌, ◌%◌, ◌^◌, ◌&&◌, List, [], ◌∷◌, Option, none, some, ltb, if◌then◌else◌,
  get_elem?, u8, u32, bit_or, min,
}
use neo_sys_x.Io.Ansi.{
  Plane, foreground, background, Modifier, normal, bright, Callbacks, Call, Calls, quiet, one,
  ◌>>=◌,
}

-- `RGB(r, g, b)`, a `size_t`.
abbrev pub rgb : ℕ → ℕ → ℕ → ℕ
rgb r g b = bit_or (bit_or r (u32 (g * 2 ^ 8))) (u32 (b * 2 ^ 16))

-- `ANSI_TERMINAL_PALETTE_BRIGHTNESS_25`, `_50` and `_100`
abbrev pub brightness_25 : ℕ
brightness_25 = 85

abbrev pub brightness_50 : ℕ
brightness_50 = 170

abbrev pub brightness_100 : ℕ
brightness_100 = 255

unfoldable pub palette_normal : List ℕ
palette_normal =
    rgb 0 0 0
    ∷ rgb brightness_50 0 0
    ∷ rgb 0 brightness_50 0
    ∷ rgb brightness_50 brightness_25 0
    ∷ rgb 0 0 brightness_50
    ∷ rgb brightness_50 0 brightness_50
    ∷ rgb 0 brightness_50 brightness_50
    ∷ rgb brightness_50 brightness_50 brightness_50
    ∷ []

unfoldable pub palette_light : List ℕ
palette_light =
    rgb brightness_25 brightness_25 brightness_25
    ∷ rgb brightness_100 brightness_25 brightness_25
    ∷ rgb brightness_25 brightness_100 brightness_25
    ∷ rgb brightness_100 brightness_100 brightness_25
    ∷ rgb brightness_25 brightness_25 brightness_100
    ∷ rgb brightness_100 brightness_25 brightness_100
    ∷ rgb brightness_25 brightness_100 brightness_100
    ∷ rgb brightness_100 brightness_100 brightness_100
    ∷ []

-- `ANSI_TERMINAL_DEFAULT_FOREGROUND_8` and its kin: white on black.
abbrev pub default_8 : Plane → ℕ
default_8 foreground = 7
default_8 background = 0

abbrev pub default_256 : Plane → ℕ
default_256 foreground = 7
default_256 background = 0

-- The RGB default is looked up in the palette.
unfoldable pub reset : Plane → Callbacks → Calls
reset p cb =
    if cb.reset_colour p
    then one (Call.reset_colour p)
    else if cb.set_colour_8 p
    then one (Call.set_colour_8 p (default_8 p) normal)
    else if cb.set_colour_256 p
    then one (Call.set_colour_256 p (default_256 p))
    else if cb.set_colour_rgb p
    then (do c ← get_elem? palette_normal (default_8 p); one (Call.set_colour_rgb p c))
    else quiet

-- A call of `set_*_256`, which is `NULL` where the flag is false.
abbrev pub call_256 : Plane → Callbacks → ℕ → Calls
call_256 p cb c = if cb.set_colour_256 p then one (Call.set_colour_256 p (u8 c)) else none

unfoldable pub set_8 : Plane → Callbacks → ℕ → Modifier → Calls
set_8 p cb colour modifier =
    if cb.set_colour_8 p
    then one (Call.set_colour_8 p colour modifier)
    else if cb.set_colour_256 p
    then elim modifier [ normal ↦ call_256 p cb colour | bright ↦ call_256 p cb (8 + colour) ]
    else if cb.set_colour_rgb p
    then elim modifier [
      | normal ↦ (do c ← get_elem? palette_normal colour; one (Call.set_colour_rgb p c))
      | bright ↦ (do c ← get_elem? palette_light colour; call_256 p cb c)
    ]
    else quiet

-- A level of the 6 x 6 x 6 cube and of the grey ramp, as the code scales it.
abbrev pub scaled : ℕ → ℕ
scaled level = min (level * 256 / 24) 255

unfoldable pub rgb_of_256 : ℕ → Option ℕ
rgb_of_256 colour =
    if ltb colour 8
    then get_elem? palette_normal colour
    else if ltb colour 16
    then get_elem? palette_light (colour - 8)
    else if ltb colour 232
    then some (
        rgb (scaled ((colour - 16) / 36 % 6)) (scaled ((colour - 16) / 6 % 6))
          (scaled ((colour - 16) % 6)))
    else some (rgb (scaled (colour - 232)) (scaled (colour - 232)) (scaled (colour - 232)))

unfoldable pub set_256 : Plane → Callbacks → ℕ → Calls
unfolding rgb_of_256
set_256 p cb colour =
    if cb.set_colour_256 p
    then one (Call.set_colour_256 p colour)
    else if cb.set_colour_rgb p
    then (do c ← rgb_of_256 colour; one (Call.set_colour_rgb p c))
    else if cb.set_colour_8 p && ltb colour 16
    then (if ltb colour 8
        then one (Call.set_colour_8 p colour normal)
        else one (Call.set_colour_8 p (colour - 8) bright))
    else quiet
