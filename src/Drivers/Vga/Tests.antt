-- ===== src/Drivers/Vga/Tests.antt =====
-- The text screen with the cursor at its last cell.
use neo_sys_x.Common.{refl, arith}
use neo_sys_x.Drivers.Vga.{Vga, putc}
use neo_sys_x.Drivers.Vga.Screen.{OnScreen, Synced, putc-OnScreen}

abbrev corner : Vga
corner = record { cells = λ k. 65; tty_x = 79; tty_y = 24; attrib = 7; location = 1999 }

corner-OnScreen : OnScreen (λ k. 65) corner
corner-OnScreen = record { x_bounded = omega arith; y_bounded = omega arith; outside = λ k h. refl }

putc-OnScreen_example : OnScreen (λ k. 65) (putc corner b'a') × Synced (putc corner b'a')
putc-OnScreen_example = putc-OnScreen (λ k. 65) corner b'a' corner-OnScreen
