-- ===== src/Io/Ansi/Parse.antt =====
-- `ansi_terminal_parse_dec`: a decimal number in the parameter buffer.
use neo_sys_x.Common.{
  ℕ, zero, suc, ◌+◌, ◌-◌, ◌*◌, ◌&&◌, Option, none, some, leb, ◌==◌, if◌then◌else◌, u32,
}
use neo_sys_x.Io.Ansi.{buf_size}

-- The loop at byte `at` of the buffer, with `left` bytes left to read: how many it takes, and the
-- number. `none` is a read outside the buffer.
unfoldable pub parse_loop : ℕ → (ℕ → ℕ) → ℕ → ℕ → ℕ → ℕ → Option (ℕ × ℕ)
parse_loop zero buf at left taken out = none
parse_loop (suc fuel) buf at left taken out =
    let rest =
      parse_loop fuel buf (at + 1) (left - 1) (taken + 1) (u32 (out * 10 + buf at - b'0')) in
    if left == 0
    then some (taken, out)
    else if leb buf_size at
    then none
    else if leb b'0' (buf at) && leb (buf at) b'9'
    then rest
    else some (taken, out)

-- The loop leaves the buffer after 32 bytes at most.
unfoldable pub parse_dec : (ℕ → ℕ) → ℕ → ℕ → Option (ℕ × ℕ)
unfolding parse_loop
parse_dec buf at len = parse_loop (buf_size + 1) buf at len 0 0
