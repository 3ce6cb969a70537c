-- ===== src/Io/Ansi/Sgr.antt =====
-- `ansi_terminal_handle_set_colour`: the numbers of `CSI m`.
use neo_sys_x.Common.{
  ℕ, zero, suc, ◌+◌, ◌-◌, ◌^◌, Bool, ◌&&◌, List, [], Option, none, some, leb, ◌==◌, if◌then◌else◌,
  u8, u32,
}
use neo_sys_x.Io.Ansi.{
  Plane, foreground, background, normal, bright, Callbacks, Terminal, Call, Calls, quiet, one,
  ◌>>=◌, ◌⨾◌,
}
use neo_sys_x.Io.Ansi.Parse.{parse_dec}
use neo_sys_x.Io.Ansi.Colour.{rgb, reset, set_8, set_256}

-- A number at byte `idx`, with `param_idx - idx` in `size_t`, and the index behind the number and
-- one character more.
unfoldable pub number_at : Terminal → ℕ → Option (ℕ × ℕ × ℕ)
unfolding parse_dec
number_at term idx = do
  (taken, num) ← parse_dec term.param_buf idx (u32 (term.param_idx + 2 ^ 32 - idx))
  some (taken, num, u32 (idx + (taken + 1)))

-- The handler of a part of the sequence: its calls, and where to go on, if at all.
abbrev pub Part : Type 0
Part = Option (List Call × Option ℕ)

abbrev pub stop : Part
stop = some ([], none)

abbrev pub go_on : ℕ → Calls → Part
go_on idx calls = calls >>= λ cs. some (cs, some idx)

-- `38` and `48`: `;2;r;g;b` or `;5;n`.
unfoldable pub extended : Plane → Callbacks → Terminal → ℕ → Part
unfolding number_at
extended p cb term idx = do
  (t0, num, i0) ← number_at term idx
  if t0 == 0
      then stop
      else if leb term.param_idx i0
      then stop
      else if num == 2
      then (do
        (t1, r, i1) ← number_at term i0
        if t1 == 0 then stop else if leb term.param_idx i1 then stop else do
          (t2, g, i2) ← number_at term i1
          if t2 == 0 then stop else if leb term.param_idx i2 then stop else do
            (t3, b, i3) ← number_at term i2
            if t3 == 0
                then stop
                else go_on i3 (
                    if cb.set_colour_rgb p then one (Call.set_colour_rgb p (rgb r g b)) else quiet))
      else if num == 5
      then (do
        (t1, n, i1) ← number_at term i0
        if t1 == 0 then stop else go_on i1 (set_256 p cb (u8 n)))
      else stop

-- `lo <= num && num <= hi`
abbrev pub between : ℕ → ℕ → ℕ → Bool
between lo hi num = leb lo num && leb num hi

-- One round of the loop, for the number `num` with `idx` behind it.
unfoldable pub part : Callbacks → Terminal → ℕ → ℕ → Part
unfolding extended
part cb term num idx =
    if num == 0
    then (if leb term.param_idx idx
        then ((reset background cb ⨾ reset foreground cb) >>= (λ cs. some (cs, none)))
        else some ([], some idx))
    else if between 30 37 num
    then go_on idx (set_8 foreground cb (num - 30) normal)
    else if between 40 47 num
    then go_on idx (set_8 background cb (num - 40) normal)
    else if between 90 97 num
    then go_on idx (set_8 foreground cb (num - 90) bright)
    else if between 100 107 num
    then go_on idx (set_8 background cb (num - 100) bright)
    else if num == 39
    then go_on idx (reset foreground cb)
    else if num == 49
    then go_on idx (reset background cb)
    else if num == 38
    then extended foreground cb term idx
    else if num == 48
    then extended background cb term idx
    else some ([], some idx)

unfoldable pub parts : ℕ → Callbacks → Terminal → ℕ → Calls
unfolding part
parts zero cb term idx = none
parts (suc fuel) cb term idx =
    let rest = λ (i : ℕ). parts fuel cb term i in
    if leb term.param_idx idx then quiet else do
      (taken, num, next) ← number_at term idx
      if taken == 0 then quiet else do
        (calls, more) ← part cb term num next
        elim more [ none ↦ some calls | some i ↦ some calls ⨾ rest i ]

-- Each round takes a character at least.
unfoldable pub handle_set_colour : Callbacks → Terminal → Calls
unfolding parts
handle_set_colour cb term = parts (term.param_idx + 1) cb term 0
