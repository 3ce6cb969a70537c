-- ===== src/Io/Ansi/Moves.antt =====
-- A cursor sequence with a decimal number: from its characters to the call that it makes.
use neo_sys_x.Common.{
  ℕ, zero, suc, ◌+◌, ◌-◌, ◌*◌, ◌≤◌, ◌<◌, ◌≡◌, refl, ap, Bool, true, false, List, [], ◌∷◌, ◌++◌, map,
  none, some, arith, All, ◌==◌, leb, if◌then◌else◌, length, u32, update, update_self, update_ne,
  ◌∙◌,
}
use neo_sys_x.Io.Ansi.{Callbacks, Terminal, idle, esc, bracket, buf_size, Call, quiet, one, ◌>>=◌}
use mathlib.Core.List.{append-nil}
use neo_sys_x.Io.Ansi.Parse.{parse_loop, parse_dec}
use neo_sys_x.Io.Ansi.Cursor.{
  neg, int_min, with_delta, handle_move_up, handle_move_down, handle_move_left, handle_move_right,
  handle_move_up_begin, handle_move_down_begin,
}
use neo_sys_x.Io.Ansi.Write.{Step, escape, command, dispatch, write, write_all}

abbrev pub IsDigit : ℕ → Type 0
IsDigit d = d < 10

abbrev pub digit_char : ℕ → ℕ
digit_char d = d + b'0'

-- The number that the digits stand for, in 32 bits, behind those already read.
abbrev pub value : ℕ → List ℕ → ℕ
value out [] = out
value out (d ∷ ds) = value (u32 (out * 10 + d)) ds

-- The buffer holds the digits from a byte on.
abbrev pub Holds : (ℕ → ℕ) → ℕ → List ℕ → Type 0
Holds buf at [] = Unit
Holds buf at (d ∷ ds) = (buf at ≡ digit_char d) × Holds buf (at + 1) ds

parse_loop-value :
    (fuel : ℕ) (buf : ℕ → ℕ) (at taken out : ℕ) (ds : List ℕ)
    → length ds < fuel
    → at + length ds ≤ buf_size
    → All IsDigit ds
    → Holds buf at ds
    → parse_loop fuel buf at (length ds) taken out ≡ some (taken + length ds, value out ds)
unfolding parse_loop
parse_loop-value zero buf at taken out ds f h digits held = absurd (omega arith)
parse_loop-value (suc fuel) buf at taken out [] f h digits held = ground arith
parse_loop-value (suc fuel) buf at taken out (d ∷ ds) f h (small, digits) (here, held) =
    let more : (suc (length ds) == 0) ≡ false = ground arith in
    let inside : leb buf_size at ≡ false = ground arith in
    let low : leb b'0' (digit_char d) ≡ true = ground arith in
    let high : leb (digit_char d) b'9' ≡ true = ground arith in
    let left : suc (length ds) - 1 ≡ length ds = omega arith in
    let step : out * 10 + digit_char d - b'0' ≡ out * 10 + d = omega arith in
    rw here (
      rw (more, inside, low, high, left, step)
        (parse_loop-value fuel buf (at + 1) (taken + 1) (u32 (out * 10 + d)) ds (omega arith)
            (omega arith) digits held
          ∙ ap (λ n. some (n, value (u32 (out * 10 + d)) ds)) (omega arith)))

-- The terminal inside a sequence, with the parameters read so far.
abbrev pub params : (ℕ → ℕ) → ℕ → Terminal
params buf n = record { state = bracket; param_buf = buf; param_idx = n }

-- The buffer behind the digits.
abbrev pub loaded : (ℕ → ℕ) → ℕ → List ℕ → ℕ → ℕ
loaded buf at [] = buf
loaded buf at (d ∷ ds) = loaded (update buf at (digit_char d)) (at + 1) ds

loaded-before : (buf : ℕ → ℕ) (at : ℕ) (ds : List ℕ) (k : ℕ) → k < at → loaded buf at ds k ≡ buf k
loaded-before buf at [] k h = refl
loaded-before buf at (d ∷ ds) k h =
    loaded-before (update buf at (digit_char d)) (at + 1) ds k (omega arith)
    ∙ update_ne buf at (digit_char d) k (omega arith)

Holds-loaded : (buf : ℕ → ℕ) (at : ℕ) (ds : List ℕ) → Holds (loaded buf at ds) at ds
Holds-loaded buf at [] = tt
Holds-loaded buf at (d ∷ ds) = (
  loaded-before (update buf at (digit_char d)) (at + 1) ds at (omega arith)
      ∙ update_self buf at (digit_char d),
  Holds-loaded (update buf at (digit_char d)) (at + 1) ds,
)

command-digit :
    (cb : Callbacks) (term : Terminal) (d : ℕ) → IsDigit d → command cb term (digit_char d) ≡ none
unfolding command
command-digit cb term d h = ground arith

>>=-pair : (s : Step) → (s >>= λ (t, cs). some (t, [] ++ cs)) ≡ s
>>=-pair none = refl
>>=-pair (some (t, cs)) = refl

module _ (cb : Callbacks) (there : cb.write ≡ true) where
  write-digit :
      (buf : ℕ → ℕ) (n d : ℕ)
      → IsDigit d
      → leb buf_size n ≡ false
      → write cb true (params buf n) (digit_char d)
        ≡ some (params (update buf n (digit_char d)) (n + 1), [])
  unfolding write dispatch
  write-digit buf n d small room =
      simp there (rw (command-digit cb (params buf n) d small, room, dispatch))

  write_all-digits :
      (buf : ℕ → ℕ) (n : ℕ) (ds rest : List ℕ)
      → All IsDigit ds
      → n + length ds ≤ buf_size
      → write_all cb (params buf n) (map digit_char ds ++ rest)
        ≡ write_all cb (params (loaded buf n ds) (n + length ds)) rest
  unfolding write_all
  write_all-digits buf n [] rest digits h = ap (λ k. write_all cb (params buf k) rest) (omega arith)
  write_all-digits buf n (d ∷ ds) rest (small, digits) h =
      let room : leb buf_size n ≡ false = ground arith in
      let next = update buf n (digit_char d) in
      rw (write-digit buf n d small room) (
        >>=-pair (write_all cb (params next (n + 1)) (map digit_char ds ++ rest))
        ∙ write_all-digits next (n + 1) ds rest digits (omega arith)
        ∙ ap (λ k. write_all cb (params (loaded next (n + 1) ds) k) rest) (omega arith))

-- Digits that begin the buffer and fill the parameters are read whole.
parse_dec-value :
    (buf : ℕ → ℕ) (ds : List ℕ)
    → All IsDigit ds
    → length ds ≤ buf_size
    → parse_dec (loaded buf 0 ds) 0 (length ds) ≡ some (length ds, value 0 ds)
unfolding parse_dec
parse_dec-value buf ds digits h =
    parse_loop-value (buf_size + 1) (loaded buf 0 ds) 0 0 0 ds (omega arith) (omega arith) digits
      (Holds-loaded buf 0 ds)
    ∙ ap (λ n. some (n, value 0 ds)) (omega arith)

write_all-nil : (cb : Callbacks) (term : Terminal) → write_all cb term [] ≡ some (term, [])
unfolding write_all
write_all-nil cb term = refl

write_all-cons :
    (cb : Callbacks) (term : Terminal) (c : ℕ) (cs : List ℕ) {next last : Terminal}
    {calls more : List Call}
    → write cb true term c ≡ some (next, calls)
    → write_all cb next cs ≡ some (last, more)
    → write_all cb term (c ∷ cs) ≡ some (last, calls ++ more)
unfolding write_all
write_all-cons cb term c cs e f = rw e (rw f)

-- The six sequences that move the cursor by a number.
pub data Direction : Type 0 where
  up down left right up_begin down_begin : Direction

abbrev pub final_char : Direction → ℕ
final_char up = b'A'
final_char down = b'B'
final_char right = b'C'
final_char left = b'D'
final_char down_begin = b'E'
final_char up_begin = b'F'

-- The move by `n`, as `dx` and `dy`: right and down are positive, and `INT_MIN` is the left edge.
abbrev pub motion : Direction → ℕ → Call
motion up n = Call.move_cursor 0 (neg n)
motion down n = Call.move_cursor 0 n
motion right n = Call.move_cursor n 0
motion left n = Call.move_cursor (neg n) 0
motion down_begin n = Call.move_cursor int_min n
motion up_begin n = Call.move_cursor int_min (neg n)

-- The call for a number; 0 makes none.
abbrev pub moved : Direction → ℕ → List Call
moved d n = if n == 0 then [] else motion d n ∷ []

module _ (cb : Callbacks) (there : cb.write ≡ true) (moves : cb.move_cursor ≡ true) where
  command-motion :
      (d : Direction) (term : Terminal)
      → command cb term (final_char d) ≡ some (with_delta cb term (motion d))
  unfolding command handle_move_up handle_move_down handle_move_left handle_move_right
      handle_move_up_begin handle_move_down_begin
  command-motion up term = refl
  command-motion _ term = refl

  with_delta-digits :
      (buf : ℕ → ℕ) (ds : List ℕ) (call : ℕ → Call)
      → All IsDigit ds
      → 0 < length ds
      → length ds ≤ buf_size
      → with_delta cb (params (loaded buf 0 ds) (length ds)) call
        ≡ some (if value 0 ds == 0 then [] else call (value 0 ds) ∷ [])
  with_delta-digits buf ds call digits some_digit h =
      let e : (length ds == 0) ≡ false = ground arith in
      let same : (length ds == length ds) ≡ true = ground arith in
      simp (moves, e, parse_dec-value buf ds digits h, same) (called (value 0 ds == 0))
    where
      called :
          (b : Bool)
          → (if b then quiet else one (call (value 0 ds)))
            ≡ some (if b then [] else call (value 0 ds) ∷ [])
      called true = refl
      called false = refl

  write-escape :
      (term : Terminal)
      → term.state ≡ idle
      → write cb true term escape ≡ some (record term { state = esc }, [])
  unfolding write dispatch
  write-escape term outside = simp (there, outside)

  write-bracket :
      (term : Terminal)
      → term.state ≡ esc
      → write cb true term b'[' ≡ some (params term.param_buf 0, [])
  unfolding write dispatch
  write-bracket term inside = simp (there, inside)

  write-final :
      (d : Direction) (term : Terminal) (calls : List Call)
      → term.state ≡ bracket
      → with_delta cb term (motion d) ≡ some calls
      → write cb true term (final_char d) ≡ some (record term { state = idle }, calls)
  unfolding write dispatch
  write-final d term calls inside e =
      simp (there, inside) (rw (command-motion d term, dispatch) (rw e))

  -- On a display that writes and moves its cursor, and outside any sequence, `ESC [ digits final`
  -- with 1 to 32 digits and one of the six finals for a relative move makes the one call of the
  -- sequence, with the number that the digits stand for in 32 bits, or no call when that is 0;
  -- then the terminal is outside any sequence.
  pub csi_motion :
      (d : Direction) (term : Terminal) (ds : List ℕ)
      → term.state ≡ idle
      → All IsDigit ds
      → 0 < length ds
      → length ds ≤ buf_size
      → (next : Terminal) × (next.state ≡ idle)
        × (write_all cb term (escape ∷ b'[' ∷ map digit_char ds ++ (final_char d ∷ []))
            ≡ some (next, moved d (value 0 ds)))
  csi_motion d term ds outside digits some_digit h =
      let last = params (loaded term.param_buf 0 ds) (length ds) in
      let calls = moved d (value 0 ds) in
      let final =
        write_all-cons cb last (final_char d) []
          (write-final d last calls refl
            (with_delta-digits term.param_buf ds (motion d) digits some_digit h))
          (write_all-nil cb (record last { state = idle })) in
      let read_digits =
        write_all-digits cb there term.param_buf 0 ds (final_char d ∷ []) digits (omega arith)
        ∙ ap (λ k. write_all cb (params (loaded term.param_buf 0 ds) k) (final_char d ∷ []))
            (omega arith)
        ∙ final
        ∙ ap (λ cs. some (record last { state = idle }, cs)) (append-nil _) in
      (
        record last { state = idle },
        refl,
        write_all-cons cb term escape (b'[' ∷ map digit_char ds ++ (final_char d ∷ []))
            (write-escape term outside)
            (write_all-cons cb (record term { state = esc }) b'['
              (map digit_char ds ++ (final_char d ∷ []))
              (write-bracket (record term { state = esc }) refl) read_digits),
      )
