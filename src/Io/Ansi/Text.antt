-- ===== src/Io/Ansi/Text.antt =====
-- Text outside control sequences, and what is kept between characters.
use neo_sys_x.Common.{
  ℕ, ◌≤◌, ◌≡◌, refl, ◌≢◌, Bool, true, false, List, [], ◌∷◌, map, none, some, arith, All, ◌==◌,
  Option-cases, inl, inr, Bool-cases,
}
use neo_sys_x.Io.Ansi.{Callbacks, Terminal, State, idle, esc, bracket, buf_size, Call, Calls}
use neo_sys_x.Io.Ansi.Write.{escape, command, dispatch, write, write_all, finish, keep}

-- What the display gets for a text behind an escape character that begins no sequence.
abbrev pub echoed : List ℕ → List Call
echoed [] = []
echoed (c ∷ cs) = Call.put escape ∷ Call.put c ∷ echoed cs

module _ (cb : Callbacks) (term : Terminal) (there : cb.write ≡ true) where
  -- On a display that writes, and outside a sequence, a text without the escape character reaches
  -- the display as it is, and the terminal stays as it was.
  write_all-plain :
      (cs : List ℕ)
      → term.state ≡ idle
      → All (λ c. c ≢ escape) cs
      → write_all cb term cs ≡ some (term, map Call.put cs)
  unfolding write_all write dispatch
  write_all-plain [] outside plain = refl
  write_all-plain (c ∷ cs) outside (p, plain) =
      let other : (c == escape) ≡ false = ground arith in
      simp (there, outside, other, write_all-plain cs outside plain)

  -- On a display that writes and is always ready, an escape character that `[` does not follow is
  -- never left behind: every later character is echoed with an escape character before it, until a
  -- `[` comes.
  pub esc_sticks :
      (cs : List ℕ)
      → term.state ≡ esc
      → cb.write_available ≡ true
      → All (λ c. c ≢ b'[') cs
      → write_all cb term cs ≡ some (term, echoed cs)
  unfolding write_all write dispatch
  esc_sticks [] inside answers plain = refl
  esc_sticks (c ∷ cs) inside answers (p, plain) =
      let other : (c == b'[') ≡ false = ground arith in
      simp (there, inside, other, answers, esc_sticks cs inside answers plain)

-- The parameters fit the buffer.
abbrev pub IsWf : Terminal → Type 0
IsWf term = term.param_idx ≤ buf_size

finish-IsWf :
    (term : Terminal) (calls : Calls) {next : Terminal} {done : List Call}
    → IsWf term
    → finish term calls ≡ some (next, done)
    → IsWf next
finish-IsWf term none wf e = cc
finish-IsWf term (some cs) wf e = ground arith

dispatch-IsWf :
    (s : State) (cb : Callbacks) (available : Bool) (term : Terminal) (c : ℕ) {next : Terminal}
    {calls : List Call}
    → IsWf term
    → dispatch s cb available term c ≡ some (next, calls)
    → IsWf next
unfolding dispatch
dispatch-IsWf idle cb available term c wf e = ground arith
dispatch-IsWf esc cb available term c wf e = ground arith
dispatch-IsWf bracket cb available term c {next} {calls} wf e =
    elim (Option-cases (command cb term c)) [
      | inl parameter ↦ kept (rw (parameter, dispatch) at e)
      | inr (done, final) ↦ finish-IsWf term done wf (rw (final, dispatch) at e)
    ]
  where
    kept : keep term c ≡ some (next, calls) → IsWf next
    kept e = ground arith

-- Whatever a character does, parameters that fit the buffer still fit it afterwards.
write-IsWf :
    (cb : Callbacks) (available : Bool) (term : Terminal) (c : ℕ) {next : Terminal}
    {calls : List Call}
    → IsWf term
    → write cb available term c ≡ some (next, calls)
    → IsWf next
unfolding write
write-IsWf cb available term c {next} {calls} wf e = elim (Bool-cases cb.write) [
  | inl there ↦ dispatch-IsWf term.state cb available term c wf (simp there at e)
  | inr absent ↦ ground arith
]
