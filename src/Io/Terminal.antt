-- ===== src/Io/Terminal.antt =====
-- kernel/common/src/io/terminal.c: the terminal interface, over a device whose functions act on a
-- state that the hardware shares. A function that is `NULL` is `none`.
pub mod Prefix
mod Tests
use neo_sys_x.Common.{
  ℕ, zero, suc, Bool, true, false, List, [], ◌∷◌, Option, none, some, ◌==◌, if◌then◌else◌,
}

-- `terminal_t`; `user` is part of the state.
pub record Device (S : Type 0) : Type 0 where
  pub read : Option (S → S × ℕ)
  pub write : Option (S → ℕ → S)
  pub read_available : Option (S → S × Bool)
  pub write_available : Option (S → S × Bool)

-- `term_current`
abbrev pub Current : Type 0 → Type 0
Current S = Option (Device S)

-- A busy loop on an answer: `none` where `fuel` questions were not enough.
unfoldable pub wait : {S : Type 0} → ℕ → (S → S × Bool) → S → Option S
wait zero ask s = none
wait (suc fuel) ask s =
    let (t, answer) = ask s in elim answer [ true ↦ some t | false ↦ wait fuel ask t ]

module _ {S : Type 0} where
  -- `term_putc`
  unfoldable pub putc : ℕ → Current S → S → ℕ → Option S
  unfolding wait
  putc fuel none s c = some s
  putc fuel (some device) s c = elim device.write [
    | none ↦ some s
    | some write ↦ elim device.write_available [
      | none ↦ some (write s c)
      | some ask ↦ elim (wait fuel ask s) [ none ↦ none | some t ↦ some (write t c) ]
    ]
  ]

  -- `term_getc`
  unfoldable pub getc : ℕ → Current S → S → Option (S × ℕ)
  unfolding wait
  getc fuel none s = some (s, 0)
  getc fuel (some device) s = elim device.read [
    | none ↦ some (s, 0)
    | some read ↦ elim device.read_available [
      | none ↦ some (s, 0)
      | some ask ↦ elim (wait fuel ask s) [ none ↦ none | some t ↦ some (read t) ]
    ]
  ]

  -- `term_try_putc`
  unfoldable pub try_putc : Current S → S → ℕ → S × Bool
  try_putc none s c = (s, false)
  try_putc (some device) s c = elim device.write [
    | none ↦ (s, false)
    | some write ↦ elim device.write_available [
      | none ↦ (write s c, true)
      | some ask ↦
          let (t, answer) = ask s in elim answer [ true ↦ (write t c, true) | false ↦ (t, false) ]
    ]
  ]

  -- `term_try_getc`; `none` in place of the character is the answer `false`.
  unfoldable pub try_getc : Current S → S → S × Option ℕ
  try_getc none s = (s, none)
  try_getc (some device) s = elim device.read [
    | none ↦ (s, none)
    | some read ↦ elim device.read_available [
      | none ↦ (s, none)
      | some ask ↦
          let (t, answer) = ask s in
          elim answer [ true ↦ (let (u, c) = read t in (u, some c)) | false ↦ (t, none) ]
    ]
  ]

  -- `term_read_available` and `term_write_available`
  unfoldable pub read_available : Current S → S → S × Bool
  read_available none s = (s, false)
  read_available (some device) s = elim device.read_available [
    | none ↦ (s, false)
    | some ask ↦ ask s
  ]

  unfoldable pub write_available : Current S → S → S × Bool
  write_available none s = (s, false)
  write_available (some device) s = elim device.write_available [
    | none ↦ (s, true)
    | some ask ↦ ask s
  ]

  -- The loop of `term_puts` and `term_putbuf`, over the characters that they send.
  unfoldable pub put_each : ℕ → Current S → S → List ℕ → Option S
  unfolding putc
  put_each fuel term s [] = some s
  put_each fuel term s (c ∷ cs) = elim (putc fuel term s c) [
    | none ↦ none
    | some t ↦ put_each fuel term t cs
  ]

  -- The loop of `term_try_puts` and `term_try_putbuf`, which stops at the first refusal.
  unfoldable pub try_each : Current S → S → List ℕ → S × ℕ
  unfolding try_putc
  try_each term s [] = (s, 0)
  try_each term s (c ∷ cs) =
      let (t, accepted) = try_putc term s c in
      elim accepted [
        | true ↦ (let (u, sent) = try_each term t cs in (u, suc sent))
        | false ↦ (t, 0)
      ]

  -- `term_putbuf` and `term_try_putbuf`
  unfoldable pub putbuf : ℕ → Current S → S → List ℕ → Option S
  unfolding put_each
  putbuf fuel none s buf = some s
  putbuf fuel (some device) s buf = put_each fuel (some device) s buf

  unfoldable pub try_putbuf : Current S → S → List ℕ → S × ℕ
  unfolding try_each
  try_putbuf none s buf = (s, 0)
  try_putbuf (some device) s buf = try_each (some device) s buf

-- The characters of a string, which ends before the first 0 of the buffer it stands in.
unfoldable pub until_nul : List ℕ → List ℕ
until_nul [] = []
until_nul (c ∷ cs) = let rest = until_nul cs in if c == 0 then [] else c ∷ rest

module _ {S : Type 0} where
  -- `term_puts` and `term_try_puts`
  unfoldable pub puts : ℕ → Current S → S → List ℕ → Option S
  unfolding putbuf until_nul
  puts fuel term s str = putbuf fuel term s (until_nul str)

  unfoldable pub try_puts : Current S → S → List ℕ → S × ℕ
  unfolding try_putbuf until_nul
  try_puts term s str = try_putbuf term s (until_nul str)
