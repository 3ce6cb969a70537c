-- ===== src/Io/Terminal/Tests.antt =====
-- Runs of the terminal interface.
use neo_sys_x.Common.{
  ℕ, ◌-◌, ◌≤◌, ◌≡◌, refl, ◌⊎◌, Bool, true, false, not, [], ◌∷◌, none, some, ◌==◌,
}
use neo_sys_x.Io.Terminal.{Device, putbuf, try_putbuf}
use neo_sys_x.Io.Terminal.Prefix.{at_once, later, try_putbuf-putbuf, putbuf-Returns, Sent}

-- A buffer with so much room, and what was written last.
abbrev bounded : Device (ℕ × ℕ)
bounded = record {
  read = none;
  write = some (λ s c. (s.0 - 1, c));
  read_available = none;
  write_available = some (λ s. (s, not (s.0 == 0)));
}

abbrev two : ℕ
two = 2

try_putbuf-putbuf_example :
    (putbuf 1 (some bounded) (2, 0) (b'a' ∷ b'b' ∷ []) ≡ some (0, b'b'))
    × (2 ≤ 3)
    × ((two ≡ 3) ⊎ (false ≡ false))
unfolding try_putbuf
try_putbuf-putbuf_example =
    try_putbuf-putbuf bounded (λ s c. (s.0 - 1, c)) (λ s. (s, not (s.0 == 0))) refl refl (λ s. refl)
      (2, 0) (b'a' ∷ b'b' ∷ b'c' ∷ [])

-- A device that is busy once after each character.
abbrev slow : Device (Bool × ℕ)
slow = record {
  read = none;
  write = some (λ s c. (false, c));
  read_available = none;
  write_available = some (λ s. ((true, s.1), s.0));
}

putbuf-Returns_example :
    (t : Bool × ℕ) × (putbuf 2 (some slow) (false, 0) (b'a' ∷ b'b' ∷ []) ≡ some t)
    × Sent
        (λ (s : Bool × ℕ) c. (false, c))
        (λ s. ((true, s.1), s.0))
        (false, 0)
        (b'a' ∷ b'b' ∷ [])
        t
putbuf-Returns_example =
    putbuf-Returns slow (λ s c. (false, c)) (λ s. ((true, s.1), s.0)) 1 refl refl
      (λ s. later (at_once refl)) (false, 0) (b'a' ∷ b'b' ∷ [])
