-- ===== src/Io/Terminal/Prefix.antt =====
-- What the functions that do not wait send, against the functions that do, and when those return.
use neo_sys_x.Common.{
  ℕ, zero, suc, ◌≤◌, ◌≡◌, refl, ◌⊎◌, inl, inr, Bool, true, false, List, [], ◌∷◌, some, arith,
  length, Bool-cases, subst, sym, ap,
}
use neo_sys_x.Io.Terminal.{Device, wait, putc, try_putc, put_each, try_each, putbuf, try_putbuf}

abbrev pub take {ℓ} : {A : Type ℓ} → ℕ → List A → List A
take zero xs = []
take (suc n) [] = []
take (suc n) (x ∷ xs) = x ∷ take n xs

module _ {S : Type 0} (device : Device S) (send : S → ℕ → S) (ask : S → S × Bool)
    (sends : device.write ≡ some send) (asks : device.write_available ≡ some ask) where
  try_putc-yes :
      (s : S) (c : ℕ)
      → (ask s).1 ≡ true
      → (ask s).0 ≡ s
      → try_putc (some device) s c ≡ (send s c, true)
  unfolding try_putc
  try_putc-yes s c e f = rw (sends, asks, e, f) refl

  try_putc-no :
      (s : S) (c : ℕ) → (ask s).1 ≡ false → (ask s).0 ≡ s → try_putc (some device) s c ≡ (s, false)
  unfolding try_putc
  try_putc-no s c e f = simp (sends, asks, e, f)

  putc-yes :
      (s : S) (c : ℕ)
      → (ask s).1 ≡ true
      → (ask s).0 ≡ s
      → putc 1 (some device) s c ≡ some (send s c)
  unfolding putc wait
  putc-yes s c e f = rw (sends, asks, e, f) refl

  try_each-step :
      (s : S) (c : ℕ) (cs : List ℕ) {p : S × Bool}
      → try_putc (some device) s c ≡ p
      → try_each (some device) s (c ∷ cs) ≡ elim (p.1) [
        | false ↦ (p.0, 0)
        | true ↦ ((try_each (some device) (p.0) cs).0, suc ((try_each (some device) (p.0) cs).1))
      ]
  unfolding try_each
  try_each-step s c cs {p = p} e =
      ap
        (λ (p : S × Bool). elim (p.1) [
          | false ↦ (p.0, 0)
          | true ↦ ((try_each (some device) (p.0) cs).0, suc ((try_each (some device) (p.0) cs).1))
        ])
        e

  module _ (quiet : (s : S) → (ask s).0 ≡ s) where
    abbrev Prefixed : S → List ℕ → S × ℕ → Type 0
    Prefixed s buf r =
        (put_each 1 (some device) s (take (r.1) buf) ≡ some (r.0))
        × (r.1 ≤ length buf)
        × ((r.1 ≡ length buf) ⊎ ((ask (r.0)).1 ≡ false))

    Prefixed-more :
        (s : S) (c : ℕ) (cs : List ℕ) (r : S × ℕ)
        → (ask s).1 ≡ true
        → Prefixed (send s c) cs r
        → Prefixed s (c ∷ cs) (r.0, suc (r.1))
    unfolding put_each
    Prefixed-more s c cs r e (a, b, d) =
        (rw (putc-yes s c e (quiet s), put_each) a, omega arith, ground arith)

    try_each-Prefixed : (s : S) (buf : List ℕ) → Prefixed s buf (try_each (some device) s buf)
    unfolding try_each put_each
    try_each-Prefixed s [] = (refl, omega arith, inl refl)
    try_each-Prefixed s (c ∷ cs) = elim (Bool-cases ((ask s).1)) [
      | inl e ↦
          subst (Prefixed s (c ∷ cs)) (sym (try_each-step s c cs (try_putc-yes s c e (quiet s)))) (
            Prefixed-more s c cs (try_each (some device) (send s c) cs) e
              (try_each-Prefixed (send s c) cs))
      | inr e ↦
          subst (Prefixed s (c ∷ cs)) (sym (try_each-step s c cs (try_putc-no s c e (quiet s))))
            (refl, omega arith, inr e)
    ]

    -- On a device whose test of readiness changes nothing, `term_try_putbuf` sends as much of the
    -- text as `term_putbuf` sends without waiting once, in the same way and no more than there is,
    -- and it stops early only at a device that is not ready.
    pub try_putbuf-putbuf :
        (s : S) (buf : List ℕ)
        → (putbuf 1 (some device) s (take ((try_putbuf (some device) s buf).1) buf)
            ≡ some ((try_putbuf (some device) s buf).0))
          × ((try_putbuf (some device) s buf).1 ≤ length buf)
          × (((try_putbuf (some device) s buf).1 ≡ length buf)
              ⊎ ((ask ((try_putbuf (some device) s buf).0)).1 ≡ false))
    unfolding try_putbuf putbuf
    try_putbuf-putbuf s buf = try_each-Prefixed s buf

-- The device answers that it is ready within `n` further questions.
pub data ReadyWithin {S : Type 0} (ask : S → S × Bool) : ℕ → S → Type 0 where
  at_once : {n : ℕ} {s : S} → (ask s).1 ≡ true → ReadyWithin ask n s
  later : {n : ℕ} {s : S} → ReadyWithin ask n ((ask s).0) → ReadyWithin ask (suc n) s

-- A wait from one state to another: the device is asked for as long as it is not ready.
pub data Waited {S : Type 0} (ask : S → S × Bool) : S → S → Type 0 where
  is_ready : {s : S} → (ask s).1 ≡ true → Waited ask s ((ask s).0)
  busy : {s t : S} → (ask s).1 ≡ false → Waited ask ((ask s).0) t → Waited ask s t

-- A text that is sent: each character, in order, is written once, when the device has become ready.
pub data Sent {S : Type 0} (send : S → ℕ → S) (ask : S → S × Bool) : S → List ℕ → S → Type 0 where
  all : {s : S} → Sent send ask s [] s
  next :
      {s t u : S} {c : ℕ} {cs : List ℕ}
      → Waited ask s t
      → Sent send ask (send t c) cs u
      → Sent send ask s (c ∷ cs) u

wait-Returns :
    {S : Type 0} (ask : S → S × Bool) (n : ℕ) (s : S)
    → ReadyWithin ask n s
    → (t : S) × (wait (suc n) ask s ≡ some t) × Waited ask s t
unfolding wait
wait-Returns ask n s (at_once e) = ((ask s).0, rw (e, wait) refl, is_ready e)
wait-Returns ask (suc n) s (later r) = elim (Bool-cases ((ask s).1)) [
  | inl e ↦ ((ask s).0, rw (e, wait) refl, is_ready e)
  | inr e ↦ let (t, f, w) = wait-Returns ask n ((ask s).0) r in (t, rw (e, wait) f, busy e w)
]

module _ {S : Type 0} (device : Device S) (send : S → ℕ → S) (ask : S → S × Bool) (n : ℕ)
    (sends : device.write ≡ some send) (asks : device.write_available ≡ some ask)
    (ready : (s : S) → ReadyWithin ask n s) where
  putc-Returns :
      (s : S) (c : ℕ)
      → (t : S) × (putc (suc n) (some device) s c ≡ some (send t c)) × Waited ask s t
  unfolding putc
  putc-Returns s c =
      let (t, e, w) = wait-Returns ask n s (ready s) in (t, rw (sends, asks, e) refl, w)

  put_each-Returns :
      (s : S) (cs : List ℕ)
      → (t : S) × (put_each (suc n) (some device) s cs ≡ some t) × Sent send ask s cs t
  unfolding put_each
  put_each-Returns s [] = (s, refl, all)
  put_each-Returns s (c ∷ cs) =
      let (t, e, w) = putc-Returns s c in
      let (u, f, sent) = put_each-Returns (send t c) cs in (u, rw (e, put_each) f, next w sent)

  -- On a device that is ready within `n` questions, wherever it stands, `term_putbuf` returns
  -- for every text, and has then written each of its characters once and in order: each after a
  -- wait of at most `n + 1` questions, that ends with the first one that the device answers with
  -- yes.
  pub putbuf-Returns :
      (s : S) (buf : List ℕ)
      → (t : S) × (putbuf (suc n) (some device) s buf ≡ some t) × Sent send ask s buf t
  unfolding putbuf
  putbuf-Returns s buf = put_each-Returns s buf
