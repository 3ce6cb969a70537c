-- ===== src/Libc/Memory/Text.antt =====
-- `strlen`, `strnlen`, `strchr`, `strrchr` and `strcmp` on strings that end.
use neo_sys_x.Common.{
  ℕ, zero, suc, ◌+◌, ◌-◌, ◌^◌, ◌≤◌, ◌<◌, ◌≡◌, refl, ◌≢◌, inl, inr, true, false, ◌&&◌, Option, none,
  some, ◌==◌, arith, Bool-cases, ◌∙◌, min, subst,
}
use neo_sys_x.Libc.Memory.{
  Memory, IsBytes, diff, as_int, space, strlen, strlen_from, strnlen, strnlen_from, strchr,
  strchr_from, strrchr, strrchr_from, strcmp, strcmp_from,
}
use neo_sys_x.Libc.Memory.Compare.{
  FirstMatch, FirstMatch-later, Compared, Compared-later, diff-eq-zero,
}

-- A string of `n` characters, and its terminator.
pub record IsString (mem : Memory) (str n : ℕ) : Type 0 where
  pub ends : mem (str + n) ≡ 0
  pub chars : (k : ℕ) → k < n → mem (str + k) ≢ 0

inside-string :
    (mem : Memory) (str n i : ℕ) → IsString mem str n → i ≤ n → mem (str + i) ≢ 0 → i < n
inside-string mem str n i s h d = elim (Bool-cases (i == n)) [
  | inl e ↦ (let z : i ≡ n = ground arith in absurd (d (rw z s.ends)))
  | inr e ↦ ground arith
]

strlen_from-IsString :
    (fuel : ℕ) (mem : Memory) (str n i : ℕ)
    → IsString mem str n
    → i ≤ n
    → n < fuel + i
    → strlen_from fuel mem str i ≡ some n
unfolding strlen_from
strlen_from-IsString zero mem str n i s h f = absurd (omega arith)
strlen_from-IsString (suc fuel) mem str n i s h f = elim (Bool-cases (i == n)) [
  | inl last ↦
      (let e : i ≡ n = ground arith in
        let ended : (mem (str + n) == 0) ≡ true = ground (arith, s.ends) in rw e (rw ended refl))
  | inr more ↦
      (let going : (mem (str + i) == 0) ≡ false = ground (arith, s.chars i) in
        rw going (strlen_from-IsString fuel mem str n (i + 1) s (ground arith) (omega arith)))
]

strnlen_from-IsString :
    (left : ℕ) (mem : Memory) (str n i : ℕ)
    → IsString mem str n
    → i ≤ n
    → strnlen_from left mem str i ≡ min n (i + left)
unfolding strnlen_from
strnlen_from-IsString zero mem str n i s h = omega arith
strnlen_from-IsString (suc left) mem str n i s h = elim (Bool-cases (i == n)) [
  | inl last ↦
      (let e : i ≡ n = ground arith in
        let ended : (mem (str + n) == 0) ≡ true = ground (arith, s.ends) in
        rw e (rw ended (omega arith)))
  | inr more ↦
      (let going : (mem (str + i) == 0) ≡ false = ground (arith, s.chars i) in
        rw going (strnlen_from-IsString left mem str n (i + 1) s (ground arith) ∙ omega arith))
]

-- `strlen` of a string shorter than 2^32 ends, with the number of its characters, and `strnlen` is
-- that or the limit, whichever is less.
pub strlen-IsString :
    (mem : Memory) (str n maxlen : ℕ)
    → IsString mem str n
    → n < 2 ^ 32
    → (strlen mem str ≡ some n) × (strnlen mem str maxlen ≡ min n maxlen)
strlen-IsString mem str n maxlen s h = (
  strlen_from-IsString space mem str n 0 s (omega arith) (omega arith),
  strnlen_from-IsString maxlen mem str n 0 s (omega arith) ∙ omega arith,
)

strchr_from-FirstMatch :
    (fuel : ℕ) (mem : Memory) (str n ch i : ℕ)
    → IsString mem str n
    → i ≤ n
    → n < fuel + i
    → (r : Option ℕ) × (strchr_from fuel mem str ch i ≡ some r) × FirstMatch mem str ch i n r
unfolding strchr_from
strchr_from-FirstMatch zero mem str n ch i s h f = absurd (omega arith)
strchr_from-FirstMatch (suc fuel) mem str n ch i s h f = elim (Bool-cases (i == n)) [
  | inl last ↦
      (let e : i ≡ n = ground arith in
        let ended : (mem (str + n) == 0) ≡ true = ground (arith, s.ends) in
        rw e (rw ended (none, refl, λ k a b. absurd (omega arith))))
  | inr more ↦
      (let going : (mem (str + i) == 0) ≡ false = ground (arith, s.chars i) in
        rw going (elim (Bool-cases (as_int (mem (str + i)) == ch)) [
          | inl hit ↦ rw hit (
            some (str + i),
            refl,
            (i, refl, omega arith, ground arith, ground arith, λ k p q. absurd (omega arith)),
          )
          | inr miss ↦
              (let (r, e, m) =
                  strchr_from-FirstMatch fuel mem str n ch (i + 1) s (ground arith) (omega arith) in
                rw miss (r, e, FirstMatch-later mem str ch i n r (ground arith) m))
        ]))
]

-- On a string shorter than 2^32 `strchr` ends, with the first character of the string that equals
-- `ch`, or `NULL`. The terminator does not count: for 0 it answers `NULL`.
pub strchr-FirstMatch :
    (mem : Memory) (str n ch : ℕ)
    → IsString mem str n
    → n < 2 ^ 32
    → ((r : Option ℕ) × (strchr mem str ch ≡ some r) × FirstMatch mem str ch 0 n r)
      × (strchr mem str 0 ≡ some none)
strchr-FirstMatch mem str n ch s h = (found ch, at_zero (found 0))
  where
    found : (c : ℕ) → (r : Option ℕ) × (strchr mem str c ≡ some r) × FirstMatch mem str c 0 n r
    found c = strchr_from-FirstMatch space mem str n c 0 s (omega arith) (omega arith)

    at_zero :
        (r : Option ℕ) × (strchr mem str 0 ≡ some r) × FirstMatch mem str 0 0 n r
        → strchr mem str 0 ≡ some none
    at_zero (none, e, m) = e
    at_zero (some a, e, (i, p, q, inside, match, before)) = absurd (ground (arith, s.chars i))

-- `NULL` for no match, else the last.
abbrev pub LastMatch : Memory → ℕ → ℕ → ℕ → Option ℕ → Type 0
LastMatch mem str ch n none = (k : ℕ) → k < n → as_int (mem (str + k)) ≢ ch
LastMatch mem str ch n (some a) =
    (i : ℕ) × (a ≡ str + i)
    × (i < n)
    × (as_int (mem (str + i)) ≡ ch)
    × ((k : ℕ) → i < k → k < n → as_int (mem (str + k)) ≢ ch)

LastMatch-later :
    (mem : Memory) (str ch n : ℕ) (r : Option ℕ)
    → as_int (mem (str + n)) ≢ ch
    → LastMatch mem str ch n r
    → LastMatch mem str ch (n + 1) r
LastMatch-later mem str ch n none d f = λ k a. elim (Bool-cases (k == n)) [
  | inl e ↦ (let s : k ≡ n = ground arith in rw s d)
  | inr e ↦ f k (ground arith)
]
LastMatch-later mem str ch n (some x) d (i, e, a, m, after) = (
  i,
  e,
  omega arith,
  m,
  λ k p q. elim (Bool-cases (k == n)) [
    | inl e ↦ (let s : k ≡ n = ground arith in rw s d)
    | inr e ↦ after k p (ground arith)
  ],
)

strrchr_from-LastMatch :
    (mem : Memory) (str ch i : ℕ) → LastMatch mem str ch (i + 1) (strrchr_from i mem str ch)
unfolding strrchr_from
strrchr_from-LastMatch mem str ch zero =
    let z : str + 0 ≡ str = omega arith in
    elim (Bool-cases (as_int (mem str) == ch)) [
      | inl hit ↦
          rw hit (0, omega arith, omega arith, rw z (ground arith), λ k p q. absurd (omega arith))
      | inr miss ↦ rw miss (λ k a. let e : k ≡ 0 = omega arith in rw (e, z) (ground arith))
    ]
strrchr_from-LastMatch mem str ch (suc i) = elim (Bool-cases (as_int (mem (str + suc i)) == ch)) [
  | inl hit ↦ rw hit (suc i, refl, omega arith, ground arith, λ k p q. absurd (omega arith))
  | inr miss ↦ rw miss (
      LastMatch-later mem str ch (suc i) (strrchr_from i mem str ch) (ground arith) (
        subst (λ (n : ℕ). LastMatch mem str ch n (strrchr_from i mem str ch)) {x = i + 1}
          {y = suc i} (omega arith) (strrchr_from-LastMatch mem str ch i)))
]

-- On a string shorter than 2^32 `strrchr` ends, with the last character of the string that equals
-- `ch`, or `NULL`.
strrchr-LastMatch :
    (mem : Memory) (str n ch : ℕ)
    → IsString mem str n
    → n < 2 ^ 32
    → (r : Option ℕ) × (strrchr mem str ch ≡ some r) × LastMatch mem str ch n r
unfolding strrchr
strrchr-LastMatch mem str n ch s h = elim (Bool-cases (n == 0)) [
  | inl empty ↦
      rw ((strlen-IsString mem str n 0 s h).0, strrchr, empty)
        (none, refl, λ k a. absurd (ground arith))
  | inr some_chars ↦
      rw ((strlen-IsString mem str n 0 s h).0, strrchr, some_chars)
        (
          strrchr_from (n - 1) mem str ch,
          refl,
          subst (λ (m : ℕ). LastMatch mem str ch m (strrchr_from (n - 1) mem str ch))
              {x = n - 1 + 1} {y = n} (ground arith) (strrchr_from-LastMatch mem str ch (n - 1)),
        )
]

strcmp_from-Compared :
    (fuel : ℕ) (mem : Memory) (lhs rhs m n i : ℕ)
    → IsBytes mem
    → IsString mem lhs m
    → IsString mem rhs n
    → i ≤ m
    → i ≤ n
    → min m n < fuel + i
    → (r : ℕ) × (strcmp_from fuel mem lhs rhs i ≡ some r) × Compared mem lhs rhs i (min m n + 1) r
unfolding strcmp_from
strcmp_from-Compared zero mem lhs rhs m n i bytes s t h k f = absurd (omega arith)
strcmp_from-Compared (suc fuel) mem lhs rhs m n i bytes s t h k f =
    let zero_iff =
      diff-eq-zero (mem (lhs + i)) (mem (rhs + i)) (bytes (lhs + i)) (bytes (rhs + i)) in
    elim (Bool-cases (mem (lhs + i) == 0 && mem (rhs + i) == 0)) [
      | inl both ↦ rw both (
        0,
        refl,
        inl (
          refl,
          λ j a b. let e : j ≡ i = ground (arith, s.chars i, t.chars i) in rw e (ground arith),
        ),
      )
      | inr going ↦ rw going (elim (Bool-cases (diff (mem (lhs + i)) (mem (rhs + i)) == 0)) [
        | inr other ↦ rw other (
          diff (mem (lhs + i)) (mem (rhs + i)),
          refl,
          inr (
            i,
            omega arith,
            omega arith,
            (λ e. ground arith),
            refl,
            λ j p q. absurd (omega arith),
          ),
        )
        | inl same ↦
            (let eq : mem (lhs + i) ≡ mem (rhs + i) = zero_iff.0 (ground arith) in
              let left : i < m = inside-string mem lhs m i s h (λ z. ground arith) in
              let right : i < n = inside-string mem rhs n i t k (λ z. ground arith) in
              let (r, e, c) =
                strcmp_from-Compared fuel mem lhs rhs m n (i + 1) bytes s t (omega arith)
                  (omega arith) (omega arith) in
              rw same (r, e, Compared-later mem lhs rhs i (min m n + 1) r eq c))
      ])
    ]

-- `strcmp` of two strings of bytes, the first shorter than 2^32, ends. Its answer is the
-- difference of the first two characters that differ, as signed characters, and 0 if they are
-- equal up to the end of the shorter one.
strcmp-Compared :
    (mem : Memory) (lhs rhs m n : ℕ)
    → IsBytes mem
    → IsString mem lhs m
    → IsString mem rhs n
    → m < 2 ^ 32
    → (r : ℕ) × (strcmp mem lhs rhs ≡ some r) × Compared mem lhs rhs 0 (min m n + 1) r
strcmp-Compared mem lhs rhs m n bytes s t h =
    strcmp_from-Compared space mem lhs rhs m n 0 bytes s t (omega arith) (omega arith) (omega arith)
