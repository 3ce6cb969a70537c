-- ===== src/Libc/Memory/Compare.antt =====
-- `memchr`, `memcmp`, `strcmp` and `strncmp`: what they answer about the bytes.
use neo_sys_x.Common.{
  ℕ, zero, suc, ◌+◌, ◌≤◌, ◌<◌, ◌≡◌, refl, ◌≢◌, ◌↔◌, ◌⊎◌, inl, inr, Option, none, some, ◌==◌, arith,
  Bool-cases, subst,
}
use neo_sys_x.Libc.Memory.{Memory, IsBytes, memchr, memchr_from, memcmp, memcmp_from, diff, as_int}

-- `NULL` for no match, else the first.
abbrev pub FirstMatch : Memory → ℕ → ℕ → ℕ → ℕ → Option ℕ → Type 0
FirstMatch mem ptr ch from to none = (k : ℕ) → from ≤ k → k < to → as_int (mem (ptr + k)) ≢ ch
FirstMatch mem ptr ch from to (some a) =
    (i : ℕ) × (a ≡ ptr + i)
    × (from ≤ i)
    × (i < to)
    × (as_int (mem (ptr + i)) ≡ ch)
    × ((k : ℕ) → from ≤ k → k < i → as_int (mem (ptr + k)) ≢ ch)

pub FirstMatch-later :
    (mem : Memory) (ptr ch from to : ℕ) (r : Option ℕ)
    → as_int (mem (ptr + from)) ≢ ch
    → FirstMatch mem ptr ch (from + 1) to r
    → FirstMatch mem ptr ch from to r
FirstMatch-later mem ptr ch from to none d f = λ k a b. elim (Bool-cases (k == from)) [
  | inl e ↦ (let s : k ≡ from = ground arith in rw s d)
  | inr e ↦ f k (ground arith) b
]
FirstMatch-later mem ptr ch from to (some x) d (i, e, a, b, m, before) = (
  i,
  e,
  omega arith,
  b,
  m,
  λ k p q. elim (Bool-cases (k == from)) [
    | inl e ↦ (let s : k ≡ from = ground arith in rw s d)
    | inr e ↦ before k (ground arith) q
  ],
)

memchr_from-FirstMatch :
    (left : ℕ) (mem : Memory) (ptr ch i : ℕ)
    → FirstMatch mem ptr ch i (i + left) (memchr_from left mem ptr ch i)
unfolding memchr_from
memchr_from-FirstMatch zero mem ptr ch i = λ k a b. absurd (omega arith)
memchr_from-FirstMatch (suc left) mem ptr ch i = elim (Bool-cases (as_int (mem (ptr + i)) == ch)) [
  | inl hit ↦
      rw hit (i, refl, omega arith, omega arith, ground arith, λ k p q. absurd (omega arith))
  | inr miss ↦ rw miss (
      FirstMatch-later mem ptr ch i (i + suc left) (memchr_from left mem ptr ch (i + 1))
        (ground arith) (rw (sum left i) (memchr_from-FirstMatch left mem ptr ch (i + 1))))
]
  where
    sum : (left i : ℕ) → i + suc left ≡ i + 1 + left
    sum left i = omega arith

-- `memchr` returns the first of the `count` characters that equals `ch` as an `int`, and `NULL` if
-- there is none.
pub memchr-FirstMatch :
    (mem : Memory) (ptr ch count : ℕ) → FirstMatch mem ptr ch 0 count (memchr mem ptr ch count)
memchr-FirstMatch mem ptr ch count =
    subst (λ (to : ℕ). FirstMatch mem ptr ch 0 to (memchr mem ptr ch count)) {x = 0 + count}
      {y = count} (omega arith) (memchr_from-FirstMatch count mem ptr ch 0)

pub diff-eq-zero : (a b : ℕ) → a < 256 → b < 256 → diff a b ≡ 0 ↔ a ≡ b
diff-eq-zero a b h k = (λ e. ground arith, λ e. ground arith)

-- The first difference decides; equal objects compare as 0.
abbrev pub Compared : Memory → ℕ → ℕ → ℕ → ℕ → ℕ → Type 0
Compared mem lhs rhs from to r =
    (r ≡ 0) × ((k : ℕ) → from ≤ k → k < to → mem (lhs + k) ≡ mem (rhs + k))
    ⊎ (k : ℕ) × (from ≤ k)
      × (k < to)
      × (mem (lhs + k) ≢ mem (rhs + k))
      × (r ≡ diff (mem (lhs + k)) (mem (rhs + k)))
      × ((j : ℕ) → from ≤ j → j < k → mem (lhs + j) ≡ mem (rhs + j))

pub Compared-later :
    (mem : Memory) (lhs rhs from to r : ℕ)
    → mem (lhs + from) ≡ mem (rhs + from)
    → Compared mem lhs rhs (from + 1) to r
    → Compared mem lhs rhs from to r
Compared-later mem lhs rhs from to r same (inl (z, all)) = inl (
  z,
  λ k p q. elim (Bool-cases (k == from)) [
    | inl e ↦ (let s : k ≡ from = ground arith in rw s same)
    | inr e ↦ all k (ground arith) q
  ],
)
Compared-later mem lhs rhs from to r same (inr (k, a, b, d, e, before)) = inr (
  k,
  omega arith,
  b,
  d,
  e,
  λ j p q. elim (Bool-cases (j == from)) [
    | inl e ↦ (let s : j ≡ from = ground arith in rw s same)
    | inr e ↦ before j (ground arith) q
  ],
)

memcmp_from-Compared :
    (mem : Memory) (lhs rhs : ℕ)
    → IsBytes mem
    → (left i : ℕ) → Compared mem lhs rhs i (i + left) (memcmp_from left mem lhs rhs i)
unfolding memcmp_from
memcmp_from-Compared mem lhs rhs bytes zero i = inl (refl, λ k a b. absurd (omega arith))
memcmp_from-Compared mem lhs rhs bytes (suc left) i =
    let zero_iff =
      diff-eq-zero (mem (lhs + i)) (mem (rhs + i)) (bytes (lhs + i)) (bytes (rhs + i)) in
    elim (Bool-cases (diff (mem (lhs + i)) (mem (rhs + i)) == 0)) [
      | inl same ↦
          (let sum : i + suc left ≡ i + 1 + left = omega arith in
            rw same (
              Compared-later mem lhs rhs i (i + suc left) (memcmp_from left mem lhs rhs (i + 1))
                (zero_iff.0 (ground arith))
                (rw sum (memcmp_from-Compared mem lhs rhs bytes left (i + 1)))))
      | inr other ↦ rw other (
          inr
            (i, omega arith, omega arith, (λ e. ground arith), refl, λ j p q. absurd (omega arith)))
    ]

-- In a memory of bytes, `memcmp` is 0 exactly for equal objects. Otherwise it is the difference of
-- the first two bytes that differ, as signed characters.
pub memcmp-Compared :
    (mem : Memory) (lhs rhs count : ℕ)
    → IsBytes mem
    → Compared mem lhs rhs 0 count (memcmp mem lhs rhs count)
      × (memcmp mem lhs rhs count ≡ 0 ↔ ((k : ℕ) → k < count → mem (lhs + k) ≡ mem (rhs + k)))
memcmp-Compared mem lhs rhs count bytes = (c, (λ z. equal z c, λ all. same all c))
  where
    c : Compared mem lhs rhs 0 count (memcmp mem lhs rhs count)
    c =
        subst (λ (to : ℕ). Compared mem lhs rhs 0 to (memcmp mem lhs rhs count)) {x = 0 + count}
          {y = count} (omega arith) (memcmp_from-Compared mem lhs rhs bytes count 0)

    equal :
        memcmp mem lhs rhs count ≡ 0
        → Compared mem lhs rhs 0 count (memcmp mem lhs rhs count)
        → (k : ℕ) → k < count
        → mem (lhs + k) ≡ mem (rhs + k)
    equal z (inl (e, all)) k h = all k (omega arith) h
    equal z (inr (i, a, b, d, e, before)) k h = absurd (
        d (
          (diff-eq-zero (mem (lhs + i)) (mem (rhs + i)) (bytes (lhs + i)) (bytes (rhs + i))).0
            (omega arith)))

    same :
        ((k : ℕ) → k < count → mem (lhs + k) ≡ mem (rhs + k))
        → Compared mem lhs rhs 0 count (memcmp mem lhs rhs count)
        → memcmp mem lhs rhs count ≡ 0
    same all (inl (e, f)) = e
    same all (inr (i, a, b, d, e, before)) = absurd (d (all i b))
