-- ===== src/Drivers/Pic/Mask.antt =====
-- Which lines are masked, and how the lines are numbered.
use neo_sys_x.Common.{
  ℕ, ◌+◌, ◌-◌, ◌/◌, ◌%◌, ◌^◌, ◌≤◌, ◌<◌, ◌≡◌, refl, inl, inr, true, false, Option, some, arith, ltb,
  ◌==◌, if◌then◌else◌, Bool-cases, min, max, bit_and, bit_or, not8, ◌∙◌, ap,
}
use neo_sys_x.Common.Bits.{
  bit, bit-le, bit-zero, bit-bit_or, bit-bit_and, bit_pow_self, bit_pow_ne, bit_not, bit_ones,
  bit_mod, bit_shr, bit_or-lt,
}
use neo_sys_x.Drivers.Pic.{Pic, mask_irq, unmask_irq, remap, install_handlers, vector_of}

-- 1 for a line that is masked.
abbrev pub masked : Pic → ℕ → ℕ
masked pic irq = if ltb irq 8 then bit pic.data1 irq else bit pic.data2 (irq - 8)

low-zero : (m k : ℕ) → k < 8 → (m % 2 ^ 8 == 0) ≡ true → bit m k ≡ 0
low-zero m k h e =
    let z : m % 2 ^ 8 ≡ 0 = ground arith in
    omega (arith, bit_mod 8 m k h, ap (λ (t : ℕ). bit t k) z, bit-zero k)

high-at : (m k : ℕ) → 8 ≤ k → k < 16 → bit (m / 2 ^ 8 % 2 ^ 8) (k - 8) ≡ bit m k
high-at m k h l =
    bit_mod 8 (m / 2 ^ 8) (k - 8) (omega arith)
    ∙ bit_shr 8 m (k - 8)
    ∙ ap (bit m) {x = k - 8 + 8} {y = k} (omega arith)

high-zero : (m k : ℕ) → 8 ≤ k → k < 16 → (m / 2 ^ 8 % 2 ^ 8 == 0) ≡ true → bit m k ≡ 0
high-zero m k h l e =
    let z : m / 2 ^ 8 % 2 ^ 8 ≡ 0 = ground arith in
    omega (arith, high-at m k h l, ap (λ (t : ℕ). bit t (k - 8)) z, bit-zero (k - 8))

not8-bit : (x k : ℕ) → x < 2 ^ 8 → k < 8 → bit (not8 x) k ≡ 1 - bit x k
not8-bit x k h l = bit_not 8 x k h l

cascade-bit : (x k : ℕ) → k < 8 → bit (bit_and x (not8 (2 ^ 2))) k ≡ (if k == 2 then 0 else bit x k)
cascade-bit x k h =
    let at = bit-bit_and x (not8 (2 ^ 2)) k in
    let flip = not8-bit (2 ^ 2) k (omega arith) h in
    elim (Bool-cases (k == 2)) [
      | inl e ↦
          (let z : k ≡ 2 = ground arith in
            rw e (omega (arith, at, flip, ap (bit (2 ^ 2)) z, bit_pow_self 2, bit-le x k)))
      | inr e ↦ rw e (omega (arith, at, flip, bit_pow_ne 2 k (ground arith), bit-le x k))
    ]

-- On controllers whose cascade line is unmasked, `pic_mask_irq` masks exactly the lines of its
-- argument in addition to those that were, except for the cascade, which stays unmasked.
masked-mask_irq :
    (pic : Pic) (mask irq : ℕ)
    → bit pic.data1 2 ≡ 0
    → irq < 16
    → masked (mask_irq pic mask) irq ≡ (if irq == 2 then 0 else max (masked pic irq) (bit mask irq))
unfolding mask_irq
masked-mask_irq pic mask irq cascade h = elim (Bool-cases (ltb irq 8)) [
  | inl low ↦ rw low (elim (Bool-cases (mask % 2 ^ 8 == 0)) [
    | inl none_low ↦ rw none_low (elim (Bool-cases (irq == 2)) [
      | inl two ↦ (let e : irq ≡ 2 = ground arith in rw two (ap (bit pic.data1) e ∙ cascade))
      | inr other ↦ rw other (omega (arith, low-zero mask irq (ground arith) none_low))
    ])
    | inr some_low ↦ rw some_low (
        cascade-bit (bit_or pic.data1 (mask % 2 ^ 8)) irq (ground arith)
        ∙ rw (bit-bit_or pic.data1 (mask % 2 ^ 8) irq, bit_mod 8 mask irq (ground arith)) refl)
  ])
  | inr high ↦
      (let other : (irq == 2) ≡ false = ground arith in
        rw (high, other)
          (elim (Bool-cases (mask / 2 ^ 8 % 2 ^ 8 == 0)) [
            | inl none_high ↦
                rw none_high (omega (arith, high-zero mask irq (ground arith) h none_high))
            | inr some_high ↦ rw some_high (
                rw
                  (
                    bit-bit_or pic.data2 (mask / 2 ^ 8 % 2 ^ 8) (irq - 8),
                    high-at mask irq (ground arith) h,
                  )
                  refl)
          ]))
]

-- On controllers whose cascade line is unmasked, `pic_unmask_irq` unmasks exactly the lines of its
-- argument, and keeps the others as they were.
pub masked-unmask_irq :
    (pic : Pic) (mask irq : ℕ)
    → bit pic.data1 2 ≡ 0
    → irq < 16
    → masked (unmask_irq pic mask) irq ≡ min (masked pic irq) (1 - bit mask irq)
unfolding unmask_irq
masked-unmask_irq pic mask irq cascade h = elim (Bool-cases (ltb irq 8)) [
  | inl low ↦ rw low (elim (Bool-cases (mask % 2 ^ 8 == 0)) [
    | inl none_low ↦
        rw none_low (omega (arith, low-zero mask irq (ground arith) none_low, bit-le pic.data1 irq))
    | inr some_low ↦
        (let lines = bit_or (2 ^ 2) (mask % 2 ^ 8) in
          let at = bit-bit_and pic.data1 (not8 lines) irq in
          let flip =
            not8-bit lines irq (bit_or-lt 8 (2 ^ 2) (mask % 2 ^ 8) (omega arith) (omega arith))
              (ground arith) in
          let either : bit lines irq ≡ max (bit (2 ^ 2) irq) (bit mask irq) =
            bit-bit_or (2 ^ 2) (mask % 2 ^ 8) irq ∙ rw (bit_mod 8 mask irq (ground arith)) refl in
          rw some_low (elim (Bool-cases (irq == 2)) [
            | inl two ↦
                (let e : irq ≡ 2 = ground arith in omega (arith, at, ap (bit pic.data1) e, cascade))
            | inr other ↦ omega (arith, at, flip, either, bit_pow_ne 2 irq (ground arith))
          ]))
  ])
  | inr high ↦ rw high (elim (Bool-cases (mask / 2 ^ 8 % 2 ^ 8 == 0)) [
    | inl none_high ↦
        rw none_high
          (omega (arith, high-zero mask irq (ground arith) h none_high, bit-le pic.data2 (irq - 8)))
    | inr some_high ↦
        (let lines = mask / 2 ^ 8 % 2 ^ 8 in
          let at = bit-bit_and pic.data2 (not8 lines) (irq - 8) in
          let flip = not8-bit lines (irq - 8) (omega arith) (omega arith) in
          rw some_high (omega (arith, at, flip, high-at mask irq (ground arith) h)))
  ])
]

-- `pic_remap` leaves every line masked but the cascade.
pub masked-remap :
    (pic : Pic) (pic1_offset pic2_offset irq : ℕ)
    → irq < 16
    → masked (remap pic pic1_offset pic2_offset) irq ≡ (if irq == 2 then 0 else 1)
unfolding remap
masked-remap pic pic1_offset pic2_offset irq h = elim (Bool-cases (ltb irq 8)) [
  | inl low ↦ rw low (elim (Bool-cases (irq == 2)) [
    | inl two ↦
        (let e : irq ≡ 2 = ground arith in
          rw two (
            omega (
              arith,
              not8-bit (2 ^ 2) irq (omega arith) (ground arith),
              ap (bit (2 ^ 2)) e,
              bit_pow_self 2,
            )))
    | inr other ↦ rw other (
        omega (
          arith,
          not8-bit (2 ^ 2) irq (omega arith) (ground arith),
          bit_pow_ne 2 irq (ground arith),
        ))
  ])
  | inr high ↦
      (let other : (irq == 2) ≡ false = ground arith in
        rw (high, other) (bit_ones 8 (irq - 8) (omega arith)))
]

-- With the default offsets, the vector that `PIC_VECTOR` names is handled for its own line.
pub install_handlers-vector_of :
    (idt_handlers : ℕ → Option ℕ) (irq : ℕ)
    → irq < 16
    → install_handlers 0x20 0x28 idt_handlers (vector_of irq) ≡ some irq
unfolding install_handlers
install_handlers-vector_of idt_handlers irq h = elim (Bool-cases (ltb 7 irq)) [
  | inl high ↦ rw high (ground arith)
  | inr low ↦ rw low (ground arith)
]
