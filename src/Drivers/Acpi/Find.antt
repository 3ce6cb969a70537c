-- ===== src/Drivers/Acpi/Find.antt =====
-- What `acpi_find_rsdp` finds, and what `acpi_verify_rsdp` has checked of it.
use neo_sys_x.Common.{
  ℕ, zero, suc, ◌+◌, ◌-◌, ◌%◌, ◌^◌, ◌*◌, ◌≤◌, ◌<◌, ◌≡◌, refl, ◌⊎◌, inl, inr, ap, subst, sym, ◌∙◌,
  true, false, Bool-cases, ltb, leb, ◌==◌, if◌then◌else◌, size_max, arith,
}
use neo_sys_x.Libc.Memory.{Memory, memcmp}
use neo_sys_x.Drivers.Acpi.{sum_bytes, acpi_verify_rsdp, find_from, acpi_find_rsdp}

-- The sum of bytes, without the wrap-around.
abbrev pub total : ℕ → Memory → ℕ → ℕ → ℕ
total zero mem rsdp i = 0
total (suc count) mem rsdp i = mem (rsdp + i) + total count mem rsdp (i + 1)

sum_bytes-total :
    (count : ℕ) (mem : Memory) (rsdp i sum : ℕ)
    → sum < 2 ^ 8
    → sum_bytes count mem rsdp i sum ≡ (sum + total count mem rsdp i) % 2 ^ 8
unfolding sum_bytes
sum_bytes-total zero mem rsdp i sum h = omega arith
sum_bytes-total (suc count) mem rsdp i sum h =
    sum_bytes-total count mem rsdp (i + 1) ((sum + mem (rsdp + i)) % 2 ^ 8) (omega arith)
    ∙ omega arith

module _ (mem : Memory) (literal : ℕ) where
  -- The signature is there and the checksum of the first 20 bytes is right.
  abbrev pub Checked : ℕ → Type 0
  Checked rsdp = (memcmp mem rsdp literal 8 ≡ 0) × (total 20 mem rsdp 0 % 2 ^ 8 ≡ 0)

  pub acpi_verify_rsdp-Checked :
      (rsdp : ℕ) → acpi_verify_rsdp mem literal rsdp ≡ true → Checked rsdp
  unfolding acpi_verify_rsdp
  acpi_verify_rsdp-Checked rsdp e =
      let sum : sum_bytes 20 mem rsdp 0 0 ≡ total 20 mem rsdp 0 % 2 ^ 8 =
        sum_bytes-total 20 mem rsdp 0 0 (omega arith)
        ∙ ap (λ (k : ℕ). k % 2 ^ 8) {x = 0 + total 20 mem rsdp 0} {y = total 20 mem rsdp 0}
            (omega arith) in
      elim (Bool-cases (memcmp mem rsdp literal 8 == 0)) [
        | inr f ↦
            (let z : acpi_verify_rsdp mem literal rsdp ≡ false = rw f refl in absurd (ground arith))
        | inl f ↦ elim (Bool-cases (sum_bytes 20 mem rsdp 0 0 == 0)) [
          | inr g ↦
              (let z : acpi_verify_rsdp mem literal rsdp ≡ false = rw (f, g) refl in
                absurd (ground arith))
          | inl g ↦ (ground arith, sym sum ∙ ground arith)
        ]
      ]

  unsigned :
      (rsdp : ℕ)
      → (memcmp mem rsdp literal 8 == 0) ≡ false
      → acpi_verify_rsdp mem literal rsdp ≡ false
  unfolding acpi_verify_rsdp
  unsigned rsdp e = rw e refl

  -- The first pointer of the region that is valid, or none.
  abbrev pub FirstValid : ℕ → ℕ → ℕ → ℕ → Type 0
  FirstValid align left vaddr r =
      ((r ≡ size_max)
        × ((k : ℕ) → k * align < left → acpi_verify_rsdp mem literal (vaddr + k * align) ≡ false))
      ⊎ ((k : ℕ) × (r ≡ vaddr + k * align)
          × (k * align < left)
          × (acpi_verify_rsdp mem literal r ≡ true)
          × ((j : ℕ) → j < k → acpi_verify_rsdp mem literal (vaddr + j * align) ≡ false))

  module _ (align : ℕ) (some_align : 1 ≤ align) where
    along : (k vaddr : ℕ) → vaddr + align + k * align ≡ vaddr + suc k * align
    along k vaddr = omega arith

    earlier :
        (k vaddr : ℕ)
        → acpi_verify_rsdp mem literal vaddr ≡ false
        → ((j : ℕ) → j < k → acpi_verify_rsdp mem literal (vaddr + align + j * align) ≡ false)
        → (j : ℕ) → j < suc k
        → acpi_verify_rsdp mem literal (vaddr + j * align) ≡ false
    earlier k vaddr here before zero h =
        let e : vaddr + 0 * align ≡ vaddr = omega arith in rw e here
    earlier k vaddr here before (suc j) h = rw (sym (along j vaddr)) (before j (omega arith))

    nowhere :
        (left vaddr : ℕ)
        → acpi_verify_rsdp mem literal vaddr ≡ false
        → ((j : ℕ)
            → j * align < left - align
            → acpi_verify_rsdp mem literal (vaddr + align + j * align) ≡ false)
        → (j : ℕ) → j * align < left
        → acpi_verify_rsdp mem literal (vaddr + j * align) ≡ false
    nowhere left vaddr here before zero h =
        let e : vaddr + 0 * align ≡ vaddr = omega arith in rw e here
    nowhere left vaddr here before (suc j) h = rw (sym (along j vaddr)) (before j (omega arith))

    shift-FirstValid :
        (left vaddr r : ℕ)
        → 1 ≤ left
        → acpi_verify_rsdp mem literal vaddr ≡ false
        → FirstValid align (left - align) (vaddr + align) r
        → FirstValid align left vaddr r
    shift-FirstValid left vaddr r some_left here (inl (none, all)) =
        inl (none, nowhere left vaddr here all)
    shift-FirstValid left vaddr r some_left here (inr (k, at, inside, ok, before)) =
        inr (suc k, at ∙ along k vaddr, omega arith, ok, earlier k vaddr here before)

    find_from-FirstValid :
        (fuel len offset vaddr : ℕ)
        → len - offset ≤ fuel
        → offset ≤ vaddr
        → (len ≤ offset) ⊎ (vaddr + (len - offset) + align < 2 ^ 32)
        → FirstValid align (len - offset) vaddr (find_from fuel mem literal align len offset vaddr)
    unfolding find_from
    find_from-FirstValid zero len offset vaddr enough below fits =
        inl (refl, λ k h. absurd (omega arith))
    find_from-FirstValid (suc fuel) len offset vaddr enough below fits =
        let left = len - offset in
        elim (Bool-cases (leb len offset)) [
          | inl e ↦ rw e (inl (refl, λ k h. absurd (ground arith)))
          | inr e ↦
              let next : (vaddr + align) % 2 ^ 32 ≡ vaddr + align = ground arith in
              let onward : (offset + align) % 2 ^ 32 ≡ offset + align = ground arith in
              let rest = find_from fuel mem literal align len (offset + align) (vaddr + align) in
              let shorter : len - (offset + align) ≡ left - align = omega arith in
              let more =
                find_from-FirstValid fuel len (offset + align) (vaddr + align) (ground arith)
                  (omega arith) (ground arith) in
              let less : FirstValid align (left - align) (vaddr + align) rest =
                subst (λ l. FirstValid align l (vaddr + align) rest) shorter more in
              elim (Bool-cases (acpi_verify_rsdp mem literal vaddr)) [
                | inl f ↦
                    let g = acpi_verify_rsdp-Checked vaddr f in
                    let h : (memcmp mem vaddr literal 8 == 0) ≡ true = ground (arith, g.0) in
                    rw (e, h, f)
                      (inr (0, omega arith, ground arith, f, λ j b. absurd (omega arith)))
                | inr f ↦ elim (Bool-cases (memcmp mem vaddr literal 8 == 0)) [
                  | inl h ↦
                      rw (e, h, f, next, onward)
                        (shift-FirstValid left vaddr rest (ground arith) f less)
                  | inr h ↦
                      rw (e, h, next, onward)
                        (shift-FirstValid left vaddr rest (ground arith) f less)
                ]
              ]
        ]

    found-Checked : (left vaddr r : ℕ) → FirstValid align left vaddr r → (r ≡ size_max) ⊎ Checked r
    found-Checked left vaddr r (inl (none, all)) = inl none
    found-Checked left vaddr r (inr (k, at, inside, ok, before)) =
        inr (acpi_verify_rsdp-Checked r ok)

    -- Where the region starts at a multiple of `align` and does not wrap around, `acpi_find_rsdp`
    -- answers the first multiple in it at which `acpi_verify_rsdp` holds, or `UINTPTR_MAX` where
    -- there is none; and what it answers has the signature and the checksum of a root pointer.
    pub acpi_find_rsdp-FirstValid :
        (from_vaddr len : ℕ)
        → from_vaddr % align ≡ 0
        → from_vaddr + len + align < 2 ^ 32
        → FirstValid align len from_vaddr (acpi_find_rsdp mem literal from_vaddr len align)
          × ((acpi_find_rsdp mem literal from_vaddr len align ≡ size_max)
              ⊎ Checked (acpi_find_rsdp mem literal from_vaddr len align))
    unfolding acpi_find_rsdp
    acpi_find_rsdp-FirstValid from_vaddr len aligned fits =
        let step : (if ltb align 1 then 1 else align) ≡ align = ground arith in
        let e : (from_vaddr % align == 0) ≡ true = ground arith in
        let r = find_from len mem literal align len 0 from_vaddr in
        let whole : len - 0 ≡ len = omega arith in
        let found : FirstValid align len from_vaddr r =
          subst (λ l. FirstValid align l from_vaddr r) whole
            (find_from-FirstValid len len 0 from_vaddr (omega arith) (omega arith)
              (inr (omega arith))) in
        rw (step, e) (found, found-Checked len from_vaddr r found)
