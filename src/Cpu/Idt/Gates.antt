-- ===== src/Cpu/Idt/Gates.antt =====
-- What the processor reads in the table of kernel/cpu/i386/src/idt_struct.c, whatever rings
-- `idt_set_dpl` opens.
use neo_sys_x.Common.{
  ℕ, zero, suc, ◌+◌, ◌*◌, ◌/◌, ◌%◌, ◌^◌, ◌≤◌, ◌<◌, ◌≡◌, refl, true, false, Bool-cases, ◌&&◌, inl,
  inr, List, [], ◌∷◌, ltb, leb, ◌==◌, if◌then◌else◌, update_self, update_ne, arith, ◌∙◌,
}
use neo_sys_x.Cpu.Idt.{
  Gate, idt_entry, intr32_entry, fill_gates, idt_table_init, idt_set_dpl, packed,
}

-- A present gate for a 32-bit interrupt, in the kernel's code segment, that leads to `address` and
-- is open to programs in the rings up to `dpl`.
pub record Opens (d address dpl : ℕ) : Type 0 where
  pub offset_is : d % 2 ^ 16 + d / 2 ^ 48 % 2 ^ 16 * 2 ^ 16 ≡ address
  pub segment_is : d / 2 ^ 16 % 2 ^ 16 ≡ 0x8
  pub type_is : d / 2 ^ 40 % 2 ^ 8 ≡ 0x8e + dpl * 32
  pub rest_is : d / 2 ^ 32 % 2 ^ 8 ≡ 0

-- Calls of `idt_set_dpl`, each with its vector and its ring, and the ring that they leave.
unfoldable pub set_dpls : (ℕ → Gate) → List (ℕ × ℕ) → ℕ → Gate
set_dpls table [] = table
set_dpls table ((v, dpl) ∷ calls) = set_dpls (idt_set_dpl table v dpl) calls

unfoldable pub ring_after : ℕ → ℕ → List (ℕ × ℕ) → ℕ
ring_after vector ring [] = ring
ring_after vector ring ((v, dpl) ∷ calls) =
    ring_after vector (if v == vector && leb dpl 3 then dpl else ring) calls

-- The gate that a vector has while its ring is `ring`.
abbrev gate_of : ℕ → ℕ → Gate
gate_of address ring = record (intr32_entry 0x8 address 0) { dpl = ring }

fill_gates-at :
    (count : ℕ) (handler : ℕ → ℕ) (table : ℕ → Gate) (k : ℕ)
    → k < count
    → fill_gates count handler table k ≡ intr32_entry 0x8 (handler k) 0
unfolding fill_gates
fill_gates-at zero handler table k h = absurd (omega arith)
fill_gates-at (suc n) handler table k h = elim (Bool-cases (k == n)) [
  | inl e ↦
      let same : k ≡ n = ground arith in
      rw same (update_self (fill_gates n handler table) n (intr32_entry 0x8 (handler n) 0))
  | inr e ↦
      update_ne (fill_gates n handler table) n _ k (ground arith)
      ∙ fill_gates-at n handler table k (ground arith)
]

idt_set_dpl-at :
    (table : ℕ → Gate) (v dpl k address ring : ℕ)
    → table k ≡ gate_of address ring
    → idt_set_dpl table v dpl k ≡ gate_of address (if v == k && leb dpl 3 then dpl else ring)
unfolding idt_set_dpl
idt_set_dpl-at table v dpl k address ring e = elim (Bool-cases (leb dpl 3)) [
  | inl low ↦
      let a : ltb 3 dpl ≡ false = ground arith in
      let b : dpl % 4 ≡ dpl = ground arith in
      elim (Bool-cases (v == k)) [
        | inl f ↦
            let same : v ≡ k = ground arith in
            let g : (k == k) ≡ true = ground arith in rw (a, b, low, same, g, e) refl
        | inr f ↦ let g : (k == v) ≡ false = ground arith in rw (a, f, g) e
      ]
  | inr high ↦
      let a : ltb 3 dpl ≡ true = ground arith in
      let b : (v == k && leb dpl 3) ≡ false = ground arith in rw (a, b) e
]

set_dpls-at :
    (table : ℕ → Gate) (calls : List (ℕ × ℕ)) (k address ring : ℕ)
    → table k ≡ gate_of address ring
    → set_dpls table calls k ≡ gate_of address (ring_after k ring calls)
unfolding set_dpls ring_after
set_dpls-at table [] k address ring e = e
set_dpls-at table ((v, dpl) ∷ calls) k address ring e =
    set_dpls-at (idt_set_dpl table v dpl) calls k address _
      (idt_set_dpl-at table v dpl k address ring e)

ring_after-le : (k : ℕ) (calls : List (ℕ × ℕ)) (ring : ℕ) → ring ≤ 3 → ring_after k ring calls ≤ 3
unfolding ring_after
ring_after-le k [] ring h = h
ring_after-le k ((v, dpl) ∷ calls) ring h =
    ring_after-le k calls (if v == k && leb dpl 3 then dpl else ring) (ground arith)

gate_of-Opens :
    (address ring : ℕ)
    → address < 2 ^ 32
    → ring ≤ 3
    → Opens (packed (gate_of address ring)) address ring
unfolding packed intr32_entry idt_entry
gate_of-Opens address ring a r = omega arith

-- After `idt_table_init` and any calls of `idt_set_dpl`, the gate of every vector leads to the entry
-- point of this vector, in the kernel's code segment, as an interrupt of 32 bits, and is open to the
-- ring of the last call for this vector that named a ring: to the kernel alone where there was none.
pub idt_table_init-Opens :
    (handler : ℕ → ℕ) (table : ℕ → Gate) (calls : List (ℕ × ℕ)) (vector : ℕ)
    → vector < 256
    → handler vector < 2 ^ 32
    → Opens
        (packed (set_dpls (idt_table_init handler table) calls vector))
        (handler vector)
        (ring_after vector 0 calls)
unfolding idt_table_init intr32_entry
idt_table_init-Opens handler table calls vector v h =
    let first = fill_gates-at 256 handler table vector v in
    let last = set_dpls-at (fill_gates 256 handler table) calls vector (handler vector) 0 first in
    rw last (
      gate_of-Opens (handler vector) (ring_after vector 0 calls) h
        (ring_after-le vector calls 0 (omega arith)))
