-- ===== src/Mm/Pmm/Mask.antt =====
-- The masks of `pmm_reserve`: which bits they hold, one more than the run that they stand for.
use neo_sys_x.Common.{
  ℕ, ◌+◌, ◌-◌, ◌*◌, ◌/◌, ◌%◌, ◌^◌, ◌≤◌, ◌<◌, ◌≡◌, refl, ap, ◌≢◌, ◌⊎◌, inl, inr, ◌&&◌, ltb, leb,
  ◌==◌, if◌then◌else◌, arith, Bool-cases, u32, max,
}
use neo_sys_x.Common.Bits.{bit, bit_ones, bit_of_lt, bit_shl, bit_shl_low, bit_mod, bit-bit_or}
use neo_sys_x.Common.Bitmap.{Bitmap, mark, pow-lt, pow_pos}
use neo_sys_x.Mm.Pmm.{run_mask, or_word, fill_words}

-- Either the shift by 32 gives 0, or no run of 31 bits asks for it.
abbrev pub ShiftOk : ℕ → ℕ → Type 0
ShiftOk wide count = (wide ≡ 0) ⊎ (count ≢ 31)

run_mask-ones :
    (wide count : ℕ) → count ≤ 31 → ShiftOk wide count → run_mask wide count ≡ 2 ^ (count + 1) - 1
run_mask-ones wide count h ok = elim (Bool-cases (ltb (count + 1) 32)) [
  | inl small ↦ rw small (ground (arith, pow-lt (count + 1) (ground arith), pow_pos (count + 1)))
  | inr wide_shift ↦
      (let e : count ≡ 31 = ground arith in let z : wide ≡ 0 = ground arith in rw (e, z) refl)
]

pub bit-run_mask :
    (wide count i : ℕ)
    → count ≤ 31
    → ShiftOk wide count
    → bit (run_mask wide count) i ≡ (if leb i count then 1 else 0)
bit-run_mask wide count i h ok = rw (run_mask-ones wide count h ok) (
    ground (
      arith,
      bit_ones (count + 1) i,
      bit_of_lt (count + 1) (2 ^ (count + 1) - 1) i (omega (arith, pow_pos (count + 1))),
    ))

pub bit_first_mask :
    (wide count s i : ℕ)
    → count ≤ 31
    → ShiftOk wide count
    → i < 32
    → bit (u32 (run_mask wide count * 2 ^ s)) i ≡ (if leb s i && leb i (s + count) then 1 else 0)
bit_first_mask wide count s i h ok hi =
    rw (bit_mod 32 (run_mask wide count * 2 ^ s) i hi) (elim (Bool-cases (leb s i)) [
      | inl above ↦
          (let e : i ≡ s + (i - s) = ground arith in
            let b = bit_shl s (run_mask wide count) (i - s) in
            let c = bit-run_mask wide count (i - s) h ok in
            ground (arith, b, c, ap (bit (run_mask wide count * 2 ^ s)) e))
      | inr below ↦ rw below (bit_shl_low s (run_mask wide count) i (ground arith))
    ])

pub mark-or_word :
    (words : Bitmap) (k mask j : ℕ)
    → mark (or_word words k mask) j
      ≡ (if j / 32 == k then max (mark words j) (bit mask (j % 32)) else mark words j)
unfolding or_word
mark-or_word words k mask j = ground (arith, bit-bit_or (words k) mask (j % 32))

pub mark-fill_words :
    (words : Bitmap) (from count j : ℕ)
    → mark (fill_words words from count) j
      ≡ (if leb from (j / 32) && ltb (j / 32) (from + count) then 1 else mark words j)
unfolding fill_words
mark-fill_words words from count j = ground (arith, bit_ones 32 (j % 32))
