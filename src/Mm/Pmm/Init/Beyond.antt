-- ===== src/Mm/Pmm/Init/Beyond.antt =====
-- What the first two calls of `pmm_reserve` in `pmm_init` reserve.
use neo_sys_x.Common.{
  ℕ, zero, suc, ◌+◌, ◌-◌, ◌*◌, ◌/◌, ◌%◌, ◌^◌, ◌≤◌, ◌<◌, ◌≡◌, refl, ◌∙◌, inl, inr, Bool-cases, true,
  false, ltb, ◌==◌, u32, u64, update, arith,
}
use native.Mathlib.Nat.{div-eq_of_lt}
use neo_sys_x.Common.Bits.{bit-zero}
use neo_sys_x.Common.Bitmap.{Bitmap, mark}
use neo_sys_x.Mm.Pmm.{Pmm, pmm_levels, frame_size, reserve_run, reserve_levels, clip, reserve}
use neo_sys_x.Mm.Pmm.Reserve.{mark-reserve_run}
use neo_sys_x.Mm.Pmm.Keeps.{reserve-Keeps}
use neo_sys_x.Mm.Pmm.Init.{Layout, build, own_space}
use neo_sys_x.Mm.Pmm.Init.Place.{build-Placed, build-max_size}

empty_run :
    (wide : ℕ) (words : Bitmap) (start j : ℕ)
    → mark (reserve_run wide words start 0) j ≡ mark words j
empty_run wide words start j =
    mark-reserve_run wide words start 0 (inr (ground arith), inr (ground arith)) j ∙ ground arith

-- The address is at a block boundary of each of the levels left.
abbrev Aligned : ℕ → ℕ → ℕ → Type 0
Aligned zero block addr = 0 < block
Aligned (suc left) block addr =
    (addr % block ≡ 0) × (0 < block) × (block < 2 ^ 64) × Aligned left (block * 2) addr

-- The rounds for no byte at all, from such an address.
reserve_levels-none :
    (wide left : ℕ) (p : Pmm) (level block addr l j : ℕ)
    → Aligned left block addr
    → mark ((reserve_levels wide left p level block addr 0).words l) j ≡ mark (p.words l) j
unfolding reserve_levels
reserve_levels-none wide zero p level block addr l j a = refl
reserve_levels-none wide (suc left) p level block addr l j (even, some_block, small, a) =
    let none_longer : u64 (0 + addr % block) ≡ 0 = rw even refl in
    let below : u64 (0 + block - 1) ≡ block - 1 = omega arith in
    let none_count : (block - 1) / block ≡ 0 = div-eq_of_lt (omega arith) in
    let down : addr - 0 ≡ addr = omega arith in
    elim (Bool-cases (p.present level)) [
      | inl e ↦
          let q = record p {
            words = update p.words level (reserve_run wide (p.words level) (addr / block) 0);
          } in
          let rest = reserve_levels-none wide left q (level + 1) (block * 2) addr l j a in
          let run = empty_run wide (p.words level) (addr / block) j in
          rw (e, none_longer, even, below, none_count, down)
            (rest ∙ elim (Bool-cases (l == level)) [
              | inl f ↦ let same : l ≡ level = ground arith in rw (f, same) run
              | inr f ↦ rw f refl
            ])
      | inr e ↦ rw e refl
    ]

-- A call for what begins where the memory ends is cut to no byte.
reserve_end :
    (wide : ℕ) (p : Pmm) (addr len l j : ℕ)
    → p.max_size ≡ addr
    → addr % (frame_size * 8) ≡ 0
    → addr + len < 2 ^ 64
    → mark ((reserve wide p addr len).words l) j ≡ mark (p.words l) j
unfolding reserve
reserve_end wide p addr len l j size even fits =
    let a : ltb p.max_size addr ≡ false = ground arith in
    let b : clip p addr len ≡ 0 = ground arith in
    rw (a, b) (reserve_levels-none wide pmm_levels p 0 frame_size addr l j (omega arith))

-- One for what begins behind it is refused.
reserve_behind :
    (wide : ℕ) (p : Pmm) (addr len : ℕ) → p.max_size < addr → reserve wide p addr len ≡ p
unfolding reserve
reserve_behind wide p addr len h = let a : ltb p.max_size addr ≡ true = ground arith in rw a refl

module _ (wide : ℕ) (pmm : Pmm) (max_size start : ℕ) (some_memory : 1 ≤ max_size)
    (small : max_size < 2 ^ 42) (fits : start + max_size / 2 ^ 12 + 0x2000 < 2 ^ 32) where
  abbrev l : Layout
  l = build pmm max_size start

  -- For a memory of whole blocks of every level that ends before the start of the bitmaps, as it
  -- does where that is in the higher half: neither of the first two calls of `pmm_reserve` in
  -- `pmm_init` reserves anything. Every bit of every level is still clear, those that stand for no
  -- memory and those of the bitmaps' own place included.
  pub own_space-clear :
      max_size % (frame_size * 8) ≡ 0
      → max_size < start
      → (k j : ℕ) → k < pmm_levels
      → j < (build pmm max_size start).pmm.sizes k * 32
      → mark ((own_space wide max_size start (build pmm max_size start)).words k) j ≡ 0
  unfolding own_space
  own_space-clear even behind k j level inside =
      let size = build-max_size pmm max_size start some_memory small fits in
      let zero_level = build-Placed pmm max_size start some_memory small fits 0 (omega arith) in
      let here = build-Placed pmm max_size start some_memory small fits k level in
      let max_addr = u64 (l.pmm.sizes 0 * 32 * frame_size) in
      let len = u64 (max_addr + 2 ^ 64 - max_size) in
      let short : max_size + len < 2 ^ 64 =
        omega (arith, zero_level.covers_memory, zero_level.wastes_no_word) in
      let beyond = reserve wide (l.pmm) max_size len in
      let first = reserve_end wide (l.pmm) max_size len k j size even short in
      let later : beyond.max_size < start =
        rw ((reserve-Keeps wide (l.pmm) max_size len).same_max, size) behind in
      let second = reserve_behind wide beyond start (u32 (l.bitmap_addr + 2 ^ 32 - start)) later in
      let free : l.pmm.words k (j / 32) ≡ 0 = here.clear (j / 32) (omega arith) in
      rw second (first ∙ rw free (bit-zero (j % 32)))
