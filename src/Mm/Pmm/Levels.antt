-- ===== src/Mm/Pmm/Levels.antt =====
-- `pmm_reserve` over its levels: every block that the range touches is marked, at each level.
use neo_sys_x.Common.{
  ℕ, zero, suc, ◌+◌, ◌-◌, ◌*◌, ◌/◌, ◌%◌, ◌^◌, ◌≤◌, ◌<◌, ◌≡◌, refl, ap, inl, inr, true, false, ltb,
  arith, Bool-cases, u64, ◌∙◌, update_self,
}
use native.Mathlib.Nat.{
  div-lt_iff_lt-mul, div-add-mod', mul-div_left, lt-mul-div-succ, mod-lt, lt_of_mul-lt-mul_right,
  pow-succ', one-le-pow, mul-le-mul_left,
}
use neo_sys_x.Common.Bitmap.{mark}
use neo_sys_x.Mm.Pmm.{Pmm, pmm_levels, frame_size, reserve_run, reserve_levels, reserve, clip}
use neo_sys_x.Mm.Pmm.Reserve.{RunOk, covers, mark-reserve_run}

-- The blocks `[start, start + count)` of `block` bytes that a round marks for a range of bytes.
abbrev pub run_start : ℕ → ℕ → ℕ
run_start block addr = (addr - addr % block) / block

abbrev pub run_count : ℕ → ℕ → ℕ → ℕ
run_count block addr len = u64 (u64 (len + addr % block) + block - 1) / block

run_start-le : (block addr j : ℕ) → 0 < block → addr < (j + 1) * block → run_start block addr ≤ j
run_start-le block addr j b h =
    omega (
      arith,
      (div-lt_iff_lt-mul {k = block} {x = addr - addr % block} {y = j + 1} b).1 (omega arith),
    )

-- The start of a run is aligned, so nothing is lost when it is taken back to bytes.
run_start_bytes : (block addr : ℕ) → 0 < block → run_start block addr * block ≡ addr - addr % block
run_start_bytes block addr b =
    let aligned : addr - addr % block ≡ addr / block * block =
      omega (arith, div-add-mod' addr block) in
    rw (aligned, mul-div_left (addr / block) b)

run_count_bytes : (block l : ℕ) → 0 < block → l ≤ (l + block - 1) / block * block
run_count_bytes block l b = omega (arith, lt-mul-div-succ (l + block - 1) b)

run_end-lt :
    (block addr len j : ℕ)
    → 0 < block
    → addr + len + block * 2 < 2 ^ 64
    → j * block < addr + len
    → j < run_start block addr + run_count block addr len
run_end-lt block addr len j b small h =
    let no_wrap : u64 (len + addr % block) ≡ len + addr % block = omega (arith, mod-lt addr b) in
    let no_wrap' : u64 (len + addr % block + block - 1) ≡ len + addr % block + block - 1 =
      omega (arith, mod-lt addr b) in
    rw (no_wrap, no_wrap')
      (lt_of_mul-lt-mul_right block
        (omega (arith, run_start_bytes block addr b, run_count_bytes block (len + addr % block) b)))

-- No round of the call asks for the shift by 32, or it gives 0.
abbrev pub LevelsOk : ℕ → ℕ → ℕ → ℕ → ℕ → Type 0
LevelsOk wide zero block addr len = Unit
LevelsOk wide (suc left) block addr len =
    RunOk wide (run_start block addr) (run_count block addr len)
    × LevelsOk wide left (block * 2) (addr - addr % block) (u64 (len + addr % block))

covered : (start count j : ℕ) → start ≤ j → j < start + count → covers start count j ≡ true
covered start count j low high = ground arith

-- Rounds leave the levels below them alone.
reserve_levels-below :
    (wide left : ℕ) (pmm : Pmm) (level block addr len l : ℕ)
    → l < level
    → (reserve_levels wide left pmm level block addr len).words l ≡ pmm.words l
unfolding reserve_levels
reserve_levels-below wide zero pmm level block addr len l h = refl
reserve_levels-below wide (suc left) pmm level block addr len l h =
    elim (Bool-cases (pmm.present level)) [
      | inl there ↦ simp there (
          reserve_levels-below wide left _ (level + 1) (block * 2) _ _ l (omega arith)
          ∙ ground arith)
      | inr absent ↦ simp absent
    ]

module _ (wide : ℕ) where
  reserve_levels-marks :
      (left : ℕ) (pmm : Pmm) (level block addr len k j : ℕ)
      → k < left
      → ((l : ℕ) → l ≤ level + k → pmm.present l ≡ true)
      → 0 < block
      → addr + len + block * 2 ^ left < 2 ^ 64
      → LevelsOk wide left block addr len
      → addr < (j + 1) * (block * 2 ^ k)
      → j * (block * 2 ^ k) < addr + len
      → mark ((reserve_levels wide left pmm level block addr len).words (level + k)) j ≡ 1
  unfolding reserve_levels
  reserve_levels-marks zero pmm level block addr len k j h there b small ok from to =
      absurd (omega arith)
  reserve_levels-marks (suc left) pmm level block addr len zero j h there b small ok from to =
      let here : level + 0 ≡ level = omega arith in
      let one : block * 2 ^ 0 ≡ block = omega arith in
      let room : block ≤ block * 2 ^ left =
        omega (arith, mul-le-mul_left block (one-le-pow left 2 (omega arith))) in
      let power : block * 2 ^ suc left ≡ 2 * (block * 2 ^ left) =
        omega (arith, ap (λ (t : ℕ). block * t) (pow-succ' 2 left)) in
      let low = run_start-le block addr j b (rw (← one) from) in
      let high = run_end-lt block addr len j b (omega arith) (rw (← one) to) in
      rw here (
        simp (there level (omega arith)) (
          rw (reserve_levels-below wide left _ (level + 1) (block * 2) _ _ level (omega arith)) (
            rw
              (update_self pmm.words level (
                reserve_run wide (pmm.words level) (run_start block addr)
                  (run_count block addr len)))
              (rw (
                mark-reserve_run wide (pmm.words level) (run_start block addr)
                    (run_count block addr len) ok.0 j,
                covered (run_start block addr) (run_count block addr len) j low high,
              )))))
  reserve_levels-marks (suc left) pmm level block addr len (suc k) j h there b small ok from to =
      let next : level + suc k ≡ level + 1 + k = omega arith in
      let power : (n : ℕ) → block * 2 ^ suc n ≡ block * 2 * 2 ^ n =
        λ n. omega (arith, ap (λ (t : ℕ). block * t) (pow-succ' 2 n)) in
      let no_wrap : u64 (len + addr % block) ≡ len + addr % block = omega (arith, mod-lt addr b) in
      rw next (
        simp (there level (omega arith)) (
          reserve_levels-marks left _ (level + 1) (block * 2) (addr - addr % block)
            (u64 (len + addr % block)) k j (omega arith) (λ l hl. there l (omega arith))
            (omega arith) (omega (arith, power left)) ok.1 (rw (← power k) (omega arith))
            (rw (← power k) (omega arith))))

module _ (wide : ℕ) (pmm : Pmm) (addr len : ℕ) where
  -- The call's range, cut to the memory, runs into no wrap-around and no undefined shift.
  pub record Reserves : Type 0 where
    pub inside : addr ≤ pmm.max_size
    pub no_wrap : addr + len < 2 ^ 64
    pub memory : pmm.max_size < 2 ^ 63
    pub all_levels : (l : ℕ) → l < pmm_levels → pmm.present l ≡ true
    pub shifts : LevelsOk wide pmm_levels frame_size addr (clip pmm addr len)

  -- With all four levels present, and where the call's range does not wrap around and asks for no
  -- shift by 32 (or that gives 0), `pmm_reserve` marks at each level every block that the range
  -- touches, as far as it lies in the memory: `k` is the level, and a block of it has `frame_size
  -- * 2 ^ k` bytes.
  pub reserve-marks :
      (k j : ℕ)
      → Reserves
      → k < pmm_levels
      → addr < (j + 1) * (frame_size * 2 ^ k)
      → j * (frame_size * 2 ^ k) < addr + len
      → j * (frame_size * 2 ^ k) < pmm.max_size
      → mark ((reserve wide pmm addr len).words k) j ≡ 1
  unfolding reserve
  reserve-marks k j r h from to end =
      let entered : ltb pmm.max_size addr ≡ false = ground (arith, r.inside) in
      let level : 0 + k ≡ k = omega arith in
      let total : (addr + clip pmm addr len ≤ pmm.max_size)
          × (j * (frame_size * 2 ^ k) < addr + clip pmm addr len) =
        (ground (arith, r.inside, r.no_wrap), ground (arith, r.inside, r.no_wrap)) in
      rw entered (
        rw (← level) (
          reserve_levels-marks wide pmm_levels pmm 0 frame_size addr (clip pmm addr len) k j h
            (λ l hl. r.all_levels l (omega arith)) (omega arith) (omega (arith, r.memory)) r.shifts
            from total.1))
