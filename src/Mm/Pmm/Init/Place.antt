-- ===== src/Mm/Pmm/Init/Place.antt =====
-- Where `pmm_init` puts the bitmaps, and how much memory they stand for.
use neo_sys_x.Common.{
  ℕ, zero, suc, ◌+◌, ◌-◌, ◌*◌, ◌/◌, ◌^◌, ◌≤◌, ◌<◌, ◌≡◌, refl, true, false, ◌==◌, if◌then◌else◌, u32,
  arith,
}
use neo_sys_x.Mm.Pmm.{Pmm, pmm_levels, frame_size}
use neo_sys_x.Mm.Pmm.Init.{
  Layout, level_size, place_level, init_levels, clear_area, no_levels, num_frames, build,
}

abbrev half : ℕ → ℕ
half bits = (bits + 1) / 2

abbrev four_levels : ℕ → Layout → Layout
four_levels bits l =
    place_level 3 (half (half (half bits)))
      (place_level 2 (half (half bits)) (place_level 1 (half bits) (place_level 0 bits l)))

init_levels-four :
    (bits : ℕ) (l : Layout) → 1 ≤ bits → init_levels pmm_levels 0 bits l ≡ four_levels bits l
unfolding init_levels
init_levels-four bits l h =
    let a : (bits == 0) ≡ false = ground arith in
    let b : (half bits == 0) ≡ false = ground arith in
    let c : (half (half bits) == 0) ≡ false = ground arith in
    let d : (half (half (half bits)) == 0) ≡ false = ground arith in rw (a, b, c, d) refl

-- Level `k` of the bitmaps: there, large enough for the memory, all of it clear, and followed by the
-- next level or by the end of the bitmaps.
pub record Placed (l : Layout) (max_size start k : ℕ) : Type 0 where
  pub there : l.pmm.present k ≡ true
  pub begins : k ≡ 0 → l.base k ≡ start
  pub covers_memory : max_size ≤ l.pmm.sizes k * 32 * (frame_size * 2 ^ k)
  pub wastes_no_word :
      l.pmm.sizes k * 32 * (frame_size * 2 ^ k) < max_size + 40 * (frame_size * 2 ^ k)
  pub followed : l.base k + l.pmm.sizes k * 4 ≡ (if k == 3 then l.bitmap_addr else l.base (k + 1))
  pub clear : (i : ℕ) → i < l.pmm.sizes k → l.pmm.words k i ≡ 0

module _ (pmm : Pmm) (max_size start : ℕ) (some_memory : 1 ≤ max_size) (small : max_size < 2 ^ 42)
    (fits : start + max_size / 2 ^ 12 + 0x2000 < 2 ^ 32) where
  abbrev levels : Layout
  levels = four_levels (num_frames max_size) (no_levels pmm max_size start)

  build-levels : build pmm max_size start ≡ record levels {
    pmm = record (levels.pmm) {
      words = clear_area start (u32 (levels.bitmap_addr + 2 ^ 32 - start)) levels;
    };
  }
  unfolding build
  build-levels =
      rw (init_levels-four (num_frames max_size) (no_levels pmm max_size start) (omega arith)) refl

  pub build-max_size : (build pmm max_size start).pmm.max_size ≡ max_size
  build-max_size = rw build-levels refl

  -- The words of a level of `bits` blocks hold its bits and not 32 more.
  level_size-bits :
      (bits : ℕ)
      → bits < 2 ^ 31
      → (bits ≤ level_size bits * 32) × (level_size bits * 32 < bits + 32)
  level_size-bits bits h = omega arith

  -- The numbers of blocks of the four levels.
  abbrev n : ℕ
  n = num_frames max_size

  abbrev end : ℕ → ℕ
  end k =
      if k == 0
      then start + level_size n * 4
      else if k == 1
      then start + level_size n * 4 + level_size (half n) * 4
      else if k == 2
      then start + level_size n * 4 + level_size (half n) * 4 + level_size (half (half n)) * 4
      else start
        + level_size n * 4
        + level_size (half n) * 4
        + level_size (half (half n)) * 4
        + level_size (half (half (half n))) * 4

  frames_bound : (n * 4096 < max_size + 4096) × (max_size ≤ n * 4096) × (n < 2 ^ 31)
  frames_bound = omega arith

  levels_fit :
      (end 3 < 2 ^ 32) × (end 2 ≤ end 3) × (end 1 ≤ end 2) × (end 0 ≤ end 1) × (start ≤ end 0)
  levels_fit = omega (
    arith,
    frames_bound,
    level_size-bits n,
    level_size-bits (half n),
    level_size-bits (half (half n)),
    level_size-bits (half (half (half n))),
  )

  bitmap_addr-end : levels.bitmap_addr ≡ end 3
  bitmap_addr-end = omega (arith, levels_fit)

  area : u32 (levels.bitmap_addr + 2 ^ 32 - start) ≡ end 3 - start
  area = omega (arith, levels_fit, bitmap_addr-end)

  clear_area-inside :
      (level i : ℕ)
      → start ≤ levels.base level
      → levels.base level + i * 4 < end 3
      → clear_area start (u32 (levels.bitmap_addr + 2 ^ 32 - start)) levels level i ≡ 0
  unfolding clear_area
  clear_area-inside level i low high = rw area (ground (arith, levels_fit))

  module _ (k : ℕ) where
    abbrev Built : Type 0
    Built = Placed (build pmm max_size start) max_size start k

  level_0 : Built 0
  level_0 = rw build-levels (record {
    there = refl;
    begins = λ e. refl;
    covers_memory = omega (arith, frames_bound, level_size-bits n);
    wastes_no_word = omega (arith, frames_bound, level_size-bits n);
    followed = omega (arith, levels_fit);
    clear = λ i h. clear_area-inside 0 i (omega (arith, levels_fit)) (omega (arith, levels_fit));
  })

  level_1 : Built 1
  level_1 = rw build-levels (record {
    there = refl;
    begins = λ e. absurd (omega arith);
    covers_memory = omega (arith, frames_bound, level_size-bits (half n));
    wastes_no_word = omega (arith, frames_bound, level_size-bits (half n));
    followed = omega (arith, levels_fit);
    clear = λ i h. clear_area-inside 1 i (omega (arith, levels_fit)) (omega (arith, levels_fit));
  })

  level_2 : Built 2
  level_2 = rw build-levels (record {
    there = refl;
    begins = λ e. absurd (omega arith);
    covers_memory = omega (arith, frames_bound, level_size-bits (half (half n)));
    wastes_no_word = omega (arith, frames_bound, level_size-bits (half (half n)));
    followed = omega (arith, levels_fit);
    clear = λ i h. clear_area-inside 2 i (omega (arith, levels_fit)) (omega (arith, levels_fit));
  })

  level_3 : Built 3
  level_3 = rw build-levels (record {
    there = refl;
    begins = λ e. absurd (omega arith);
    covers_memory = omega (arith, frames_bound, level_size-bits (half (half (half n))));
    wastes_no_word = omega (arith, frames_bound, level_size-bits (half (half (half n))));
    followed = omega (arith, levels_fit, bitmap_addr-end);
    clear = λ i h. clear_area-inside 3 i (omega (arith, levels_fit)) (omega (arith, levels_fit));
  })

  -- For a memory of at least a byte and less than 2^42, and where the bitmaps do not reach the end
  -- of the address space: `pmm_init` places a bitmap for each of the four levels, one behind the
  -- other from the start on and all of them clear. Each has a bit for every block of the memory, and
  -- stands for less than 40 blocks more.
  pub build-Placed : (k : ℕ) → k < pmm_levels → Placed (build pmm max_size start) max_size start k
  build-Placed zero h = level_0
  build-Placed (suc zero) h = level_1
  build-Placed (suc (suc zero)) h = level_2
  build-Placed (suc (suc (suc zero))) h = level_3
  build-Placed (suc (suc (suc (suc k)))) h = absurd (omega arith)
