-- ===== src/Mm/Pmm/Init/Foreseen.antt =====
-- What kernel/cpu/i386/src/pmm.c foresees is what `pmm_init` takes.
use neo_sys_x.Common.{
  ℕ, zero, suc, ◌+◌, ◌-◌, ◌/◌, ◌^◌, ◌≤◌, ◌<◌, ◌≡◌, refl, inl, inr, Bool-cases, ◌==◌, u32, u64,
  arith,
}
use neo_sys_x.Mm.Pmm.{Pmm, pmm_levels}
use neo_sys_x.Mm.Pmm.Init.{
  Layout, level_size, place_level, init_levels, align_start, no_levels, num_frames, build, align_up,
  levels_lh, frames_lh, pmm_get_bitmap_size_lh,
}

init_levels-levels_lh :
    (left level bits : ℕ) (l : Layout)
    → bits < 2 ^ 31
    → (init_levels left level bits l).bitmap_addr ≡ levels_lh left bits (l.bitmap_addr)
unfolding init_levels levels_lh
init_levels-levels_lh zero level bits l h = refl
init_levels-levels_lh (suc left) level bits l h =
    let half : u64 (bits + 1) / 2 ≡ (bits + 1) / 2 = omega arith in
    let words : u32 (u64 (bits + 32 - 1) / 32) ≡ level_size bits = omega arith in
    elim (Bool-cases (bits == 0)) [
      | inl e ↦ rw e refl
      | inr e ↦
          rw (e, half, words)
            (init_levels-levels_lh left (level + 1) ((bits + 1) / 2) (place_level level bits l)
              (omega arith))
    ]

-- From `start`, the distance to the end of the page of `end`.
distance :
    (start end : ℕ)
    → start < 2 ^ 32
    → let lh = u32 (align_up end + 2 ^ 32 - start) in
      (u32 (start + lh) ≡ u32 (align_up end))
      × (end + 0x1000 < 2 ^ 32 → start ≤ end → end ≤ start + lh)
distance start end h = (ground arith, λ fits after. ground arith)

-- For a memory of less than 2^42 bytes and an address of 32 bits: from the address on,
-- `pmm_get_bitmap_size_lh` reaches as far as the bitmaps that `pmm_init` places, up to the end of
-- their last page. Where that does not wrap around, so, all bitmaps lie inside what it foresees.
pub build-pmm_get_bitmap_size_lh :
    (pmm : Pmm) (mem_size start : ℕ)
    → mem_size < 2 ^ 42
    → start < 2 ^ 32
    → let end = (build pmm mem_size (align_start start)).bitmap_addr in
      (u32 (start + pmm_get_bitmap_size_lh mem_size start) ≡ u32 (align_up end))
      × (end + 0x1000 < 2 ^ 32 → start ≤ end → end ≤ start + pmm_get_bitmap_size_lh mem_size start)
unfolding build pmm_get_bitmap_size_lh
build-pmm_get_bitmap_size_lh pmm mem_size start small word =
    let frames : num_frames mem_size ≡ frames_lh mem_size = ground arith in
    let aligned : align_up start ≡ align_start start = ground arith in
    let same =
      init_levels-levels_lh pmm_levels 0 (frames_lh mem_size)
        (no_levels pmm mem_size (align_start start)) (ground arith) in
    rw (frames, aligned, same)
      (distance start (levels_lh pmm_levels (frames_lh mem_size) (align_start start)) word)
