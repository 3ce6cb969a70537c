-- ===== src/Mm/Pmm.antt =====
-- kernel/common/src/mm/pmm.c: physical frames in bitmaps at four block sizes.
-- Addresses and lengths are `uint64_t`; `size_t` has 32 bits. A bitmap is a function of the word
-- index, so that a write past its end shows as a write at an index beyond the size.
pub mod Mask
pub mod Reserve
pub mod Levels
pub mod Search
pub mod Free
pub mod Keeps
pub mod Init
pub mod Alloc
mod Tests
use neo_sys_x.Common.{
  ℕ, zero, suc, ◌+◌, ◌-◌, ◌*◌, ◌/◌, ◌%◌, ◌^◌, Bool, true, false, ◌&&◌, Option, none, some, ltb, leb,
  ◌==◌, if◌then◌else◌, update, u32, u64, size_max, not32, bit_and, bit_or, min,
}
use neo_sys_x.Common.Bitmap.{Bitmap, test_bit, clear_bit}

-- `pmm_bitmaps`, `pmm_bitmap_sizes` (in words) and `pmm_max_size`; `present` is a bitmap that is
-- not `NULL`.
pub record Pmm : Type 0 where
  pub words : ℕ → Bitmap
  pub sizes : ℕ → ℕ
  pub present : ℕ → Bool
  pub max_size : ℕ

-- `PMM_LEVELS` and `PMM_FRAME_SIZE`
abbrev pub pmm_levels : ℕ
pmm_levels = 4

abbrev pub frame_size : ℕ
frame_size = 4096

-- `(1 << (count + 1)) - 1` in `int`. A shift by 32 is undefined in C: `wide` is what it gives.
abbrev pub run_mask : ℕ → ℕ → ℕ
run_mask wide count = u32 ((if ltb (count + 1) 32 then 2 ^ (count + 1) else wide) + 2 ^ 32 - 1)

-- `bitmap[k] |= mask`
unfoldable pub or_word : Bitmap → ℕ → ℕ → Bitmap
or_word words k mask = update words k (bit_or (words k) mask)

-- `memset(&bitmap[from], 0xFF, count * sizeof(size_t))`
unfoldable pub fill_words : Bitmap → ℕ → ℕ → Bitmap
fill_words words from count k = if leb from k && ltb k (from + count) then 2 ^ 32 - 1 else words k

-- How many bits of the first word a run of `count` frames from `start` takes, when it does not
-- begin on a word boundary.
abbrev pub first_count : ℕ → ℕ → ℕ
first_count start count = if start % 32 == 0 then 0 else min (32 - start % 32) count

abbrev pub fill_index : ℕ → ℕ
fill_index start = if start % 32 == 0 then start / 32 else start / 32 + 1

-- The three writes of one round of `pmm_reserve`: the partial first word, whole words, the partial
-- last word. `fill_idx`, `fill_cnt` and the length for `memset` have 32 bits, which is enough for
-- fewer than 2^35 blocks; the model does not cut them.
unfoldable pub reserve_run : ℕ → Bitmap → ℕ → ℕ → Bitmap
reserve_run wide words start count =
    let first = first_count start count in
    let rest = count - first in
    let fill = rest / 32 in
    let last = rest - fill * 32 in
    let one =
      if first == 0
      then words
      else or_word words (start / 32) (u32 (run_mask wide first * 2 ^ (start % 32))) in
    let two = fill_words one (fill_index start) fill in
    if last == 0 then two else or_word two (fill_index start + fill) (run_mask wide last)

-- The rounds of `pmm_reserve` from `level` on, with the rounds left.
unfoldable pub reserve_levels : ℕ → ℕ → Pmm → ℕ → ℕ → ℕ → ℕ → Pmm
unfolding reserve_run
reserve_levels wide zero pmm level block addr len = pmm
reserve_levels wide (suc left) pmm level block addr len =
    if pmm.present level
    then (let down = addr - addr % block in
        let longer = u64 (len + addr % block) in
        let run =
          reserve_run wide (pmm.words level) (down / block) (u64 (longer + block - 1) / block) in
        reserve_levels wide left (record pmm { words = update pmm.words level run }) (level + 1)
          (block * 2) down longer)
    else pmm

-- `len`, cut where the memory ends.
abbrev pub clip : Pmm → ℕ → ℕ → ℕ
clip pmm addr len = if ltb pmm.max_size (u64 (addr + len)) then pmm.max_size - addr else len

unfoldable pub reserve : ℕ → Pmm → ℕ → ℕ → Pmm
reserve wide pmm addr len =
    if ltb pmm.max_size addr
    then pmm
    else reserve_levels wide pmm_levels pmm 0 frame_size addr (clip pmm addr len)

-- The first loop of `pmm_alloc`: the smallest block that holds `len`, and its level.
unfoldable pub pick_level : ℕ → Pmm → ℕ → ℕ → ℕ → ℕ × ℕ
pick_level zero pmm level block len = (level, block)
pick_level (suc left) pmm level block len =
    let next = pick_level left pmm (level + 1) (block * 2) len in
    if ltb block len && (ltb level (pmm_levels - 1) && pmm.present level)
    then next
    else (level, block)

-- The loop that skips words with no clear bit; it stops past the end of the bitmap.
unfoldable pub skip_full : ℕ → Bitmap → ℕ → ℕ → ℕ → ℕ × ℕ
skip_full zero words total word_idx bit = (word_idx, bit)
skip_full (suc fuel) words total word_idx bit =
    let next = skip_full fuel words total (word_idx + 1) (bit + 32) in
    if words word_idx == 2 ^ 32 - 1
    then (if leb total (bit + 32) then (word_idx + 1, bit + 32) else next)
    else (word_idx, bit)

-- The search of one level for `req` clear bits in a row, from `bit`, which is bit `bit_idx` of word
-- `word_idx`, with `clear` of them seen: the first bit of the run.
unfoldable pub search_level : ℕ → Bitmap → ℕ → ℕ → ℕ → ℕ → ℕ → ℕ → Option ℕ
unfolding skip_full
search_level zero words total req bit word_idx bit_idx clear = none
search_level (suc fuel) words total req bit word_idx bit_idx clear =
    let next = λ (w b c i : ℕ). search_level fuel words total req (b + 1) w (i + 1) c in
    let at = λ (w b i : ℕ).
      (if bit_and (words w) (2 ^ i) == 0
        then (if clear + 1 == req then some (b + 1 - (clear + 1)) else next w b (clear + 1) i)
        else next w b 0 i) in
    if leb total bit
    then none
    else let w = if bit_idx == 32 then word_idx + 1 else word_idx in
      let i = if bit_idx == 32 then 0 else bit_idx in
      if i == 0
      then (let (w', b') = skip_full (total / 32 + 1) words total w bit in
          if leb total b' then none else at w' b' 0)
      else at w bit i

-- The second loop: levels from the picked one down.
unfoldable pub search_levels : ℕ → Pmm → ℕ → ℕ → ℕ → Option ℕ
search_levels zero pmm level block len = none
search_levels (suc left) pmm level block len =
    let total = u32 (pmm.sizes level * 32) in
    let below = search_levels left pmm (level - 1) (block / 2) len in
    let req = u32 (u64 (len + block - 1) / block) in
    elim (search_level (total + 1) (pmm.words level) total req 0 0 0 0) [
      | some start ↦ some (u32 (start * block))
      | none ↦ if level == 0 then none else below
    ]

-- `UINTPTR_MAX` is returned where no level has room.
unfoldable pub alloc : ℕ → Pmm → ℕ → ℕ × Pmm
alloc wide pmm len =
    let (level, block) = pick_level pmm_levels pmm 0 frame_size len in
    elim (search_levels pmm_levels pmm level block len) [
      | some addr ↦ (addr, reserve wide pmm addr len)
      | none ↦ (size_max, pmm)
    ]

-- A freed frame clears the bit of each larger block whose two halves are clear.
unfoldable pub propagate : ℕ → Pmm → ℕ → ℕ → Pmm
propagate zero pmm level b = pmm
propagate (suc left) pmm level b =
    let go_on =
      propagate left (record pmm { words = update pmm.words level (clear_bit (pmm.words level) b) })
        (level + 1) (b / 2) in
    if pmm.present level
    then (if bit_and (pmm.words (level - 1) (b * 2 / 32)) (u32 (3 * 2 ^ (b * 2 % 32))) == 0
        then go_on
        else pmm)
    else pmm

unfoldable pub free_frame : Pmm → ℕ → Pmm
unfolding propagate
free_frame pmm frame =
    propagate (pmm_levels - 1)
      (record pmm { words = update pmm.words 0 (clear_bit (pmm.words 0) frame) }) 1 (frame / 2)

unfoldable pub free_frames : ℕ → Pmm → ℕ → Pmm
free_frames zero pmm frame = pmm
free_frames (suc left) pmm frame = free_frames left (free_frame pmm frame) (frame + 1)

unfoldable pub free : Pmm → ℕ → ℕ → Pmm
unfolding free_frame free_frames
free pmm addr len =
    if ltb pmm.max_size addr
    then pmm
    else let longer = u64 (clip pmm addr len + addr % frame_size) in
      free_frames (u32 (u64 (longer + frame_size - 1) / frame_size)) pmm
        (u32 ((addr - addr % frame_size) / frame_size))
