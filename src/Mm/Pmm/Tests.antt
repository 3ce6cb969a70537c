-- ===== src/Mm/Pmm/Tests.antt =====
-- The physical memory manager on concrete bitmaps.
use neo_sys_x.Common.{
  ◌+◌, ◌-◌, ◌*◌, ◌^◌, ◌≤◌, ◌<◌, ◌≡◌, refl, true, ◌&&◌, some, ltb, ◌==◌, if◌then◌else◌, arith, inl,
}
use neo_sys_x.Common.Bits.{bit-zero}
use neo_sys_x.Common.Bitmap.{Bitmap, mark}
use neo_sys_x.Mm.Pmm.{Pmm, frame_size, reserve_run, reserve, free, search_level}
use neo_sys_x.Mm.Pmm.Reserve.{covers, mark-reserve_run}
use neo_sys_x.Mm.Pmm.Levels.{reserve-marks}
use neo_sys_x.Mm.Pmm.Search.{search_over_full_word}
use neo_sys_x.Mm.Pmm.Free.{IsBuddy, free-IsBuddy, mark-free}

-- 16 MB, all of it free.
abbrev all_free : Pmm
all_free = record { words = λ l k. 0; sizes = λ l. 128; present = λ l. true; max_size = 16777216 }

abbrev sparse : Bitmap
sparse k = if k == 0 then 5 else 0

-- Word 1 is full, the others are free.
abbrev full_second : Bitmap
full_second k = if k == 1 then 2 ^ 32 - 1 else 0

all_free-IsBuddy : IsBuddy all_free
all_free-IsBuddy = record {
  words = λ l k. omega arith;
  halves = λ l j m p. (bit-zero _, bit-zero _);
}

mark-reserve_run_example :
    mark (reserve_run 0 sparse 3 40) 43 ≡ (if covers 3 40 43 then 1 else mark sparse 43)
mark-reserve_run_example = mark-reserve_run 0 sparse 3 40 (inl refl, inl refl) 43

reserve-marks_example : mark ((reserve 0 all_free 5000 9000).words 1) 1 ≡ 1
reserve-marks_example =
    reserve-marks 0 all_free 5000 9000 1 1
      (record {
        inside = omega arith;
        no_wrap = omega arith;
        memory = omega arith;
        all_levels = λ l h. refl;
        shifts = (
          (inl refl, inl refl),
          ((inl refl, inl refl), ((inl refl, inl refl), ((inl refl, inl refl), tt))),
        );
      })
      (omega arith) (omega arith) (omega arith) (omega arith)

search_over_full_word_example :
    (search_level 100 full_second 128 6 32 0 32 5 ≡ some 59)
    × (59 ≤ 63)
    × (63 < 65)
    × (mark full_second 63 ≡ 1)
search_over_full_word_example =
    search_over_full_word full_second 128 99 0 5 (omega arith) (omega arith) (omega arith) refl
      (bit-zero 0)

free-IsBuddy_example : IsBuddy (free all_free 4096 8192)
free-IsBuddy_example = free-IsBuddy all_free 4096 8192 all_free-IsBuddy

mark-free_example : mark ((free all_free 4096 8192).words 0) 1 ≡ (
    if ltb 4096 ((1 + 1) * frame_size) && ltb (1 * frame_size) (4096 + 8192)
    then 0
    else mark (all_free.words 0) 1)
mark-free_example = mark-free all_free 4096 8192 1 all_free-IsBuddy (omega arith) (omega arith)
