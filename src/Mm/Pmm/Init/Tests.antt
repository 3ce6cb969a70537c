-- ===== src/Mm/Pmm/Init/Tests.antt =====
-- `pmm_init` on a machine of 16 MB.
use neo_sys_x.Common.{◌-◌, ◌+◌, ◌^◌, ◌≤◌, ◌<◌, ◌≡◌, refl, false, u32, arith}
use neo_sys_x.Common.Bitmap.{mark}
use neo_sys_x.Mm.Pmm.{Pmm}
use neo_sys_x.Mm.Pmm.Init.{
  init_levels, build, own_space, align_start, align_up, levels_lh, pmm_get_bitmap_size_lh,
}
use neo_sys_x.Mm.Pmm.Init.Place.{Placed, build-Placed}
use neo_sys_x.Mm.Pmm.Init.Beyond.{own_space-clear}
use neo_sys_x.Mm.Pmm.Init.Foreseen.{build-pmm_get_bitmap_size_lh}

abbrev nothing : Pmm
nothing = record { words = λ l k. 1; sizes = λ l. 0; present = λ l. false; max_size = 2 ^ 64 - 1 }

build-Placed_example : Placed (build nothing 16777216 0xc0400000) 16777216 0xc0400000 2
build-Placed_example =
    build-Placed nothing 16777216 0xc0400000 (omega arith) (omega arith) (omega arith) 2
      (omega arith)

-- 512, 256, 128 and 64 bytes of bitmaps.
foreseen : pmm_get_bitmap_size_lh 16777216 0xc0400000 ≡ 4096
unfolding pmm_get_bitmap_size_lh levels_lh
foreseen = refl

build-pmm_get_bitmap_size_lh_example :
    let end = (build nothing 16777216 (align_start 0xc0400123)).bitmap_addr in
    (u32 (0xc0400123 + pmm_get_bitmap_size_lh 16777216 0xc0400123) ≡ u32 (align_up end))
    × (end + 0x1000 < 2 ^ 32
        → 0xc0400123 ≤ end
        → end ≤ 0xc0400123 + pmm_get_bitmap_size_lh 16777216 0xc0400123)
build-pmm_get_bitmap_size_lh_example =
    build-pmm_get_bitmap_size_lh nothing 16777216 0xc0400123 (omega arith) (omega arith)

own_space-clear_example :
    mark ((own_space 0 16777216 0xc0400000 (build nothing 16777216 0xc0400000)).words 1) 2047 ≡ 0
unfolding build init_levels
own_space-clear_example =
    own_space-clear 0 nothing 16777216 0xc0400000 (omega arith) (omega arith) (omega arith) refl
      (omega arith) 1 2047 (omega arith) (omega arith)
