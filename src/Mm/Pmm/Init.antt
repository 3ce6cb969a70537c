-- ===== src/Mm/Pmm/Init.antt =====
-- `pmm_init` of kernel/common/src/mm/pmm.c, and the size of the bitmaps as it is foreseen before
-- paging, in kernel/cpu/i386/src/pmm.c. The size of the memory, the addresses that the linker gives
-- and the part of the target are arguments.
pub mod Place
pub mod Foreseen
pub mod Beyond
mod Tests
use neo_sys_x.Common.{
  ℕ, zero, suc, ◌+◌, ◌-◌, ◌*◌, ◌/◌, ◌%◌, ◌^◌, Bool, true, false, ◌&&◌, ltb, leb, ◌==◌,
  if◌then◌else◌, update, u32, u64,
}
use neo_sys_x.Common.Bitmap.{Bitmap}
use neo_sys_x.Mm.Pmm.{Pmm, pmm_levels, frame_size, reserve}

-- What the loop over the levels has made: the manager, the addresses of its bitmaps, and the
-- address behind the last of them.
pub record Layout : Type 0 where
  pub pmm : Pmm
  pub base : ℕ → ℕ
  pub bitmap_addr : ℕ

-- One level of `bits` blocks, below 2^31.
abbrev pub level_size : ℕ → ℕ
level_size bits = u32 (bits + 32 - 1) / 32

abbrev pub place_level : ℕ → ℕ → Layout → Layout
place_level level bits l = record {
  pmm = record l.pmm {
    sizes = update l.pmm.sizes level (level_size bits);
    present = update l.pmm.present level true;
  };
  base = update l.base level (l.bitmap_addr);
  bitmap_addr = u32 (l.bitmap_addr + level_size bits * 4);
}

-- The loop over the levels.
unfoldable pub init_levels : ℕ → ℕ → ℕ → Layout → Layout
init_levels zero level bits l = l
init_levels (suc left) level bits l =
    let next = init_levels left (level + 1) ((bits + 1) / 2) (place_level level bits l) in
    if bits == 0 then l else next

-- `memset(start, 0, len)` on the bitmaps.
unfoldable pub clear_area : ℕ → ℕ → Layout → ℕ → Bitmap
clear_area start len l level k =
    let at = l.base level + k * 4 in
    if leb start at && ltb at (start + len) then 0 else l.pmm.words level k

-- `start_addr`, aligned up.
abbrev pub align_start : ℕ → ℕ
align_start a = if a % frame_size == 0 then a else u32 (a + (frame_size - a % frame_size))

abbrev pub num_frames : ℕ → ℕ
num_frames max_size = u32 (u64 (max_size + frame_size - 1) / frame_size)

-- Before the loop.
abbrev pub no_levels : Pmm → ℕ → ℕ → Layout
no_levels pmm max_size start = record {
  pmm = record pmm { max_size = max_size };
  base = λ l. 0;
  bitmap_addr = start;
}

-- The bitmaps of `pmm_init`, placed and cleared.
unfoldable pub build : Pmm → ℕ → ℕ → Layout
build pmm max_size start =
    let l = init_levels pmm_levels 0 (num_frames max_size) (no_levels pmm max_size start) in
    record l {
      pmm = record (l.pmm) { words = clear_area start (u32 (l.bitmap_addr + 2 ^ 32 - start)) l };
    }

-- The calls of `pmm_reserve` for the space behind the memory and for the bitmaps.
unfoldable pub own_space : ℕ → ℕ → ℕ → Layout → Pmm
own_space wide max_size start l =
    let max_addr = u64 (l.pmm.sizes 0 * 32 * frame_size) in
    let beyond = reserve wide (l.pmm) max_size (u64 (max_addr + 2 ^ 64 - max_size)) in
    reserve wide beyond start (u32 (l.bitmap_addr + 2 ^ 32 - start))

-- `pmm_init`
unfoldable pub pmm_init : ℕ → (Pmm → Pmm) → ℕ → ℕ → ℕ → ℕ → Pmm → Pmm
unfolding build own_space
pmm_init wide pmm_target_init max_size available kernel_start kernel_end pmm =
    let start = align_start available in
    let own = own_space wide max_size start (build pmm max_size start) in
    pmm_target_init (reserve wide own kernel_start (u32 (kernel_end + 2 ^ 32 - kernel_start)))

-- `pmm_get_bitmap_size_lh`
abbrev pub align_up : ℕ → ℕ
align_up a = if a % 0x1000 == 0 then a else u32 (a - a % 0x1000 + 0x1000)

unfoldable pub levels_lh : ℕ → ℕ → ℕ → ℕ
levels_lh zero frames addr = addr
levels_lh (suc left) frames addr =
    let next =
      levels_lh left (u64 (frames + 1) / 2) (u32 (addr + u32 (u64 (frames + 32 - 1) / 32) * 4)) in
    if frames == 0 then addr else next

abbrev pub frames_lh : ℕ → ℕ
frames_lh mem_size = mem_size / 2 ^ 12 + (if mem_size % 0x1000 == 0 then 0 else 1)

unfoldable pub pmm_get_bitmap_size_lh : ℕ → ℕ → ℕ
pmm_get_bitmap_size_lh mem_size start_addr = u32 (
    align_up (levels_lh pmm_levels (frames_lh mem_size) (align_up start_addr))
    + 2 ^ 32
    - start_addr)
