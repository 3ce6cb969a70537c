-- ===== src/Target/Multiboot.antt =====
-- kernel/targets/i386-pc-multiboot: what the boot loader leaves in memory (src/pmm.c and
-- src/multiboot_spec.c): the memory map and the size that is read off it, and in Pieces what is
-- reserved. What the specification puts into memory is a function of an address.
pub mod Size
pub mod Pieces
pub mod Reserve
pub mod Start
mod Tests
use neo_sys_x.Common.{
  ℕ, zero, suc, ◌+◌, ◌*◌, ◌%◌, ◌^◌, Bool, true, false, not, ◌&&◌, ◌||◌, Option, none, some, ltb,
  leb, ◌==◌, if◌then◌else◌, bit_and, max,
}
use neo_sys_x.Libc.Memory.{Memory, strlen}

-- `multiboot_memory_map_t`, its halves of an address and of a length put together.
pub record Entry : Type 0 where
  pub size : ℕ
  pub addr : ℕ
  pub len : ℕ
  pub type_of : ℕ

-- `multiboot_info_t`, as far as it is used.
pub record Info : Type 0 where
  pub flags : ℕ
  pub cmdline : ℕ
  pub mods_count : ℕ
  pub mods_addr : ℕ
  pub mmap_length : ℕ
  pub mmap_addr : ℕ
  pub drives_length : ℕ
  pub drives_addr : ℕ

-- `MULTIBOOT_MEMORY_AVAILABLE`
abbrev pub available : ℕ
available = 1

-- `mmap_addr + mmap_length`, of 32 bits.
abbrev pub mmap_end : Info → ℕ
mmap_end info = (info.mmap_addr + info.mmap_length) % 2 ^ 32

-- The entry behind one, 4 bytes being those of `size`.
abbrev pub next_entry : (ℕ → Entry) → ℕ → ℕ
next_entry entry mmap = (mmap + (entry mmap).size + 4) % 2 ^ 32

-- `mb_traverse_mmap`, where `mb_info` is set; 0 is `NULL`.
unfoldable pub mb_traverse_mmap : (ℕ → Entry) → Info → ℕ → ℕ
mb_traverse_mmap entry info prev =
    let next = next_entry entry prev in
    if prev == 0
    then info.mmap_addr
    else if ltb next (info.mmap_addr) || leb (mmap_end info) next
    then 0
    else next

-- What an entry makes of the size so far.
unfoldable pub larger : Entry → ℕ → ℕ
larger e ret =
    let end_addr = (e.addr + e.len) % 2 ^ 64 in
    if e.type_of == available then (if ltb ret end_addr then end_addr else ret) else ret

-- `pmm_get_size`; `none` where the fuel is not enough.
unfoldable pub size_loop : ℕ → (ℕ → Entry) → Info → ℕ → ℕ → Option ℕ
size_loop zero entry info mmap ret = none
size_loop (suc fuel) entry info mmap ret =
    let rest =
      size_loop fuel entry info (mb_traverse_mmap entry info mmap) (larger (entry mmap) ret) in
    if mmap == 0 then some ret else rest

abbrev pub pmm_get_size : ℕ → (ℕ → Entry) → Info → Option ℕ
pmm_get_size fuel entry info = size_loop fuel entry info (info.mmap_addr) 0

-- `pmm_get_size_lh`, which runs before paging is set up.
unfoldable pub size_loop_lh : ℕ → (ℕ → Entry) → Info → ℕ → ℕ → Option ℕ
size_loop_lh zero entry info mmap ret = none
size_loop_lh (suc fuel) entry info mmap ret =
    let rest = size_loop_lh fuel entry info (next_entry entry mmap) (larger (entry mmap) ret) in
    if leb (mmap_end info) (next_entry entry mmap) then some (larger (entry mmap) ret) else rest

abbrev pub pmm_get_size_lh : ℕ → (ℕ → Entry) → Info → Option ℕ
pmm_get_size_lh fuel entry info = size_loop_lh fuel entry info (info.mmap_addr) 0
