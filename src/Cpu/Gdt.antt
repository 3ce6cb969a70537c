-- ===== src/Cpu/Gdt.antt =====
-- kernel/cpu/i386/src/gdt.c and include/cpu/i386/gdt.h: the descriptors of segments. An entry is
-- the bit-fields of the C struct; `packed` is the number of 64 bits that they make in memory.
pub mod Segments
pub mod Selectors
mod Tests
use neo_sys_x.Common.{ℕ, ◌+◌, ◌-◌, ◌*◌, ◌/◌, ◌%◌, ◌^◌, List, [], ◌∷◌}

-- `gdt_entry_t`, with `access.cseg_dseg`
pub record Entry : Type 0 where
  pub limit_lo : ℕ
  pub base_lo : ℕ
  pub accessed : ℕ
  pub rw_bit : ℕ
  pub dc : ℕ
  pub code : ℕ
  pub desc_type : ℕ
  pub dpl : ℕ
  pub present : ℕ
  pub limit_hi : ℕ
  pub reserved : ℕ
  pub long_code : ℕ
  pub size : ℕ
  pub granularity : ℕ
  pub base_hi : ℕ

-- `GDT_NULL`
abbrev pub null : Entry
null = record {
  limit_lo = 0;
  base_lo = 0;
  accessed = 0;
  rw_bit = 0;
  dc = 0;
  code = 0;
  desc_type = 0;
  dpl = 0;
  present = 0;
  limit_hi = 0;
  reserved = 0;
  long_code = 0;
  size = 0;
  granularity = 0;
  base_hi = 0;
}

-- `GDT_SEGMENT`; a bit-field keeps as many bits as it has.
unfoldable pub segment : ℕ → ℕ → ℕ → ℕ → ℕ → ℕ → ℕ → ℕ → ℕ → Entry
segment base limit rw dc code type_bit dpl is_pm32 is_4k = record {
  limit_lo = limit % 2 ^ 16;
  base_lo = base % 2 ^ 24;
  accessed = 1;
  rw_bit = rw % 2;
  dc = dc % 2;
  code = code % 2;
  desc_type = type_bit % 2;
  dpl = dpl % 4;
  present = 1;
  limit_hi = limit / 2 ^ 16 % 2 ^ 4;
  reserved = 0;
  long_code = 0;
  size = is_pm32 % 2;
  granularity = is_4k % 2;
  base_hi = base / 2 ^ 24 % 2 ^ 8;
}

-- `GDT_BYTE_SEGMENT`
unfoldable pub byte_segment : ℕ → ℕ → ℕ → ℕ → ℕ → ℕ → ℕ → ℕ → Entry
unfolding segment
byte_segment base size rw dc code type_bit dpl is_pm32 =
    segment base ((size + 2 ^ 64 - 1) % 2 ^ 64) rw dc code type_bit dpl is_pm32 0

-- `GDT_4K_SEGMENT`
unfoldable pub page_segment : ℕ → ℕ → ℕ → ℕ → ℕ → ℕ → ℕ → ℕ → Entry
unfolding segment
page_segment base size rw dc code type_bit dpl is_pm32 =
    segment base ((size + 2 ^ 64 - 1) % 2 ^ 64 / 2 ^ 12) rw dc code type_bit dpl is_pm32 1

-- `GDT_4K_CSEG32` and `GDT_4K_DSEG32`
unfoldable pub page_cseg32 : ℕ → ℕ → ℕ → ℕ → Entry
unfolding page_segment
page_cseg32 base size conforming dpl = page_segment base size 1 conforming 1 1 dpl 1

unfoldable pub page_dseg32 : ℕ → ℕ → ℕ → Entry
unfolding page_segment
page_dseg32 base size dpl = page_segment base size 1 0 0 1 dpl 1

-- `gdt_table`
unfoldable pub gdt_table : List Entry
unfolding page_cseg32 page_dseg32
gdt_table =
    null
    ∷ (page_cseg32 0 0x100000000 1 0
        ∷ (page_dseg32 0 0x100000000 0
            ∷ (page_cseg32 0 0x100000000 0 3 ∷ (page_dseg32 0 0x100000000 3 ∷ []))))

-- The `size` of `gdt_desc`: `sizeof(gdt_table)`
abbrev pub gdt_size : ℕ
gdt_size = 8 * 5

-- The struct as it lies in memory, bit by bit from the lowest.
abbrev pub access_byte : Entry → ℕ
access_byte e =
    e.accessed
    + e.rw_bit * 2
    + e.dc * 4
    + e.code * 8
    + e.desc_type * 16
    + e.dpl * 32
    + e.present * 128

unfoldable pub packed : Entry → ℕ
packed e =
    e.limit_lo
    + e.base_lo * 2 ^ 16
    + access_byte e * 2 ^ 40
    + e.limit_hi * 2 ^ 48
    + e.reserved * 2 ^ 52
    + e.long_code * 2 ^ 53
    + e.size * 2 ^ 54
    + e.granularity * 2 ^ 55
    + e.base_hi * 2 ^ 56
