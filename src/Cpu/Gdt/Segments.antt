-- ===== src/Cpu/Gdt/Segments.antt =====
-- What the processor reads in a descriptor of kernel/cpu/i386/include/cpu/i386/gdt.h.
use neo_sys_x.Common.{ℕ, ◌+◌, ◌-◌, ◌*◌, ◌/◌, ◌%◌, ◌^◌, ◌≤◌, ◌<◌, ◌≡◌, ◌==◌, if◌then◌else◌, arith}
use neo_sys_x.Cpu.Gdt.{Entry, segment, byte_segment, page_segment, access_byte, packed}

-- The fields of a descriptor of 64 bits, where the processor looks for them.
abbrev pub base_of : ℕ → ℕ
base_of d = d / 2 ^ 16 % 2 ^ 24 + d / 2 ^ 56 % 2 ^ 8 * 2 ^ 24

abbrev pub raw_limit : ℕ → ℕ
raw_limit d = d % 2 ^ 16 + d / 2 ^ 48 % 2 ^ 4 * 2 ^ 16

abbrev pub type_of : ℕ → ℕ
type_of d = d / 2 ^ 40 % 2 ^ 8

abbrev pub granular : ℕ → ℕ
granular d = d / 2 ^ 55 % 2

abbrev pub width_of : ℕ → ℕ
width_of d = d / 2 ^ 54 % 2

-- The last offset inside the segment.
abbrev pub last_offset : ℕ → ℕ
last_offset d = if granular d == 1 then raw_limit d * 4096 + 4095 else raw_limit d

module _ (e : Entry) where
  -- Every bit-field is within its bits.
  pub record IsEntry : Type 0 where
    pub limit_lo_bits : e.limit_lo < 2 ^ 16
    pub base_lo_bits : e.base_lo < 2 ^ 24
    pub access_bits : access_byte e < 2 ^ 8
    pub limit_hi_bits : e.limit_hi < 2 ^ 4
    pub reserved_bits : e.reserved < 2
    pub long_bits : e.long_code < 2
    pub size_bits : e.size < 2
    pub granularity_bits : e.granularity < 2
    pub base_hi_bits : e.base_hi < 2 ^ 8

  packed-fields :
      IsEntry
      → (base_of (packed e) ≡ e.base_lo + e.base_hi * 2 ^ 24)
        × (raw_limit (packed e) ≡ e.limit_lo + e.limit_hi * 2 ^ 16)
        × (type_of (packed e) ≡ access_byte e)
        × (granular (packed e) ≡ e.granularity)
        × (width_of (packed e) ≡ e.size)
  unfolding packed
  packed-fields i = omega arith

-- A segment of memory from `base` on as the processor sees it: a code segment or data that can be
-- written, present, of 32 bits, and open to the rings up to `dpl`.
pub record Reads (d base size dpl code conforming : ℕ) : Type 0 where
  pub base_is : base_of d ≡ base
  pub last_is : last_offset d ≡ size - 1
  pub type_is : type_of d ≡ 0x93 + conforming * 4 + code * 8 + dpl * 32
  pub width_is : width_of d ≡ 1

module _ (base limit code conforming dpl : ℕ) (base_bits : base < 2 ^ 32)
    (limit_bits : limit < 2 ^ 20) (code_bit : code < 2) (conforming_bit : conforming < 2)
    (rings : dpl < 4) where
  segment-fields :
      (is_4k : ℕ)
      → is_4k < 2
      → let d = packed (segment base limit 1 conforming code 1 dpl 1 is_4k) in
        (base_of d ≡ base)
        × (raw_limit d ≡ limit)
        × (type_of d ≡ 0x93 + conforming * 4 + code * 8 + dpl * 32)
        × (granular d ≡ is_4k)
        × (width_of d ≡ 1)
  unfolding segment
  segment-fields is_4k h =
      let p = packed-fields (segment base limit 1 conforming code 1 dpl 1 is_4k) (omega arith) in
      omega (arith, p)

-- A descriptor of `GDT_4K_SEGMENT` of 32 bits is read back by the processor as it was asked for:
-- base, size, kind and ring, for every base of 32 bits and every size of 1 to 2^20 pages.
pub page_segment-Reads :
    (base pages code conforming dpl : ℕ)
    → base < 2 ^ 32
    → 1 ≤ pages
    → pages ≤ 2 ^ 20
    → code < 2
    → conforming < 2
    → dpl < 4
    → Reads
        (packed (page_segment base (pages * 4096) 1 conforming code 1 dpl 1))
        base
        (pages * 4096)
        dpl
        code
        conforming
unfolding page_segment
page_segment-Reads base pages code conforming dpl b some_pages most c f r =
    let limit = (pages * 4096 + 2 ^ 64 - 1) % 2 ^ 64 / 2 ^ 12 in
    let e : limit ≡ pages - 1 = omega arith in
    let p = segment-fields base limit code conforming dpl b (omega arith) c f r 1 (omega arith) in
    record { base_is = p.0; last_is = ground (arith, p.1, p.3); type_is = p.2; width_is = p.4 }

-- So is one of `GDT_BYTE_SEGMENT`, for every size of 1 to 2^20 bytes.
pub byte_segment-Reads :
    (base size code conforming dpl : ℕ)
    → base < 2 ^ 32
    → 1 ≤ size
    → size ≤ 2 ^ 20
    → code < 2
    → conforming < 2
    → dpl < 4
    → Reads
        (packed (byte_segment base size 1 conforming code 1 dpl 1))
        base
        size
        dpl
        code
        conforming
unfolding byte_segment
byte_segment-Reads base size code conforming dpl b some_bytes most c f r =
    let limit = (size + 2 ^ 64 - 1) % 2 ^ 64 in
    let e : limit ≡ size - 1 = omega arith in
    let p = segment-fields base limit code conforming dpl b (omega arith) c f r 0 (omega arith) in
    record { base_is = p.0; last_is = ground (arith, p.1, p.3); type_is = p.2; width_is = p.4 }
