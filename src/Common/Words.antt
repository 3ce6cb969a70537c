-- ===== src/Common/Words.antt =====
-- The machine words of the i386 build: `size_t`, `uintptr_t` and `uint32_t` have 32 bits.
use Prim.Native.Nat.{ℕ, ◌-◌, ◌%◌, ◌^◌}

abbrev pub u8 : ℕ → ℕ
u8 n = n % 2 ^ 8

abbrev pub u16 : ℕ → ℕ
u16 n = n % 2 ^ 16

abbrev pub u32 : ℕ → ℕ
u32 n = n % 2 ^ 32

abbrev pub u64 : ℕ → ℕ
u64 n = n % 2 ^ 64

-- `SIZE_MAX`, which is also `UINTPTR_MAX`.
abbrev pub size_max : ℕ
size_max = 2 ^ 32 - 1

-- `~x` on 32 and on 8 bits.
abbrev pub not32 : ℕ → ℕ
not32 x = 2 ^ 32 - 1 - x

abbrev pub not8 : ℕ → ℕ
not8 x = 2 ^ 8 - 1 - x
