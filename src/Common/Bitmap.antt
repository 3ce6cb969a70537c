-- ===== src/Common/Bitmap.antt =====
-- A bitmap in an array of 32-bit words, as the id and frame allocators keep it: bit `i % 32` of
-- word `i / 32` stands for item `i`.
use Prim.Native.Nat.{ℕ, zero, suc, ◌*◌, ◌/◌, ◌%◌, ◌^◌, ◌≤◌, ◌<◌, bit_and, bit_or}
use mathlib.Core.Path.{◌≡◌}
use mathlib.Core.Bool.{Bool, true, false}
use native.Mathlib.Omega.{arith}
use native.Mathlib.Nat.{pow-le-pow_right, one-le-pow}
use neo_sys_x.Common.Bits.{
  bit, bit-le, bit-bit_or, bit-bit_and, bit_pow_self, bit_pow_ne, bit_not, bit_or-lt, bit_and-le,
  bit_and_pow,
}
use neo_sys_x.Common.Tests.{◌==◌, if◌then◌else◌, update}
use neo_sys_x.Common.Words.{not32}

-- The words of a bitmap, by index.
abbrev pub Bitmap : Type 0
Bitmap = ℕ → ℕ

-- Every word has 32 bits.
abbrev pub IsWords : Bitmap → Type 0
IsWords m = (k : ℕ) → m k < 2 ^ 32

-- What the bitmap says of item `i`: 1 for taken, 0 for free.
abbrev pub mark : Bitmap → ℕ → ℕ
mark m i = bit (m (i / 32)) (i % 32)

-- `bitmap[i / 32] & (1 << i % 32)` is not zero.
unfoldable pub test_bit : Bitmap → ℕ → Bool
test_bit m i = if bit_and (m (i / 32)) (2 ^ (i % 32)) == 0 then false else true

-- `bitmap[i / 32] |= 1 << i % 32`
unfoldable pub set_bit : Bitmap → ℕ → Bitmap
set_bit m i = update m (i / 32) (bit_or (m (i / 32)) (2 ^ (i % 32)))

-- `bitmap[i / 32] &= ~(1 << i % 32)`
unfoldable pub clear_bit : Bitmap → ℕ → Bitmap
clear_bit m i = update m (i / 32) (bit_and (m (i / 32)) (not32 (2 ^ (i % 32))))

pub pow-lt : (k : ℕ) → k < 32 → 2 ^ k < 2 ^ 32
pow-lt k h = omega (arith, pow-le-pow_right {n = 2} (omega arith) {i = k} {j = 31} (omega arith))

pub pow_pos : (k : ℕ) → 0 < 2 ^ k
pow_pos k = one-le-pow k 2 (omega arith)

one_bit : (b p : ℕ) → b ≤ 1 → 0 < p → (if b * p == 0 then false else true) ≡ (b == 1)
one_bit zero p h q = let e : 0 * p ≡ 0 = omega arith in rw e
one_bit (suc zero) p h q = ground arith
one_bit (suc (suc b)) p h q = absurd (omega arith)

pub test_bit-mark : (m : Bitmap) (i : ℕ) → test_bit m i ≡ (mark m i == 1)
unfolding test_bit
test_bit-mark m i =
    rw (bit_and_pow (i % 32) (m (i / 32)))
      (one_bit (mark m i) (2 ^ (i % 32)) (bit-le (m (i / 32)) (i % 32)) (pow_pos (i % 32)))

pub mark-set_bit : (m : Bitmap) (i j : ℕ) → mark (set_bit m i) j ≡ (if j == i then 1 else mark m j)
unfolding set_bit
mark-set_bit m i j = ground (
  arith,
  bit-bit_or (m (i / 32)) (2 ^ (i % 32)) (j % 32),
  bit_pow_self (i % 32),
  bit_pow_ne (i % 32) (j % 32),
  bit-le (m (j / 32)) (j % 32),
)

pub mark-clear_bit :
    (m : Bitmap) (i j : ℕ) → IsWords m → mark (clear_bit m i) j ≡ (if j == i then 0 else mark m j)
unfolding clear_bit
mark-clear_bit m i j h = ground (
  arith,
  bit-bit_and (m (i / 32)) (not32 (2 ^ (i % 32))) (j % 32),
  bit_not 32 (2 ^ (i % 32)) (j % 32) (pow-lt (i % 32) (omega arith)) (omega arith),
  bit_pow_self (i % 32),
  bit_pow_ne (i % 32) (j % 32),
  bit-le (m (j / 32)) (j % 32),
)

pub set_bit-IsWords : (m : Bitmap) (i : ℕ) → IsWords m → IsWords (set_bit m i)
unfolding set_bit
set_bit-IsWords m i h k = ground (
  arith,
  h k,
  bit_or-lt 32 (m (i / 32)) (2 ^ (i % 32)) (h (i / 32)) (pow-lt (i % 32) (omega arith)),
)

pub clear_bit-IsWords : (m : Bitmap) (i : ℕ) → IsWords m → IsWords (clear_bit m i)
unfolding clear_bit
clear_bit-IsWords m i h k = ground (
  arith,
  h k,
  h (i / 32),
  bit_and-le (m (i / 32)) (m (i / 32)) (not32 (2 ^ (i % 32))) (omega arith),
)

-- `x & (1 << i)` is 0 exactly when bit `i` is.
pub bit_and_pow-eq-zero : (x i : ℕ) → (bit_and x (2 ^ i) == 0) ≡ (bit x i == 0)
bit_and_pow-eq-zero x i = rw (bit_and_pow i x) (zero_bit (bit x i) (2 ^ i) (bit-le x i) (pow_pos i))
  where
    zero_bit : (b p : ℕ) → b ≤ 1 → 0 < p → (b * p == 0) ≡ (b == 0)
    zero_bit zero p h q = let e : 0 * p ≡ 0 = omega arith in rw e
    zero_bit (suc zero) p h q = ground arith
    zero_bit (suc (suc b)) p h q = absurd (omega arith)
