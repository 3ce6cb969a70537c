-- ===== src/Common/Bits.antt =====
-- The bits of a word, and what `&`, `|`, `~` and shifts do to each of them.
use Prim.Native.Nat.{ℕ, zero, suc, ◌+◌, ◌-◌, ◌*◌, ◌/◌, ◌%◌, ◌^◌, ◌≤◌, ◌<◌, min, max}
use Prim.Native.Nat.{bit_and, bit_or, digits, bitwise, bit_and-bitwise, bit_or-bitwise}
use mathlib.Core.Path.{◌≡◌, refl, ap, sym, ◌∙◌, sym}
use mathlib.Core.Logic.{◌≢◌}
use native.Mathlib.Nat.{
  pow-suc, pow-succ', one-le-pow, div-add-mod, div-div-eq-div-mul, mod-lt, mod-eq_of_lt,
  add-mul-mod_self_left,
}
use native.Mathlib.Omega.{arith}

-- Bit `i` of `x`, as 0 or 1.
unfoldable pub bit : ℕ → ℕ → ℕ
bit x zero = x % 2
bit x (suc i) = bit (x / 2) i

pub bit-le : (x i : ℕ) → bit x i ≤ 1
unfolding bit
bit-le x zero = omega arith
bit-le x (suc i) = bit-le (x / 2) i

-- The digit recursion by which the native operations are specified, at any sufficient depth.
module _ (z : ℕ → ℕ) (f : ℕ → ℕ → ℕ) where
  digits_depth : (n m a b : ℕ) → a ≤ n → a ≤ m → digits z f n a b ≡ digits z f m a b
  digits_depth zero zero a b p q = refl
  digits_depth zero (suc m) zero b p q = refl
  digits_depth (suc n) zero zero b p q = refl
  digits_depth (suc n) (suc m) zero b p q = refl
  digits_depth zero (suc m) (suc a) b p q = absurd (omega arith)
  digits_depth (suc n) zero (suc a) b p q = absurd (omega arith)
  digits_depth (suc n) (suc m) (suc a) b p q =
      rw (digits_depth n m (suc a / 2) (b / 2) (omega arith) (omega arith))

  halve_bitwise :
      (a b : ℕ)
      → bitwise z f (suc a) b ≡ bitwise z f (suc a / 2) (b / 2) * 2 + f (suc a % 2) (b % 2)
  halve_bitwise a b =
      omega (arith, digits_depth a (suc a / 2) (suc a / 2) (b / 2) (omega arith) (omega arith))

bit_or_halves : (a b : ℕ) → bit_or a b ≡ bit_or (a / 2) (b / 2) * 2 + max (a % 2) (b % 2)
bit_or_halves zero b = simp bit_or-bitwise (omega arith)
bit_or_halves (suc a) b = simp bit_or-bitwise (halve_bitwise (λ y. y) max a b)

bit_and_halves : (a b : ℕ) → bit_and a b ≡ bit_and (a / 2) (b / 2) * 2 + min (a % 2) (b % 2)
bit_and_halves zero b = simp bit_and-bitwise (omega arith)
bit_and_halves (suc a) b = simp bit_and-bitwise (halve_bitwise (λ y. 0) min a b)

pub bit-bit_or : (a b i : ℕ) → bit (bit_or a b) i ≡ max (bit a i) (bit b i)
unfolding bit
bit-bit_or a b zero = omega (arith, bit_or_halves a b)
bit-bit_or a b (suc i) =
    let h : bit_or a b / 2 ≡ bit_or (a / 2) (b / 2) = omega (arith, bit_or_halves a b) in
    rw h (bit-bit_or (a / 2) (b / 2) i)

pub bit-bit_and : (a b i : ℕ) → bit (bit_and a b) i ≡ min (bit a i) (bit b i)
unfolding bit
bit-bit_and a b zero = omega (arith, bit_and_halves a b)
bit-bit_and a b (suc i) =
    let h : bit_and a b / 2 ≡ bit_and (a / 2) (b / 2) = omega (arith, bit_and_halves a b) in
    rw h (bit-bit_and (a / 2) (b / 2) i)

pub bit-zero : (i : ℕ) → bit 0 i ≡ 0
unfolding bit
bit-zero zero = refl
bit-zero (suc i) = bit-zero i

pub bit_pow_self : (k : ℕ) → bit (2 ^ k) k ≡ 1
unfolding bit
bit_pow_self zero = refl
bit_pow_self (suc k) =
    let h : 2 ^ suc k / 2 ≡ 2 ^ k = omega (arith, pow-suc 2 k) in rw h (bit_pow_self k)

pub bit_pow_ne : (k i : ℕ) → i ≢ k → bit (2 ^ k) i ≡ 0
unfolding bit
bit_pow_ne zero zero h = absurd (h refl)
bit_pow_ne zero (suc i) h = bit-zero i
bit_pow_ne (suc k) zero h = omega (arith, pow-suc 2 k)
bit_pow_ne (suc k) (suc i) h =
    let e : 2 ^ suc k / 2 ≡ 2 ^ k = omega (arith, pow-suc 2 k) in
    rw e (bit_pow_ne k i (λ p. h (ap suc p)))

-- `~x` flips every bit within the width.
pub bit_not : (w x i : ℕ) → x < 2 ^ w → i < w → bit (2 ^ w - 1 - x) i ≡ 1 - bit x i
unfolding bit
bit_not zero x i hx hi = absurd (omega arith)
bit_not (suc w) x zero hx hi = omega (arith, pow-suc 2 w)
bit_not (suc w) x (suc i) hx hi =
    let e : (2 ^ suc w - 1 - x) / 2 ≡ 2 ^ w - 1 - x / 2 = omega (arith, pow-suc 2 w) in
    rw e (bit_not w (x / 2) i (omega (arith, pow-suc 2 w)) (omega arith))

pub bit_or-lt : (w a b : ℕ) → a < 2 ^ w → b < 2 ^ w → bit_or a b < 2 ^ w
bit_or-lt zero a b ha hb =
    let ea : a ≡ 0 = omega arith in let eb : b ≡ 0 = omega arith in rw (ea, eb) (omega arith)
bit_or-lt (suc w) a b ha hb = omega (
  arith,
  pow-suc 2 w,
  bit_or_halves a b,
  bit_or-lt w (a / 2) (b / 2) (omega (arith, pow-suc 2 w)) (omega (arith, pow-suc 2 w)),
)

pub bit_and-le : (n a b : ℕ) → a ≤ n → bit_and a b ≤ a
bit_and-le n zero b h = omega (arith, bit_and-bitwise 0 b)
bit_and-le zero (suc a) b h = absurd (omega arith)
bit_and-le (suc n) (suc a) b h =
    omega (arith, bit_and_halves (suc a) b, bit_and-le n (suc a / 2) (b / 2) (omega arith))

bit_and-zero : (n a : ℕ) → a ≤ n → bit_and a 0 ≡ 0
bit_and-zero n zero h = refl
bit_and-zero zero (suc a) h = absurd (omega arith)
bit_and-zero (suc n) (suc a) h =
    omega (arith, bit_and_halves (suc a) 0, bit_and-zero n (suc a / 2) (omega arith))

-- The test `x & (1 << k)` reads bit `k`.
pub bit_and_pow : (k x : ℕ) → bit_and x (2 ^ k) ≡ bit x k * 2 ^ k
unfolding bit
bit_and_pow zero x = omega (arith, bit_and_halves x 1, bit_and-zero (x / 2) (x / 2) (omega arith))
bit_and_pow (suc k) x =
    let e : 2 ^ suc k / 2 ≡ 2 ^ k = omega (arith, pow-suc 2 k) in
    let h : bit_and (x / 2) (2 ^ suc k / 2) ≡ bit (x / 2) k * 2 ^ k =
      rw e (bit_and_pow k (x / 2)) in
    omega (
      arith,
      pow-suc 2 k,
      bit_and_halves x (2 ^ suc k),
      h,
      ap (λ (t : ℕ). bit (x / 2) k * t) (pow-suc 2 k),
    )

-- A word below `2 ^ w` has no bit from `w` on.
pub bit_of_lt : (w x i : ℕ) → x < 2 ^ w → w ≤ i → bit x i ≡ 0
unfolding bit
bit_of_lt zero x i hx hi = let e : x ≡ 0 = omega arith in rw e (bit-zero i)
bit_of_lt (suc w) x zero hx hi = absurd (omega arith)
bit_of_lt (suc w) x (suc i) hx hi = bit_of_lt w (x / 2) i (omega (arith, pow-suc 2 w)) (omega arith)

-- `(1 << w) - 1` has exactly the bits below `w`.
pub bit_ones : (w i : ℕ) → i < w → bit (2 ^ w - 1) i ≡ 1
bit_ones w i h =
    let e : 2 ^ w - 1 ≡ 2 ^ w - 1 - 0 = omega arith in
    rw e (omega (arith, bit_not w 0 i (one-le-pow w 2 (omega arith)) h, bit-zero i))

-- `x << s` moves bit `i` to `s + i` and leaves zeros below.
pub bit_shl : (s x i : ℕ) → bit (x * 2 ^ s) (s + i) ≡ bit x i
unfolding bit
bit_shl zero x i =
    let e : x * 2 ^ 0 ≡ x = omega arith in let f : 0 + i ≡ i = omega arith in rw (e, f)
bit_shl (suc s) x i =
    let e : x * 2 ^ suc s / 2 ≡ x * 2 ^ s = omega (arith, ap (λ (t : ℕ). x * t) (pow-suc 2 s)) in
    let f : suc s + i ≡ suc (s + i) = omega arith in rw (f, bit, e) (bit_shl s x i)

pub bit_shl_low : (s x i : ℕ) → i < s → bit (x * 2 ^ s) i ≡ 0
unfolding bit
bit_shl_low zero x i h = absurd (omega arith)
bit_shl_low (suc s) x zero h = omega (arith, ap (λ (t : ℕ). x * t) (pow-suc 2 s))
bit_shl_low (suc s) x (suc i) h =
    let e : x * 2 ^ suc s / 2 ≡ x * 2 ^ s = omega (arith, ap (λ (t : ℕ). x * t) (pow-suc 2 s)) in
    rw e (bit_shl_low s x i (omega arith))

half_mod : (p x : ℕ) → 0 < p → x % (2 * p) / 2 ≡ x / 2 % p
half_mod p x h =
    let split : x / 2 ≡ x % (2 * p) / 2 + p * (x / (2 * p)) =
      omega (arith, div-add-mod x (2 * p)) in
    let small : x % (2 * p) < 2 * p = mod-lt x (omega arith) in
    rw (split, add-mul-mod_self_left (x % (2 * p) / 2) p (x / (2 * p)))
      (sym (mod-eq_of_lt {n = x % (2 * p) / 2} {m = p} (omega arith)))

-- Truncation to `w` bits keeps the bits below `w`.
pub bit_mod : (w x i : ℕ) → i < w → bit (x % 2 ^ w) i ≡ bit x i
unfolding bit
bit_mod zero x i h = absurd (omega arith)
bit_mod (suc w) x zero h =
    let e : 2 ^ suc w ≡ 2 * 2 ^ w = omega (arith, pow-suc 2 w) in
    rw e (omega (arith, div-add-mod x (2 * 2 ^ w)))
bit_mod (suc w) x (suc i) h =
    let e : x % 2 ^ suc w / 2 ≡ x / 2 % 2 ^ w =
      rw (pow-succ' 2 w) (half_mod (2 ^ w) x (one-le-pow w 2 (omega arith))) in
    rw e (bit_mod w (x / 2) i (omega arith))

-- `x >> s` moves bit `s + i` to `i`.
pub bit_shr : (s x i : ℕ) → bit (x / 2 ^ s) i ≡ bit x (i + s)
unfolding bit
bit_shr zero x i =
    let e : x / 2 ^ 0 ≡ x = omega arith in let f : i + 0 ≡ i = omega arith in rw (e, f) refl
bit_shr (suc s) x i =
    let e : x / 2 ^ suc s ≡ x / 2 / 2 ^ s =
      ap (λ (t : ℕ). x / t) {x = 2 ^ suc s} {y = 2 * 2 ^ s} (omega (arith, pow-suc 2 s))
      ∙ sym (div-div-eq-div-mul x 2 (2 ^ s)) in
    let f : i + suc s ≡ suc (i + s) = omega arith in rw (e, f) (bit_shr s (x / 2) i)
