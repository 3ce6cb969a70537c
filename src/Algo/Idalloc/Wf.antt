-- ===== src/Algo/Idalloc/Wf.antt =====
-- What holds of an id allocator between calls, which ids it counts as taken, and what the loop of
-- `idalloc_alloc` does from an id on.
use neo_sys_x.Common.{
  ℕ, zero, suc, ◌+◌, ◌*◌, ◌/◌, ◌%◌, ◌^◌, ◌≤◌, ◌<◌, ◌≡◌, ◌≢◌, Option, some, ltb, leb, if◌then◌else◌,
  arith, Bool-cases, inl, inr, u32,
}
use neo_sys_x.Common.Bitmap.{Bitmap, IsWords, mark, test_bit, test_bit-mark}
use neo_sys_x.Algo.Idalloc.{Idalloc, Scan, found, ended, out_of_fuel, scan}

-- The bitmap is made of whole words and is below 256 MB, so that no id wraps around.
pub record IsWf (base : Idalloc) : Type 0 where
  pub words : IsWords base.bitmap
  pub whole : base.size % 4 ≡ 0
  pub bounded : base.size < 2 ^ 28
  pub next_bounded : base.next_to_allocate ≤ 2 ^ 31

-- What `realloc` is taken to do: its blocks hold 32-bit words, and there is no room for 256 MB.
pub record IsHeap (realloc : ℕ → Option Bitmap) : Type 0 where
  pub fresh_words : (n : ℕ) (g : Bitmap) → realloc n ≡ some g → IsWords g
  pub limit : (n : ℕ) (g : Bitmap) → realloc n ≡ some g → n < 2 ^ 28

-- 1 for an id that the bitmap has marked; beyond the bitmap nothing is.
abbrev pub used : Idalloc → ℕ → ℕ
used base i = if ltb (i / 32 * 4) base.size then mark base.bitmap i else 0

-- A stretch of ids, all of them taken.
abbrev pub AllUsed : Idalloc → ℕ → ℕ → Type 0
AllUsed base from to = (j : ℕ) → from ≤ j → j < to → used base j ≡ 1

abbrev pub Scanned : Idalloc → ℕ → Scan → Type 0
Scanned base id (found i) =
    (id ≤ i) × (i / 32 * 4 < base.size) × (mark base.bitmap i ≢ 1) × AllUsed base id i
Scanned base id (ended i) = (id ≤ i) × (i ≤ 2 ^ 31) × (base.size ≤ i / 32 * 4) × AllUsed base id i
Scanned base id out_of_fuel = ⊥

module _ {base : Idalloc} (wf : IsWf base) where
  Scanned-later :
      (id : ℕ) (s : Scan)
      → id / 32 * 4 < base.size
      → mark base.bitmap id ≡ 1
      → Scanned base (id + 1) s
      → Scanned base id s
  Scanned-later id (found i) h m (a, b, c, all) =
      (omega arith, b, c, λ j p q. ground (arith, all j))
  Scanned-later id (ended i) h m (a, b, c, all) =
      (omega arith, b, c, λ j p q. ground (arith, all j))
  Scanned-later id out_of_fuel h m s = s

  -- The loop ends within its fuel, at the first free id or at the end of the bitmap.
  pub scan-Scanned :
      (fuel id : ℕ)
      → id ≤ 2 ^ 31
      → base.size * 8 + 1 ≤ fuel + id
      → 0 < fuel
      → Scanned base id (scan fuel base id)
  unfolding scan
  scan-Scanned zero id b h f = absurd (omega arith)
  scan-Scanned (suc fuel) id b h f = elim (Bool-cases (leb base.size (id / 32 * 4))) [
    | inl out ↦ rw out (omega arith, b, ground arith, λ j p q. absurd (omega arith))
    | inr inside ↦ rw inside (elim (Bool-cases (test_bit base.bitmap id)) [
      | inl taken ↦
          let below : id < base.size * 8 = ground (arith, wf.whole) in
          let e : u32 (id + 1) ≡ id + 1 = ground (arith, wf.bounded) in
          let rest =
            scan-Scanned fuel (id + 1) (omega (arith, wf.bounded)) (omega arith) (omega arith) in
          rw (taken, e)
            (Scanned-later id (scan fuel base (id + 1)) (ground arith)
              (ground (arith, test_bit-mark base.bitmap id)) rest)
      | inr clear ↦ rw clear (
        omega arith,
        ground arith,
        ground (arith, test_bit-mark base.bitmap id),
        λ j p q. absurd (omega arith),
      )
    ])
  ]
