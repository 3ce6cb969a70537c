-- ===== src/Algo/Idalloc/Tests.antt =====
-- The id allocator on concrete bitmaps.
use neo_sys_x.Common.{
  ℕ, ◌^◌, ◌<◌, ◌≡◌, refl, ◌≢◌, true, false, Option, none, some, ◌==◌, if◌then◌else◌, arith,
  Bool-cases, inl, inr,
}
use mathlib.Core.Option.{some-injective, none-ne-some}
use neo_sys_x.Common.Bitmap.{Bitmap}
use neo_sys_x.Algo.Idalloc.{Idalloc, alloc, free}
use neo_sys_x.Algo.Idalloc.Wf.{IsWf, IsHeap, used}
use neo_sys_x.Algo.Idalloc.Alloc.{Returns, alloc-Returns}
use neo_sys_x.Algo.Idalloc.Size.{free-alloc}

-- Ids 0 to 2 are taken.
abbrev three_taken : Idalloc
three_taken = record {
  size = 4096;
  bitmap = λ k. if k == 0 then 7 else 0;
  present = true;
  next_to_allocate = 1;
  is_static = false;
}

-- A heap with room for one frame more.
abbrev small_heap : ℕ → Option Bitmap
small_heap n = if n == 8192 then some (λ k. 5) else none

three_taken-IsWf : IsWf three_taken
three_taken-IsWf = record {
  words = λ k. ground arith;
  whole = refl;
  bounded = omega arith;
  next_bounded = omega arith;
}

small_heap-IsHeap : IsHeap small_heap
small_heap-IsHeap = record { fresh_words = λ n g e. words n g e; limit = λ n g e. ground arith }
  where
    words : (n : ℕ) (g : Bitmap) → small_heap n ≡ some g → (k : ℕ) → g k < 2 ^ 32
    words n g e k = elim (Bool-cases (n == 8192)) [
      | inl room ↦
          (let same : (λ (i : ℕ). 5) ≡ g = some-injective (λ (i : ℕ). 5) g (rw room at e) in
            rw (← same) (omega arith))
      | inr full ↦ absurd (none-ne-some g (rw full at e))
    ]

alloc-Returns_example : Returns three_taken (alloc small_heap three_taken)
alloc-Returns_example = alloc-Returns small_heap small_heap-IsHeap three_taken-IsWf

free-alloc_example :
    IsWf (free three_taken 0)
    × ((j : ℕ) → used (free three_taken 0) j ≡ (if j == 0 then 0 else used three_taken j))
    × (got : ℕ) × (after : Idalloc) × (alloc small_heap (free three_taken 0) ≡ some (got, after))
    × (got ≢ 0)
free-alloc_example =
    free-alloc small_heap three_taken 0 small_heap-IsHeap three_taken-IsWf (omega arith)
