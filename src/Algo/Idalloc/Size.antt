-- ===== src/Algo/Idalloc/Size.antt =====
-- `idalloc_init`, `idalloc_free` and `idalloc_trim`: which ids they leave taken.
use neo_sys_x.Common.{
  ℕ, zero, suc, ◌*◌, ◌/◌, ◌%◌, ◌^◌, ◌≤◌, ◌<◌, ◌≡◌, refl, ◌≢◌, true, false, Option, some, ◌==◌,
  if◌then◌else◌, arith, Option-cases, inl, inr,
}
use neo_sys_x.Common.Bits.{bit-zero}
use neo_sys_x.Common.Bitmap.{Bitmap}
use neo_sys_x.Algo.Idalloc.{Idalloc, init, free, trim, last_used, trimmed_size, increment, alloc}
use neo_sys_x.Algo.Idalloc.Wf.{IsWf, IsHeap, used}
use neo_sys_x.Algo.Idalloc.Alloc.{Returns, alloc-Returns, free-IsWf, free-used}

-- For a dynamic bitmap of at most 128 MB, and where `calloc` gives the memory, `idalloc_init`
-- leaves a well-formed allocator of whole frames, at least as large, with no id taken, which
-- starts at id 0.
pub init-IsWf :
    (base : Idalloc)
    → base.is_static ≡ false
    → base.size ≤ 2 ^ 27
    → let (done, after) = init true base in
      (done ≡ true)
      × IsWf after
      × (after.next_to_allocate ≡ 0)
      × (after.size % increment ≡ 0)
      × (base.size ≤ after.size)
      × ((j : ℕ) → used after j ≡ 0)
unfolding init
init-IsWf base dynamic small = simp dynamic (
  refl,
  record {
    words = λ k. omega arith;
    whole = ground arith;
    bounded = ground arith;
    next_bounded = omega arith;
  },
  refl,
  ground arith,
  ground arith,
  λ j. ground (arith, bit-zero (j % 32)),
)

-- After the words that `idalloc_trim` keeps, all are empty.
last_used-le : (n : ℕ) (words : Bitmap) → last_used n words ≤ n
unfolding last_used
last_used-le zero words = omega arith
last_used-le (suc n) words = ground (arith, last_used-le n words)

last_used-empty : (n k : ℕ) (words : Bitmap) → last_used n words ≤ k → k < n → words k ≡ 0
unfolding last_used
last_used-empty zero k words h l = absurd (omega arith)
last_used-empty (suc n) k words h l = ground (arith, last_used-empty n k words)

trimmed_size_bounds :
    (base : Idalloc)
    → IsWf base
    → (last_used (base.size / 4) base.bitmap * 4 ≤ trimmed_size base) × (trimmed_size base % 4 ≡ 0)
trimmed_size_bounds base wf = (
  ground (arith, last_used-le (base.size / 4) base.bitmap, wf.bounded),
  ground (arith, last_used-le (base.size / 4) base.bitmap, wf.bounded),
)

-- `idalloc_trim` of a well-formed allocator keeps every id that is taken, whatever `realloc`
-- answers.
trim-used :
    (realloc : ℕ → Option Bitmap) (base : Idalloc) (j : ℕ)
    → IsWf base
    → used base j ≡ 1
    → used (trim realloc base) j ≡ 1
unfolding trim
trim-used realloc base j wf u = elim (Option-cases (realloc (trimmed_size base))) [
  | inl failed ↦ rw (failed, trim) u
  | inr (fresh, got) ↦
      rw (got, trim)
        (ground (
          arith,
          bit-zero (j % 32),
          trimmed_size_bounds base wf,
          last_used-empty (base.size / 4) (j / 32) base.bitmap,
          wf.whole,
        ))
]

-- `idalloc_free` of an id below `next_to_allocate` makes the one id free and keeps the allocator
-- well formed. The next allocation does not hand that id out, even where it finds no other.
pub free-alloc :
    (realloc : ℕ → Option Bitmap) (base : Idalloc) (id : ℕ)
    → IsHeap realloc
    → IsWf base
    → id < base.next_to_allocate
    → IsWf (free base id)
      × ((j : ℕ) → used (free base id) j ≡ (if j == id then 0 else used base j))
      × (got : ℕ) × (after : Idalloc) × (alloc realloc (free base id) ≡ some (got, after))
      × (got ≢ id)
free-alloc realloc base id heap wf below =
    let (got, after, e, differs) = above (alloc-Returns realloc heap (free-IsWf wf id)) in
    (free-IsWf wf id, free-used wf id, got, after, e, differs)
  where
    same_next : (free base id).next_to_allocate ≡ base.next_to_allocate
    same_next = unfold free in ground arith

    above :
        Returns (free base id) (alloc realloc (free base id))
        → (got : ℕ) × (after : Idalloc) × (alloc realloc (free base id) ≡ some (got, after))
          × (got ≢ id)
    above (got, after, e, inl took) = (got, after, e, ground (arith, same_next, took.from_next))
    above (got, after, e, inr none_left) =
        (got, after, e, ground (arith, none_left.no_id, wf.next_bounded))
