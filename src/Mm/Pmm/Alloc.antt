-- ===== src/Mm/Pmm/Alloc.antt =====
-- `pmm_alloc` as a whole: what the blocks are that it hands out, and when it hands out none.
pub mod Apart
pub mod Steps
mod Tests
use neo_sys_x.Common.{
  ℕ, zero, suc, ◌+◌, ◌-◌, ◌*◌, ◌/◌, ◌^◌, ◌≤◌, ◌<◌, ◌≡◌, ◌⊎◌, inl, inr, refl, Bool-cases, false,
  ◌&&◌, Option, none, some, ltb, ◌==◌, if◌then◌else◌, u32, u64, size_max, arith,
}
use native.Mathlib.Nat.{mul-le-mul_left, mul-le-mul_right, pow-succ'}
use neo_sys_x.Common.Bitmap.{pow_pos}
use neo_sys_x.Mm.Pmm.{
  Pmm, pmm_levels, frame_size, pick_level, search_level, search_levels, reserve, alloc,
}
use neo_sys_x.Mm.Pmm.Search.{Finds, NoFullWord, AllClear, search-Finds}

module _ (pmm : Pmm) (len : ℕ) where
  -- The blocks of level `k` that hold `len` bytes, as the code counts them, and all bits there.
  abbrev pub block_of : ℕ → ℕ
  block_of k = frame_size * 2 ^ k

  abbrev pub wanted : ℕ → ℕ
  wanted k = u32 (u64 (len + block_of k - 1) / block_of k)

  abbrev pub total : ℕ → ℕ
  total k = pmm.sizes k * 32

  -- A run of free blocks of level `k` from `start` on, inside the bitmap and no shorter than `len`.
  pub record IsFree (k start : ℕ) : Type 0 where
    pub inside : start + wanted k ≤ total k
    pub long : len ≤ wanted k * block_of k
    pub clear : AllClear (pmm.words k) start (wanted k)

  pub record Searchable : Type 0 where
    pub some_bytes : 1 ≤ len
    pub small : len < 2 ^ 31
    pub no_full : (k : ℕ) → k < pmm_levels → NoFullWord (pmm.words k) (total k)
    pub word : (k : ℕ) → k < pmm_levels → total k * block_of k < 2 ^ 32

  -- What the search over the levels from `top` down answers.
  abbrev pub Found : ℕ → Option ℕ → Type 0
  Found top (some addr) =
      (k : ℕ) × (start : ℕ) × (k ≤ top) × (addr ≡ start * block_of k) × IsFree k start
  Found top none = (start : ℕ) → IsFree 0 start → ⊥

  wanted_bounds :
      (k : ℕ) → Searchable → k < pmm_levels → (0 < wanted k) × (len ≤ wanted k * block_of k)
  wanted_bounds zero s h = omega (arith, s.some_bytes, s.small)
  wanted_bounds (suc zero) s h = omega (arith, s.some_bytes, s.small)
  wanted_bounds (suc (suc zero)) s h = omega (arith, s.some_bytes, s.small)
  wanted_bounds (suc (suc (suc zero))) s h = omega (arith, s.some_bytes, s.small)
  wanted_bounds (suc (suc (suc (suc k)))) s h = absurd (omega arith)

  halved : (level : ℕ) → 0 < level → block_of level / 2 ≡ block_of (level - 1)
  halved zero h = absurd (omega arith)
  halved (suc k) h = let e : suc k - 1 ≡ k = omega arith in rw e (omega (arith, pow-succ' 2 k))

  Found-later : (top top' : ℕ) (r : Option ℕ) → top ≤ top' → Found top r → Found top' r
  Found-later top top' none h f = f
  Found-later top top' (some addr) h (k, start, below, e, free) = (k, start, omega arith, e, free)

  -- What the search of a level and that of the levels below it come to.
  settle-Found :
      (level : ℕ) (r below : Option ℕ)
      → Searchable
      → level < pmm_levels
      → Finds (pmm.words level) (total level) (wanted level) 0 r
      → (0 < level → Found (level - 1) below)
      → Found level (elim r [
        | some start ↦ some (u32 (start * block_of level))
        | none ↦ if level == 0 then none else below
      ])
  settle-Found level (some start) below s h (low, fits, clear) rest =
      let b = wanted_bounds level s h in
      let room : start * block_of level ≤ total level * block_of level =
        mul-le-mul_right (block_of level) (omega arith) in
      let e : u32 (start * block_of level) ≡ start * block_of level =
        omega (arith, s.word level h) in
      (level, start, omega arith, e, record { inside = fits; long = b.1; clear = clear })
  settle-Found zero none below s h f rest =
      λ start free. f start (omega arith) free.inside free.clear
  settle-Found (suc k) none below s h f rest =
      let e : (suc k == 0) ≡ false = ground arith in
      let g : suc k - 1 ≡ k = omega arith in
      rw e (Found-later k (suc k) below (omega arith) (rw g at (rest (omega arith))))

  search_levels-Found :
      (left level : ℕ)
      → Searchable
      → level < left
      → left ≤ pmm_levels
      → Found level (search_levels left pmm level (block_of level) len)
  unfolding search_levels
  search_levels-Found zero level s h high = absurd (omega arith)
  search_levels-Found (suc left) level s h high =
      let b = wanted_bounds level s (omega arith) in
      let r =
        search_level (total level + 1) (pmm.words level) (total level) (wanted level) 0 0 0 0 in
      let f : Finds (pmm.words level) (total level) (wanted level) 0 r =
        search-Finds (pmm.words level) (total level) (wanted level) b.0
          (s.no_full level (omega arith)) in
      let word = s.word level (omega arith) in
      let some_block : 0 < block_of level = omega (arith, pow_pos level) in
      let one = mul-le-mul_left (total level) some_block in
      let fits : u32 (pmm.sizes level * 32) ≡ total level = omega (arith, word, one) in
      rw (fits, search_levels)
        (settle-Found level r (search_levels left pmm (level - 1) (block_of level / 2) len) s
          (omega arith) f
          (λ some_level.
            rw (halved level some_level)
              (search_levels-Found left (level - 1) s (omega arith) (omega arith))))

  -- The level picked first is one of the four, with its block size.
  pick_level-block :
      (left level : ℕ)
      → level < pmm_levels
      → (k : ℕ) × (k < pmm_levels)
        × (pick_level left pmm level (block_of level) len ≡ (k, block_of k))
  unfolding pick_level
  pick_level-block zero level h = (level, h, refl)
  pick_level-block (suc left) level h =
      elim (Bool-cases
        (ltb (block_of level) len && (ltb level (pmm_levels - 1) && pmm.present level))) [
          | inl e ↦
              let next : level + 1 < pmm_levels = ground arith in
              let one_more : level + 1 ≡ suc level = omega arith in
              let twice : block_of level * 2 ≡ block_of (level + 1) =
                rw one_more (omega (arith, pow-succ' 2 level)) in
              let (k, low, p) = pick_level-block left (level + 1) next in (k, low, rw (e, twice) p)
          | inr e ↦ (level, h, rw e refl)
        ]

  abbrev pub Allocated : ℕ → ℕ × Pmm → Type 0
  Allocated wide (addr, after) =
      ((k : ℕ) × (start : ℕ) × (k < pmm_levels)
        × (addr ≡ start * block_of k)
        × IsFree k start
        × (after ≡ reserve wide pmm addr len))
      ⊎ ((addr ≡ size_max) × (after ≡ pmm) × ((start : ℕ) → IsFree 0 start → ⊥))

  Found-Allocated :
      (wide top : ℕ) (r : Option ℕ)
      → top < pmm_levels
      → Found top r
      → Allocated wide
          (elim r [ some addr ↦ (addr, reserve wide pmm addr len) | none ↦ (size_max, pmm) ])
  Found-Allocated wide top (some addr) h (k, start, below, e, free) =
      inl (k, start, omega arith, e, free, refl)
  Found-Allocated wide top none h f = inr (refl, refl, f)

  -- For 1 byte to 2 GB, on bitmaps below 4 GB with no full word: either `pmm_alloc` answers the
  -- address of a run of blocks of one level that are all clear, inside the bitmap, and no shorter
  -- than was asked for, and reserves what was asked for from that address on; or it answers
  -- `UINTPTR_MAX` and changes nothing, and then no run of single frames is long enough.
  pub alloc-Allocated : (wide : ℕ) → Searchable → Allocated wide (alloc wide pmm len)
  unfolding alloc
  alloc-Allocated wide s =
      let (k, low, p) = pick_level-block pmm_levels 0 (omega arith) in
      rw (p, alloc)
        (Found-Allocated wide k (search_levels pmm_levels pmm k (block_of k) len) low
          (search_levels-Found pmm_levels k s low (omega arith)))
