-- ===== src/Mm/Pmm/Alloc/Apart.antt =====
-- Two allocations of kernel/common/src/mm/pmm.c, one after the other.
use neo_sys_x.Common.{
  ℕ, ◌+◌, ◌*◌, ◌/◌, ◌^◌, ◌≤◌, ◌<◌, ◌≡◌, ◌≢◌, subst, ◌⊎◌, inl, inr, Bool-cases, ltb, size_max, arith,
}
use native.Mathlib.Nat.{div-add-mod', mod-lt, div-lt_iff_lt-mul, le-div_iff_mul-le}
use neo_sys_x.Common.Bitmap.{mark, pow_pos}
use neo_sys_x.Mm.Pmm.{Pmm, pmm_levels, frame_size, alloc, reserve}
use neo_sys_x.Mm.Pmm.Levels.{Reserves, reserve-marks}
use neo_sys_x.Mm.Pmm.Alloc.{Searchable, IsFree, Allocated, block_of, wanted, alloc-Allocated}

-- The block of a byte of a run is one of the run's.
block_in_run :
    (block start count len x : ℕ)
    → 0 < block
    → len ≤ count * block
    → start * block ≤ x
    → x < start * block + len
    → (start ≤ x / block) × (x / block < start + count)
block_in_run block start count len x some_block long from to =
    let whole : (start + count) * block ≡ start * block + count * block = omega arith in
    let low = (le-div_iff_mul-le {k = block} {x = start} {y = x} some_block).1 from in
    let high =
      (div-lt_iff_lt-mul {k = block} {x = x} {y = start + count} some_block).1 (omega arith) in
    (low, high)

-- A byte of a free run and a byte that has been reserved are never the same.
free_run :
    (wide : ℕ) (p : Pmm) (addr len len2 k start x : ℕ)
    → Reserves wide p addr len
    → k < pmm_levels
    → IsFree (reserve wide p addr len) len2 k start
    → addr ≤ x
    → x < addr + len
    → x < p.max_size
    → start * block_of p len2 k ≤ x
    → x < start * block_of p len2 k + len2
    → ⊥
free_run wide p addr len len2 k start x r level free low high inside from to =
    let block = frame_size * 2 ^ k in
    let j = x / block in
    let some_block : 0 < block = omega (arith, pow_pos k) in
    let whole = div-add-mod' x block in
    let part = mod-lt x some_block in
    let next : (j + 1) * block ≡ j * block + block = omega arith in
    let marked : mark ((reserve wide p addr len).words k) j ≡ 1 =
      reserve-marks wide p addr len k j r level (omega arith) (omega arith) (omega arith) in
    let (first, last) =
      block_in_run block start (wanted (reserve wide p addr len) len2 k) len2 x some_block free.long
        from to in
    let clear = free.clear j first last in omega (arith, clear, marked)

-- What a second call hands out, given the state that the first one left.
second_apart :
    (wide : ℕ) (p after : Pmm) (addr len len2 other x : ℕ)
    → Reserves wide p addr len
    → other ≢ size_max
    → Allocated (reserve wide p addr len) len2 wide (other, after)
    → x < p.max_size
    → addr ≤ x
    → x < addr + len
    → other ≤ x
    → x < other + len2
    → ⊥
second_apart wide p after addr len len2 other x r some_addr (inr (e, q, none_free)) =
    absurd (some_addr e)
second_apart wide p after addr len len2 other x r some_addr (inl (k, start, level, e, free, q)) =
    λ inside low high from to.
      free_run wide p addr len len2 k start x r level free low high inside (rw (← e) from)
        (rw (← e) to)

-- Two ranges without a byte in common below `end`, where both begin below it.
ranges_apart :
    (a m b n end : ℕ)
    → ((x : ℕ) → x < end → a ≤ x → x < a + m → b ≤ x → x < b + n → ⊥)
    → a < end
    → b < end
    → 1 ≤ m
    → 1 ≤ n
    → (a + m ≤ b) ⊎ (b + n ≤ a)
ranges_apart a m b n end none_common h g some_m some_n = elim (Bool-cases (ltb a b)) [
  | inl c ↦ elim (Bool-cases (ltb b (a + m))) [
    | inl e ↦ absurd (none_common b g (ground arith) (ground arith) (omega arith) (omega arith))
    | inr e ↦ inl (ground arith)
  ]
  | inr c ↦ elim (Bool-cases (ltb a (b + n))) [
    | inl e ↦ absurd (none_common a h (omega arith) (omega arith) (ground arith) (ground arith))
    | inr e ↦ inr (ground arith)
  ]
]

-- Two calls of `pmm_alloc` for 1 byte to 2 GB each, on bitmaps below 4 GB with no full word, the
-- second on the state that the first one leaves, both answered with an address below the end of the
-- memory: one of the two ranges that were asked for ends before the other begins. The first call's
-- reservation is to have bitmaps at all four levels and fewer than 2^63 bytes of memory, neither to
-- wrap around nor to ask for a shift by 32 (or that gives 0).
pub alloc-alloc_apart :
    (wide : ℕ) (p one two : Pmm) (len len2 addr other : ℕ)
    → Searchable p len
    → alloc wide p len ≡ (addr, one)
    → addr < p.max_size
    → Reserves wide p addr len
    → Searchable one len2
    → alloc wide one len2 ≡ (other, two)
    → other < p.max_size
    → other ≢ size_max
    → addr ≢ size_max
    → (addr + len ≤ other) ⊎ (other + len2 ≤ addr)
alloc-alloc_apart wide p one two len len2 addr other s e inside r s2 e2 inside2 some_other
      some_addr =
    elim (subst (Allocated p len wide) e (alloc-Allocated p len wide s)) [
      | inl (k, start, level, f, free, g) ↦
          let second : Allocated (reserve wide p addr len) len2 wide (other, two) =
            subst (λ q. Allocated q len2 wide (other, two)) g
              (subst (Allocated one len2 wide) e2 (alloc-Allocated one len2 wide s2)) in
          ranges_apart addr len other len2 p.max_size
            (λ x. second_apart wide p two addr len len2 other x r some_other second) inside inside2
            s.some_bytes s2.some_bytes
      | inr (f, g, none_free) ↦ absurd (some_addr f)
    ]
