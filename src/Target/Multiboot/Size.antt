-- ===== src/Target/Multiboot/Size.antt =====
-- The two functions for the size of the memory agree, and cover the memory map.
use neo_sys_x.Common.{
  ◌%◌, ℕ, zero, suc, ◌+◌, ◌^◌, ◌≤◌, ◌<◌, ◌≡◌, refl, ◌≢◌, inl, inr, Bool-cases, true, false, Option,
  some, leb, ◌==◌, arith,
}
use neo_sys_x.Target.Multiboot.{
  available, Entry, Info, mmap_end, next_entry, mb_traverse_mmap, larger, size_loop, size_loop_lh,
  pmm_get_size, pmm_get_size_lh,
}

module _ (entry : ℕ → Entry) (info : Info) where
  -- The map is somewhere, is not empty, and does not reach the end of the address space, and
  -- neither does an entry that begins in it.
  pub record IsMap : Type 0 where
    pub some_map : info.mmap_addr ≢ 0
    pub some_bytes : 1 ≤ info.mmap_length
    pub fits : info.mmap_addr + info.mmap_length < 2 ^ 32
    pub entries_fit :
        (a : ℕ)
        → info.mmap_addr ≤ a
        → a < info.mmap_addr + info.mmap_length
        → a + (entry a).size + 4 < 2 ^ 32

  -- The entry at `b` is met on the way from the one at `a`.
  pub data From : ℕ → ℕ → Type 0 where
    here : {a : ℕ} → From a a
    onward : {a b : ℕ} → next_entry entry a < mmap_end info → From (next_entry entry a) b → From a b

  -- The end of the memory that the entry at `b` stands for.
  abbrev pub end_of : ℕ → ℕ
  end_of b = ((entry b).addr + (entry b).len) % 2 ^ 64

  -- `size` is no less than the end of any available entry from `a` on.
  abbrev pub Covers : ℕ → ℕ → Type 0
  Covers a size = (b : ℕ) → From a b → (entry b).type_of ≡ available → end_of b ≤ size

  -- Both loops return, with the same size, which covers the entries and is no less than the one so
  -- far.
  abbrev Agreed : ℕ → ℕ → Option ℕ → Option ℕ → Type 0
  Agreed a ret r q = (size : ℕ) × (r ≡ some size) × (q ≡ some size) × (ret ≤ size) × Covers a size

  larger-le : (e : Entry) (ret : ℕ) → ret ≤ larger e ret
  unfolding larger
  larger-le e ret = ground arith

  end_of-larger : (a ret : ℕ) → (entry a).type_of ≡ available → end_of a ≤ larger (entry a) ret
  unfolding larger
  end_of-larger a ret e = ground arith

  last-Covers :
      (a size : ℕ)
      → leb (mmap_end info) (next_entry entry a) ≡ true
      → ((entry a).type_of ≡ available → end_of a ≤ size)
      → Covers a size
  last-Covers a size e first b here ok = first ok
  last-Covers a size e first b (onward more f) ok = absurd (ground arith)

  next-Covers :
      (a size : ℕ)
      → ((entry a).type_of ≡ available → end_of a ≤ size)
      → Covers (next_entry entry a) size
      → Covers a size
  next-Covers a size first rest b here ok = first ok
  next-Covers a size first rest b (onward more f) ok = rest b f ok

  -- Behind the last entry the walk is over.
  pub mb_traverse_mmap-out :
      (a : ℕ)
      → (a == 0) ≡ false
      → leb (mmap_end info) (next_entry entry a) ≡ true
      → mb_traverse_mmap entry info a ≡ 0
  unfolding mb_traverse_mmap
  mb_traverse_mmap-out a some_a e = ground arith

  -- Before, it goes on to the next entry.
  pub mb_traverse_mmap-in :
      (a : ℕ)
      → (a == 0) ≡ false
      → leb (mmap_end info) (next_entry entry a) ≡ false
      → info.mmap_addr ≤ next_entry entry a
      → mb_traverse_mmap entry info a ≡ next_entry entry a
  unfolding mb_traverse_mmap
  mb_traverse_mmap-in a some_a e low = ground arith

  size_loop-Agreed :
      IsMap
      → (fuel a ret : ℕ) → info.mmap_addr ≤ a
      → a < info.mmap_addr + info.mmap_length
      → info.mmap_addr + info.mmap_length ≤ a + fuel
      → Agreed a ret
          (size_loop (suc fuel) entry info a ret)
          (size_loop_lh (suc fuel) entry info a ret)
  unfolding size_loop size_loop_lh
  size_loop-Agreed m zero a ret low high enough = absurd (omega arith)
  size_loop-Agreed m (suc fuel) a ret low high enough =
      let b = next_entry entry a in
      let next : b ≡ a + (entry a).size + 4 = omega (arith, m.entries_fit a low high) in
      let end : mmap_end info ≡ info.mmap_addr + info.mmap_length = omega (arith, m.fits) in
      let some_a : (a == 0) ≡ false = ground (arith, m.some_map) in
      let more = larger-le (entry a) ret in
      elim (Bool-cases (leb (mmap_end info) b)) [
        | inl e ↦
            let t = mb_traverse_mmap-out a some_a e in
            rw (some_a, e, t)
              (
                larger (entry a) ret,
                refl,
                refl,
                more,
                last-Covers a (larger (entry a) ret) e (end_of-larger a ret),
              )
        | inr e ↦
            let t = mb_traverse_mmap-in a some_a e (omega arith) in
            let (size, f, g, h, all) =
              size_loop-Agreed m fuel b (larger (entry a) ret) (omega arith) (ground arith)
                (ground arith) in
            rw (some_a, e, t, f, g)
              (
                size,
                refl,
                refl,
                omega arith,
                next-Covers a size (λ ok. let k = end_of-larger a ret ok in omega arith) all,
              )
      ]

  -- Where the memory map is not empty and at an address other than 0, and neither it nor an entry
  -- that begins in it reaches the end of the address space: with fuel for each byte of the map,
  -- `pmm_get_size` and `pmm_get_size_lh` both return, with the same size, and no available entry
  -- of the map ends behind it.
  pub pmm_get_size-pmm_get_size_lh :
      IsMap
      → (fuel : ℕ) → info.mmap_length ≤ fuel
      → (size : ℕ) × (pmm_get_size (suc fuel) entry info ≡ some size)
        × (pmm_get_size_lh (suc fuel) entry info ≡ some size)
        × Covers (info.mmap_addr) size
  pmm_get_size-pmm_get_size_lh m fuel enough =
      let (size, f, g, h, all) =
        size_loop-Agreed m fuel (info.mmap_addr) 0 (omega arith) (omega (arith, m.some_bytes))
          (omega arith) in
      (size, f, g, all)
