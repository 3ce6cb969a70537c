-- ===== src/Mm/Link/Run.antt =====
-- `vmm_alloc` on the linked kernel: what the pages of the region lead to.
use neo_sys_x.Common.{
  ℕ, ◌+◌, ◌*◌, ◌%◌, ◌^◌, ◌≤◌, ◌<◌, ◌≡◌, ◌≢◌, refl, ap, sym, subst, ◌⊎◌, inl, inr, Option, none,
  some, size_max, arith,
}
use native.Mathlib.Nat.{mul-le-mul_right}
use neo_sys_x.Cpu.Paging.{Machine, Services, uintptr_max}
use neo_sys_x.Cpu.Paging.Entry.{get_paddr}
use neo_sys_x.Cpu.Paging.Map.{vmm_map}
use neo_sys_x.Cpu.Paging.Map.Range.{Separate, AllTabled, overlay, vmm_map-enough}
use neo_sys_x.Cpu.Paging.Map.Outside.{AnswerUntouched-taken, vmm_map-Untouched}
use neo_sys_x.Cpu.Paging.Space.{vmm_find_free}
use neo_sys_x.Mm.Pmm.{Pmm, pmm_levels, frame_size, alloc, reserve}
use neo_sys_x.Mm.Pmm.Alloc.{Searchable, IsFree, Allocated, block_of, wanted, total, alloc-Allocated}
use neo_sys_x.Mm.Vmm.{Space, uint64_max, map_flags, vmm_alloc}
use neo_sys_x.Mm.Vmm.First.{vmm_alloc-first}
use neo_sys_x.Mm.Link.{kernel_space}

-- The pages of the region lie in the run, and below 4 GB.
pages_fit :
    (p : Pmm) (len n k start : ℕ)
    → Searchable p len
    → k < pmm_levels
    → IsFree p len k start
    → 4096 * n < len + 4096
    → (start * block_of p len k % 4096 ≡ 0) × (start * block_of p len k + 4096 * n < 2 ^ 32)
pages_fit p len n k start s level free pages =
    let frames = start * 2 ^ k in
    let from : start * block_of p len k ≡ 4096 * frames = omega arith in
    let count : wanted p len k * block_of p len k ≡ 4096 * (wanted p len k * 2 ^ k) = omega arith in
    let room : (start + wanted p len k) * block_of p len k ≤ total p len k * block_of p len k =
      mul-le-mul_right (block_of p len k) (free.inside) in
    let both : (start + wanted p len k) * block_of p len k
        ≡ start * block_of p len k + wanted p len k * block_of p len k =
      omega arith in
    let below = s.word k level in
    let long = free.long in
    (omega (arith, from), omega (arith, from, count, room, both, below, long, pages))

-- The answer is never the one that `vmm_alloc` takes for a refusal.
answer_below :
    (p : Pmm) (len wide addr : ℕ) (after : Pmm)
    → Searchable p len
    → Allocated p len wide (addr, after)
    → addr ≢ uint64_max
answer_below p len wide addr after s (inr (e, f, no_run)) = omega arith
answer_below p len wide addr after s (inl (k, start, level, e, free, f)) =
    let (aligned, low) = pages_fit p len 0 k start s level free (omega arith) in
    omega (arith, low, e)

module _ (wide : ℕ) (services : Services Pmm) (turns end config size flags vaddr n : ℕ) where
  abbrev pub space : Space (Machine Pmm)
  space = kernel_space wide services turns end

  abbrev pub mapped_to : Machine Pmm → Pmm → ℕ → Machine Pmm
  mapped_to m after paddr =
      space.map (record m { outside = after }) config paddr vaddr size (map_flags space flags)

  -- The state of the allocators is `after`, the entries for the tables are as they were, and the
  -- region stands over the memory from `paddr` on.
  abbrev pub Mapped : Machine Pmm → Pmm → ℕ → Machine Pmm → Type 0
  Mapped m after paddr t =
      (t.outside ≡ after)
      × ((t.config config).pd ≡ (m.config config).pd)
      × ((t.config config).pt ≡ (m.config config).pt)
      × ((a : ℕ) → get_paddr t config a ≡ overlay vaddr (4096 * n) paddr a (get_paddr m config a))

  -- A run of free frames is reserved and stands behind the region, or there is none, and the
  -- region is mapped to the address that says so.
  abbrev pub Backed : Machine Pmm → Machine Pmm × ℕ → Type 0
  Backed m (t, answer) =
      ((k : ℕ) × (start : ℕ) × (k < pmm_levels)
        × IsFree m.outside size k start
        × (answer ≡ vaddr)
        × Mapped m (reserve wide m.outside (start * (frame_size * 2 ^ k)) size)
            (start * (frame_size * 2 ^ k)) t)
      ⊎ (((start : ℕ) → IsFree m.outside size 0 start → ⊥)
          × (answer ≡ vaddr)
          × (t ≡ mapped_to m m.outside size_max))

  get_paddr-outside :
      (m : Machine Pmm) (after : Pmm) (a : ℕ)
      → get_paddr (record m { outside = after }) config a ≡ get_paddr m config a
  unfolding get_paddr
  get_paddr-outside m after a = refl

  mapped_to-vmm_map :
      (m t : Machine Pmm) (after : Pmm) (paddr mapped_size : ℕ)
      → vmm_map services
          (size + 2)
          (record m { outside = after })
          config
          paddr
          vaddr
          size
          (map_flags space flags)
        ≡ some (t, mapped_size)
      → mapped_to m after paddr ≡ t
  unfolding kernel_space
  mapped_to-vmm_map m t after paddr mapped_size e =
      ap
        (λ (r : Option (Machine Pmm × ℕ)). elim r [
          | none ↦ record m { outside = after }
          | some q ↦ q.0
        ])
        e

  module _ (m : Machine Pmm) (some_config : config ≢ 0) (small : size < 0x400000)
      (low : size ≤ 4096 * n) (high : 4096 * n < size + 4096) (va : vaddr % 4096 ≡ 0)
      (vn : vaddr + 4096 * n < 2 ^ 32) (tabled : AllTabled (m.config config) vaddr n)
      (separate : Separate (m.config config)) where
    mapped_to-Mapped :
        (after : Pmm) (paddr : ℕ)
        → (paddr % 4096 ≡ 0) × (paddr + 4096 * n < 2 ^ 32)
        → Mapped m after paddr (mapped_to m after paddr)
    unfolding kernel_space
    mapped_to-Mapped after paddr (pa, pn) =
        let before : Machine Pmm = record m { outside = after } in
        let f = map_flags space flags in
        let r = vmm_map services (size + 2) before config paddr vaddr size f in
        let (outside, pd, pt) = AnswerUntouched-taken services config f some_config before r (
          vmm_map-Untouched services config f some_config before paddr vaddr size n (size + 2)
            (omega arith) va pa small low high vn pn tabled) in
        let (t, e, view) =
          vmm_map-enough services config f some_config before paddr vaddr size n (size + 2)
            (omega arith) va pa small low high vn pn tabled separate in
        (
          outside,
          pd,
          pt,
          λ a.
              rw (mapped_to-vmm_map m t after paddr (4096 * n) e)
                (rw (← get_paddr-outside m after a) (view a)),
        )

    module _ (s : Searchable m.outside size) where
      run-Mapped :
          (after : Pmm) (k start : ℕ)
          → k < pmm_levels
          → IsFree m.outside size k start
          → Mapped m after
              (start * (frame_size * 2 ^ k))
              (mapped_to m after (start * (frame_size * 2 ^ k)))
      run-Mapped after k start level free =
          mapped_to-Mapped after (start * (frame_size * 2 ^ k))
            (pages_fit m.outside size n k start s level free high)

      Allocated-Backed :
          (paddr : ℕ) (after : Pmm)
          → Allocated m.outside size wide (paddr, after)
          → Backed m (mapped_to m after paddr, vaddr)
      Allocated-Backed paddr after (inr (e, f, no_run)) = inr (no_run, refl, rw (e, f) refl)
      Allocated-Backed paddr after (inl (k, start, level, e, free, f)) =
          let given = λ (x : ℕ). reserve wide m.outside x size in
          let at = start * (frame_size * 2 ^ k) in
          let there : Backed m (mapped_to m (given at) at, vaddr) =
            inl (k, start, level, free, refl, run-Mapped (given at) k start level free) in
          subst (λ (q : Pmm). Backed m (mapped_to m q paddr, vaddr)) (sym f)
            (subst (λ (x : ℕ). Backed m (mapped_to m (given x) x, vaddr)) (sym e) there)

      vmm_alloc-mapped_to :
          (from_vaddr paddr : ℕ) (after : Pmm)
          → vmm_find_free turns m config from_vaddr size ≡ some vaddr
          → alloc wide (m.outside) size ≡ (paddr, after)
          → Allocated m.outside size wide (paddr, after)
          → vmm_alloc space m config size flags from_vaddr ≡ (mapped_to m after paddr, vaddr)
      unfolding kernel_space
      vmm_alloc-mapped_to from_vaddr paddr after at e allocated =
          let found : space.find_free m config from_vaddr size ≡ vaddr =
            ap (λ (o : Option ℕ). elim o [ none ↦ uintptr_max | some v ↦ v ]) at in
          vmm_alloc-first space m (record m { outside = after }) config size flags paddr vaddr
            (ap (λ (r : ℕ × Pmm). (record m { outside = r.1 }, r.0)) e)
            (answer_below (m.outside) size wide paddr after s allocated) (s.some_bytes) from_vaddr
            found (omega arith)

      -- The call where `pmm_alloc` has memory.
      pub vmm_alloc-Mapped :
          (from_vaddr paddr : ℕ) (after : Pmm)
          → vmm_find_free turns m config from_vaddr size ≡ some vaddr
          → alloc wide (m.outside) size ≡ (paddr, after)
          → paddr ≢ size_max
          → (vmm_alloc space m config size flags from_vaddr ≡ (mapped_to m after paddr, vaddr))
            × Mapped m after paddr (mapped_to m after paddr)
      vmm_alloc-Mapped from_vaddr paddr after at e some_memory =
          let allocated : Allocated m.outside size wide (paddr, after) =
            subst (Allocated m.outside size wide) e (alloc-Allocated m.outside size wide s) in
          (
            vmm_alloc-mapped_to from_vaddr paddr after at e allocated,
            elim allocated [
              | inl (k, start, level, f, free, g) ↦
                  subst (λ (x : ℕ). Mapped m after x (mapped_to m after x)) (sym f)
                    (run-Mapped after k start level free)
              | inr (f, g, no_run) ↦ absurd (some_memory f)
            ],
          )

      -- On the kernel as it is linked, for 1 byte to 4 MB and with bitmaps below 4 GB without a
      -- full word, where `vmm_find_free` answers an address at a page boundary, with room for `n`
      -- whole pages, whose directory entries have page tables, none of them shared: `vmm_alloc`
      -- answers that address, whether the region is to be contiguous or not. Either the size is
      -- reserved as one run of free frames, every address of the region leads to the same offset
      -- of that run, every other address where it led before, and the entries for the tables stay;
      -- or no run of single frames is long enough, and the region is all the same mapped, to the
      -- address `UINTPTR_MAX`.
      pub vmm_alloc-Backed :
          (from_vaddr : ℕ)
          → vmm_find_free turns m config from_vaddr size ≡ some vaddr
          → Backed m (vmm_alloc space m config size flags from_vaddr)
      vmm_alloc-Backed from_vaddr at =
          let r = alloc wide (m.outside) size in
          let allocated = alloc-Allocated m.outside size wide s in
          rw (vmm_alloc-mapped_to from_vaddr (r.0) (r.1) at refl allocated)
            (Allocated-Backed (r.0) (r.1) allocated)
