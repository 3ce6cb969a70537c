-- ===== src/Mm/Vmm/First.antt =====
-- `vmm_alloc` where the first request to the physical memory manager is answered with an address.
use neo_sys_x.Common.{
  ℕ, suc, ◌-◌, ◌≤◌, ◌≡◌, ◌≢◌, refl, ap, subst, Bool, Bool-cases, inl, inr, true, false, some,
  Option, leb, ◌==◌, bit_and, arith,
}
use neo_sys_x.Mm.Vmm.{
  Space, uintptr_max, uint64_max, alloc_contiguous, map_flags, ask_less, alloc_loop, vmm_alloc,
}

module _ {S : Type 0} (space : Space S) (s t : S) (config size flags paddr vaddr : ℕ)
    (answer : space.pmm_alloc s size ≡ (t, paddr)) (there : paddr ≢ uint64_max)
    (some_size : 1 ≤ size) where
  given : (space.pmm_alloc s size).0 ≡ t
  given = ap (λ (p : S × ℕ). p.0) answer

  given_at : (space.pmm_alloc s size).1 ≡ paddr
  given_at = ap (λ (p : S × ℕ). p.1) answer

  one_less : suc (size - 1) ≡ size
  one_less = omega (arith, some_size)

  ask_less-first : (fuel : ℕ) → ask_less space (suc fuel) s size ≡ (t, some (size, paddr))
  unfolding ask_less
  ask_less-first fuel =
      let e : ((space.pmm_alloc s size).1 == uint64_max) ≡ false =
        ground (arith, there, given_at) in
      rw (e, given, ask_less) (ap (λ (q : ℕ). (t, some (size, q))) given_at)

  ask_less-answer : ask_less space size s size ≡ (t, some (size, paddr))
  ask_less-answer =
      subst (λ (fuel : ℕ). ask_less space fuel s size ≡ (t, some (size, paddr))) one_less
        (ask_less-first (size - 1))

  abbrev taken : S × Option (ℕ × ℕ) → S
  taken r = r.0

  abbrev offer : S × Option (ℕ × ℕ) → Option (ℕ × ℕ)
  offer r = r.1

  alloc_loop-first :
      (fuel next : ℕ)
      → alloc_loop space (suc fuel) s config flags vaddr next size
        ≡ (space.map t config paddr next size (map_flags space flags), true)
  unfolding alloc_loop
  alloc_loop-first fuel next =
      let e0 : (ask_less space size s size).0 ≡ t = ap taken ask_less-answer in
      let e1 : (ask_less space size s size).1 ≡ some (size, paddr) = ap offer ask_less-answer in
      let f : leb size size ≡ true = ground arith in rw (e1, f, e0, alloc_loop) refl

  alloc_loop-answer :
      alloc_loop space size s config flags vaddr vaddr size
      ≡ (space.map t config paddr vaddr size (map_flags space flags), true)
  alloc_loop-answer =
      subst
        (λ (fuel : ℕ).
          alloc_loop space fuel s config flags vaddr vaddr size
          ≡ (space.map t config paddr vaddr size (map_flags space flags), true))
        one_less (alloc_loop-first (size - 1) vaddr)

  -- All of the region is mapped at once, whether it is to be contiguous or not.
  pub vmm_alloc-first :
      (from_vaddr : ℕ)
      → space.find_free s config from_vaddr size ≡ vaddr
      → vaddr ≢ uintptr_max
      → vmm_alloc space s config size flags from_vaddr
        ≡ (space.map t config paddr vaddr size (map_flags space flags), vaddr)
  unfolding vmm_alloc
  vmm_alloc-first from_vaddr at room =
      let a : (vaddr == uintptr_max) ≡ false = ground (arith, room) in
      let b : (paddr == uint64_max) ≡ false = ground (arith, there) in
      let c : (size == 0) ≡ false = ground (arith, some_size) in
      let d : (alloc_loop space size s config flags vaddr vaddr size).0
          ≡ space.map t config paddr vaddr size (map_flags space flags) =
        ap (λ (r : S × Bool). r.0) alloc_loop-answer in
      let f : (alloc_loop space size s config flags vaddr vaddr size).1 ≡ true =
        ap (λ (r : S × Bool). r.1) alloc_loop-answer in
      elim (Bool-cases (bit_and flags alloc_contiguous == 0)) [
        | inl e ↦ rw (at, a, e, c, d, f) refl
        | inr e ↦ rw (at, a, e, given_at, b, given) refl
      ]
