-- ===== src/Cpu/Paging/Space/Finds.antt =====
-- `vmm_find_free`: it returns, what it returns is free, and how much of it is.
use neo_sys_x.Common.{
  ℕ, zero, suc, ◌+◌, ◌-◌, ◌*◌, ◌^◌, ◌≤◌, ◌<◌, ◌≡◌, refl, ◌≢◌, ◌⊎◌, inl, inr, sym, ◌∙◌, ap, true,
  false, ◌&&◌, Bool-cases, Option, none, some, ltb, leb, ◌==◌, if◌then◌else◌, arith,
}
use neo_sys_x.Cpu.Paging.{Machine, pt_entries, uintptr_max, pde_of, pte_of}
use neo_sys_x.Cpu.Paging.Space.{
  Gap, address, first_of, on, used, in_space, gap_turn, gap_loop, space_turn, space_loop, pages_of,
  page_up, vmm_find_free,
}
use neo_sys_x.Cpu.Paging.Space.Inner.{
  FreePage, Tables, place, GapOk, FreePage-address, gap_turn-Moved, gap_loop-Found,
}

module _ {W : Type 0} (m : Machine W) (cfg pages : ℕ) (tables : Tables m cfg) where
  -- A position at an unmapped page of a table that is in use.
  abbrev AtEmpty : ℕ → ℕ → Type 0
  AtEmpty pde pte =
      (pde < 1024)
      × (pte < 1024)
      × ((m.config cfg).pt_used pde ≢ 0)
      × (m.table ((m.config cfg).pt pde) pte ≡ 0)

  gap_turn-empty :
      (g : Gap)
      → AtEmpty (g.pde) (g.pte)
      → gap_turn m cfg pages g ≡ on (record g { free = g.free + 1; ret = first_of g })
  unfolding gap_turn
  gap_turn-empty g (a, b, c, d) = ground (arith, tables (g.pde))

  gap_loop-full : (fuel : ℕ) (g : Gap) → pages ≤ g.free → gap_loop m cfg pages fuel g ≡ some g
  unfolding gap_loop
  gap_loop-full zero g h = ground arith
  gap_loop-full (suc fuel) g h =
      let e : (ltb (g.free) pages && in_space (g.pde) (g.pte)) ≡ false = ground arith in
      rw (e, gap_loop) refl

  abbrev Sat : Gap → Option Gap → Type 0
  Sat g r = (h : Gap) × (r ≡ some h) × (h.free ≡ pages) × (h.ret ≡ first_of g)

  gap_loop-Sat :
      (left fuel : ℕ) (g : Gap)
      → AtEmpty (g.pde) (g.pte)
      → g.free + suc left ≡ pages
      → suc left ≤ fuel
      → Sat g (gap_loop m cfg pages fuel g)
  unfolding gap_loop
  gap_loop-Sat left zero g at count enough = absurd (omega arith)
  gap_loop-Sat zero (suc fuel) g at count enough =
      let (a, b, c, d) = at in
      let e : (ltb (g.free) pages && in_space (g.pde) (g.pte)) ≡ true = ground arith in
      let h : Gap = record g { free = g.free + 1; ret = first_of g } in
      rw (e, gap_turn-empty g at, gap_loop)
        (h, gap_loop-full fuel h (omega arith), omega arith, refl)
  gap_loop-Sat (suc left) (suc fuel) g at count enough =
      let (a, b, c, d) = at in
      let e : (ltb (g.free) pages && in_space (g.pde) (g.pte)) ≡ true = ground arith in
      let h : Gap = record g { free = g.free + 1; ret = first_of g } in
      let (k, i, j, l) = gap_loop-Sat left fuel h at (omega arith) (omega arith) in
      let n : first_of h ≡ first_of g = ground arith in
      rw (e, gap_turn-empty g at, gap_loop) (k, i, j, l ∙ n)

  free_of : Option Gap → ℕ
  free_of none = 0
  free_of (some g) = g.free

  -- The loop over a gap ends with enough pages, or further on.
  abbrev Ended : Gap → Option Gap → Type 0
  Ended g r =
      (h : Gap) × (r ≡ some h)
      × GapOk m cfg h
      × ((h.free ≡ pages) ⊎ (place m cfg g < place m cfg h))

  gap_loop-Ended :
      (fuel : ℕ) (g : Gap)
      → GapOk m cfg g
      → g.pde < 1024
      → g.free < pages
      → g.ret ≡ uintptr_max
      → 2 ^ 20 + pages ≤ fuel + place m cfg g + g.free
      → Ended g (gap_loop m cfg pages fuel g)
  unfolding gap_loop free_of
  gap_loop-Ended zero g ok room few start enough = absurd (omega arith)
  gap_loop-Ended (suc fuel) g ok room few start enough =
      let e : (ltb (g.free) pages && in_space (g.pde) (g.pte)) ≡ true = ground arith in
      elim (gap_turn-Moved m cfg pages tables g ok room) [
        | inl stop ↦ absurd (stop.1 start)
        | inr moved ↦
            let (h, f, well, i, j, o) = moved in
            elim o [
              | inl further ↦
                  let (k, l, fine, n) =
                    gap_loop-Found m cfg pages tables fuel h well (omega arith) in
                  rw (e, f, gap_loop) (k, l, fine, inr (omega arith))
              | inr empty ↦
                  let (a, b, c, d) = ok in
                  let (k, l, fine, n) = gap_loop-Found m cfg pages tables (suc fuel) g ok enough in
                  let (s, t, u, v) =
                    gap_loop-Sat (pages - g.free - 1) (suc fuel) g (room, b, empty.0, empty.1)
                      (omega arith) (omega arith) in
                  (k, l, fine, inl (ap free_of (sym l ∙ t) ∙ u))
            ]
      ]

  -- What a turn of the outer loop answers.
  abbrev Turned : ℕ → ℕ → Option ((ℕ × ℕ) ⊎ ℕ) → Type 0
  Turned pde pte r =
      ((a : ℕ) × (r ≡ some (inr a)) × FreePage m cfg a)
      ⊎ ((next : ℕ × ℕ) × (r ≡ some (inl next))
          × (next.0 ≤ 1024)
          × (next.1 < 1024)
          × (pde * 1024 + pte < next.0 * 1024 + next.1))

  gap_answer :
      (g h : Gap)
      → GapOk m cfg h
      → (h.free ≡ pages) ⊎ (place m cfg g < place m cfg h)
      → 1 ≤ pages
      → Turned
          (g.pde)
          (g.pte)
          (some (if ltb (h.free) pages then inl (h.pde, h.pte) else inr (h.ret)))
  gap_answer g h (a, b, c, d) how some_pages = elim (Bool-cases (ltb (h.free) pages)) [
    | inl e ↦ rw e (inr ((h.pde, h.pte), refl, a, b, ground arith))
    | inr e ↦ rw e (inl (h.ret, refl, ground arith))
  ]

  space_turn-Turned :
      (fuel pde pte : ℕ)
      → pde < 1024
      → pte < 1024
      → 1 ≤ pages
      → 2 ^ 20 + pages ≤ fuel + pde * 1024 + pte
      → Turned pde pte (space_turn m cfg pages fuel pde pte)
  unfolding space_turn
  space_turn-Turned fuel pde pte a b some_pages enough =
      elim (Bool-cases (leb pt_entries (used m cfg pde))) [
        | inl e ↦ rw e (inr ((pde + 1, 0), refl, omega arith, omega arith, omega arith))
        | inr e ↦ elim (Bool-cases (used m cfg pde == 0 && ltb (pte + pages) pt_entries)) [
          | inl f ↦
              rw (e, f)
                (inl (
                  address pde pte,
                  refl,
                  FreePage-address m cfg pages tables pde pte b (inl (ground arith)),
                ))
          | inr f ↦
              let g : Gap = record { pde = pde; pte = pte; free = 0; ret = uintptr_max } in
              let (h, i, ok, how) =
                gap_loop-Ended fuel g (omega arith, b, inl refl, inl refl) a (omega arith) refl
                  (omega arith) in
              rw (e, f, i) (gap_answer g h ok how some_pages)
        ]
      ]

  abbrev Searched : Option ℕ → Type 0
  Searched r = (a : ℕ) × (r ≡ some a) × ((a ≡ uintptr_max) ⊎ FreePage m cfg a)

  space_loop-Searched :
      (fuel pde pte : ℕ)
      → pde ≤ 1024
      → pte < 1024
      → 1 ≤ pages
      → 2 ^ 20 + pages ≤ fuel + pde * 1024 + pte
      → Searched (space_loop m cfg pages fuel pde pte)
  unfolding space_loop
  space_loop-Searched zero pde pte a b some_pages enough =
      let e : in_space pde pte ≡ false = ground arith in rw e (uintptr_max, refl, inl refl)
  space_loop-Searched (suc fuel) pde pte a b some_pages enough =
      elim (Bool-cases (in_space pde pte)) [
        | inr e ↦ rw (e, space_loop) (uintptr_max, refl, inl refl)
        | inl e ↦ elim (space_turn-Turned (suc fuel) pde pte (ground arith) b some_pages enough) [
          | inl found ↦ let (r, f, free) = found in rw (e, f, space_loop) (r, refl, inr free)
          | inr more ↦
              let (next, f, c, d, g) = more in
              rw (e, f, space_loop)
                (space_loop-Searched fuel (next.0) (next.1) c d some_pages (omega arith))
        ]
      ]

page_up-lt : (v : ℕ) → page_up v < 2 ^ 32 ⊎ (2 ^ 32 ≤ v)
unfolding page_up
page_up-lt v = ground arith

module _ {W : Type 0} (m : Machine W) (cfg : ℕ) (some_config : cfg ≢ 0)
    (tables : Tables m cfg) where
  -- For at least one page, and where every directory entry that counts pages has its page table:
  -- `vmm_find_free` returns without a fault, its outer loop and each run of the inner one after at
  -- most one turn for each page of the address space and each page wanted, and the page at the
  -- address that it returns, where it does not give up, is not in use.
  pub vmm_find_free-FreePage :
      (fuel from_vaddr size : ℕ)
      → from_vaddr < 2 ^ 32
      → 1 ≤ pages_of size
      → 2 ^ 20 + pages_of size ≤ fuel
      → (a : ℕ) × (vmm_find_free fuel m cfg from_vaddr size ≡ some a)
        × ((a ≡ uintptr_max) ⊎ FreePage m cfg a)
  unfolding vmm_find_free
  vmm_find_free-FreePage fuel from_vaddr size low some_pages enough =
      let c : (cfg == 0) ≡ false = ground arith in
      let e : (pages_of size == 0) ≡ false = ground arith in
      let start = page_up from_vaddr in
      let small : start < 2 ^ 32 = ground (arith, page_up-lt from_vaddr) in
      rw (c, e)
        (space_loop-Searched m cfg (pages_of size) tables fuel (pde_of start) (pte_of start)
          (omega arith) (omega arith) some_pages (omega arith))
