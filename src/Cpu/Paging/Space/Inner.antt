-- ===== src/Cpu/Paging/Space/Inner.antt =====
-- The inner loop of `vmm_find_free`: it ends, and what it has found is free.
use neo_sys_x.Common.{
  ℕ, zero, suc, ◌+◌, ◌-◌, ◌*◌, ◌^◌, ◌≤◌, ◌<◌, ◌≡◌, refl, ◌≢◌, ◌⊎◌, inl, inr, false, not, ◌&&◌,
  Bool-cases, Option, some, ltb, leb, ◌==◌, if◌then◌else◌, arith,
}
use neo_sys_x.Cpu.Paging.{Machine, pt_entries, uintptr_max, pde_of, pte_of}
use neo_sys_x.Cpu.Paging.Space.{
  Gap, address, first_of, GapTurn, broken, on, used, in_space, gap_turn, gap_loop,
}

module _ {W : Type 0} (m : Machine W) (cfg : ℕ) where
  -- The page at an address is not in use.
  abbrev pub FreePage : ℕ → Type 0
  FreePage a =
      ((m.config cfg).pt_used (pde_of a) ≡ 0)
      ⊎ (m.table ((m.config cfg).pt (pde_of a)) (pte_of a) ≡ 0)

  -- A directory entry that counts pages has its page table.
  abbrev pub Tables : Type 0
  Tables = (pde : ℕ) → (m.config cfg).pt_used pde ≢ 0 → (m.config cfg).pt pde ≢ 0

  -- How far a position is.
  abbrev pub place : Gap → ℕ
  place g = g.pde * 1024 + g.pte

  abbrev pub GapOk : Gap → Type 0
  GapOk g =
      (g.pde ≤ 1024)
      × (g.pte < 1024)
      × ((g.ret ≡ uintptr_max) ⊎ FreePage (g.ret))
      × ((g.free ≡ 0) ⊎ (g.ret ≢ uintptr_max))

module _ {W : Type 0} (m : Machine W) (cfg pages : ℕ) (tables : Tables m cfg) where
  pub FreePage-address :
      (pde pte : ℕ)
      → pte < 1024
      → ((m.config cfg).pt_used pde ≡ 0) ⊎ (m.table ((m.config cfg).pt pde) pte ≡ 0)
      → FreePage m cfg (address pde pte)
  FreePage-address pde pte h free =
      let e : pde_of (address pde pte) ≡ pde = omega arith in
      let f : pte_of (address pde pte) ≡ pte = omega arith in rw (e, f) free

  first_of-FreePage :
      (g : Gap)
      → GapOk m cfg g
      → ((m.config cfg).pt_used (g.pde) ≡ 0) ⊎ (m.table ((m.config cfg).pt (g.pde)) (g.pte) ≡ 0)
      → FreePage m cfg (first_of g) × (first_of g ≢ uintptr_max)
  first_of-FreePage g (a, b, c, d) free = elim (Bool-cases (g.ret == uintptr_max)) [
    | inl e ↦ rw e (FreePage-address (g.pde) (g.pte) b free, omega arith)
    | inr e ↦
        let other : g.ret ≢ uintptr_max = ground arith in
        rw e (elim c [ inl f ↦ absurd (other f) | inr f ↦ f ], other)
  ]

  -- A turn that goes on moves the position or counts a page; one that does not leaves all as it is.
  abbrev pub Moved : Gap → GapTurn → Type 0
  Moved g r =
      ((r ≡ broken g) × (g.ret ≢ uintptr_max))
      ⊎ ((h : Gap) × (r ≡ on h)
          × GapOk m cfg h
          × (place m cfg g ≤ place m cfg h)
          × (place m cfg g + g.free < place m cfg h + h.free)
          × ((place m cfg g < place m cfg h)
              ⊎ ((used m cfg (g.pde) ≢ 0) × (m.table ((m.config cfg).pt (g.pde)) (g.pte) ≡ 0))))

  taken_page :
      (g : Gap)
      → GapOk m cfg g
      → g.pde < 1024
      → Moved g (
          if not (g.ret == uintptr_max)
          then broken g
          else if leb pt_entries (g.pte + 1)
          then on (record g { pde = g.pde + 1; pte = 0 })
          else on (record g { pte = g.pte + 1 }))
  taken_page g (a, b, c, d) room = elim (Bool-cases (g.ret == uintptr_max)) [
    | inr e ↦ rw e (inl (refl, ground arith))
    | inl e ↦ elim (Bool-cases (leb pt_entries (g.pte + 1))) [
      | inl f ↦
          rw (e, f)
            (inr (
              record g { pde = g.pde + 1; pte = 0 },
              refl,
              (omega arith, omega arith, c, d),
              omega arith,
              ground arith,
              inl (ground arith),
            ))
      | inr f ↦
          rw (e, f)
            (inr (
              record g { pte = g.pte + 1 },
              refl,
              (a, ground arith, c, d),
              omega arith,
              omega arith,
              inl (omega arith),
            ))
    ]
  ]

  pub gap_turn-Moved : (g : Gap) → GapOk m cfg g → g.pde < 1024 → Moved g (gap_turn m cfg pages g)
  unfolding gap_turn
  gap_turn-Moved g (a, b, c, d) room = elim (Bool-cases (used m cfg (g.pde) == 0)) [
    | inl e ↦
        let (free, there) = first_of-FreePage g (a, b, c, d) (inl (ground arith)) in
        rw e (
          inr (
            record {
              pde = g.pde + 1;
              pte = 0;
              free = g.free + (pt_entries - g.pte);
              ret = first_of g;
            },
            refl,
            (omega arith, omega arith, inr free, inr there),
            omega arith,
            omega arith,
            inl (omega arith),
          ))
    | inr e ↦
        let table : ((m.config cfg).pt (g.pde) == 0) ≡ false = ground (arith, tables (g.pde)) in
        elim (Bool-cases (m.table ((m.config cfg).pt (g.pde)) (g.pte) == 0)) [
          | inl f ↦
              let (free, there) = first_of-FreePage g (a, b, c, d) (inr (ground arith)) in
              rw (e, table, f)
                (inr (
                  record g { free = g.free + 1; ret = first_of g },
                  refl,
                  (a, b, inr free, inr there),
                  omega arith,
                  omega arith,
                  inr (ground arith, ground arith),
                ))
          | inr f ↦ rw (e, table, f) (taken_page g (a, b, c, d) room)
        ]
  ]

  abbrev Found : Gap → Option Gap → Type 0
  Found g r = (h : Gap) × (r ≡ some h) × GapOk m cfg h × (place m cfg g ≤ place m cfg h)

  -- With fuel for the positions and the pages that are left, the loop ends.
  pub gap_loop-Found :
      (fuel : ℕ) (g : Gap)
      → GapOk m cfg g
      → 2 ^ 20 + pages ≤ fuel + place m cfg g + g.free
      → Found g (gap_loop m cfg pages fuel g)
  unfolding gap_loop
  gap_loop-Found zero g ok enough =
      let e : (ltb (g.free) pages && in_space (g.pde) (g.pte)) ≡ false = ground arith in
      rw e (g, refl, ok, omega arith)
  gap_loop-Found (suc fuel) g ok enough =
      elim (Bool-cases (ltb (g.free) pages && in_space (g.pde) (g.pte))) [
        | inr e ↦ rw (e, gap_loop) (g, refl, ok, omega arith)
        | inl e ↦ elim (gap_turn-Moved g ok (ground arith)) [
          | inl stop ↦ let (f, there) = stop in rw (e, f, gap_loop) (g, refl, ok, omega arith)
          | inr moved ↦
              let (h, f, well, i, j, o) = moved in
              let (k, l, fine, n) = gap_loop-Found fuel h well (omega arith) in
              rw (e, f, gap_loop) (k, l, fine, omega arith)
        ]
      ]
