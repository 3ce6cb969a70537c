-- ===== src/Cpu/Paging/Unmap/Page.antt =====
-- What a turn of `vmm_unmap` at a small page leaves.
use neo_sys_x.Common.{
  ℕ, zero, suc, ◌+◌, ◌-◌, ◌%◌, ◌^◌, ◌≤◌, ◌<◌, ◌≡◌, refl, ◌≢◌, ◌∙◌, ap, true, false, ◌||◌, ltb, leb,
  ◌==◌, if◌then◌else◌, arith, some,
}
use neo_sys_x.Cpu.Paging.{
  Config, Machine, Services, kernel_config, kernel_pde_start, pde_of, pte_of, set_entry, set_used,
  set_pd, set_pt, invalidate, propagate_pde,
}
use neo_sys_x.Cpu.Paging.Entry.{field, unmapped, get_paddr}
use neo_sys_x.Cpu.Paging.Map.View.{SameConfig, if-SameConfig, propagate_from-SameConfig}
use neo_sys_x.Cpu.Paging.Map.Range.{Tabled}
use neo_sys_x.Cpu.Paging.Unmap.{
  Progress, Turn, drop_page, drop_table, clear_page, settle_page, unmap_page, unmap_turn,
  unmap_loop,
}

module _ {W : Type 0} (services : Services W) (cfg vaddr_end : ℕ) (m : Machine W) (pde : ℕ) where
  abbrev shared : Machine W → Machine W
  shared t = if leb kernel_pde_start pde then propagate_pde services t cfg pde else t

  shared-SameConfig : (t : Machine W) → SameConfig cfg t (shared t)
  unfolding propagate_pde
  shared-SameConfig t =
      if-SameConfig (leb kernel_pde_start pde) cfg t (propagate_pde services t cfg pde)
        (propagate_from-SameConfig (services.max_configs) t cfg pde kernel_config)

  abbrev used : ℕ
  used = (m.config cfg).pt_used pde

  settle_page-many :
      1 < used → settle_page services cfg vaddr_end m pde ≡ shared (set_used m cfg pde (used - 1))
  unfolding settle_page drop_page set_used
  settle_page-many many = ground arith

  drop_page-last : used ≤ 1 → ((drop_page services cfg vaddr_end m pde).config cfg).pt_used pde ≡ 0
  unfolding drop_page set_used
  drop_page-last few = ground arith

  drop_table-pd :
      (t : Machine W) → ((drop_table services cfg vaddr_end t pde).config cfg).pd pde ≡ 0
  unfolding drop_table set_pd set_pt
  drop_table-pd t = ground arith

  settle_page-few :
      used ≤ 1
      → settle_page services cfg vaddr_end m pde
        ≡ shared (drop_table services cfg vaddr_end (drop_page services cfg vaddr_end m pde) pde)
  unfolding settle_page
  settle_page-few few = rw (drop_page-last few) refl

  -- Where a table counts one page or none, its directory entry goes away.
  settle_page-pd : used ≤ 1 → ((settle_page services cfg vaddr_end m pde).config cfg).pd pde ≡ 0
  settle_page-pd few =
      let t = drop_table services cfg vaddr_end (drop_page services cfg vaddr_end m pde) pde in
      let (a, b) = shared-SameConfig t in
      rw (settle_page-few few)
        (ap (λ (c : Config). c.pd pde) a ∙ drop_table-pd (drop_page services cfg vaddr_end m pde))

  settle_page-SameConfig :
      1 < used
      → SameConfig cfg (set_used m cfg pde (used - 1)) (settle_page services cfg vaddr_end m pde)
  settle_page-SameConfig many =
      rw (settle_page-many many) (shared-SameConfig (set_used m cfg pde (used - 1)))

module _ {W : Type 0} (services : Services W) (cfg vaddr_end : ℕ) (m : Machine W)
    (ptr vaddr : ℕ) where
  clear_page-SameConfig :
      SameConfig cfg
        (set_entry m ptr (pte_of vaddr) 0)
        (clear_page services cfg vaddr_end m ptr vaddr)
  unfolding clear_page invalidate field
  clear_page-SameConfig =
      if-SameConfig (cfg == m.current || field 8 1 (m.table ptr (pte_of vaddr)) == 1) cfg
        (set_entry m ptr (pte_of vaddr) 0) (invalidate (set_entry m ptr (pte_of vaddr) 0) vaddr)
        (refl, refl)

module _ {W : Type 0} (services : Services W) (cfg vaddr_end : ℕ) where
  -- The machine and the variables after a turn at a small page.
  abbrev pub settled : Machine W → ℕ → Machine W
  settled m vaddr =
      settle_page services cfg vaddr_end
        (clear_page services cfg vaddr_end m ((m.config cfg).pt (pde_of vaddr)) vaddr)
        (pde_of vaddr)

  abbrev pub after : Progress W → Progress W
  after p = record {
    machine = settled (p.machine) (p.vaddr);
    vaddr = (p.vaddr + 0x1000) % 2 ^ 32;
    unmapped_size = (p.unmapped_size + 0x1000) % 2 ^ 32;
  }

  pub unmap_turn-next :
      (p : Progress W)
      → Tabled (p.machine.config cfg) (p.vaddr)
      → unmap_turn services cfg vaddr_end p ≡ Turn.next (after p)
  unfolding unmap_turn unmap_page
  unmap_turn-next p (t, d, l) =
      let e : ((p.machine.config cfg).pd (pde_of (p.vaddr)) == 0) ≡ false = ground arith in
      let f : ((p.machine.config cfg).pt (pde_of (p.vaddr)) == 0) ≡ false = ground arith in
      rw (e, f, l) refl

  pub unmap_loop-next :
      (fuel size : ℕ) (p : Progress W)
      → Tabled (p.machine.config cfg) (p.vaddr)
      → p.unmapped_size < size
      → unmap_loop services cfg vaddr_end (suc fuel) size p
        ≡ unmap_loop services cfg vaddr_end fuel size (after p)
  unfolding unmap_loop
  unmap_loop-next fuel size p tabled h =
      let e : ltb (p.unmapped_size) size ≡ true = ground arith in
      rw (e, unmap_turn-next p tabled, unmap_loop) refl

  pub unmap_loop-done :
      (fuel size : ℕ) (p : Progress W)
      → size ≤ p.unmapped_size
      → unmap_loop services cfg vaddr_end fuel size p ≡ some (p.machine)
  unfolding unmap_loop
  unmap_loop-done zero size p h = ground arith
  unmap_loop-done (suc fuel) size p h =
      let e : ltb (p.unmapped_size) size ≡ false = ground arith in rw (e, unmap_loop) refl

  module _ (m : Machine W) (vaddr : ℕ) where
    abbrev pde : ℕ
    pde = pde_of vaddr

    cleared-SameConfig :
        SameConfig cfg
          (set_entry m ((m.config cfg).pt pde) (pte_of vaddr) 0)
          (clear_page services cfg vaddr_end m ((m.config cfg).pt pde) vaddr)
    cleared-SameConfig =
        clear_page-SameConfig services cfg vaddr_end m ((m.config cfg).pt pde) vaddr

    cleared-used :
        ((clear_page services cfg vaddr_end m ((m.config cfg).pt pde) vaddr).config cfg).pt_used
        ≡ (m.config cfg).pt_used
    unfolding set_entry
    cleared-used = let (a, b) = cleared-SameConfig in ap (λ (c : Config). c.pt_used) a

    -- A turn at a page of a table that counts one page or none: no address of the directory entry
    -- leads anywhere afterwards.
    pub settled-lost :
        cfg ≢ 0
        → (m.config cfg).pt_used pde ≤ 1
        → (a : ℕ) → pde_of a ≡ pde
        → get_paddr (settled m vaddr) cfg a ≡ unmapped
    unfolding get_paddr
    settled-lost some_config few a same =
        let c = clear_page services cfg vaddr_end m ((m.config cfg).pt pde) vaddr in
        let e = settle_page-pd services cfg vaddr_end c pde (rw cleared-used few) in
        let f : (cfg == 0) ≡ false = ground arith in rw (f, same, e) refl

    -- A turn at a page of a table that counts more pages than one.
    pub settled-SameConfig :
        1 < (m.config cfg).pt_used pde
        → SameConfig cfg
            (set_used
              (set_entry m ((m.config cfg).pt pde) (pte_of vaddr) 0)
              cfg
              pde
              ((m.config cfg).pt_used pde - 1))
            (settled m vaddr)
    unfolding set_used
    settled-SameConfig many =
        let c = clear_page services cfg vaddr_end m ((m.config cfg).pt pde) vaddr in
        let (a, b) = cleared-SameConfig in
        let (d, e) = settle_page-SameConfig services cfg vaddr_end c pde (rw cleared-used many) in
        (d ∙ rw (a, cleared-used) refl, e ∙ b)
