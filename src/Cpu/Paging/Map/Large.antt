-- ===== src/Cpu/Paging/Map/Large.antt =====
-- What a turn of `vmm_map` for a large page leaves behind.
use neo_sys_x.Common.{
  ℕ, zero, suc, ◌+◌, ◌-◌, ◌*◌, ◌^◌, ◌≤◌, ◌<◌, ◌≡◌, refl, ◌≢◌, ◌∙◌, true, false, if◌then◌else◌, leb,
  ◌==◌, arith,
}
use neo_sys_x.Cpu.Paging.{
  Machine, Services, kernel_config, kernel_pde_start, pt_entries, pde_of, set_pd, set_used,
  invalidate, invalidate_pages, propagate_pde,
}
use neo_sys_x.Cpu.Paging.Entry.{is_large, large_entry, fault, get_paddr}
use neo_sys_x.Cpu.Paging.Entry.Fields.{large_entry-size, large_entry-present}
use neo_sys_x.Cpu.Paging.Map.{Progress, set_in_use, map_large}
use neo_sys_x.Cpu.Paging.Map.View.{
  SameView, trans-SameView, if-SameView, invalidate-SameView, propagate_from-SameView,
  get_paddr-SameView,
}

module _ {W : Type 0} where
  invalidate_pages-SameView :
      (pde pte count : ℕ) (m : Machine W) (cfg : ℕ)
      → SameView cfg m (invalidate_pages pde pte count m)
  unfolding invalidate_pages
  invalidate_pages-SameView pde pte zero m cfg = (refl, refl, refl)
  invalidate_pages-SameView pde pte (suc count) m cfg =
      let t = invalidate m (pde * 2 ^ 22 + pte * 2 ^ 12) in
      trans-SameView cfg m t (invalidate_pages pde (pte + 1) count t)
        (invalidate-SameView m cfg (pde * 2 ^ 22 + pte * 2 ^ 12))
        (invalidate_pages-SameView pde (pte + 1) count t cfg)

module _ {W : Type 0} (services : Services W) (cfg flags : ℕ) (some_config : cfg ≢ 0)
    (p : Progress W) (free : (p.machine.config cfg).pt (pde_of (p.vaddr)) ≡ 0) where
  abbrev entered : Machine W
  entered =
      let m = p.machine in
      let pde = pde_of (p.vaddr) in
      set_used (set_pd m cfg pde (large_entry (p.paddr) flags ((m.config cfg).pd pde))) cfg pde
        pt_entries

  map_large-SameView : SameView cfg entered ((map_large services cfg flags p).machine)
  unfolding map_large propagate_pde
  map_large-SameView =
      let pde = pde_of (p.vaddr) in
      let shares = leb kernel_pde_start pde in
      let shared = if shares then propagate_pde services entered cfg pde else entered in
      let flushes = set_in_use shared cfg flags in
      let none_there : ((p.machine.config cfg).pt pde == 0) ≡ true = ground arith in
      rw none_there (
        trans-SameView cfg entered shared
          (if flushes then invalidate_pages pde 0 pt_entries shared else shared)
          (if-SameView shares cfg entered (propagate_pde services entered cfg pde)
            (propagate_from-SameView (services.max_configs) entered cfg pde kernel_config))
          (if-SameView flushes cfg shared (invalidate_pages pde 0 pt_entries shared)
            (invalidate_pages-SameView pde 0 pt_entries shared cfg)))

  entered-fault :
      is_large ((p.machine.config cfg).pd (pde_of (p.vaddr))) ≡ false
      → get_paddr entered cfg (p.vaddr) ≡ fault
  unfolding get_paddr set_used set_pd
  entered-fault small =
      let old = (p.machine.config cfg).pd (pde_of (p.vaddr)) in
      ground (arith, large_entry-size (p.paddr) flags old, large_entry-present (p.paddr) flags old)

  -- Where a directory entry that is not a large page already has no page table, the turn of
  -- `vmm_map` that is to map a large page there does not set the size bit, so that the lookup of
  -- the address reads through the null page table. The turn also adds the size of the page to the
  -- size wanted instead of the size mapped, so that afterwards more is left to map than before.
  map_large-fault :
      is_large ((p.machine.config cfg).pd (pde_of (p.vaddr))) ≡ false
      → p.mapped_size ≤ p.size
      → p.size + 0x3ff000 < 2 ^ 32
      → (get_paddr ((map_large services cfg flags p).machine) cfg (p.vaddr) ≡ fault)
        × ((map_large services cfg flags p).size - (map_large services cfg flags p).mapped_size
            ≡ p.size - p.mapped_size + 0x3fe000)
  unfolding map_large
  map_large-fault small counted room = (
    get_paddr-SameView cfg entered ((map_large services cfg flags p).machine) (p.vaddr)
          map_large-SameView
        ∙ entered-fault small,
    omega arith,
  )
