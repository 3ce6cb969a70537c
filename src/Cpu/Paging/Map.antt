-- ===== src/Cpu/Paging/Map.antt =====
-- `vmm_map` of kernel/cpu/i386/src/vmm_ops.c, one turn of its loop at a time.
pub mod View
pub mod Range
pub mod Outside
pub mod Large
use neo_sys_x.Common.{
  ℕ, zero, suc, ◌+◌, ◌-◌, ◌*◌, ◌/◌, ◌%◌, ◌^◌, Bool, true, false, not, Option, none, some, ltb, leb,
  ◌==◌, ◌&&◌, ◌||◌, if◌then◌else◌,
}
use neo_sys_x.Cpu.Paging.{
  Machine, Services, kernel_config, pt_entries, pt_size, kernel_pde_start, flag, flag_cache_global,
  pde_of, pte_of, set_pd, set_pt, set_used, set_entry, set_table, invalidate, invalidate_pages,
  propagate_pde,
}
use neo_sys_x.Cpu.Paging.Entry.{
  is_large, page_entry, large_entry, table_entry, split_entry, Lookup, fault, unmapped, mapped,
  get_paddr,
}

-- A new page table: a fault, a failure, or the machine with the physical address of the table.
pub data NewTable (W : Type 0) : Type 0 where
  crashed : NewTable W
  refused : Machine W → NewTable W
  made : Machine W → ℕ → NewTable W

module _ {W : Type 0} (services : Services W) where
  -- The address that `vmm_get_paddr` leaves in `pt_paddr`.
  unfoldable pub pt_paddr_of : Lookup → Option ℕ
  pt_paddr_of fault = none
  pt_paddr_of unmapped = some services.uninitialised
  pt_paddr_of (mapped paddr) = some paddr

  -- The allocation of a table for a directory entry, up to the `memset`; `vmm_map` and `vmm_unmap`
  -- share it.
  unfoldable pub new_table : Machine W → ℕ → ℕ → NewTable W
  unfolding pt_paddr_of get_paddr set_pt set_table
  new_table m cfg pde =
      let (allocated, ptr) = services.alloc_table m in
      let stored = set_pt allocated cfg pde ptr in
      if ptr == 0 then refused stored else elim (pt_paddr_of (get_paddr stored cfg ptr)) [
        | none ↦ crashed
        | some pt_paddr ↦
            if ltb (2 ^ 32 - 1) pt_paddr
            then refused (set_pt (services.unmap_kernel stored ptr pt_size) cfg pde 0)
            else made (set_table stored ptr (λ i. 0)) pt_paddr
      ]

  -- The directory entry for a new table; the pages of a large page go over to the table first.
  unfoldable pub install_table : Machine W → ℕ → ℕ → ℕ → Machine W
  unfolding is_large split_entry table_entry set_table set_used set_pd
  install_table m cfg pde pt_paddr =
      let c = m.config cfg in
      let e = c.pd pde in
      let filled =
        if is_large e
        then set_used (set_table m (c.pt pde) (split_entry e)) cfg pde pt_entries
        else set_used m cfg pde 0 in
      set_pd filled cfg pde (table_entry pt_paddr)

-- The variables of the loop.
pub record Progress (W : Type 0) : Type 0 where
  pub machine : Machine W
  pub paddr : ℕ
  pub vaddr : ℕ
  pub size : ℕ
  pub mapped_size : ℕ

-- How a turn ends: a fault, the end of the loop by `break`, or the next turn.
pub data Turn (W : Type 0) : Type 0 where
  crash : Turn W
  leave : Machine W → Turn W
  next : Progress W → Turn W

-- The steps at the end of a turn, by `amount` bytes that are mapped and `extra` that are not counted.
abbrev pub advance : {W : Type 0} → Progress W → Machine W → ℕ → Progress W
advance p m extra = record p {
  machine = m;
  paddr = (p.paddr + extra + 0x1000) % 2 ^ 64;
  vaddr = (p.vaddr + extra + 0x1000) % 2 ^ 32;
  size = (p.size + extra) % 2 ^ 32;
  mapped_size = (p.mapped_size + 0x1000) % 2 ^ 32;
}

abbrev pub set_in_use : {W : Type 0} → Machine W → ℕ → ℕ → Bool
set_in_use m cfg flags = cfg == m.current || flag flags flag_cache_global == 1

module _ {W : Type 0} (services : Services W) (cfg flags : ℕ) where
  -- A turn that maps a large page.
  unfoldable pub map_large : Progress W → Progress W
  unfolding large_entry set_pd set_pt set_used propagate_pde flag
  map_large p =
      let m = p.machine in
      let pde = pde_of p.vaddr in
      let ptr = (m.config cfg).pt pde in
      let cleared =
        if ptr == 0 then m else set_pt (services.unmap_kernel m ptr pt_size) cfg pde 0 in
      let entered =
        set_used (set_pd cleared cfg pde (large_entry p.paddr flags ((cleared.config cfg).pd pde)))
          cfg pde pt_entries in
      let shared =
        if leb kernel_pde_start pde then propagate_pde services entered cfg pde else entered in
      let flushed =
        if set_in_use shared cfg flags then invalidate_pages pde 0 pt_entries shared else shared in
      advance p flushed (0x400000 - 0x1000)

  -- The rest of a turn that maps a small page, once there is a table; `installed` tells whether the
  -- table is new.
  unfoldable pub map_page : Progress W → Machine W → Bool → Progress W
  unfolding page_entry set_used set_entry propagate_pde invalidate flag
  map_page p m installed =
      let pde = pde_of p.vaddr in
      let pte = pte_of p.vaddr in
      let c = m.config cfg in
      let ptr = c.pt pde in
      let e = m.table ptr pte in
      let counts = e == 0 && ltb (c.pt_used pde) pt_entries in
      let counted = if counts then set_used m cfg pde (c.pt_used pde + 1) else m in
      let entered = set_entry counted ptr pte (page_entry p.paddr flags e) in
      let shared =
        if (installed || counts) && leb kernel_pde_start pde
        then propagate_pde services entered cfg pde
        else entered in
      let flushed = if set_in_use shared cfg flags then invalidate shared p.vaddr else shared in
      advance p flushed 0

  unfoldable pub map_small : Progress W → Turn W
  unfolding map_page new_table install_table
  map_small p =
      let pde = pde_of p.vaddr in
      if (p.machine.config cfg).pt pde == 0
      then elim (new_table services p.machine cfg pde) [
        | crashed ↦ crash
        | refused m ↦ leave m
        | made m pt_paddr ↦ next (map_page p (install_table services m cfg pde pt_paddr) true)
      ]
      else next (map_page p p.machine false)

  -- A turn of the loop, with the choice of the size of the page.
  unfoldable pub map_turn : Progress W → Turn W
  unfolding map_large map_small
  map_turn p =
      if pte_of p.vaddr == 0 && leb 0x400000 (p.size - p.mapped_size)
      then next (map_large p)
      else map_small p

  -- The loop; `none` where it crashes, or where the fuel is not enough.
  unfoldable pub map_loop : ℕ → Progress W → Option (Machine W × ℕ)
  unfolding map_turn
  map_loop zero p = if ltb p.mapped_size p.size then none else some (p.machine, p.mapped_size)
  map_loop (suc fuel) p = elim (ltb p.mapped_size p.size) [
    | false ↦ some (p.machine, p.mapped_size)
    | true ↦ elim (map_turn p) [
      | crash ↦ none
      | leave m ↦ some (m, p.mapped_size)
      | next q ↦ map_loop fuel q
    ]
  ]

-- The size once both addresses are moved down to a page.
unfoldable pub page_size : ℕ → ℕ → ℕ → ℕ
page_size paddr vaddr size =
    let paddr_off = paddr % 0x1000 in
    let vaddr_off = vaddr % 0x1000 in
    if paddr_off == 0 && vaddr_off == 0
    then size
    else (size + (0x1000 - (if ltb paddr_off vaddr_off then paddr_off else vaddr_off))) % 2 ^ 32

-- `vmm_map`
unfoldable pub vmm_map :
    {W : Type 0} → Services W → ℕ → Machine W → ℕ → ℕ → ℕ → ℕ → ℕ → Option (Machine W × ℕ)
unfolding map_loop page_size
vmm_map services fuel m cfg paddr vaddr size flags =
    if cfg == 0
    then some (m, 0)
    else map_loop services cfg flags fuel (record {
      machine = m;
      paddr = paddr - paddr % 0x1000;
      vaddr = vaddr - vaddr % 0x1000;
      size = page_size paddr vaddr size;
      mapped_size = 0;
    })
