-- ===== src/Cpu/Paging/Unmap.antt =====
-- `vmm_unmap` of kernel/cpu/i386/src/vmm_ops.c, one turn of its loop at a time.
pub mod Page
pub mod Range
use neo_sys_x.Common.{
  ℕ, zero, suc, ◌+◌, ◌-◌, ◌*◌, ◌/◌, ◌%◌, ◌^◌, Bool, true, false, not, Option, none, some, ltb, leb,
  ◌==◌, ◌&&◌, ◌||◌, if◌then◌else◌,
}
use neo_sys_x.Cpu.Paging.{
  Machine, Services, pt_entries, pt_size, kernel_pde_start, pde_of, pte_of, set_pd, set_pt,
  set_used, set_entry, set_table, invalidate, propagate_pde,
}
use neo_sys_x.Cpu.Paging.Entry.{field, addr, is_large, table_entry, split_entry}
use neo_sys_x.Cpu.Paging.Map.{NewTable, crashed, refused, made, new_table}

-- The variables of the loop that change.
pub record Progress (W : Type 0) : Type 0 where
  pub machine : Machine W
  pub vaddr : ℕ
  pub unmapped_size : ℕ

pub data Turn (W : Type 0) : Type 0 where
  crash : Turn W
  leave : Machine W → Turn W
  next : Progress W → Turn W

-- `(pde + 1) << 22`
abbrev pub next_pde : ℕ → ℕ
next_pde vaddr = (pde_of vaddr + 1) * 2 ^ 22 % 2 ^ 32

-- On to the next directory entry.
abbrev pub skip_pde : {W : Type 0} → Progress W → Machine W → Progress W
skip_pde p m = record {
  machine = m;
  vaddr = next_pde (p.vaddr);
  unmapped_size = (p.unmapped_size + (next_pde (p.vaddr) + 2 ^ 32 - p.vaddr) % 2 ^ 32) % 2 ^ 32;
}

-- `to_pte`, for a directory entry that ends before or with the region.
unfoldable pub last_pte : ℕ → ℕ → ℕ
last_pte pde vaddr_end =
    let last = (vaddr_end + 2 ^ 32 - 1) % 2 ^ 32 in
    if last / 2 ^ 22 == pde then last / 2 ^ 22 % 2 ^ 10 else pt_entries - 1

-- The table in place of a large page, without the pages from `from` to `to`.
unfoldable pub split_around : ℕ → ℕ → ℕ → ℕ → ℕ
unfolding split_entry
split_around e from to i = if leb from i && leb i to then 0 else split_entry e i

-- The pages from `from` to `to` are invalidated where they may be in use.
unfoldable pub invalidate_split : {W : Type 0} → ℕ → ℕ → ℕ → ℕ → ℕ → Machine W → Machine W
unfolding invalidate field
invalidate_split cfg pde from to zero m = m
invalidate_split cfg pde from to (suc count) m =
    let before = invalidate_split cfg pde from to count m in
    if leb from count
      && leb count to
      && (cfg == before.current || field 8 1 ((before.config cfg).pd pde) == 1)
    then invalidate before (pde * 2 ^ 22 + count * 2 ^ 12)
    else before

module _ {W : Type 0} (services : Services W) (cfg vaddr_end : ℕ) where
  -- The directory entry of a large page of which only a part goes: its rest moves to a table.
  unfoldable pub split_large : Machine W → ℕ → ℕ → ℕ → Machine W
  unfolding last_pte split_around invalidate_split table_entry set_table set_pd set_used
  split_large m pde from pt_paddr =
      let e = (m.config cfg).pd pde in
      let to = last_pte pde vaddr_end in
      let flushed = invalidate_split cfg pde from to pt_entries m in
      let filled = set_table flushed ((flushed.config cfg).pt pde) (split_around e from to) in
      set_used (set_pd filled cfg pde (table_entry pt_paddr)) cfg pde
        ((1024 + 2 ^ 32 - (to + 1) + from) % 2 ^ 32 % 2 ^ 16)

  -- The end of a turn at a large page.
  unfoldable pub finish_large : Progress W → Machine W → Turn W
  unfolding propagate_pde
  finish_large p m =
      let pde = pde_of (p.vaddr) in
      next (skip_pde p (if leb kernel_pde_start pde then propagate_pde services m cfg pde else m))

  unfoldable pub unmap_large : Progress W → Turn W
  unfolding split_large finish_large new_table set_pd set_used
  unmap_large p =
      let m = p.machine in
      let pde = pde_of (p.vaddr) in
      let pte = pte_of (p.vaddr) in
      if pte == 0 && leb (next_pde (p.vaddr)) vaddr_end
      then finish_large p (set_used (set_pd m cfg pde 0) cfg pde 0)
      else elim (new_table services m cfg pde) [
        | crashed ↦ crash
        | refused t ↦ leave t
        | made t pt_paddr ↦ finish_large p (split_large t pde pte pt_paddr)
      ]

  -- The count of the table of a page that was cleared, and the table itself where it is empty.
  unfoldable pub drop_page : Machine W → ℕ → Machine W
  unfolding set_used
  drop_page m pde =
      let used = (m.config cfg).pt_used pde in
      if used == 0 then m else set_used m cfg pde (used - 1)

  unfoldable pub drop_table : Machine W → ℕ → Machine W
  unfolding set_pd set_pt
  drop_table m pde =
      let freed = services.unmap_kernel m ((m.config cfg).pt pde) pt_size in
      let back = services.pmm_free freed (addr ((freed.config cfg).pd pde) * 2 ^ 12) pt_size in
      set_pt (set_pd back cfg pde 0) cfg pde 0

  -- The entry of the page, in the table at `ptr`.
  unfoldable pub clear_page : Machine W → ℕ → ℕ → Machine W
  unfolding set_entry invalidate field
  clear_page m ptr vaddr =
      let global = field 8 1 (m.table ptr (pte_of vaddr)) in
      let cleared = set_entry m ptr (pte_of vaddr) 0 in
      if cfg == m.current || global == 1 then invalidate cleared vaddr else cleared

  unfoldable pub settle_page : Machine W → ℕ → Machine W
  unfolding drop_page drop_table propagate_pde
  settle_page m pde =
      let counted = drop_page m pde in
      let empty = (counted.config cfg).pt_used pde == 0 in
      let dropped = if empty then drop_table counted pde else counted in
      let changed = empty || not ((m.config cfg).pt_used pde == 0) in
      if changed && leb kernel_pde_start pde
      then propagate_pde services dropped cfg pde
      else dropped

  unfoldable pub unmap_page : Progress W → Turn W
  unfolding clear_page settle_page
  unmap_page p =
      let pde = pde_of (p.vaddr) in
      let ptr = (p.machine.config cfg).pt pde in
      if ptr == 0
      then crash
      else next (record {
        machine = settle_page (clear_page (p.machine) ptr (p.vaddr)) pde;
        vaddr = (p.vaddr + 0x1000) % 2 ^ 32;
        unmapped_size = (p.unmapped_size + 0x1000) % 2 ^ 32;
      })

  unfoldable pub unmap_turn : Progress W → Turn W
  unfolding unmap_large unmap_page is_large
  unmap_turn p =
      let e = (p.machine.config cfg).pd (pde_of (p.vaddr)) in
      if e == 0
      then next (skip_pde p (p.machine))
      else if is_large e
      then unmap_large p
      else unmap_page p

  -- The loop; `none` where it crashes, or where the fuel is not enough.
  unfoldable pub unmap_loop : ℕ → ℕ → Progress W → Option (Machine W)
  unfolding unmap_turn
  unmap_loop zero size p = if ltb (p.unmapped_size) size then none else some (p.machine)
  unmap_loop (suc fuel) size p = elim (ltb (p.unmapped_size) size) [
    | false ↦ some (p.machine)
    | true ↦ elim (unmap_turn p) [
      | crash ↦ none
      | leave m ↦ some m
      | next q ↦ unmap_loop fuel size q
    ]
  ]

-- `vmm_unmap`
unfoldable pub vmm_unmap :
    {W : Type 0} → Services W → ℕ → Machine W → ℕ → ℕ → ℕ → Option (Machine W)
unfolding unmap_loop
vmm_unmap services fuel m cfg vaddr size =
    let start = vaddr - vaddr % 0x1000 in
    let whole = (size + vaddr % 0x1000) % 2 ^ 32 in
    if cfg == 0
    then some m
    else unmap_loop services cfg ((start + whole) % 2 ^ 32) fuel whole
        (record { machine = m; vaddr = start; unmapped_size = 0 })
