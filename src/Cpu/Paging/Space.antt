-- ===== src/Cpu/Paging/Space.antt =====
-- `vmm_find_free` of kernel/cpu/i386/src/vmm_ops.c.
pub mod Inner
pub mod Finds
use neo_sys_x.Common.{
  not, ◌⊎◌, inl, inr, ℕ, zero, suc, ◌+◌, ◌-◌, ◌*◌, ◌/◌, ◌%◌, ◌^◌, Bool, true, false, Option, none,
  some, ltb, leb, ◌==◌, ◌&&◌, ◌||◌, if◌then◌else◌,
}
use neo_sys_x.Cpu.Paging.{Machine, pt_entries, uintptr_max, pde_of, pte_of}

-- The variables of the two loops; `free` is `avail_pages`.
pub record Gap : Type 0 where
  pub pde : ℕ
  pub pte : ℕ
  pub free : ℕ
  pub ret : ℕ

-- `(pde << 22) | (pte << 12)`
abbrev pub address : ℕ → ℕ → ℕ
address pde pte = pde * 2 ^ 22 + pte * 2 ^ 12

-- `if (!~ret) ret = …`
abbrev pub first_of : Gap → ℕ
first_of g = if g.ret == uintptr_max then address (g.pde) (g.pte) else g.ret

-- A turn of the loop over a gap: on, out of the loop by `break`, or a read through a page table that
-- is `NULL`.
pub data GapTurn : Type 0 where
  fault : GapTurn
  broken : Gap → GapTurn
  on : Gap → GapTurn

-- The condition of both loops on the position.
abbrev pub in_space : ℕ → ℕ → Bool
in_space pde pte = ltb pde 1024 && ltb pte pt_entries

abbrev pub used : {W : Type 0} → Machine W → ℕ → ℕ → ℕ
used m cfg = (m.config cfg).pt_used

module _ {W : Type 0} (m : Machine W) (cfg pages : ℕ) where
  unfoldable pub gap_turn : Gap → GapTurn
  gap_turn g =
      if used m cfg (g.pde) == 0
      then GapTurn.on (record {
        pde = g.pde + 1;
        pte = 0;
        free = g.free + (pt_entries - g.pte);
        ret = first_of g;
      })
      else if (m.config cfg).pt (g.pde) == 0
      then GapTurn.fault
      else if m.table ((m.config cfg).pt (g.pde)) (g.pte) == 0
      then GapTurn.on (record g { free = g.free + 1; ret = first_of g })
      else if not (g.ret == uintptr_max)
      then GapTurn.broken g
      else if leb pt_entries (g.pte + 1)
      then GapTurn.on (record g { pde = g.pde + 1; pte = 0 })
      else GapTurn.on (record g { pte = g.pte + 1 })

  -- The inner loop; `none` where the fuel is not enough or the processor faults.
  unfoldable pub gap_loop : ℕ → Gap → Option Gap
  unfolding gap_turn
  gap_loop zero g = if ltb (g.free) pages && in_space (g.pde) (g.pte) then none else some g
  gap_loop (suc fuel) g = elim (ltb (g.free) pages && in_space (g.pde) (g.pte)) [
    | false ↦ some g
    | true ↦ elim (gap_turn g) [ fault ↦ none | broken h ↦ some h | on h ↦ gap_loop fuel h ]
  ]

  -- A turn of the outer loop: the next position, or the answer.
  unfoldable pub space_turn : ℕ → ℕ → ℕ → Option ((ℕ × ℕ) ⊎ ℕ)
  unfolding gap_loop
  space_turn fuel pde pte =
      if leb pt_entries (used m cfg pde)
      then some (inl (pde + 1, 0))
      else if used m cfg pde == 0 && ltb (pte + pages) pt_entries
      then some (inr (address pde pte))
      else elim (gap_loop fuel (record { pde = pde; pte = pte; free = 0; ret = uintptr_max })) [
        | none ↦ none
        | some g ↦ some (if ltb (g.free) pages then inl (g.pde, g.pte) else inr (g.ret))
      ]

  -- The outer loop.
  unfoldable pub space_loop : ℕ → ℕ → ℕ → Option ℕ
  unfolding space_turn
  space_loop zero pde pte = if in_space pde pte then none else some uintptr_max
  space_loop (suc fuel) pde pte = elim (in_space pde pte) [
    | false ↦ some uintptr_max
    | true ↦ elim (space_turn (suc fuel) pde pte) [
      | none ↦ none
      | some r ↦ elim r [ inl next ↦ space_loop fuel (next.0) (next.1) | inr found ↦ some found ]
    ]
  ]

-- `(size + 4095) >> 12`
abbrev pub pages_of : ℕ → ℕ
pages_of size = (size + 4095) % 2 ^ 32 / 2 ^ 12

-- The address moved up to a page.
unfoldable pub page_up : ℕ → ℕ
page_up vaddr = if vaddr % 0x1000 == 0 then vaddr else (vaddr + (0x1000 - vaddr % 0x1000)) % 2 ^ 32

-- `vmm_find_free`
unfoldable pub vmm_find_free : {W : Type 0} → ℕ → Machine W → ℕ → ℕ → ℕ → Option ℕ
unfolding space_loop page_up
vmm_find_free fuel m cfg from_vaddr size =
    let start = page_up from_vaddr in
    if cfg == 0
    then some uintptr_max
    else if pages_of size == 0
    then some uintptr_max
    else space_loop m cfg (pages_of size) fuel (pde_of start) (pte_of start)
