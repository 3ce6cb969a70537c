-- ===== src/Cpu/Paging/Unmap/Range.antt =====
-- `vmm_unmap` over page tables that are there, and what it does to a table that is counted wrong.
use neo_sys_x.Common.{
  ℕ, zero, suc, ◌+◌, ◌-◌, ◌*◌, ◌%◌, ◌^◌, ◌≤◌, ◌<◌, ◌≡◌, refl, ◌≢◌, ◌⊎◌, ◌∙◌, ap, true, false, ◌&&◌,
  inl, inr, Bool-cases, ltb, leb, ◌==◌, if◌then◌else◌, arith, update, Option, some,
}
use neo_sys_x.Cpu.Paging.{Config, Machine, Services, pde_of, pte_of, set_entry, set_used}
use neo_sys_x.Cpu.Paging.Entry.{Lookup, unmapped, get_paddr}
use neo_sys_x.Cpu.Paging.Map.View.{SameView, get_paddr-SameView}
use neo_sys_x.Cpu.Paging.Map.Range.{Separate, Tabled}
use neo_sys_x.Cpu.Paging.Unmap.{Progress, unmap_loop, vmm_unmap}
use neo_sys_x.Cpu.Paging.Unmap.Page.{
  settled, after, unmap_loop-next, unmap_loop-done, settled-lost, settled-SameConfig,
}

-- What an address leads to, where `size` bytes from `vaddr` on are taken away.
abbrev pub without : ℕ → ℕ → ℕ → Lookup → Lookup
without vaddr size a before = if leb vaddr a && ltb a (vaddr + size) then unmapped else before

-- The pages have page tables, and each counts more pages than these.
abbrev pub AllKept : Config → ℕ → ℕ → Type 0
AllKept c vaddr n =
    (a : ℕ) → vaddr ≤ a → a < vaddr + 4096 * n → Tabled c a × (n < c.pt_used (pde_of a))

module _ {W : Type 0} (m : Machine W) (cfg vaddr : ℕ) where
  abbrev erased : Machine W
  erased = set_entry m ((m.config cfg).pt (pde_of vaddr)) (pte_of vaddr) 0

module _ {W : Type 0} (m : Machine W) (cfg vaddr : ℕ) (some_config : cfg ≢ 0)
    (aligned : vaddr % 4096 ≡ 0) (tabled : Tabled (m.config cfg) vaddr)
    (separate : Separate (m.config cfg)) where
  inside : (a : ℕ) → vaddr ≤ a → a < vaddr + 4096 → get_paddr (erased m cfg vaddr) cfg a ≡ unmapped
  unfolding get_paddr set_entry
  inside a low high =
      let i : pde_of a ≡ pde_of vaddr = omega arith in
      let j : pte_of a ≡ pte_of vaddr = omega arith in
      let (t, d, l) = tabled in rw (i, j) (ground arith)

  outside :
      (a : ℕ)
      → (a < vaddr) ⊎ (vaddr + 4096 ≤ a)
      → get_paddr (erased m cfg vaddr) cfg a ≡ get_paddr m cfg a
  unfolding get_paddr set_entry
  outside a away = elim (Bool-cases (pde_of a == pde_of vaddr)) [
    | inl e ↦
        let i : pde_of a ≡ pde_of vaddr = ground arith in
        let j : pte_of a ≢ pte_of vaddr = omega arith in rw i (ground arith)
    | inr e ↦
        let (t, d, l) = tabled in
        let apart : (m.config cfg).pt (pde_of a) ≢ (m.config cfg).pt (pde_of vaddr) =
          ground (arith, separate (pde_of a) (pde_of vaddr)) in
        ground (arith, apart)
  ]

  get_paddr-erased :
      (a : ℕ) → get_paddr (erased m cfg vaddr) cfg a ≡ without vaddr 4096 a (get_paddr m cfg a)
  get_paddr-erased a = ground (arith, inside a, outside a)

module _ {W : Type 0} (services : Services W) (cfg vaddr_end : ℕ) (some_config : cfg ≢ 0) where
  settled-config :
      (m : Machine W) (vaddr : ℕ)
      → 1 < (m.config cfg).pt_used (pde_of vaddr)
      → (settled services cfg vaddr_end m vaddr).config cfg ≡ record (m.config cfg) {
        pt_used =
            update
              ((m.config cfg).pt_used)
              (pde_of vaddr)
              ((m.config cfg).pt_used (pde_of vaddr) - 1);
      }
  unfolding set_entry set_used
  settled-config m vaddr many =
      let (a, b) = settled-SameConfig services cfg vaddr_end m vaddr many in
      let e : (cfg == cfg) ≡ true = ground arith in a ∙ rw e refl

  settled-SameView :
      (m : Machine W) (vaddr : ℕ)
      → 1 < (m.config cfg).pt_used (pde_of vaddr)
      → SameView cfg (erased m cfg vaddr) (settled services cfg vaddr_end m vaddr)
  unfolding set_entry set_used
  settled-SameView m vaddr many =
      let (a, b) = settled-SameConfig services cfg vaddr_end m vaddr many in
      let c = settled-config m vaddr many in
      (ap (λ (c : Config). c.pd) c, ap (λ (c : Config). c.pt) c, b)

  -- The state of the loop with `n` pages to go.
  abbrev Pages : ℕ → Progress W → ℕ → Type 0
  Pages size p n =
      (p.vaddr % 4096 ≡ 0)
      × (p.vaddr + 4096 * n < 2 ^ 32)
      × (p.unmapped_size + 4096 * n < 2 ^ 32)
      × (size ≤ p.unmapped_size + 4096 * n)
      × (p.unmapped_size + 4096 * n < size + 4096)

  abbrev Removed : Progress W → ℕ → Option (Machine W) → Type 0
  Removed p n r =
      (t : Machine W) × (r ≡ some t)
      × ((a : ℕ) → get_paddr t cfg a ≡ without (p.vaddr) (4096 * n) a (get_paddr (p.machine) cfg a))

  without-split :
      (v n a : ℕ) (before : Lookup)
      → without (v + 4096) (4096 * n) a (without v 4096 a before)
        ≡ without v (4096 * suc n) a before
  without-split v n a before = ground arith

  after-AllKept :
      (p : Progress W) (n : ℕ)
      → AllKept (p.machine.config cfg) (p.vaddr) (suc n)
      → AllKept
          ((settled services cfg vaddr_end (p.machine) (p.vaddr)).config cfg)
          (p.vaddr + 4096)
          n
  after-AllKept p n kept a low high =
      let (here, many) = kept (p.vaddr) (omega arith) (omega arith) in
      let e = settled-config (p.machine) (p.vaddr) (omega arith) in
      let (tabled, more) = kept a (omega arith) (omega arith) in rw e (tabled, ground arith)

  unmap_loop-Removed :
      (fuel n size : ℕ) (p : Progress W)
      → Pages size p n
      → n ≤ fuel
      → AllKept (p.machine.config cfg) (p.vaddr) n
      → Separate (p.machine.config cfg)
      → Removed p n (unmap_loop services cfg vaddr_end fuel size p)
  unmap_loop-Removed fuel zero size p w enough kept separate = (
    p.machine,
    unmap_loop-done services cfg vaddr_end fuel size p (omega arith),
    λ a. ground arith,
  )
  unmap_loop-Removed zero (suc n) size p w enough kept separate = absurd (omega arith)
  unmap_loop-Removed (suc fuel) (suc n) size p w enough kept separate =
      let m = p.machine in
      let v = p.vaddr in
      let q = after services cfg vaddr_end p in
      let (here, many) = kept v (omega arith) (omega arith) in
      let one = get_paddr-erased m cfg v some_config (omega arith) here separate in
      let iv : q.vaddr ≡ v + 4096 = omega arith in
      let e = settled-config m v (omega arith) in
      let apart : Separate (q.machine.config cfg) = rw e separate in
      let all : AllKept (q.machine.config cfg) (q.vaddr) n = rw iv (after-AllKept p n kept) in
      let (t, f, gone) = unmap_loop-Removed fuel n size q (omega arith) (omega arith) all apart in
      (
        t,
        unmap_loop-next services cfg vaddr_end fuel size p here (omega arith) ∙ f,
        λ a.
            gone a
            ∙ rw
                (
                  iv,
                  get_paddr-SameView cfg (erased m cfg v) (q.machine) a
                      (settled-SameView m v (omega arith)),
                  one a,
                )
                (without-split v n a (get_paddr m cfg a)),
      )

module _ {W : Type 0} (services : Services W) (cfg : ℕ) (some_config : cfg ≢ 0) (m : Machine W)
    (vaddr size n : ℕ) (aligned : vaddr % 4096 ≡ 0) (low : size ≤ 4096 * n)
    (high : 4096 * n < size + 4096) (fits : vaddr + 4096 * n < 2 ^ 32) where
  start :
      (fuel : ℕ)
      → vmm_unmap services fuel m cfg vaddr size
        ≡ unmap_loop services cfg
            ((vaddr + size) % 2 ^ 32)
            fuel
            size
            (record { machine = m; vaddr = vaddr; unmapped_size = 0 })
  unfolding vmm_unmap
  start fuel =
      let c : (cfg == 0) ≡ false = ground arith in
      let e : vaddr - vaddr % 0x1000 ≡ vaddr = omega arith in
      let f : (size + vaddr % 0x1000) % 2 ^ 32 ≡ size = omega arith in rw (c, e, f) refl

  -- Pages whose tables are there, are not shared, and count more pages than are taken away, are
  -- unmapped to the end: `vmm_unmap` returns, no address of them leads anywhere, and every other
  -- address of the config leads where it led before.
  pub vmm_unmap-get_paddr :
      AllKept (m.config cfg) vaddr n
      → Separate (m.config cfg)
      → (t : Machine W) × (vmm_unmap services n m cfg vaddr size ≡ some t)
        × ((a : ℕ) → get_paddr t cfg a ≡ without vaddr (4096 * n) a (get_paddr m cfg a))
  vmm_unmap-get_paddr kept separate =
      let p : Progress W = record { machine = m; vaddr = vaddr; unmapped_size = 0 } in
      let (t, e, gone) =
        unmap_loop-Removed services cfg ((vaddr + size) % 2 ^ 32) some_config n n size p
          (aligned, omega arith, omega arith, omega arith, omega arith) (omega arith) kept
          separate in
      (t, start n ∙ e, gone)

module _ {W : Type 0} (services : Services W) (cfg : ℕ) (some_config : cfg ≢ 0) (m : Machine W)
    (vaddr : ℕ) where
  -- `vmm_unmap` counts a page that it takes away whether it was mapped or not: where the table of
  -- the page counts only one, taking away a page drops the table, so that no address of the whole
  -- directory entry leads anywhere, the one page that was mapped included.
  pub vmm_unmap-loses :
      vaddr % 4096 ≡ 0
      → vaddr + 4096 < 2 ^ 32
      → Tabled (m.config cfg) vaddr
      → (m.config cfg).pt_used (pde_of vaddr) ≡ 1
      → (t : Machine W) × (vmm_unmap services 1 m cfg vaddr 4096 ≡ some t)
        × ((a : ℕ) → pde_of a ≡ pde_of vaddr → get_paddr t cfg a ≡ unmapped)
  vmm_unmap-loses aligned fits tabled one =
      let p : Progress W = record { machine = m; vaddr = vaddr; unmapped_size = 0 } in
      let end = (vaddr + 4096) % 2 ^ 32 in
      (
        settled services cfg end m vaddr,
        start services cfg some_config m vaddr 4096 1 aligned (omega arith) (omega arith)
              (omega arith) 1
            ∙ unmap_loop-next services cfg end 0 4096 p tabled (omega arith)
            ∙ unmap_loop-done services cfg end 0 4096 (after services cfg end p) (omega arith),
        settled-lost services cfg end m vaddr some_config (omega arith),
      )
