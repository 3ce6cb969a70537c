-- ===== src/Cpu/Paging/Map/Range.antt =====
-- `vmm_map` over page tables that are there: what every address of the config then leads to.
use neo_sys_x.Common.{
  ℕ, zero, suc, ◌+◌, ◌-◌, ◌*◌, ◌%◌, ◌^◌, ◌≤◌, ◌<◌, ◌≡◌, refl, ◌≢◌, ◌⊎◌, ◌∙◌, ap, Bool, true, false,
  ◌&&◌, inl, inr, Bool-cases, ltb, leb, ◌==◌, if◌then◌else◌, arith, Option, some,
}
use neo_sys_x.Cpu.Paging.{Config, Machine, Services, pde_of, pte_of, set_entry}
use neo_sys_x.Cpu.Paging.Entry.{is_large, page_entry, Lookup, mapped, get_paddr}
use neo_sys_x.Cpu.Paging.Entry.Fields.{page_entry-addr, page_entry-present}
use neo_sys_x.Cpu.Paging.Map.{
  Progress, Turn, map_page, map_small, map_turn, map_loop, page_size, vmm_map,
}
use neo_sys_x.Cpu.Paging.Map.View.{map_page-SameView, get_paddr-SameView}

-- No two directory entries share a page table.
abbrev pub Separate : Config → Type 0
Separate c = (i j : ℕ) → c.pt i ≡ c.pt j → c.pt i ≢ 0 → i ≡ j

-- The directory entry of an address has a page table.
abbrev pub Tabled : Config → ℕ → Type 0
Tabled c a = (c.pt (pde_of a) ≢ 0) × (c.pd (pde_of a) ≢ 0) × (is_large (c.pd (pde_of a)) ≡ false)

-- So have those of `n` pages.
abbrev pub AllTabled : Config → ℕ → ℕ → Type 0
AllTabled c vaddr n = (a : ℕ) → vaddr ≤ a → a < vaddr + 4096 * n → Tabled c a

-- What an address leads to, where `size` bytes from `vaddr` on are mapped to `paddr`.
abbrev pub overlay : ℕ → ℕ → ℕ → ℕ → Lookup → Lookup
overlay vaddr size paddr a before =
    if leb vaddr a && ltb a (vaddr + size) then mapped (paddr + (a - vaddr)) else before

-- The machine after the write of the entry for one page.
module _ {W : Type 0} (m : Machine W) (cfg flags vaddr paddr : ℕ) where
  abbrev entered : Machine W
  entered =
      let ptr = (m.config cfg).pt (pde_of vaddr) in
      let pte = pte_of vaddr in set_entry m ptr pte (page_entry paddr flags (m.table ptr pte))

module _ {W : Type 0} (m : Machine W) (cfg flags vaddr paddr : ℕ) (some_config : cfg ≢ 0)
    (v_aligned : vaddr % 4096 ≡ 0) (p_aligned : paddr % 4096 ≡ 0) (p_small : paddr < 2 ^ 32)
    (tabled : Tabled (m.config cfg) vaddr) (separate : Separate (m.config cfg)) where
  inside :
      (a : ℕ)
      → vaddr ≤ a
      → a < vaddr + 4096
      → get_paddr (entered m cfg flags vaddr paddr) cfg a ≡ mapped (paddr + (a - vaddr))
  unfolding get_paddr set_entry
  inside a low high =
      let i : pde_of a ≡ pde_of vaddr = omega arith in
      let j : pte_of a ≡ pte_of vaddr = omega arith in
      let (t, d, l) = tabled in
      rw (i, j)
        (ground (
          arith,
          page_entry-addr paddr flags (m.table ((m.config cfg).pt (pde_of vaddr)) (pte_of vaddr))
              p_small,
          page_entry-present paddr flags
              (m.table ((m.config cfg).pt (pde_of vaddr)) (pte_of vaddr)),
        ))

  outside :
      (a : ℕ)
      → (a < vaddr) ⊎ (vaddr + 4096 ≤ a)
      → get_paddr (entered m cfg flags vaddr paddr) cfg a ≡ get_paddr m cfg a
  unfolding get_paddr set_entry
  outside a away = elim (Bool-cases (pde_of a == pde_of vaddr)) [
    | inl e ↦
        let i : pde_of a ≡ pde_of vaddr = ground arith in
        let j : pte_of a ≢ pte_of vaddr = omega arith in rw i (ground arith)
    | inr e ↦
        let (t, d, l) = tabled in
        let away : (m.config cfg).pt (pde_of a) ≢ (m.config cfg).pt (pde_of vaddr) =
          ground (arith, separate (pde_of a) (pde_of vaddr)) in
        ground (arith, away)
  ]

  get_paddr-entered :
      (a : ℕ)
      → get_paddr (entered m cfg flags vaddr paddr) cfg a
        ≡ overlay vaddr 4096 paddr a (get_paddr m cfg a)
  get_paddr-entered a = ground (arith, inside a, outside a)

module _ {W : Type 0} (services : Services W) (cfg flags : ℕ) (some_config : cfg ≢ 0) where
  pub map_turn-Tabled :
      (p : Progress W)
      → Tabled (p.machine.config cfg) (p.vaddr)
      → p.size < p.mapped_size + 0x400000
      → map_turn services cfg flags p ≡ Turn.next (map_page services cfg flags p (p.machine) false)
  unfolding map_turn map_small
  map_turn-Tabled p (t, d, l) small =
      let e : leb 0x400000 (p.size - p.mapped_size) ≡ false = ground arith in
      let f : ((p.machine.config cfg).pt (pde_of (p.vaddr)) == 0) ≡ false = ground arith in
      ground (arith, e, f)

  -- The state of the loop with `n` pages to go.
  abbrev pub Pages : Progress W → ℕ → Type 0
  Pages p n =
      (p.vaddr % 4096 ≡ 0)
      × (p.paddr % 4096 ≡ 0)
      × (p.vaddr + 4096 * n < 2 ^ 32)
      × (p.paddr + 4096 * n < 2 ^ 32)
      × (p.mapped_size + 4096 * n < 2 ^ 32)
      × (p.size ≤ p.mapped_size + 4096 * n)
      × (p.mapped_size + 4096 * n < p.size + 4096)
      × (p.size < p.mapped_size + 0x400000)

  abbrev Overlaid : Progress W → ℕ → Option (Machine W × ℕ) → Type 0
  Overlaid p n r =
      (t : Machine W) × (r ≡ some (t, p.mapped_size + 4096 * n))
      × ((a : ℕ)
          → get_paddr t cfg a
            ≡ overlay (p.vaddr) (4096 * n) (p.paddr) a (get_paddr (p.machine) cfg a))

  pub map_loop-done :
      (fuel : ℕ) (p : Progress W)
      → p.size ≤ p.mapped_size
      → map_loop services cfg flags fuel p ≡ some (p.machine, p.mapped_size)
  unfolding map_loop
  map_loop-done zero p h = ground arith
  map_loop-done (suc fuel) p h =
      let e : ltb (p.mapped_size) (p.size) ≡ false = ground arith in rw (e, map_loop) refl

  pub map_loop-next :
      (fuel : ℕ) (p q : Progress W)
      → p.mapped_size < p.size
      → map_turn services cfg flags p ≡ Turn.next q
      → map_loop services cfg flags (suc fuel) p ≡ map_loop services cfg flags fuel q
  unfolding map_loop
  map_loop-next fuel p q h e =
      let f : ltb (p.mapped_size) (p.size) ≡ true = ground arith in rw (f, e, map_loop) refl

  pub map_page-fields :
      (p : Progress W) (m : Machine W) (installed : Bool)
      → let q = map_page services cfg flags p m installed in
        (q.vaddr ≡ (p.vaddr + 0x1000) % 2 ^ 32)
        × (q.paddr ≡ (p.paddr + 0x1000) % 2 ^ 64)
        × (q.size ≡ p.size % 2 ^ 32)
        × (q.mapped_size ≡ (p.mapped_size + 0x1000) % 2 ^ 32)
  unfolding map_page
  map_page-fields p m installed = (omega arith, omega arith, omega arith, omega arith)

  pub map_page-config :
      (p : Progress W) (m : Machine W) (installed : Bool)
      → let q = map_page services cfg flags p m installed in
        ((q.machine.config cfg).pd ≡ (m.config cfg).pd)
        × ((q.machine.config cfg).pt ≡ (m.config cfg).pt)
  unfolding set_entry
  map_page-config p m installed =
      let (a, b, c) = map_page-SameView services cfg flags p m installed in (a, b)

  overlay-split :
      (v n p a : ℕ) (before : Lookup)
      → overlay (v + 4096) (4096 * n) (p + 4096) a (overlay v 4096 p a before)
        ≡ overlay v (4096 * suc n) p a before
  overlay-split v n p a before = ground arith

  map_loop-Overlaid :
      (fuel n : ℕ) (p : Progress W)
      → Pages p n
      → n ≤ fuel
      → AllTabled (p.machine.config cfg) (p.vaddr) n
      → Separate (p.machine.config cfg)
      → Overlaid p n (map_loop services cfg flags fuel p)
  map_loop-Overlaid fuel zero p w enough tabled separate =
      let e : p.mapped_size ≡ p.mapped_size + 4096 * 0 = omega arith in
      (
        p.machine,
        rw (map_loop-done fuel p (omega arith)) (ap (λ (k : ℕ). some (p.machine, k)) e),
        λ a. ground arith,
      )
  map_loop-Overlaid zero (suc n) p w enough tabled separate = absurd (omega arith)
  map_loop-Overlaid (suc fuel) (suc n) p w enough tabled separate =
      let m = p.machine in
      let q = map_page services cfg flags p m false in
      let v = map_page-SameView services cfg flags p m false in
      let (i, j, k, l) = map_page-fields p m false in
      let here = tabled (p.vaddr) (omega arith) (omega arith) in
      let one =
        get_paddr-entered m cfg flags (p.vaddr) (p.paddr) some_config (omega arith) (omega arith)
          (omega arith) here separate in
      let (pd, pt) = map_page-config p m false in
      let all : AllTabled (q.machine.config cfg) (q.vaddr) n =
        (λ a low high. rw (pd, pt) (tabled a (omega arith) (omega arith))) in
      let apart : Separate (q.machine.config cfg) = rw pt separate in
      let (t, e, after) = map_loop-Overlaid fuel n q (omega arith) (omega arith) all apart in
      let f : q.mapped_size + 4096 * n ≡ p.mapped_size + 4096 * suc n = omega arith in
      let iv : q.vaddr ≡ p.vaddr + 4096 = omega arith in
      let jv : q.paddr ≡ p.paddr + 4096 = omega arith in
      (
        t,
        map_loop-next fuel p q (omega arith) (map_turn-Tabled p here (omega arith))
            ∙ e
            ∙ ap (λ (k : ℕ). some (t, k)) f,
        λ a.
            after a
            ∙ rw
                (
                  iv,
                  jv,
                  get_paddr-SameView cfg (entered m cfg flags (p.vaddr) (p.paddr)) (q.machine) a v,
                  one a,
                )
                (overlay-split (p.vaddr) n (p.paddr) a (get_paddr m cfg a)),
      )

  pub start :
      (m : Machine W) (paddr vaddr size fuel : ℕ)
      → (cfg == 0) ≡ false
      → page_size paddr vaddr size ≡ size
      → vaddr - vaddr % 0x1000 ≡ vaddr
      → paddr - paddr % 0x1000 ≡ paddr
      → vmm_map services fuel m cfg paddr vaddr size flags
        ≡ map_loop services cfg flags fuel
            (record { machine = m; paddr = paddr; vaddr = vaddr; size = size; mapped_size = 0 })
  unfolding vmm_map
  start m paddr vaddr size fuel c e f g = rw (c, e, f, g) refl

  -- As `vmm_map-get_paddr`, with any fuel for at least the pages of the region.
  pub vmm_map-enough :
      (m : Machine W) (paddr vaddr size n fuel : ℕ)
      → n ≤ fuel
      → vaddr % 4096 ≡ 0
      → paddr % 4096 ≡ 0
      → size < 0x400000
      → size ≤ 4096 * n
      → 4096 * n < size + 4096
      → vaddr + 4096 * n < 2 ^ 32
      → paddr + 4096 * n < 2 ^ 32
      → AllTabled (m.config cfg) vaddr n
      → Separate (m.config cfg)
      → (t : Machine W) × (vmm_map services fuel m cfg paddr vaddr size flags ≡ some (t, 4096 * n))
        × ((a : ℕ) → get_paddr t cfg a ≡ overlay vaddr (4096 * n) paddr a (get_paddr m cfg a))
  unfolding page_size
  vmm_map-enough m paddr vaddr size n fuel enough va pa small low high vn pn tabled separate =
      let c : (cfg == 0) ≡ false = ground arith in
      let e : page_size paddr vaddr size ≡ size = ground arith in
      let f : vaddr - vaddr % 0x1000 ≡ vaddr = omega arith in
      let g : paddr - paddr % 0x1000 ≡ paddr = omega arith in
      let p : Progress W = record {
        machine = m;
        paddr = paddr;
        vaddr = vaddr;
        size = size;
        mapped_size = 0;
      } in
      let (t, h, after) =
        map_loop-Overlaid fuel n p
          (va, pa, vn, pn, omega arith, omega arith, omega arith, omega arith) enough tabled
          separate in
      let k : 0 + 4096 * n ≡ 4096 * n = omega arith in
      (t, start m paddr vaddr size fuel c e f g ∙ h ∙ ap (λ (i : ℕ). some (t, i)) k, after)

  -- A region below 4 MB that starts at page boundaries and whose directory entries have page
  -- tables, none of them shared, is mapped to the end: `vmm_map` returns its size in whole pages,
  -- every address of it leads to the same offset of the physical region, and every other address
  -- of the config leads where it led before.
  pub vmm_map-get_paddr :
      (m : Machine W) (paddr vaddr size n : ℕ)
      → vaddr % 4096 ≡ 0
      → paddr % 4096 ≡ 0
      → size < 0x400000
      → size ≤ 4096 * n
      → 4096 * n < size + 4096
      → vaddr + 4096 * n < 2 ^ 32
      → paddr + 4096 * n < 2 ^ 32
      → AllTabled (m.config cfg) vaddr n
      → Separate (m.config cfg)
      → (t : Machine W) × (vmm_map services n m cfg paddr vaddr size flags ≡ some (t, 4096 * n))
        × ((a : ℕ) → get_paddr t cfg a ≡ overlay vaddr (4096 * n) paddr a (get_paddr m cfg a))
  vmm_map-get_paddr m paddr vaddr size n va pa small low high vn pn tabled separate =
      vmm_map-enough m paddr vaddr size n n (omega arith) va pa small low high vn pn tabled separate
