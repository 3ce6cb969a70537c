-- ===== src/Mm/Link/Apart.antt =====
-- Two calls of `vmm_alloc` on the linked kernel, one after the other.
use neo_sys_x.Common.{
  ℕ, ◌+◌, ◌-◌, ◌*◌, ◌%◌, ◌^◌, ◌≤◌, ◌<◌, ◌≡◌, ◌≢◌, ap, sym, subst, ◌∙◌, ◌⊎◌, some, size_max, arith,
}
use neo_sys_x.Cpu.Paging.{Machine, Services}
use neo_sys_x.Cpu.Paging.Entry.{Lookup, mapped, get_paddr}
use neo_sys_x.Cpu.Paging.Map.Range.{Separate, AllTabled, overlay}
use neo_sys_x.Cpu.Paging.Space.{vmm_find_free}
use neo_sys_x.Mm.Pmm.{Pmm, alloc}
use neo_sys_x.Mm.Pmm.Levels.{Reserves}
use neo_sys_x.Mm.Pmm.Alloc.{Searchable}
use neo_sys_x.Mm.Pmm.Alloc.Apart.{alloc-alloc_apart}
use neo_sys_x.Mm.Vmm.{vmm_alloc}
use neo_sys_x.Mm.Link.{kernel_space}
use neo_sys_x.Mm.Link.Run.{Mapped, vmm_alloc-Mapped}

-- An address inside and one outside of a region that has been mapped.
overlay-inside :
    (vaddr size paddr a : ℕ) (before : Lookup)
    → vaddr ≤ a
    → a < vaddr + size
    → overlay vaddr size paddr a before ≡ mapped (paddr + (a - vaddr))
overlay-inside vaddr size paddr a before low high = ground arith

overlay-outside :
    (vaddr size paddr a : ℕ) (before : Lookup)
    → (a < vaddr) ⊎ (vaddr + size ≤ a)
    → overlay vaddr size paddr a before ≡ before
overlay-outside vaddr size paddr a before away = ground arith

-- A call of `vmm_alloc`, with the pages and the address that it gets and what `pmm_alloc` answers.
pub record Call : Type 0 where
  pub size : ℕ
  pub flags : ℕ
  pub from_vaddr : ℕ
  pub vaddr : ℕ
  pub pages : ℕ
  pub paddr : ℕ
  pub after : Pmm

module _ (wide : ℕ) (services : Services Pmm) (turns end config : ℕ) where
  abbrev pub called : Machine Pmm → Call → Machine Pmm
  called m c =
      (vmm_alloc (kernel_space wide services turns end) m config c.size c.flags c.from_vaddr).0

  -- There is a region of less than 4 MB for the call, which has its page tables, and memory.
  pub record Granted (m : Machine Pmm) (c : Call) : Type 0 where
    pub small : c.size < 0x400000
    pub low : c.size ≤ 4096 * c.pages
    pub high : 4096 * c.pages < c.size + 4096
    pub aligned : c.vaddr % 4096 ≡ 0
    pub room : c.vaddr + 4096 * c.pages < 2 ^ 32
    pub tabled : AllTabled (m.config config) c.vaddr c.pages
    pub separate : Separate (m.config config)
    pub searchable : Searchable m.outside c.size
    pub found : vmm_find_free turns m config c.from_vaddr c.size ≡ some c.vaddr
    pub memory : alloc wide m.outside c.size ≡ (c.paddr, c.after)
    pub some_memory : c.paddr ≢ size_max

  pub called-Mapped :
      (m : Machine Pmm) (c : Call)
      → config ≢ 0
      → Granted m c
      → Mapped wide services turns end config c.size c.flags c.vaddr c.pages m c.after c.paddr
          (called m c)
  called-Mapped m c some_config g =
      let (e, v) =
        vmm_alloc-Mapped wide services turns end config c.size c.flags c.vaddr c.pages m some_config
          g.small g.low g.high g.aligned g.room g.tabled g.separate g.searchable c.from_vaddr
          c.paddr c.after g.found g.memory g.some_memory in
      subst (Mapped wide services turns end config c.size c.flags c.vaddr c.pages m c.after c.paddr)
        (sym (ap (λ (r : Machine Pmm × ℕ). r.0) e)) v

  -- Two calls of `vmm_alloc` for one config, the second on the state that the first one leaves,
  -- both answered with memory below its end, where the regions do not overlap and the first reservation neither wraps
  -- around nor asks for a shift by 32 (or that gives 0): in the end, no address of the one region
  -- leads to the same byte of the memory as an address of the other.
  pub vmm_alloc-vmm_alloc_apart :
      (m : Machine Pmm) (c d : Call) (a b : ℕ)
      → config ≢ 0
      → Granted m c
      → Reserves wide m.outside c.paddr c.size
      → Granted (called m c) d
      → c.paddr < m.outside.max_size
      → d.paddr < m.outside.max_size
      → (c.vaddr + 4096 * c.pages ≤ d.vaddr) ⊎ (d.vaddr + 4096 * d.pages ≤ c.vaddr)
      → c.vaddr ≤ a
      → a < c.vaddr + c.size
      → d.vaddr ≤ b
      → b < d.vaddr + d.size
      → (x : ℕ) × (y : ℕ) × (get_paddr (called (called m c) d) config a ≡ mapped x)
        × (get_paddr (called (called m c) d) config b ≡ mapped y)
        × (x ≢ y)
  vmm_alloc-vmm_alloc_apart m c d a b some_config g r h first inside away a_low a_high b_low
        b_high =
      let (outside, pd, pt, view) = called-Mapped m c some_config g in
      let (outside2, pd2, pt2, view2) = called-Mapped (called m c) d some_config h in
      let one = called m c in
      let gl = g.low in
      let hl = h.low in
      let apart : (c.paddr + c.size ≤ d.paddr) ⊎ (d.paddr + d.size ≤ c.paddr) =
        alloc-alloc_apart wide m.outside one.outside d.after c.size d.size c.paddr d.paddr
          g.searchable (g.memory ∙ ap (λ (q : Pmm). (c.paddr, q)) (sym outside)) first r
          h.searchable h.memory inside h.some_memory g.some_memory in
      (
        c.paddr + (a - c.vaddr),
        d.paddr + (b - d.vaddr),
        view2 a
            ∙ overlay-outside d.vaddr (4096 * d.pages) d.paddr a (get_paddr one config a)
                (omega (arith, away, a_low, a_high, gl))
            ∙ view a
            ∙ overlay-inside c.vaddr (4096 * c.pages) c.paddr a (get_paddr m config a) a_low
                (omega (arith, a_high, gl)),
        view2 b
            ∙ overlay-inside d.vaddr (4096 * d.pages) d.paddr b (get_paddr one config b) b_low
                (omega (arith, b_high, hl)),
        omega (arith, apart, a_low, a_high, b_low, b_high),
      )
