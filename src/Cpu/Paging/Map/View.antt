-- ===== src/Cpu/Paging/Map/View.antt =====
-- What one turn of `vmm_map` does to the addresses of a config.
use neo_sys_x.Common.{
  ℕ, zero, suc, ◌+◌, ◌≡◌, refl, ◌≢◌, ◌∙◌, ap, Bool, true, false, ◌&&◌, ◌||◌, inl, inr, Bool-cases,
  ltb, leb, ◌==◌, if◌then◌else◌, arith,
}
use neo_sys_x.Cpu.Paging.{
  Config, Machine, Services, pt_entries, kernel_config, kernel_pde_start, pde_of, pte_of, set_pd,
  set_pt, copy_pde, set_used, set_entry, invalidate, propagate_from, propagate_pde,
}
use neo_sys_x.Cpu.Paging.Entry.{page_entry, get_paddr}
use neo_sys_x.Cpu.Paging.Map.{Progress, set_in_use, map_page}

module _ {W : Type 0} where
  -- What a lookup in a config reads is the same.
  abbrev pub SameView : ℕ → Machine W → Machine W → Type 0
  SameView cfg m t =
      ((t.config cfg).pd ≡ (m.config cfg).pd)
      × ((t.config cfg).pt ≡ (m.config cfg).pt)
      × (t.table ≡ m.table)

  pub trans-SameView :
      (cfg : ℕ) (m t u : Machine W) → SameView cfg m t → SameView cfg t u → SameView cfg m u
  trans-SameView cfg m t u (a, b, c) (d, e, f) = (d ∙ a, e ∙ b, f ∙ c)

  -- A config and the page tables are the same.
  abbrev pub SameConfig : ℕ → Machine W → Machine W → Type 0
  SameConfig cfg m t = (t.config cfg ≡ m.config cfg) × (t.table ≡ m.table)

  pub config-SameView : (cfg : ℕ) (m t : Machine W) → SameConfig cfg m t → SameView cfg m t
  config-SameView cfg m t (a, b) = (ap (λ (c : Config). c.pd) a, ap (λ (c : Config). c.pt) a, b)

  copy_pde-SameConfig :
      (m : Machine W) (cfg pde dest : ℕ) → dest ≢ cfg → SameConfig cfg m (copy_pde m cfg pde dest)
  unfolding copy_pde set_pd set_pt set_used
  copy_pde-SameConfig m cfg pde dest other =
      let e : (cfg == dest) ≡ false = ground arith in (rw e refl, refl)

  pub propagate_from-SameConfig :
      (fuel : ℕ) (m : Machine W) (cfg pde dest : ℕ)
      → SameConfig cfg m (propagate_from fuel m cfg pde dest)
  unfolding propagate_from
  propagate_from-SameConfig zero m cfg pde dest = (refl, refl)
  propagate_from-SameConfig (suc fuel) m cfg pde dest = elim (Bool-cases (dest == 0)) [
    | inl e ↦ rw (e, propagate_from) (refl, refl)
    | inr e ↦ elim (Bool-cases (dest == cfg)) [
      | inl f ↦
          rw (e, f, propagate_from)
            (propagate_from-SameConfig fuel m cfg pde ((m.config dest).next))
      | inr f ↦
          let t = copy_pde m cfg pde dest in
          let (a, b) = copy_pde-SameConfig m cfg pde dest (ground arith) in
          let (c, d) = propagate_from-SameConfig fuel t cfg pde ((t.config dest).next) in
          rw (e, f, propagate_from) (c ∙ a, d ∙ b)
    ]
  ]

  pub propagate_from-SameView :
      (fuel : ℕ) (m : Machine W) (cfg pde dest : ℕ)
      → SameView cfg m (propagate_from fuel m cfg pde dest)
  propagate_from-SameView fuel m cfg pde dest =
      config-SameView cfg m (propagate_from fuel m cfg pde dest)
        (propagate_from-SameConfig fuel m cfg pde dest)

  pub if-SameConfig :
      (b : Bool) (cfg : ℕ) (m t : Machine W)
      → SameConfig cfg m t
      → SameConfig cfg m (if b then t else m)
  if-SameConfig true cfg m t v = v
  if-SameConfig false cfg m t v = (refl, refl)

  pub invalidate-SameView : (m : Machine W) (cfg vaddr : ℕ) → SameView cfg m (invalidate m vaddr)
  unfolding invalidate
  invalidate-SameView m cfg vaddr = (refl, refl, refl)

  set_used-SameView : (m : Machine W) (cfg pde n : ℕ) → SameView cfg m (set_used m cfg pde n)
  unfolding set_used
  set_used-SameView m cfg pde n = (ground arith, ground arith, refl)

  pub if-SameView :
      (b : Bool) (cfg : ℕ) (m t : Machine W)
      → SameView cfg m t
      → SameView cfg m (if b then t else m)
  if-SameView true cfg m t v = v
  if-SameView false cfg m t v = (refl, refl, refl)

  set_entry-set_used :
      (b : Bool) (m : Machine W) (cfg pde n ptr pte e : ℕ)
      → SameView cfg
          (set_entry m ptr pte e)
          (set_entry (if b then set_used m cfg pde n else m) ptr pte e)
  unfolding set_entry set_used
  set_entry-set_used true m cfg pde n ptr pte e = (ground arith, ground arith, refl)
  set_entry-set_used false m cfg pde n ptr pte e = (refl, refl, refl)

  -- The lookups of a config see of a turn for a small page only the entry that it sets.
  pub map_page-SameView :
      (services : Services W) (cfg flags : ℕ) (p : Progress W) (m : Machine W) (installed : Bool)
      → let ptr = (m.config cfg).pt (pde_of (p.vaddr)) in
        let pte = pte_of (p.vaddr) in
        SameView cfg
          (set_entry m ptr pte (page_entry (p.paddr) flags (m.table ptr pte)))
          ((map_page services cfg flags p m installed).machine)
  unfolding map_page propagate_pde
  map_page-SameView services cfg flags p m installed =
      let pde = pde_of (p.vaddr) in
      let pte = pte_of (p.vaddr) in
      let ptr = (m.config cfg).pt pde in
      let used = (m.config cfg).pt_used pde in
      let old = m.table ptr pte in
      let e = page_entry (p.paddr) flags old in
      let counts = old == 0 && ltb used pt_entries in
      let entered = set_entry (if counts then set_used m cfg pde (used + 1) else m) ptr pte e in
      let shares = (installed || counts) && leb kernel_pde_start pde in
      let shared = if shares then propagate_pde services entered cfg pde else entered in
      let flushes = set_in_use shared cfg flags in
      trans-SameView cfg (set_entry m ptr pte e) entered
        (if flushes then invalidate shared (p.vaddr) else shared)
        (set_entry-set_used counts m cfg pde (used + 1) ptr pte e)
        (trans-SameView cfg entered shared (if flushes then invalidate shared (p.vaddr) else shared)
          (if-SameView shares cfg entered (propagate_pde services entered cfg pde)
            (propagate_from-SameView (services.max_configs) entered cfg pde kernel_config))
          (if-SameView flushes cfg shared (invalidate shared (p.vaddr))
            (invalidate-SameView shared cfg (p.vaddr))))

module _ {W : Type 0} (cfg : ℕ) (m t : Machine W) where
  -- The same view gives the same answer.
  pub get_paddr-SameView :
      (vaddr : ℕ) → SameView cfg m t → get_paddr t cfg vaddr ≡ get_paddr m cfg vaddr
  unfolding get_paddr
  get_paddr-SameView vaddr (a, b, c) = rw (a, b, c) refl
