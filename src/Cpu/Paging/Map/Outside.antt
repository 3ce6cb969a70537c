-- ===== src/Cpu/Paging/Map/Outside.antt =====
-- `vmm_map` over page tables that are there asks the allocators for nothing.
use neo_sys_x.Common.{
  ℕ, zero, suc, ◌+◌, ◌-◌, ◌*◌, ◌%◌, ◌^◌, ◌≤◌, ◌<◌, ◌≡◌, ◌≢◌, refl, ◌∙◌, true, false, inl, inr,
  Bool-cases, ◌&&◌, ◌||◌, leb, if◌then◌else◌, ◌==◌, ltb, Bool, Option, none, some, arith,
}
use neo_sys_x.Cpu.Paging.{
  Machine, Services, pt_entries, kernel_config, kernel_pde_start, pde_of, pte_of, set_pd, set_pt,
  set_used, set_entry, copy_pde, propagate_from, propagate_pde, invalidate,
}
use neo_sys_x.Cpu.Paging.Entry.{page_entry}
use neo_sys_x.Cpu.Paging.Map.{Progress, set_in_use, map_page, map_loop, page_size, vmm_map}
use neo_sys_x.Cpu.Paging.Map.Range.{
  AllTabled, Pages, map_turn-Tabled, map_loop-done, map_loop-next, map_page-fields, map_page-config,
  start,
}

module _ {W : Type 0} where
  if-outside :
      (b : Bool) (m t : Machine W)
      → t.outside ≡ m.outside
      → (if b then t else m).outside ≡ m.outside
  if-outside true m t e = e
  if-outside false m t e = refl

  copy_pde-outside :
      (m : Machine W) (cfg pde dest : ℕ) → (copy_pde m cfg pde dest).outside ≡ m.outside
  unfolding copy_pde set_pd set_pt set_used
  copy_pde-outside m cfg pde dest = refl

  propagate_from-outside :
      (fuel : ℕ) (m : Machine W) (cfg pde dest : ℕ)
      → (propagate_from fuel m cfg pde dest).outside ≡ m.outside
  unfolding propagate_from
  propagate_from-outside zero m cfg pde dest = refl
  propagate_from-outside (suc fuel) m cfg pde dest = elim (Bool-cases (dest == 0)) [
    | inl e ↦ rw (e, propagate_from) refl
    | inr e ↦ elim (Bool-cases (dest == cfg)) [
      | inl f ↦
          rw (e, f, propagate_from) (propagate_from-outside fuel m cfg pde ((m.config dest).next))
      | inr f ↦
          let t = copy_pde m cfg pde dest in
          rw (e, f, propagate_from)
            (propagate_from-outside fuel t cfg pde ((t.config dest).next)
              ∙ copy_pde-outside m cfg pde dest)
    ]
  ]

  set_used-outside : (m : Machine W) (cfg pde n : ℕ) → (set_used m cfg pde n).outside ≡ m.outside
  unfolding set_used
  set_used-outside m cfg pde n = refl

  set_entry-outside : (m : Machine W) (ptr pte e : ℕ) → (set_entry m ptr pte e).outside ≡ m.outside
  unfolding set_entry
  set_entry-outside m ptr pte e = refl

  invalidate-outside : (m : Machine W) (vaddr : ℕ) → (invalidate m vaddr).outside ≡ m.outside
  unfolding invalidate
  invalidate-outside m vaddr = refl

module _ {W : Type 0} (services : Services W) (cfg flags : ℕ) (some_config : cfg ≢ 0) where
  -- The allocators are as before, and the config has the same entries for its tables.
  abbrev pub Untouched : Machine W → Machine W → Type 0
  Untouched m t =
      (t.outside ≡ m.outside)
      × ((t.config cfg).pd ≡ (m.config cfg).pd)
      × ((t.config cfg).pt ≡ (m.config cfg).pt)

  abbrev pub AnswerUntouched : Machine W → Option (Machine W × ℕ) → Type 0
  AnswerUntouched m none = Unit
  AnswerUntouched m (some r) = Untouched m (r.0)

  pub AnswerUntouched-taken :
      (m : Machine W) (r : Option (Machine W × ℕ))
      → AnswerUntouched m r
      → Untouched m (elim r [ none ↦ m | some q ↦ q.0 ])
  AnswerUntouched-taken m none a = (refl, refl, refl)
  AnswerUntouched-taken m (some r) a = a

  AnswerUntouched-later :
      (m t : Machine W) (r : Option (Machine W × ℕ))
      → Untouched m t
      → AnswerUntouched t r
      → AnswerUntouched m r
  AnswerUntouched-later m t none h a = tt
  AnswerUntouched-later m t (some r) (a, b, c) (d, e, f) = (d ∙ a, e ∙ b, f ∙ c)

  map_page-outside :
      (p : Progress W) (m : Machine W) (installed : Bool)
      → (map_page services cfg flags p m installed).machine.outside ≡ m.outside
  unfolding map_page propagate_pde
  map_page-outside p m installed =
      let pde = pde_of p.vaddr in
      let c = m.config cfg in
      let ptr = c.pt pde in
      let e = m.table ptr (pte_of p.vaddr) in
      let counts = e == 0 && ltb (c.pt_used pde) pt_entries in
      let used = set_used m cfg pde (c.pt_used pde + 1) in
      let counted : Machine W = if counts then used else m in
      let entered = set_entry counted ptr (pte_of p.vaddr) (page_entry p.paddr flags e) in
      let sharing = (installed || counts) && leb kernel_pde_start pde in
      let spread = propagate_pde services entered cfg pde in
      let shared : Machine W = if sharing then spread else entered in
      if-outside (set_in_use shared cfg flags) shared (invalidate shared p.vaddr)
        (invalidate-outside shared p.vaddr)
      ∙ if-outside sharing entered spread
          (propagate_from-outside services.max_configs entered cfg pde kernel_config)
      ∙ set_entry-outside counted ptr (pte_of p.vaddr) (page_entry p.paddr flags e)
      ∙ if-outside counts m used (set_used-outside m cfg pde (c.pt_used pde + 1))

  map_loop-Untouched :
      (fuel n : ℕ) (p : Progress W)
      → Pages services cfg flags some_config p n
      → n ≤ fuel
      → AllTabled (p.machine.config cfg) (p.vaddr) n
      → AnswerUntouched (p.machine) (map_loop services cfg flags fuel p)
  map_loop-Untouched fuel zero p w enough tabled =
      rw (map_loop-done services cfg flags some_config fuel p (omega arith)) (refl, refl, refl)
  map_loop-Untouched zero (suc n) p w enough tabled = absurd (omega arith)
  map_loop-Untouched (suc fuel) (suc n) p w enough tabled =
      let m = p.machine in
      let q = map_page services cfg flags p m false in
      let (i, j, k, l) = map_page-fields services cfg flags some_config p m false in
      let here = tabled (p.vaddr) (omega arith) (omega arith) in
      let (pd, pt) = map_page-config services cfg flags some_config p m false in
      let all : AllTabled (q.machine.config cfg) (q.vaddr) n =
        (λ a low high. rw (pd, pt) (tabled a (omega arith) (omega arith))) in
      let rest = map_loop-Untouched fuel n q (omega arith) (omega arith) all in
      rw
        (map_loop-next services cfg flags some_config fuel p q (omega arith)
          (map_turn-Tabled services cfg flags some_config p here (omega arith)))
        (AnswerUntouched-later m (q.machine) (map_loop services cfg flags fuel q)
          (map_page-outside p m false, pd, pt) rest)

  -- Where the directory entries of a region below 4 MB have page tables, `vmm_map` leaves the
  -- state of the allocators and the entries for the tables as they were.
  pub vmm_map-Untouched :
      (m : Machine W) (paddr vaddr size n fuel : ℕ)
      → n ≤ fuel
      → vaddr % 4096 ≡ 0
      → paddr % 4096 ≡ 0
      → size < 0x400000
      → size ≤ 4096 * n
      → 4096 * n < size + 4096
      → vaddr + 4096 * n < 2 ^ 32
      → paddr + 4096 * n < 2 ^ 32
      → AllTabled (m.config cfg) vaddr n
      → AnswerUntouched m (vmm_map services fuel m cfg paddr vaddr size flags)
  unfolding page_size
  vmm_map-Untouched m paddr vaddr size n fuel enough va pa small low high vn pn tabled =
      let c : (cfg == 0) ≡ false = ground arith in
      let e : page_size paddr vaddr size ≡ size = ground arith in
      let f : vaddr - vaddr % 0x1000 ≡ vaddr = omega arith in
      let g : paddr - paddr % 0x1000 ≡ paddr = omega arith in
      let p : Progress W = record {
        machine = m;
        paddr = paddr;
        vaddr = vaddr;
        size = size;
        mapped_size = 0;
      } in
      rw (start services cfg flags some_config m paddr vaddr size fuel c e f g) (
        map_loop-Untouched fuel n p
          (va, pa, vn, pn, omega arith, omega arith, omega arith, omega arith) enough tabled)
