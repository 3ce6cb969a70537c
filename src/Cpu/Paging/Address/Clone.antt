-- ===== src/Cpu/Paging/Address/Clone.antt =====
-- What a new config holds, and when there is one.
use neo_sys_x.Common.{
  ℕ, zero, suc, ◌+◌, ◌-◌, ◌^◌, ◌≤◌, ◌<◌, ◌≡◌, refl, ◌≢◌, ◌⊎◌, inl, inr, sym, subst, ◌∙◌, ap, true,
  false, Bool-cases, none, some, leb, ltb, ◌==◌, if◌then◌else◌, arith,
}
use neo_sys_x.Cpu.Paging.{Config, Machine, kernel_config, kernel_pde_start, set_pd, set_pt}
use neo_sys_x.Cpu.Paging.Entry.{is_large, Lookup, fault, unmapped, mapped, get_paddr}
use neo_sys_x.Cpu.Paging.Address.{
  ConfigServices, NewConfig, crashed, failed, created, clone_kernel, clone_table, clone_user,
  table_paddr, start_config, copy_used, placed, vmm_new_config,
}

module _ {W : Type 0} (kernel : ConfigServices W) where
  table_paddr-useless :
      (r : Lookup) → (table_paddr kernel r ≡ none) ⊎ (table_paddr kernel r ≡ some none)
  unfolding table_paddr
  table_paddr-useless fault = inl refl
  table_paddr-useless unmapped = inr refl
  table_paddr-useless (mapped paddr) = inr refl

  -- There is no config in the answer.
  abbrev pub Refused : NewConfig W → Type 0
  Refused r = (r ≡ crashed) ⊎ ((t : Machine W) × (r ≡ failed t))

  clone_table-Refused :
      (m : Machine W) (config pde cr3 : ℕ) → Refused (clone_table kernel m config pde cr3)
  unfolding clone_table
  clone_table-Refused m config pde cr3 =
      let (allocated, ptr) = kernel.services.alloc_table m in
      elim (Bool-cases (ptr == 0)) [
        | inl e ↦ rw e (inr (_, refl))
        | inr e ↦
            elim (table_paddr-useless
              (get_paddr (set_pt allocated config pde ptr) kernel_config ptr)) [
                | inl f ↦ rw (e, f) (inl refl)
                | inr f ↦ rw (e, f) (inr (_, refl))
              ]
      ]

  -- Directory entry `j` of the user's part is the first with a page table.
  abbrev pub FirstSmall : Config → ℕ → Type 0
  FirstSmall c j =
      (j < kernel_pde_start)
      × (c.pd j ≢ 0)
      × (is_large (c.pd j) ≡ false)
      × ((i : ℕ) → i < j → (c.pd i ≡ 0) ⊎ (is_large (c.pd i) ≡ true))

  set_pd-other :
      (m : Machine W) (config source pde e : ℕ)
      → config ≢ source
      → (set_pd m config pde e).config source ≡ m.config source
  unfolding set_pd
  set_pd-other m config source pde e other =
      let f : (source == config) ≡ false = ground arith in rw f refl

  clone_user-Refused :
      (left : ℕ) (m : Machine W) (config source cr3 j : ℕ)
      → config ≢ source
      → FirstSmall (m.config source) j
      → kernel_pde_start ≤ left + j
      → left ≤ kernel_pde_start
      → Refused (clone_user kernel left m config source cr3)
  unfolding clone_user
  clone_user-Refused zero m config source cr3 j other first reach fits = absurd (omega arith)
  clone_user-Refused (suc left) m config source cr3 j other first reach fits =
      let (user, there, small, before) = first in
      let pde = kernel_pde_start - suc left in
      let e = (m.config source).pd pde in
      elim (Bool-cases (pde == j)) [
        | inl at ↦
            let i : j ≡ pde = ground arith in
            let f : (e == 0) ≡ false = ground (arith, i) in
            let g : is_large e ≡ false =
              ap (λ (k : ℕ). is_large ((m.config source).pd k)) (sym i) ∙ small in
            elim (clone_table-Refused (set_pd m config pde e) config pde cr3) [
              | inl r ↦ rw (f, g, r, clone_user) (inl refl)
              | inr r ↦ rw (f, g, r.1, clone_user) (inr (r.0, refl))
            ]
        | inr at ↦
            let i : pde < j = ground arith in
            elim (Bool-cases (e == 0)) [
              | inl f ↦
                  rw (f, clone_user)
                    (clone_user-Refused left m config source cr3 j other first (omega arith)
                      (omega arith))
              | inr f ↦ elim (before pde i) [
                | inl g ↦ absurd (ground arith)
                | inr g ↦
                    let k : FirstSmall ((set_pd m config pde e).config source) j =
                      rw (set_pd-other m config source pde e other) first in
                    rw (f, g, clone_user)
                      (clone_user-Refused left (set_pd m config pde e) config source cr3 j other k
                        (omega arith) (omega arith))
              ]
            ]
      ]

  start_config-FirstSmall :
      (m : Machine W) (config source cr3 j : ℕ)
      → config ≢ source
      → FirstSmall (m.config source) j
      → FirstSmall ((start_config kernel m config cr3).config source) j
  unfolding start_config
  start_config-FirstSmall m config source cr3 j other first =
      let e : (source == config) ≡ false = ground arith in
      elim (Bool-cases (source == kernel_config)) [
        | inl f ↦
            let g : source ≡ kernel_config = ground arith in
            let k : FirstSmall (m.config kernel_config) j =
              subst (λ (s : ℕ). FirstSmall (m.config s) j) g first in
            rw (e, f) k
        | inr f ↦ rw (e, f) first
      ]

  answer-Refused :
      (m : Machine W) (config source : ℕ) (r : NewConfig W)
      → Refused r
      → Refused (elim r [
        | crashed ↦ crashed
        | failed t ↦ failed t
        | created t c ↦ created (copy_used kernel t config source) config
      ])
  answer-Refused m config source r (inl e) = rw e (inl refl)
  answer-Refused m config source r (inr (t, e)) = rw e (inr (t, refl))

  mapped-Refused :
      (m : Machine W) (config source j : ℕ) (r : Lookup)
      → source ≢ 0
      → config ≢ source
      → FirstSmall (m.config source) j
      → Refused (placed kernel m config source r)
  unfolding placed
  mapped-Refused m config source j fault some_source other first = inl refl
  mapped-Refused m config source j unmapped some_source other first = inr (_, refl)
  mapped-Refused m config source j (mapped cr3) some_source other first =
      let g : (source == 0) ≡ false = ground arith in
      elim (Bool-cases (ltb (2 ^ 32 - 1) cr3)) [
        | inl e ↦ rw e (inr (_, refl))
        | inr e ↦
            rw (e, g)
              (answer-Refused m config source
                (clone_user kernel kernel_pde_start (start_config kernel m config cr3) config source
                  cr3)
                (clone_user-Refused kernel_pde_start (start_config kernel m config cr3) config
                  source cr3 j other (start_config-FirstSmall m config source cr3 j other first)
                  (omega arith) (omega arith)))
      ]

  -- A config that is to copy another with a page table in the user's part is never made: after the
  -- first allocation of a page table, `vmm_new_config` takes the success of the lookup for its
  -- failure, and where the lookup fails, the address is still out of range.
  pub vmm_new_config-Refused :
      (m : Machine W) (source j : ℕ)
      → source ≢ 0
      → (kernel.alloc_config m).1 ≢ source
      → FirstSmall (((kernel.alloc_config m).0).config source) j
      → Refused (vmm_new_config kernel m source)
  unfolding vmm_new_config
  vmm_new_config-Refused m source j some_source other first =
      let (allocated, config) = kernel.alloc_config m in
      elim (Bool-cases (config == 0)) [
        | inl e ↦ rw e (inr (allocated, refl))
        | inr e ↦ rw e (
            mapped-Refused allocated config source j (get_paddr allocated kernel_config config)
              some_source other first)
      ]

  -- What every config shares with the kernel's, and what is its own.
  abbrev pub Fresh : ℕ → Machine W → Machine W → Type 0
  Fresh config before t =
      let c = t.config config in
      let k = before.config kernel_config in
      ((j : ℕ) → c.pd j ≡ (if leb kernel_pde_start j then k.pd j else 0))
      × ((j : ℕ) → c.pt j ≡ (if leb kernel_pde_start j then k.pt j else 0))
      × ((j : ℕ) → c.pt_used j ≡ (if leb kernel_pde_start j then k.pt_used j else 0))
      × (c.cr3 ≡ 0)
      × (c.next ≡ 0)
      × ((t.config kernel_config).next ≡ config)

  -- A config without a source, whose memory is there and below 4 GB, shares the kernel's part of
  -- the address space and has nothing else. Its `cr3` and its `next` are 0 although both were set:
  -- so the list of configs ends behind it.
  vmm_new_config-Fresh :
      (m : Machine W) (cr3 : ℕ)
      → let config = (kernel.alloc_config m).1 in
        let allocated = (kernel.alloc_config m).0 in
        config ≢ 0
        → config ≢ kernel_config
        → get_paddr allocated kernel_config config ≡ mapped cr3
        → cr3 < 2 ^ 32
        → (t : Machine W) × (vmm_new_config kernel m 0 ≡ created t config)
          × Fresh config allocated t
  unfolding vmm_new_config placed start_config clone_kernel
  vmm_new_config-Fresh m cr3 some_config other at low =
      let (allocated, config) = kernel.alloc_config m in
      let e : (config == 0) ≡ false = ground arith in
      let f : ltb (2 ^ 32 - 1) cr3 ≡ false = ground arith in
      (
        start_config kernel allocated config cr3,
        rw (e, at, f) refl,
        (
          λ j. ground arith,
          λ j. ground arith,
          λ j. ground arith,
          ground arith,
          ground arith,
          ground arith,
        ),
      )
