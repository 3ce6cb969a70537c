-- ===== src/Cpu/Paging/Address.antt =====
-- Configs as a whole, in kernel/cpu/i386/src/vmm_ops.c: `vmm_new_config`, `vmm_delete_config` and
-- `vmm_switch`.
pub mod Clone
use neo_sys_x.Common.{
  ℕ, zero, suc, ◌+◌, ◌-◌, ◌*◌, ◌/◌, ◌%◌, ◌^◌, Bool, true, false, not, Option, none, some, ltb, leb,
  ◌==◌, ◌&&◌, ◌||◌, if◌then◌else◌, update,
}
use neo_sys_x.Cpu.Paging.{
  Config, Machine, Services, kernel_config, kernel_pde_start, pt_size, set_pd, set_pt,
}
use neo_sys_x.Cpu.Paging.Entry.{
  addr, set_field, is_large, Lookup, fault, unmapped, mapped, get_paddr,
}

-- `sizeof(vmm_config_t)`: three arrays and two words.
abbrev pub config_size : ℕ
config_size = 4096 + 4096 + 4 + 4 + 2048

-- The functions that these call besides: the allocation of a config, and that of the frames of a
-- region.
pub record ConfigServices (W : Type 0) : Type 0 where
  pub services : Services W
  pub alloc_config : Machine W → Machine W × ℕ
  pub free_pmm_frames : Machine W → ℕ → ℕ → Machine W

-- A config, `NULL` with the state it leaves, or a fault.
pub data NewConfig (W : Type 0) : Type 0 where
  crashed : NewConfig W
  failed : Machine W → NewConfig W
  created : Machine W → ℕ → NewConfig W

-- An `int` of 32 bits as a `uint64_t`.
unfoldable pub widened : ℕ → ℕ
widened v = if ltb v (2 ^ 31) then v else 2 ^ 64 - 2 ^ 32 + v

abbrev pub zero_config : Config
zero_config = record { pd = λ j. 0; pt = λ j. 0; cr3 = 0; next = 0; pt_used = λ j. 0 }

module _ {W : Type 0} (kernel : ConfigServices W) where
  -- The release of the config that was allocated.
  unfoldable pub release : Machine W → ℕ → ℕ → Machine W
  release m config cr3 =
      kernel.services.pmm_free (kernel.services.unmap_kernel m config config_size) cr3 config_size

  -- The kernel's part of a config that was set to 0.
  unfoldable pub clone_kernel : Config → Config
  clone_kernel k = record zero_config {
    pd = λ j. if leb kernel_pde_start j then k.pd j else 0;
    pt = λ j. if leb kernel_pde_start j then k.pt j else 0;
    pt_used = λ j. if leb kernel_pde_start j then k.pt_used j else 0;
  }

  -- The page tables up to `pde` are given back.
  unfoldable pub free_tables : ℕ → Machine W → ℕ → Machine W
  free_tables zero m config = m
  free_tables (suc count) m config =
      let before = free_tables count m config in
      let c = before.config config in
      let unmapped_table = kernel.services.unmap_kernel before (c.pt count) pt_size in
      let freed =
        kernel.services.pmm_free unmapped_table
          (widened (addr ((unmapped_table.config config).pd count) * 2 ^ 12)) pt_size in
      if c.pt count == 0 then before else freed

  -- The physical address of a new page table, or that it is no use: the test has the answer of
  -- `vmm_get_paddr_kernel` the wrong way round.
  unfoldable pub table_paddr : Lookup → Option (Option ℕ)
  table_paddr fault = none
  table_paddr unmapped = some (if ltb (2 ^ 32 - 1) (2 ^ 64 - 1) then none else some (2 ^ 64 - 1))
  table_paddr (mapped paddr) = some none

  -- The copy of a page table of the user's part, whose directory entry is copied already.
  unfoldable pub clone_table : Machine W → ℕ → ℕ → ℕ → NewConfig W
  unfolding set_pd set_pt set_field get_paddr free_tables release table_paddr
  clone_table m config pde cr3 =
      let (allocated, ptr) = kernel.services.alloc_table m in
      let stored = set_pt allocated config pde ptr in
      let undone = failed (release (free_tables (pde + 1) stored config) config cr3) in
      if ptr == 0 then undone else elim (table_paddr (get_paddr stored kernel_config ptr)) [
        | none ↦ crashed
        | some r ↦ elim r [
          | none ↦ undone
          | some paddr ↦
              created
                (set_pd stored config pde
                  (set_field 12 20 (paddr / 2 ^ 12) ((stored.config config).pd pde)))
                config
        ]
      ]

  -- The copy of the user's directory entries from `source`, the last `left` of them.
  unfoldable pub clone_user : ℕ → Machine W → ℕ → ℕ → ℕ → NewConfig W
  unfolding set_pd is_large clone_table
  clone_user zero m config source cr3 = created m config
  clone_user (suc left) m config source cr3 =
      let pde = kernel_pde_start - suc left in
      let e = (m.config source).pd pde in
      let copied = set_pd m config pde e in
      elim (e == 0) [
        | true ↦ clone_user left m config source cr3
        | false ↦ elim (is_large e) [
          | true ↦ clone_user left copied config source cr3
          | false ↦ elim (clone_table copied config pde cr3) [
            | crashed ↦ crashed
            | failed t ↦ failed t
            | created t c ↦ clone_user left t config source cr3
          ]
        ]
      ]

  -- `config->cr3 = cr3`, the link into the list, the `memset`, and the kernel's part.
  unfoldable pub start_config : Machine W → ℕ → ℕ → Machine W
  unfolding clone_kernel
  start_config m config cr3 =
      let k = m.config kernel_config in
      let linked = update (m.config) kernel_config (record k { next = config }) in
      record m { config = update linked config (clone_kernel (linked kernel_config)) }

  -- The last `memcpy` of `pt_used`.
  unfoldable pub copy_used : Machine W → ℕ → ℕ → Machine W
  copy_used m config source =
      let c = m.config config in
      record m {
        config = update (m.config) config (record c {
          pt_used =
              λ j. if ltb j kernel_pde_start then (m.config source).pt_used j else c.pt_used j;
        });
      }

  -- The rest of `vmm_new_config`, once the physical address of the config is looked up.
  unfoldable pub placed : Machine W → ℕ → ℕ → Lookup → NewConfig W
  unfolding release start_config clone_user copy_used
  placed m config source fault = crashed
  placed m config source unmapped = failed (release m config (2 ^ 64 - 1))
  placed m config source (mapped cr3) =
      let started = start_config m config cr3 in
      if ltb (2 ^ 32 - 1) cr3
      then failed (release m config cr3)
      else if source == 0
      then created started config
      else elim (clone_user kernel_pde_start started config source cr3) [
        | crashed ↦ crashed
        | failed t ↦ failed t
        | created t c ↦ created (copy_used t config source) config
      ]

  -- `vmm_new_config`; `source` is 0 for none.
  unfoldable pub vmm_new_config : Machine W → ℕ → NewConfig W
  unfolding placed get_paddr
  vmm_new_config m source =
      let (allocated, config) = kernel.alloc_config m in
      if config == 0
      then failed allocated
      else placed allocated config source (get_paddr allocated kernel_config config)

  -- `vmm_delete_config`
  unfoldable pub vmm_delete_config : Machine W → ℕ → Option (Machine W)
  unfolding get_paddr release
  vmm_delete_config m config = elim (get_paddr m kernel_config config) [
    | fault ↦ none
    | unmapped ↦ some m
    | mapped paddr ↦ some (release (kernel.free_pmm_frames m config config_size) config paddr)
  ]

-- `vmm_switch`, with what is loaded into `cr3`.
unfoldable pub vmm_switch : {W : Type 0} → Machine W → ℕ → Machine W × Option ℕ
vmm_switch m config =
    if config == 0 then (m, none) else (record m { current = config }, some config)
