-- ===== src/Cpu/Paging.antt =====
-- kernel/cpu/i386: page directories and page tables (include/cpu/i386/vmm.h, src/vmm_ops.c). The
-- entries are 32-bit numbers, whose fields are read and written by position. Addresses of configs
-- and of tables are numbers, and 0 is `NULL`. Of the parts of an address put together by `|`, none
-- share a bit, and the model adds them.
pub mod Entry
pub mod Map
pub mod Unmap
pub mod Space
pub mod Address
mod Tests
use neo_sys_x.Common.{
  ℕ, zero, suc, ◌+◌, ◌-◌, ◌*◌, ◌/◌, ◌%◌, ◌^◌, Bool, true, false, Option, none, some, List, ◌∷◌, ltb,
  ◌==◌, if◌then◌else◌, update, bit_and,
}

-- `vmm_config_t`
pub record Config : Type 0 where
  pub pd : ℕ → ℕ
  pub pt : ℕ → ℕ
  pub cr3 : ℕ
  pub next : ℕ
  pub pt_used : ℕ → ℕ

-- The configs and the page tables by their addresses, `vmm_current_config`, the pages invalidated,
-- the last one first, and the state of the allocators.
pub record Machine (W : Type 0) : Type 0 where
  pub config : ℕ → Config
  pub table : ℕ → ℕ → ℕ
  pub current : ℕ
  pub invalidated : List ℕ
  pub outside : W

-- The kernel's functions that these call: the allocation of a page table in the kernel's address
-- space, which answers 0 on failure, `vmm_unmap_kernel` and `pmm_free`; what an uninitialised
-- variable holds; and a bound on the number of configs.
pub record Services (W : Type 0) : Type 0 where
  pub alloc_table : Machine W → Machine W × ℕ
  pub unmap_kernel : Machine W → ℕ → ℕ → Machine W
  pub pmm_free : Machine W → ℕ → ℕ → Machine W
  pub uninitialised : ℕ
  pub max_configs : ℕ

-- `&vmm_kernel_config`, any address but 0.
abbrev pub kernel_config : ℕ
kernel_config = 1

abbrev pub pt_entries : ℕ
pt_entries = 1024

abbrev pub pt_size : ℕ
pt_size = 4096

-- `KERNEL_PDE_START`
abbrev pub kernel_pde_start : ℕ
kernel_pde_start = 768

abbrev pub uintptr_max : ℕ
uintptr_max = 2 ^ 32 - 1

-- `VMM_FLAG_RW`, `VMM_FLAG_USER` and `VMM_FLAG_CACHE_GLOBAL`
abbrev pub flag_rw : ℕ
flag_rw = 1

abbrev pub flag_user : ℕ
flag_user = 2

abbrev pub flag_cache_global : ℕ
flag_cache_global = 4

-- `(flags & mask) ? 1 : 0`
unfoldable pub flag : ℕ → ℕ → ℕ
flag flags mask = if bit_and flags mask == 0 then 0 else 1

-- `vaddr >> 22` and `(vaddr >> 12) & 0x3FF`
abbrev pub pde_of : ℕ → ℕ
pde_of vaddr = vaddr / 2 ^ 22

abbrev pub pte_of : ℕ → ℕ
pte_of vaddr = vaddr / 2 ^ 12 % 2 ^ 10

-- Writes through the pointers to a config and to a table.
module _ {W : Type 0} (m : Machine W) where
  unfoldable pub set_pd : ℕ → ℕ → ℕ → Machine W
  set_pd cfg pde e =
      let c = m.config cfg in
      record m { config = update m.config cfg (record c { pd = update c.pd pde e }) }

  unfoldable pub set_pt : ℕ → ℕ → ℕ → Machine W
  set_pt cfg pde ptr =
      let c = m.config cfg in
      record m { config = update m.config cfg (record c { pt = update c.pt pde ptr }) }

  unfoldable pub set_used : ℕ → ℕ → ℕ → Machine W
  set_used cfg pde n =
      let c = m.config cfg in
      record m { config = update m.config cfg (record c { pt_used = update c.pt_used pde n }) }

  unfoldable pub set_entry : ℕ → ℕ → ℕ → Machine W
  set_entry ptr pte e = record m { table = update m.table ptr (update (m.table ptr) pte e) }

  unfoldable pub set_table : ℕ → (ℕ → ℕ) → Machine W
  set_table ptr entries = record m { table = update m.table ptr entries }

  -- `vmm_invalidate_page`
  unfoldable pub invalidate : ℕ → Machine W
  invalidate vaddr = record m { invalidated = vaddr ∷ m.invalidated }

-- The pages of a directory entry from `pte` on, `count` of them.
unfoldable pub invalidate_pages : {W : Type 0} → ℕ → ℕ → ℕ → Machine W → Machine W
unfolding invalidate
invalidate_pages pde pte zero m = m
invalidate_pages pde pte (suc count) m =
    invalidate_pages pde (pte + 1) count (invalidate m (pde * 2 ^ 22 + pte * 2 ^ 12))

-- The entry of `cfg` for a directory index, in another config.
unfoldable pub copy_pde : {W : Type 0} → Machine W → ℕ → ℕ → ℕ → Machine W
unfolding set_pd set_pt set_used
copy_pde m cfg pde dest =
    let c = m.config cfg in
    set_used (set_pd (set_pt m dest pde (c.pt pde)) dest pde (c.pd pde)) dest pde (c.pt_used pde)

-- `vmm_propagate_pde`, from the config `dest` on.
unfoldable pub propagate_from : {W : Type 0} → ℕ → Machine W → ℕ → ℕ → ℕ → Machine W
unfolding copy_pde
propagate_from zero m cfg pde dest = m
propagate_from (suc fuel) m cfg pde dest =
    let after = if dest == cfg then m else copy_pde m cfg pde dest in
    let rest = propagate_from fuel after cfg pde ((after.config dest).next) in
    if dest == 0 then m else rest

unfoldable pub propagate_pde : {W : Type 0} → Services W → Machine W → ℕ → ℕ → Machine W
unfolding propagate_from
propagate_pde services m cfg pde = propagate_from services.max_configs m cfg pde kernel_config
