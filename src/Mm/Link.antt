-- ===== src/Mm/Link.antt =====
-- The kernel as it is linked for the i386: the declarations of kernel/common/include/mm/vmm.h that
-- kernel/common/src/mm/vmm.c calls, filled by kernel/cpu/i386/src/vmm_ops.c and
-- kernel/common/src/mm/pmm.c. The state of the allocators is that of the physical memory manager.
pub mod Run
pub mod Apart
mod Tests
use neo_sys_x.Common.{ℕ, ◌+◌, Bool, true, Option, none, some}
use neo_sys_x.Cpu.Paging.{Machine, Services, kernel_config, uintptr_max}
use neo_sys_x.Cpu.Paging.Entry.{mapped, unmapped, fault, get_paddr, is_vaddr_used}
use neo_sys_x.Cpu.Paging.Map.{vmm_map}
use neo_sys_x.Cpu.Paging.Unmap.{vmm_unmap}
use neo_sys_x.Cpu.Paging.Space.{vmm_find_free}
use neo_sys_x.Mm.Pmm.{Pmm, frame_size, alloc, free}
use neo_sys_x.Mm.Vmm.{Space}

-- `wide` is what the shift by 32 gives in `pmm_reserve`; `turns` bounds the loop of
-- `vmm_find_free`; `end` is `__kernel_end`. Each turn of `vmm_map` and of `vmm_unmap` takes at
-- least a byte. Where a loop runs out of fuel or the processor faults, the state stays.
unfoldable pub kernel_space : ℕ → Services Pmm → ℕ → ℕ → Space (Machine Pmm)
kernel_space wide services turns end = record {
  current_config = λ m. m.current;
  kernel_config = λ m. kernel_config;
  find_free = λ m config from size. elim (vmm_find_free turns m config from size) [
    | none ↦ uintptr_max
    | some vaddr ↦ vaddr
  ];
  map = λ m config paddr vaddr size flags.
      elim (vmm_map services (size + 2) m config paddr vaddr size flags) [
        | none ↦ m
        | some r ↦ r.0
      ];
  unmap = λ m config vaddr size. elim (vmm_unmap services (size + 2) m config vaddr size) [
    | none ↦ m
    | some t ↦ t
  ];
  get_paddr = λ m config vaddr. elim (get_paddr m config vaddr) [
    | mapped paddr ↦ some paddr
    | unmapped ↦ none
    | fault ↦ none
  ];
  is_vaddr_used =
      λ m config vaddr. elim (is_vaddr_used m config vaddr) [ none ↦ true | some used ↦ used ];
  pmm_alloc =
      λ m len. let (addr, p) = alloc wide (m.outside) len in (record m { outside = p }, addr);
  pmm_free = λ m addr len. record m { outside = free (m.outside) addr len };
  frame_size = frame_size;
  kernel_end = end;
}
