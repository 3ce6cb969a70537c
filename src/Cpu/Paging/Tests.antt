-- ===== src/Cpu/Paging/Tests.antt =====
-- A config with one page table, and what the operations do to it.
use neo_sys_x.Common.{ℕ, ◌+◌, ◌*◌, ◌^◌, ◌<◌, ◌≡◌, refl, ◌⊎◌, [], some, ◌==◌, if◌then◌else◌, arith}
use neo_sys_x.Cpu.Paging.{Config, Machine, Services, uintptr_max, pde_of}
use neo_sys_x.Cpu.Paging.Entry.{is_large, unmapped, get_paddr}
use neo_sys_x.Cpu.Paging.Map.{Progress, vmm_map}
use neo_sys_x.Cpu.Paging.Map.Range.{Separate, AllTabled, overlay, vmm_map-get_paddr}
use neo_sys_x.Cpu.Paging.Unmap.{vmm_unmap}
use neo_sys_x.Cpu.Paging.Unmap.Range.{AllKept, without, vmm_unmap-get_paddr, vmm_unmap-loses}
use neo_sys_x.Cpu.Paging.Address.{ConfigServices, vmm_new_config}
use neo_sys_x.Cpu.Paging.Address.Clone.{Refused, vmm_new_config-Refused}
use neo_sys_x.Cpu.Paging.Space.{vmm_find_free}
use neo_sys_x.Cpu.Paging.Space.Inner.{FreePage}
use neo_sys_x.Cpu.Paging.Space.Finds.{vmm_find_free-FreePage}

-- A kernel that has no page tables left.
abbrev services : Services ℕ
services = record {
  alloc_table = λ m. (m, 0);
  unmap_kernel = λ m vaddr size. m;
  pmm_free = λ m paddr size. record m { outside = m.outside + 1 };
  uninitialised = 0;
  max_configs = 2;
}

-- The first directory entry has a table at 5, in which `pages` pages are counted.
abbrev config : ℕ → Config
config pages = record {
  pd = λ j. if j == 0 then 0x8007 else 0;
  pt = λ j. if j == 0 then 5 else 0;
  cr3 = 0;
  next = 0;
  pt_used = λ j. if j == 0 then pages else 0;
}

-- The pages below `0x7000` are mapped to themselves, but for the first.
abbrev machine : ℕ → Machine ℕ
machine pages = record {
  config = λ c. config pages;
  table = λ ptr j. if j == 0 then 0 else j * 4096 + 3;
  current = 1;
  invalidated = [];
  outside = 0;
}

config-Separate : (pages : ℕ) → Separate (config pages)
config-Separate pages i j = ground arith

config-AllTabled :
    (pages vaddr n : ℕ) → vaddr + 4096 * n < 2 ^ 22 → AllTabled (config pages) vaddr n
unfolding is_large
config-AllTabled pages vaddr n small a low high =
    let e : pde_of a ≡ 0 = omega arith in rw e (omega arith, omega arith, refl)

config-AllKept :
    (pages vaddr n : ℕ) → vaddr + 4096 * n < 2 ^ 22 → n < pages → AllKept (config pages) vaddr n
unfolding is_large
config-AllKept pages vaddr n small many a low high =
    let e : pde_of a ≡ 0 = omega arith in rw e ((omega arith, omega arith, refl), many)

vmm_map-get_paddr_example :
    (t : Machine ℕ) × (vmm_map services 2 (machine 6) 1 0x9000 0x3000 0x2000 1 ≡ some (t, 4096 * 2))
    × ((a : ℕ) → get_paddr t 1 a ≡ overlay 0x3000 (4096 * 2) 0x9000 a (get_paddr (machine 6) 1 a))
vmm_map-get_paddr_example =
    vmm_map-get_paddr services 1 1 (omega arith) (machine 6) 0x9000 0x3000 0x2000 2 refl refl
      (omega arith) (omega arith) (omega arith) (omega arith) (omega arith)
      (config-AllTabled 6 0x3000 2 (omega arith)) (config-Separate 6)

-- A region at 8 MB, where there is no table.
abbrev progress : Progress ℕ
progress = record {
  machine = machine 6;
  paddr = 0x400000;
  vaddr = 0x800000;
  size = 0x400000;
  mapped_size = 0;
}

vmm_unmap-get_paddr_example :
    (t : Machine ℕ) × (vmm_unmap services 2 (machine 6) 1 0x3000 0x2000 ≡ some t)
    × ((a : ℕ) → get_paddr t 1 a ≡ without 0x3000 (4096 * 2) a (get_paddr (machine 6) 1 a))
vmm_unmap-get_paddr_example =
    vmm_unmap-get_paddr services 1 (omega arith) (machine 6) 0x3000 0x2000 2 refl (omega arith)
      (omega arith) (omega arith) (config-AllKept 6 0x3000 2 (omega arith) (omega arith))
      (config-Separate 6)

vmm_unmap-loses_example :
    (t : Machine ℕ) × (vmm_unmap services 1 (machine 1) 1 0 4096 ≡ some t)
    × ((a : ℕ) → pde_of a ≡ pde_of 0 → get_paddr t 1 a ≡ unmapped)
unfolding is_large
vmm_unmap-loses_example =
    vmm_unmap-loses services 1 (omega arith) (machine 1) 0 refl (omega arith)
      (omega arith, omega arith, refl) refl

vmm_find_free-FreePage_example :
    (a : ℕ) × (vmm_find_free (2 ^ 20 + 3) (machine 6) 1 0x3000 0x3000 ≡ some a)
    × ((a ≡ uintptr_max) ⊎ FreePage (machine 6) 1 a)
vmm_find_free-FreePage_example =
    vmm_find_free-FreePage (machine 6) 1 (omega arith) (λ pde. ground arith) (2 ^ 20 + 3) 0x3000
      0x3000 (omega arith) (omega arith) (omega arith)

abbrev kernel : ConfigServices ℕ
kernel = record {
  services = services;
  alloc_config = λ m. (m, 0x3000);
  free_pmm_frames = λ m vaddr size. m;
}

vmm_new_config-Refused_example : Refused kernel (vmm_new_config kernel (machine 6) 2)
unfolding is_large
vmm_new_config-Refused_example =
    vmm_new_config-Refused kernel (machine 6) 2 0 (omega arith) (omega arith)
      (omega arith, omega arith, refl, λ i h. absurd (omega arith))
