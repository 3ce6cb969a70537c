-- ===== src/Mm/Link/Tests.antt =====
-- `vmm_alloc` on a kernel with 128 KB of memory and one page table, which is empty.
use neo_sys_x.Common.{
  ℕ, zero, suc, ◌*◌, ◌^◌, ◌<◌, ◌≡◌, refl, ◌+◌, ap, sym, subst, ◌≢◌, ◌-◌, inl, true, [], some, ◌==◌,
  if◌then◌else◌, arith,
}
use neo_sys_x.Cpu.Paging.{Config, Machine, Services, pde_of}
use neo_sys_x.Cpu.Paging.Entry.{is_large, mapped, get_paddr}
use neo_sys_x.Cpu.Paging.Map.Range.{Separate, AllTabled}
use neo_sys_x.Cpu.Paging.Space.{vmm_find_free, space_loop, page_up}
use neo_sys_x.Cpu.Paging.Map.{vmm_map}
use neo_sys_x.Mm.Pmm.{
  Pmm, reserve, reserve_levels, or_word, fill_words, pick_level, search_level, skip_full, alloc,
}
use neo_sys_x.Mm.Pmm.Levels.{Reserves}
use neo_sys_x.Mm.Pmm.Alloc.Steps.{level_found, answered}
use neo_sys_x.Mm.Pmm.Alloc.{Searchable}
use neo_sys_x.Mm.Vmm.{vmm_alloc}
use neo_sys_x.Mm.Link.{kernel_space}
use neo_sys_x.Mm.Link.Run.{Backed, mapped_to, vmm_alloc-Mapped, vmm_alloc-Backed}
use neo_sys_x.Mm.Link.Apart.{Call, called, Granted, called-Mapped, vmm_alloc-vmm_alloc_apart}

-- No frame is taken.
abbrev memory : Pmm
memory = record { words = λ l k. 0; sizes = λ l. 1; present = λ l. true; max_size = 131072 }

abbrev services : Services Pmm
services = record {
  alloc_table = λ m. (m, 0);
  unmap_kernel = λ m vaddr size. m;
  pmm_free = λ m paddr size. m;
  uninitialised = 0;
  max_configs = 2;
}

-- The first directory entry has a table, at 5.
abbrev one_table : Config
one_table = record {
  pd = λ j. if j == 0 then 0x8007 else 0;
  pt = λ j. if j == 0 then 5 else 0;
  cr3 = 0;
  next = 0;
  pt_used = λ j. 0;
}

abbrev machine : Machine Pmm
machine = record {
  config = λ c. one_table;
  table = λ ptr j. 0;
  current = 1;
  invalidated = [];
  outside = memory;
}

one_word : (k : ℕ) → k < 4 → 32 * (4096 * 2 ^ k) < 2 ^ 32
one_word zero h = omega arith
one_word (suc zero) h = omega arith
one_word (suc (suc zero)) h = omega arith
one_word (suc (suc (suc zero))) h = omega arith
one_word (suc (suc (suc (suc k)))) h = absurd (omega arith)

memory-Searchable : Searchable memory 5000
memory-Searchable = record {
  some_bytes = omega arith;
  small = omega arith;
  no_full = λ k h w inside. omega arith;
  word = one_word;
}

one_table-Separate : Separate one_table
one_table-Separate i j = ground arith

one_table-AllTabled : (vaddr n : ℕ) → vaddr + 4096 * n < 2 ^ 22 → AllTabled one_table vaddr n
unfolding is_large
one_table-AllTabled vaddr n small a low high =
    let e : pde_of a ≡ 0 = omega arith in rw e (omega arith, omega arith, refl)

two_pages : vmm_find_free 4 machine 1 0x3000 5000 ≡ some 0x3000
unfolding vmm_find_free space_loop page_up
two_pages = refl

vmm_alloc-Backed_example :
    Backed 0 services 4 0 1 5000 1 0x3000 2 machine
      (vmm_alloc (kernel_space 0 services 4 0) machine 1 5000 1 0x3000)
vmm_alloc-Backed_example =
    vmm_alloc-Backed 0 services 4 0 1 5000 1 0x3000 2 machine (omega arith) (omega arith)
      (omega arith) (omega arith) refl (omega arith) (one_table-AllTabled 0x3000 2 (omega arith))
      one_table-Separate memory-Searchable 0x3000 two_pages

-- The second call is for one page at 0x8000, over the machine that the first one leaves.
later_pages :
    (after : Pmm)
    → vmm_find_free 4 (mapped_to 0 services 4 0 1 5000 1 0x3000 2 machine after 0) 1 0x8000 4096
      ≡ some 0x8000
unfolding vmm_find_free space_loop page_up kernel_space vmm_map
later_pages after = refl

-- 5000 bytes, and then one page.
abbrev later : Pmm
later = reserve 0 memory 0 5000

abbrev first : Call
first = record {
  size = 5000;
  flags = 1;
  from_vaddr = 0x3000;
  vaddr = 0x3000;
  pages = 2;
  paddr = 0;
  after = later;
}

abbrev second : Call
second = record {
  size = 4096;
  flags = 1;
  from_vaddr = 0x8000;
  vaddr = 0x8000;
  pages = 1;
  paddr = 12288;
  after = reserve 0 later 12288 4096;
}

first_pick : pick_level 4 memory 0 4096 5000 ≡ (1, 8192)
unfolding pick_level
first_pick = refl

first_hit : (n : ℕ) → search_level (suc n) (memory.words 1) 32 1 0 0 0 0 ≡ some 0
unfolding search_level skip_full
first_hit n = refl

second_pick : pick_level 4 later 0 4096 4096 ≡ (0, 4096)
unfolding pick_level reserve reserve_levels
second_pick = refl

second_hit : (n : ℕ) → search_level (suc (suc (suc (suc n)))) (later.words 0) 32 1 0 0 0 0 ≡ some 3
unfolding search_level skip_full reserve reserve_levels or_word fill_words
second_hit n = refl

first_memory : alloc 0 memory 5000 ≡ (0, later)
first_memory =
    answered 0 memory 5000 1 8192 0 first_pick (level_found memory 3 5000 1 8192 0 (first_hit 32))

second_memory : alloc 0 later 4096 ≡ (12288, reserve 0 later 12288 4096)
unfolding reserve reserve_levels
second_memory =
    answered 0 later 4096 0 4096 12288 second_pick
      (level_found later 3 4096 0 4096 3 (second_hit 29))

first_word : (k : ℕ) → k < 4 → later.words k 0 ≢ 2 ^ 32 - 1
unfolding reserve reserve_levels or_word fill_words
first_word zero h = omega arith
first_word (suc zero) h = omega arith
first_word (suc (suc zero)) h = omega arith
first_word (suc (suc (suc zero))) h = omega arith
first_word (suc (suc (suc (suc k)))) h = absurd (omega arith)

one_word_only : (w : ℕ) → w * 32 < 32 → w ≡ 0
one_word_only w h = omega arith

later-Searchable : Searchable later 4096
unfolding reserve reserve_levels or_word fill_words
later-Searchable = record {
  some_bytes = omega arith;
  small = omega arith;
  no_full = λ k h w inside. let e = one_word_only w inside in rw e (first_word k h);
  word = one_word;
}

memory-Reserves : Reserves 0 memory 0 5000
memory-Reserves = record {
  inside = omega arith;
  no_wrap = omega arith;
  memory = omega arith;
  all_levels = λ l h. refl;
  shifts = (
    (inl refl, inl refl),
    ((inl refl, inl refl), ((inl refl, inl refl), ((inl refl, inl refl), tt))),
  );
}

first-Granted : Granted 0 services 4 0 1 machine first
first-Granted = record {
  small = omega arith;
  low = omega arith;
  high = omega arith;
  aligned = refl;
  room = omega arith;
  tabled = one_table-AllTabled 0x3000 2 (omega arith);
  separate = one_table-Separate;
  searchable = memory-Searchable;
  found = two_pages;
  memory = first_memory;
  some_memory = omega arith;
}

abbrev one : Machine Pmm
one = called 0 services 4 0 1 machine first

second_found : vmm_find_free 4 one 1 0x8000 4096 ≡ some 0x8000
second_found =
    let (e, v) =
      vmm_alloc-Mapped 0 services 4 0 1 5000 1 0x3000 2 machine (omega arith) (omega arith)
        (omega arith) (omega arith) refl (omega arith) (one_table-AllTabled 0x3000 2 (omega arith))
        one_table-Separate memory-Searchable 0x3000 0 later two_pages first_memory (omega arith) in
    subst (λ (m : Machine Pmm). vmm_find_free 4 m 1 0x8000 4096 ≡ some 0x8000)
      (sym (ap (λ (r : Machine Pmm × ℕ). r.0) e)) (later_pages later)

second-Granted : Granted 0 services 4 0 1 one second
second-Granted =
    let (outside, pd, pt, view) =
      called-Mapped 0 services 4 0 1 machine first (omega arith) first-Granted in
    record {
      small = omega arith;
      low = omega arith;
      high = omega arith;
      aligned = refl;
      room = omega arith;
      tabled = λ a low high. rw (pd, pt) (one_table-AllTabled 0x8000 1 (omega arith) a low high);
      separate = rw pt one_table-Separate;
      searchable = subst (λ (p : Pmm). Searchable p 4096) (sym outside) later-Searchable;
      found = second_found;
      memory =
          subst (λ (p : Pmm). alloc 0 p 4096 ≡ (12288, reserve 0 later 12288 4096)) (sym outside)
            second_memory;
      some_memory = omega arith;
    }

vmm_alloc-vmm_alloc_apart_example :
    (x : ℕ) × (y : ℕ) × (get_paddr (called 0 services 4 0 1 one second) 1 0x4387 ≡ mapped x)
    × (get_paddr (called 0 services 4 0 1 one second) 1 0x8000 ≡ mapped y)
    × (x ≢ y)
vmm_alloc-vmm_alloc_apart_example =
    vmm_alloc-vmm_alloc_apart 0 services 4 0 1 machine first second 0x4387 0x8000 (omega arith)
      first-Granted memory-Reserves second-Granted (omega arith) (omega arith) (inl (omega arith))
      (omega arith) (omega arith) (omega arith) (omega arith)
