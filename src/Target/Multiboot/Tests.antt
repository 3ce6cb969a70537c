-- ===== src/Target/Multiboot/Tests.antt =====
-- Runs on a map of two entries, with a command line and a module.
use neo_sys_x.Common.{u32, true, ◌+◌, ◌^◌, ◌≤◌, ◌<◌, ℕ, ◌≡◌, refl, ◌==◌, if◌then◌else◌, some, arith}
use neo_sys_x.Libc.Memory.{Memory}
use neo_sys_x.Mm.Pmm.{Pmm}
use neo_sys_x.Target.Multiboot.Pieces.{Module, pmm_target_init, pmm_initialise_available_start}
use neo_sys_x.Target.Multiboot.Reserve.{Text, Modules, Readable, Reserved, pmm_target_init-marks}
use neo_sys_x.Target.Multiboot.Start.{Below, pmm_initialise_available_start-Below}
use neo_sys_x.Target.Multiboot.{
  Entry, Info, larger, mb_traverse_mmap, size_loop, pmm_get_size, pmm_get_size_lh,
}
use neo_sys_x.Target.Multiboot.Size.{IsMap, Covers, pmm_get_size-pmm_get_size_lh}

-- A map of two entries of 24 bytes at 4096, for the first 640 KB and for 1 MB from 1 MB on.
abbrev two_entries : ℕ → Entry
two_entries a =
    if a == 4096
    then record { size = 20; addr = 0; len = 655360; type_of = 1 }
    else record { size = 20; addr = 1048576; len = 1048576; type_of = 1 }

abbrev two_info : Info
two_info = record {
  flags = 0x4c;
  cmdline = 0x2000;
  mods_count = 1;
  mods_addr = 0x3000;
  mmap_length = 48;
  mmap_addr = 4096;
  drives_length = 0;
  drives_addr = 0;
}

two_entries-size : pmm_get_size 3 two_entries two_info ≡ some 2097152
unfolding size_loop larger mb_traverse_mmap
two_entries-size = refl

two_entries-IsMap : IsMap two_entries two_info
two_entries-IsMap = record {
  some_map = ground arith;
  some_bytes = omega arith;
  fits = omega arith;
  entries_fit = λ a low inside. ground arith;
}

pmm_get_size-pmm_get_size_lh_example :
    (size : ℕ) × (pmm_get_size 49 two_entries two_info ≡ some size)
    × (pmm_get_size_lh 49 two_entries two_info ≡ some size)
    × Covers two_entries two_info 4096 size
pmm_get_size-pmm_get_size_lh_example =
    pmm_get_size-pmm_get_size_lh two_entries two_info two_entries-IsMap 48 (omega arith)

abbrev memory : Memory
memory a = if a == 0x2000 then 65 else 0

abbrev module_at : ℕ → Module
module_at a = record { mod_start = 0x10000; mod_end = 0x12000; cmdline = 0 }

command_line : Text memory 0x2000
command_line = (1, record { ends = refl; chars = λ k h. ground arith }, omega arith)

one_module : Modules 1 memory module_at 0x3000
one_module = (λ some_text. absurd (some_text refl), tt)

pmm_initialise_available_start-Below_example :
    (d : ℕ) × (pmm_initialise_available_start 120 memory module_at two_info 0x8000 0x200000
      ≡ some (u32 (d + 0xc0000000)))
    × (d < 2 ^ 32)
    × Below 120 memory module_at two_info 0x8000 0x200000 d
    × ((e : ℕ) → Below 120 memory module_at two_info 0x8000 0x200000 e → d ≤ e)
pmm_initialise_available_start-Below_example =
    pmm_initialise_available_start-Below 120 memory module_at two_info 0x8000 0x200000 (omega arith)
      (λ a. omega arith) (λ h. command_line) one_module

-- The second entry is not available: 384 KB from 640 KB on.
abbrev mixed_entries : ℕ → Entry
mixed_entries a =
    if a == 4096
    then record { size = 20; addr = 0; len = 655360; type_of = 1 }
    else record { size = 20; addr = 655360; len = 393216; type_of = 2 }

mixed_entries-Readable : Readable mixed_entries two_info memory module_at
mixed_entries-Readable = record {
  map_there = refl;
  map = record {
    some_map = ground arith;
    some_bytes = omega arith;
    fits = omega arith;
    entries_fit = λ a low inside. ground arith;
  };
  text = λ h. command_line;
  modules = one_module;
}

abbrev all_free : Pmm
all_free = record { words = λ l k. 0; sizes = λ l. 128; present = λ l. true; max_size = 16777216 }

pmm_target_init-marks_example :
    (after : Pmm) × (pmm_target_init 0 49 120
        (λ pde. 0)
        memory
        module_at
        mixed_entries
        two_info
        0xc0008000
        all_free
      ≡ some after)
    × Reserved mixed_entries two_info 0 all_free after
pmm_target_init-marks_example =
    pmm_target_init-marks mixed_entries two_info memory module_at mixed_entries-Readable 0 48 120
      0xc0008000 (omega arith) (λ pde. 0) all_free
