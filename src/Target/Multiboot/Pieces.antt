-- ===== src/Target/Multiboot/Pieces.antt =====
-- kernel/targets/i386-pc-multiboot/src/pmm.c: what the boot loader has left, as `pmm_target_init`
-- reserves it and as `pmm_initialise_available_start` steps over it; and pmm_machine_init of
-- kernel/machine/i386-pc/src/pmm.c, with `vmm_reserve_initial_pt` of kernel/cpu/i386/src/vmm_lh.c.
-- Calls of `pmm_reserve` are a list of addresses and lengths; `none` is a loop that does not end.
use neo_sys_x.Common.{
  ℕ, zero, suc, ◌+◌, ◌-◌, ◌*◌, ◌^◌, Bool, true, not, ◌&&◌, ltb, ◌==◌, if◌then◌else◌, Option, none,
  some, List, [], ◌∷◌, ◌++◌, bit_and, u32,
}
use neo_sys_x.Libc.Memory.{Memory, strlen}
use neo_sys_x.Mm.Pmm.{Pmm}
use neo_sys_x.Mm.Pmm.Keeps.{reserve_all}
use neo_sys_x.Target.Multiboot.{Entry, Info, available, mb_traverse_mmap}

-- `multiboot_module_t`, of 16 bytes.
pub record Module : Type 0 where
  pub mod_start : ℕ
  pub mod_end : ℕ
  pub cmdline : ℕ

abbrev pub sizeof_module : ℕ
sizeof_module = 16

-- `MULTIBOOT_INFO_CMDLINE`, `MULTIBOOT_INFO_MODS`, `MULTIBOOT_INFO_MEM_MAP` and
-- `MULTIBOOT_INFO_DRIVE_INFO` in the flags, each with the fields that it stands for.
abbrev pub has : Info → ℕ → Bool
has info flag = not (bit_and info.flags flag == 0)

abbrev pub has_cmdline : Info → Bool
has_cmdline info = has info 0x4 && not (info.cmdline == 0)

abbrev pub has_mods : Info → Bool
has_mods info = has info 0x8 && (not (info.mods_addr == 0) && not (info.mods_count == 0))

abbrev pub has_mmap : Info → Bool
has_mmap info = has info 0x40 && (not (info.mmap_addr == 0) && not (info.mmap_length == 0))

abbrev pub has_drives : Info → Bool
has_drives info = has info 0x80 && (not (info.drives_addr == 0) && not (info.drives_length == 0))

abbrev pub Calls : Type 0
Calls = Option (List (ℕ × ℕ))

infixr 30 ◌then_calls◌
abbrev pub ◌then_calls◌ : Calls → Calls → Calls
a then_calls b = elim a [ none ↦ none | some c ↦ elim b [ none ↦ none | some d ↦ some (c ++ d) ] ]

-- One call, if `test` holds.
abbrev pub call_if : Bool → ℕ → ℕ → Calls
call_if test addr len = if test then some ((addr, len) ∷ []) else some []

-- The call for a string and its terminator.
unfoldable pub string_calls : Memory → ℕ → Calls
string_calls mem str = elim (strlen mem str) [
  | none ↦ none
  | some len ↦ some ((str, u32 (len + 1)) ∷ [])
]

-- The loop over the modules of `pmm_target_init`, from the one at address `a` on.
unfoldable pub module_calls : ℕ → Memory → (ℕ → Module) → ℕ → Calls
unfolding string_calls
module_calls zero mem module_at a = some []
module_calls (suc left) mem module_at a =
    let m = module_at a in
    call_if true (m.mod_start) (u32 (m.mod_end + 2 ^ 32 - m.mod_start))
    then_calls (if m.cmdline == 0 then some [] else string_calls mem (m.cmdline))
    then_calls module_calls left mem module_at (u32 (a + sizeof_module))

-- The loop over the memory map of `pmm_target_init`.
unfoldable pub mmap_calls : ℕ → (ℕ → Entry) → Info → ℕ → Calls
mmap_calls zero entry info mmap = none
mmap_calls (suc fuel) entry info mmap =
    let e = entry mmap in
    let rest = mmap_calls fuel entry info (mb_traverse_mmap entry info mmap) in
    let both = call_if (not (e.type_of == available)) (e.addr) (e.len) then_calls rest in
    if mmap == 0 then some [] else both

-- What `pmm_target_init` reserves, `mb_info` being its address and `sizeof_info` the size of
-- `multiboot_info_t`.
unfoldable pub target_calls : ℕ → ℕ → Memory → (ℕ → Module) → (ℕ → Entry) → Info → ℕ → Calls
unfolding module_calls mmap_calls string_calls
target_calls fuel sizeof_info mem module_at entry info mb_info =
    call_if true mb_info sizeof_info
    then_calls (if has_cmdline info then string_calls mem (info.cmdline) else some [])
    then_calls call_if (has_mods info) (info.mods_addr) (u32 (info.mods_count * sizeof_module))
    then_calls (if has_mods info
        then module_calls (info.mods_count) mem module_at (info.mods_addr)
        else some [])
    then_calls call_if (has_mmap info) (info.mmap_addr) (info.mmap_length)
    then_calls (if has_mmap info then mmap_calls fuel entry info (info.mmap_addr) else some [])
    then_calls call_if (has_drives info) (info.drives_addr) (info.drives_length)

-- `vmm_reserve_initial_pt`: the directory entries from `pde` on, of which `left` are left; `pt` is
-- the field of `vmm_kernel_config`.
unfoldable pub initial_pt_calls : ℕ → (ℕ → ℕ) → ℕ → List (ℕ × ℕ)
initial_pt_calls zero pt pde = []
initial_pt_calls (suc left) pt pde =
    let rest = initial_pt_calls left pt (pde + 1) in
    if pt pde == 0 then rest else (u32 (pt pde + 2 ^ 32 - 0xc0000000), 4096) ∷ rest

-- The regions of the BIOS that `pmm_machine_init` reserves.
abbrev pub bios_calls : List (ℕ × ℕ)
bios_calls =
    (0x0, 0x4ff - 0x0 + 1)
    ∷ ((0x80000, 0x9ffff - 0x80000 + 1)
        ∷ ((0xa0000, 0xbffff - 0xa0000 + 1)
            ∷ ((0xc0000, 0xc7fff - 0xc0000 + 1)
                ∷ ((0xc8000, 0xeffff - 0xc8000 + 1) ∷ ((0xf0000, 0xfffff - 0xf0000 + 1) ∷ [])))))

-- `pmm_machine_init`
unfoldable pub pmm_machine_init : ℕ → (ℕ → ℕ) → Pmm → Pmm
pmm_machine_init wide pt p =
    reserve_all wide (reserve_all wide p (initial_pt_calls 256 pt 768)) bios_calls

-- `pmm_target_init`
unfoldable pub pmm_target_init :
    ℕ → ℕ → ℕ → (ℕ → ℕ) → Memory → (ℕ → Module) → (ℕ → Entry) → Info → ℕ → Pmm → Option Pmm
pmm_target_init wide fuel sizeof_info pt mem module_at entry info mb_info p =
    elim (target_calls fuel sizeof_info mem module_at entry info mb_info) [
      | none ↦ none
      | some calls ↦ some (reserve_all wide (pmm_machine_init wide pt p) calls)
    ]

-- The larger of an end and the start so far.
abbrev pub step_over : ℕ → ℕ → ℕ
step_over end start = if ltb start end then end else start

-- `strlen_lh` runs as `strlen` does.
abbrev pub strlen_lh : Memory → ℕ → Option ℕ
strlen_lh = strlen

abbrev pub over_string : Memory → ℕ → ℕ → Option ℕ
over_string mem str start = elim (strlen_lh mem str) [
  | none ↦ none
  | some len ↦ some (step_over (u32 (str + len + 1)) start)
]

-- The loop over the modules of `pmm_initialise_available_start`.
unfoldable pub over_modules : ℕ → Memory → (ℕ → Module) → ℕ → ℕ → Option ℕ
over_modules zero mem module_at a start = some start
over_modules (suc left) mem module_at a start =
    let m = module_at a in
    let behind = step_over (m.mod_end) start in
    elim (if m.cmdline == 0 then some behind else over_string mem (m.cmdline) behind) [
      | none ↦ none
      | some s ↦ over_modules left mem module_at (u32 (a + sizeof_module)) s
    ]

-- `pmm_initialise_available_start`; `mb_info` is the physical address here.
unfoldable pub pmm_initialise_available_start : ℕ → Memory → (ℕ → Module) → Info → ℕ → ℕ → Option ℕ
pmm_initialise_available_start sizeof_info mem module_at info mb_info kernel_end =
    let first = step_over (u32 (mb_info + sizeof_info)) kernel_end in
    elim (if has_cmdline info then over_string mem (info.cmdline) first else some first) [
      | none ↦ none
      | some a ↦
          let mods_end = u32 (info.mods_addr + info.mods_count * sizeof_module) in
          elim (if has_mods info
            then over_modules (info.mods_count) mem module_at (info.mods_addr)
                (step_over mods_end a)
            else some a) [
              | none ↦ none
              | some b ↦
                  let c =
                    if has_mmap info
                    then step_over (u32 (info.mmap_addr + info.mmap_length)) b
                    else b in
                  let d =
                    if has_drives info
                    then step_over (u32 (info.drives_addr + info.drives_length)) c
                    else c in
                  some (u32 (d + 0xc0000000))
            ]
    ]
