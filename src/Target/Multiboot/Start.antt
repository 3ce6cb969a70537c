-- ===== src/Target/Multiboot/Start.antt =====
-- Where `pmm_initialise_available_start` of kernel/targets/i386-pc-multiboot/src/pmm.c lets the free
-- memory begin.
use neo_sys_x.Common.{
  ℕ, zero, suc, ◌+◌, ◌*◌, ◌≤◌, ◌≡◌, ◌≢◌, refl, sym, ◌∙◌, ◌^◌, ◌<◌, inl, inr, Bool, Bool-cases, true,
  false, ◌==◌, if◌then◌else◌, some, u32, arith,
}
use mathlib.Core.Option.{some-injective}
use neo_sys_x.Libc.Memory.{Memory, strlen}
use neo_sys_x.Libc.Memory.Text.{strlen-IsString}
use neo_sys_x.Target.Multiboot.{Info}
use neo_sys_x.Target.Multiboot.Pieces.{
  Module, sizeof_module, has_cmdline, has_mods, has_mmap, has_drives, step_over, over_string,
  over_modules, pmm_initialise_available_start,
}
use neo_sys_x.Target.Multiboot.Reserve.{Text, Modules}

-- The string at `str`, with its terminator, ends at or before `d`.
abbrev pub StringBelow : Memory → ℕ → ℕ → Type 0
StringBelow mem str d = (n : ℕ) × (strlen mem str ≡ some n) × (u32 (str + n + 1) ≤ d)

-- So do each of `left` modules from address `a` on and its command line.
abbrev pub ModulesBelow : ℕ → Memory → (ℕ → Module) → ℕ → ℕ → Type 0
ModulesBelow zero mem module_at a d = Unit
ModulesBelow (suc left) mem module_at a d =
    ((module_at a).mod_end ≤ d)
    × ((module_at a).cmdline ≢ 0 → StringBelow mem (module_at a).cmdline d)
    × ModulesBelow left mem module_at (u32 (a + sizeof_module)) d

-- The later of two addresses.
step_over-least : (end start e : ℕ) → end ≤ e → start ≤ e → step_over end start ≤ e
step_over-least end start e h g = ground arith

step_over-le : (end start : ℕ) → (end ≤ step_over end start) × (start ≤ step_over end start)
step_over-le end start = ground arith

StringBelow-later :
    (mem : Memory) (str d d' : ℕ) → d ≤ d' → StringBelow mem str d → StringBelow mem str d'
StringBelow-later mem str d d' h (n, e, below) = (n, e, omega arith)

over_string-Below :
    (mem : Memory) (str start : ℕ)
    → Text mem str
    → (d : ℕ) × (over_string mem str start ≡ some d)
      × (start ≤ d)
      × StringBelow mem str d
      × (start < 2 ^ 32 → d < 2 ^ 32)
      × ((e : ℕ) → start ≤ e → StringBelow mem str e → d ≤ e)
over_string-Below mem str start (n, s, short) =
    let e = (strlen-IsString mem str n 0 s short).0 in
    let end = u32 (str + n + 1) in
    let le = step_over-le end start in
    (
      step_over end start,
      rw (e, over_string) refl,
      le.1,
      (n, e, le.0),
      λ small. ground arith,
      λ d low (k, f, below).
          let same : n ≡ k = some-injective n k (sym e ∙ f) in
          step_over-least end start d (omega (arith, same)) low,
    )

over_modules-Below :
    (left : ℕ) (mem : Memory) (module_at : ℕ → Module) (a start : ℕ)
    → ((b : ℕ) → (module_at b).mod_end < 2 ^ 32)
    → Modules left mem module_at a
    → (d : ℕ) × (over_modules left mem module_at a start ≡ some d)
      × (start ≤ d)
      × ModulesBelow left mem module_at a d
      × (start < 2 ^ 32 → d < 2 ^ 32)
      × ((e : ℕ) → start ≤ e → ModulesBelow left mem module_at a e → d ≤ e)
unfolding over_modules
over_modules-Below zero mem module_at a start ends m =
    (start, refl, omega arith, tt, λ small. small, λ e low below. low)
over_modules-Below (suc left) mem module_at a start ends (text, m) =
    let str = (module_at a).cmdline in
    let end = (module_at a).mod_end in
    let le = step_over-le end start in
    let behind = step_over end start in
    let within : start < 2 ^ 32 → behind < 2 ^ 32 = (λ h. ground (arith, ends a)) in
    let next = u32 (a + sizeof_module) in
    elim (Bool-cases (str == 0)) [
      | inl e ↦
          let (d, f, low, rest, small, least) =
            over_modules-Below left mem module_at next behind ends m in
          (
            d,
            rw (e, over_modules) f,
            omega (arith, le),
            (omega (arith, le), λ some_text. absurd (some_text (ground arith)), rest),
            λ h. small (within h),
            λ b from (own, string, others). least b (step_over-least end start b own from) others,
          )
      | inr e ↦
          let (s, g, under, below, mild, first) =
            over_string-Below mem str behind (text (ground arith)) in
          let (d, f, low, rest, small, least) =
            over_modules-Below left mem module_at next s ends m in
          (
            d,
            rw (e, g, over_modules) f,
            omega (arith, le),
            (omega (arith, le), λ some_text. StringBelow-later mem str s d low below, rest),
            λ h. small (mild (within h)),
            λ b from (own, string, others).
                least b (first b (step_over-least end start b own from) (string (ground arith)))
                  others,
          )
    ]

-- Before `d` are the kernel, the information structure and all that it points to.
pub record Below (sizeof_info : ℕ) (mem : Memory) (module_at : ℕ → Module) (info : Info)
    (mb_info kernel_end d : ℕ) : Type 0 where
  pub kernel_below : kernel_end ≤ d
  pub info_below : u32 (mb_info + sizeof_info) ≤ d
  pub cmdline_below : has_cmdline info ≡ true → StringBelow mem (info.cmdline) d
  pub table_below :
      has_mods info ≡ true → u32 (info.mods_addr + info.mods_count * sizeof_module) ≤ d
  pub modules_below :
      has_mods info ≡ true → ModulesBelow (info.mods_count) mem module_at (info.mods_addr) d
  pub mmap_below : has_mmap info ≡ true → u32 (info.mmap_addr + info.mmap_length) ≤ d
  pub drives_below : has_drives info ≡ true → u32 (info.drives_addr + info.drives_length) ≤ d

ModulesBelow-later :
    (left : ℕ) (mem : Memory) (module_at : ℕ → Module) (a d d' : ℕ)
    → d ≤ d'
    → ModulesBelow left mem module_at a d
    → ModulesBelow left mem module_at a d'
ModulesBelow-later zero mem module_at a d d' h below = tt
ModulesBelow-later (suc left) mem module_at a d d' h (end, text, below) = (
  omega arith,
  λ some_text. StringBelow-later mem (module_at a).cmdline d d' h (text some_text),
  ModulesBelow-later left mem module_at (u32 (a + sizeof_module)) d d' h below,
)

-- A step that is taken only where the structure has its part.
if_over :
    (t : Bool) (end start : ℕ)
    → let d = if t then step_over end start else start in
      (start ≤ d)
      × (t ≡ true → end ≤ d)
      × (end < 2 ^ 32 → start < 2 ^ 32 → d < 2 ^ 32)
      × ((e : ℕ) → start ≤ e → (t ≡ true → end ≤ e) → d ≤ e)
if_over true end start = (
  (step_over-le end start).1,
  λ h. (step_over-le end start).0,
  λ h g. ground arith,
  λ e low own. step_over-least end start e (own refl) low,
)
if_over false end start = (omega arith, λ h. absurd (ground arith), λ h g. g, λ e low own. low)

module _ (sizeof_info : ℕ) (mem : Memory) (module_at : ℕ → Module) (info : Info)
    (mb_info kernel_end : ℕ) where
  cmdline_step :
      (t : Bool) (start : ℕ)
      → (t ≡ true → Text mem (info.cmdline))
      → (d : ℕ) × ((if t then over_string mem (info.cmdline) start else some start) ≡ some d)
        × (start ≤ d)
        × (t ≡ true → StringBelow mem (info.cmdline) d)
        × (start < 2 ^ 32 → d < 2 ^ 32)
        × ((e : ℕ) → start ≤ e → (t ≡ true → StringBelow mem (info.cmdline) e) → d ≤ e)
  cmdline_step true start text =
      let (d, e, low, below, small, least) =
        over_string-Below mem (info.cmdline) start (text refl) in
      (d, e, low, λ h. below, small, λ b from own. least b from (own refl))
  cmdline_step false start text =
      (start, refl, omega arith, λ h. absurd (ground arith), λ h. h, λ b from own. from)

  Modules-step :
      (t : Bool) (end start : ℕ)
      → ((b : ℕ) → (module_at b).mod_end < 2 ^ 32)
      → Modules (info.mods_count) mem module_at (info.mods_addr)
      → (d : ℕ) × ((if t
            then over_modules (info.mods_count) mem module_at (info.mods_addr) (step_over end start)
            else some start)
          ≡ some d)
        × (start ≤ d)
        × (t ≡ true → end ≤ d)
        × (t ≡ true → ModulesBelow (info.mods_count) mem module_at (info.mods_addr) d)
        × (end < 2 ^ 32 → start < 2 ^ 32 → d < 2 ^ 32)
        × ((e : ℕ)
            → start ≤ e
            → (t ≡ true → end ≤ e)
            → (t ≡ true → ModulesBelow (info.mods_count) mem module_at (info.mods_addr) e)
            → d ≤ e)
  Modules-step true end start ends modules =
      let le = step_over-le end start in
      let (d, e, low, below, small, least) =
        over_modules-Below (info.mods_count) mem module_at (info.mods_addr) (step_over end start)
          ends modules in
      (
        d,
        e,
        omega (arith, le),
        λ h. omega (arith, le),
        λ h. below,
        λ h g. small (ground arith),
        λ b from table own. least b (step_over-least end start b (table refl) from) (own refl),
      )
  Modules-step false end start ends modules = (
    start,
    refl,
    omega arith,
    λ h. absurd (ground arith),
    λ h. absurd (ground arith),
    λ h g. g,
    λ b from table own. from,
  )

  -- With command lines that end, and for a kernel and modules that end below 4 GB,
  -- `pmm_initialise_available_start` returns, and sets the start of the free memory to 0xC0000000
  -- and a physical address, of 32 bits: the least one at or before which end the kernel, the
  -- information structure, the command line, the table of the modules, each module and its command
  -- line, the memory map, and the table of the drives.
  pub pmm_initialise_available_start-Below :
      kernel_end < 2 ^ 32
      → ((b : ℕ) → (module_at b).mod_end < 2 ^ 32)
      → (has_cmdline info ≡ true → Text mem (info.cmdline))
      → Modules (info.mods_count) mem module_at (info.mods_addr)
      → (d : ℕ) × (pmm_initialise_available_start sizeof_info mem module_at info mb_info kernel_end
          ≡ some (u32 (d + 0xc0000000)))
        × (d < 2 ^ 32)
        × Below sizeof_info mem module_at info mb_info kernel_end d
        × ((e : ℕ) → Below sizeof_info mem module_at info mb_info kernel_end e → d ≤ e)
  unfolding pmm_initialise_available_start
  pmm_initialise_available_start-Below kernel_small ends text modules =
      let info_end = u32 (mb_info + sizeof_info) in
      let first = step_over info_end kernel_end in
      let one = step_over-le info_end kernel_end in
      let small : first < 2 ^ 32 = ground arith in
      let (a, ea, la, ba, sa, ma) = cmdline_step (has_cmdline info) first text in
      let mods_end = u32 (info.mods_addr + info.mods_count * sizeof_module) in
      let (b, eb, lb, tb, bb, sb, mb) = Modules-step (has_mods info) mods_end a ends modules in
      let mmap_end = u32 (info.mmap_addr + info.mmap_length) in
      let c = if has_mmap info then step_over mmap_end b else b in
      let (lc, oc, sc, mc) = if_over (has_mmap info) mmap_end b in
      let drives_end = u32 (info.drives_addr + info.drives_length) in
      let d = if has_drives info then step_over drives_end c else c in
      let (ld, od, sd, md) = if_over (has_drives info) drives_end c in
      let up : b ≤ d = omega (arith, lc, ld) in
      (
        d,
        rw (ea, eb, pmm_initialise_available_start) refl,
        sd (omega arith) (sc (omega arith) (sb (omega arith) (sa small))),
        record {
          kernel_below = omega (arith, one.1);
          info_below = omega (arith, one.0);
          cmdline_below = λ h. StringBelow-later mem (info.cmdline) a d (omega arith) (ba h);
          table_below = λ h. omega (arith, tb h);
          modules_below = λ h.
              ModulesBelow-later (info.mods_count) mem module_at (info.mods_addr) b d up (bb h);
          mmap_below = λ h. omega (arith, oc h, ld);
          drives_below = λ h. od h;
        },
        λ e w.
            md e
              (mc e
                (mb e
                  (ma e (step_over-least info_end kernel_end e w.info_below w.kernel_below)
                    w.cmdline_below)
                  w.table_below w.modules_below)
                w.mmap_below)
              w.drives_below,
      )
