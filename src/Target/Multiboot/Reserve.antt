-- ===== src/Target/Multiboot/Reserve.antt =====
-- `pmm_target_init` of kernel/targets/i386-pc-multiboot/src/pmm.c returns, and keeps the memory map's
-- own regions from being allocated.
use neo_sys_x.Common.{
  ℕ, zero, suc, ◌+◌, ◌*◌, ◌^◌, ◌≤◌, ◌<◌, ◌≡◌, ◌≢◌, refl, inl, inr, Bool, Bool-cases, true, false,
  not, leb, ◌==◌, if◌then◌else◌, some, List, [], ◌∷◌, ◌++◌, u32, arith,
}
use neo_sys_x.Common.Bitmap.{mark}
use neo_sys_x.Libc.Memory.{Memory}
use neo_sys_x.Libc.Memory.Text.{IsString, strlen-IsString}
use neo_sys_x.Mm.Pmm.{Pmm, pmm_levels, frame_size}
use neo_sys_x.Mm.Pmm.Levels.{Reserves}
use neo_sys_x.Mm.Pmm.Keeps.{
  Keeps, Keeps-trans, Among, first, later, reserve_all, reserve_all-Keeps, reserve_all-marks,
  Reserves-Keeps,
}
use neo_sys_x.Target.Multiboot.{Entry, Info, available, mmap_end, next_entry, mb_traverse_mmap}
use neo_sys_x.Target.Multiboot.Size.{
  IsMap, From, here, onward, mb_traverse_mmap-out, mb_traverse_mmap-in,
}
use neo_sys_x.Target.Multiboot.Pieces.{
  Module, sizeof_module, has_cmdline, has_mods, has_mmap, has_drives, Calls, ◌then_calls◌, call_if,
  string_calls, module_calls, mmap_calls, target_calls, initial_pt_calls, bios_calls,
  pmm_machine_init, pmm_target_init,
}

Among-left : {addr len : ℕ} (c d : List (ℕ × ℕ)) → Among addr len c → Among addr len (c ++ d)
Among-left [] d among = elim among [ ]
Among-left (x ∷ c) d first = first
Among-left (x ∷ c) d (later among) = later (Among-left c d among)

Among-right : {addr len : ℕ} (c d : List (ℕ × ℕ)) → Among addr len d → Among addr len (c ++ d)
Among-right [] d among = among
Among-right ((a, n) ∷ c) d among = later (Among-right c d among)

-- The loop ends.
abbrev Ends : Calls → Type 0
Ends calls = (l : List (ℕ × ℕ)) × (calls ≡ some l)

then-Ends : (a b : Calls) → Ends a → Ends b → Ends (a then_calls b)
then-Ends a b (c, e) (d, f) = (c ++ d, rw (e, f) refl)

if-Ends : (t : Bool) (a : Calls) → (t ≡ true → Ends a) → Ends (if t then a else some [])
if-Ends true a h = h refl
if-Ends false a h = ([], refl)

call_if-Ends : (t : Bool) (addr len : ℕ) → Ends (call_if t addr len)
call_if-Ends true addr len = ((addr, len) ∷ [], refl)
call_if-Ends false addr len = ([], refl)

-- A string that is shorter than 2^32 stands there.
abbrev pub Text : Memory → ℕ → Type 0
Text mem str = (n : ℕ) × IsString mem str n × (n < 2 ^ 32)

string_calls-Ends : (mem : Memory) (str : ℕ) → Text mem str → Ends (string_calls mem str)
unfolding string_calls
string_calls-Ends mem str (n, s, short) =
    ((str, u32 (n + 1)) ∷ [], rw ((strlen-IsString mem str n 0 s short).0, string_calls) refl)

-- Each of `left` modules from address `a` on has no command line, or one that ends.
abbrev pub Modules : ℕ → Memory → (ℕ → Module) → ℕ → Type 0
Modules zero mem module_at a = Unit
Modules (suc left) mem module_at a =
    ((module_at a).cmdline ≢ 0 → Text mem (module_at a).cmdline)
    × Modules left mem module_at (u32 (a + sizeof_module))

module_calls-Ends :
    (left : ℕ) (mem : Memory) (module_at : ℕ → Module) (a : ℕ)
    → Modules left mem module_at a
    → Ends (module_calls left mem module_at a)
unfolding module_calls
module_calls-Ends zero mem module_at a m = ([], refl)
module_calls-Ends (suc left) mem module_at a (text, m) =
    let str = (module_at a).cmdline in
    let own : Ends (if str == 0 then some [] else string_calls mem str) =
      elim (Bool-cases (str == 0)) [
        | inl e ↦ rw e ([], refl)
        | inr e ↦ rw e (string_calls-Ends mem str (text (ground arith)))
      ] in
    then-Ends _ _ (call_if-Ends true _ _)
      (then-Ends _ _ own (module_calls-Ends left mem module_at (u32 (a + sizeof_module)) m))

module _ (entry : ℕ → Entry) (info : Info) where
  -- The calls for the entries from `a` on that are not available are among `l`.
  abbrev Held : ℕ → List (ℕ × ℕ) → Type 0
  Held a l =
      (b : ℕ)
      → From entry info a b
      → (entry b).type_of ≢ available
      → Among (entry b).addr (entry b).len l

  Held-step :
      (a : ℕ) (c : List (ℕ × ℕ))
      → ((entry a).type_of ≢ available → Among (entry a).addr (entry a).len c)
      → (next_entry entry a < mmap_end info → Held (next_entry entry a) c)
      → Held a c
  Held-step a c own rest b here kept = own kept
  Held-step a c own rest b (onward more f) kept = rest more b f kept

  call-Held :
      (a : ℕ) (r : Calls) (l : List (ℕ × ℕ))
      → r ≡ some l
      → (next_entry entry a < mmap_end info → Held (next_entry entry a) l)
      → (c : List (ℕ × ℕ)) × (call_if
              (not ((entry a).type_of == available))
              (entry a).addr
              (entry a).len
            then_calls r
          ≡ some c)
        × Held a c
  call-Held a r l e rest = elim (Bool-cases ((entry a).type_of == available)) [
    | inl f ↦ (l, rw (e, f) refl, Held-step a l (λ kept. absurd (kept (ground arith))) rest)
    | inr f ↦ (
      ((entry a).addr, (entry a).len) ∷ l,
      rw (e, f) refl,
      Held-step a (((entry a).addr, (entry a).len) ∷ l) (λ kept. first)
          (λ more b g kept. later (rest more b g kept)),
    )
  ]

  -- One round.
  mmap_calls-step :
      (fuel a b : ℕ) (l : List (ℕ × ℕ))
      → a ≢ 0
      → mb_traverse_mmap entry info a ≡ b
      → mmap_calls fuel entry info b ≡ some l
      → (next_entry entry a < mmap_end info → Held (next_entry entry a) l)
      → (c : List (ℕ × ℕ)) × (mmap_calls (suc fuel) entry info a ≡ some c) × Held a c
  unfolding mmap_calls
  mmap_calls-step fuel a b l some_a t f rest =
      let r = mmap_calls fuel entry info (mb_traverse_mmap entry info a) in
      let e : r ≡ some l = rw t f in
      let (c, g, held) = call-Held a r l e rest in
      let z : (a == 0) ≡ false = ground arith in (c, rw z g, held)

  mmap_calls-end : (fuel : ℕ) → mmap_calls (suc fuel) entry info 0 ≡ some []
  unfolding mmap_calls
  mmap_calls-end fuel = refl

  mmap_calls-Held :
      IsMap entry info
      → (fuel a : ℕ) → info.mmap_addr ≤ a
      → a < info.mmap_addr + info.mmap_length
      → info.mmap_addr + info.mmap_length ≤ a + fuel
      → (l : List (ℕ × ℕ)) × (mmap_calls (suc fuel) entry info a ≡ some l) × Held a l
  mmap_calls-Held m zero a low high enough = absurd (omega arith)
  mmap_calls-Held m (suc fuel) a low high enough =
      let b = next_entry entry a in
      let next : b ≡ a + (entry a).size + 4 = omega (arith, m.entries_fit a low high) in
      let end : mmap_end info ≡ info.mmap_addr + info.mmap_length = omega (arith, m.fits) in
      let some_a : a ≢ 0 = ground (arith, m.some_map) in
      let test : (a == 0) ≡ false = ground arith in
      elim (Bool-cases (leb (mmap_end info) b)) [
        | inl e ↦
            mmap_calls-step (suc fuel) a 0 [] some_a (mb_traverse_mmap-out entry info a test e)
              (mmap_calls-end fuel) (λ more. absurd (ground arith))
        | inr e ↦
            let (l, f, held) =
              mmap_calls-Held m fuel b (omega arith) (ground arith) (ground arith) in
            mmap_calls-step (suc fuel) a b l some_a
              (mb_traverse_mmap-in entry info a test e (omega arith)) f (λ more. held)
      ]

  -- The loop ends, and holds the calls for all entries that are not available.
  abbrev Gives : Calls → Type 0
  Gives calls = (l : List (ℕ × ℕ)) × (calls ≡ some l) × Held (info.mmap_addr) l

  after-Gives : (a b : Calls) → Ends a → Gives b → Gives (a then_calls b)
  after-Gives a b (c, e) (l, f, held) =
      (c ++ l, rw (e, f) refl, λ x from kept. Among-right c l (held x from kept))

  before-Gives : (a b : Calls) → Gives a → Ends b → Gives (a then_calls b)
  before-Gives a b (l, f, held) (c, e) =
      (l ++ c, rw (e, f) refl, λ x from kept. Among-left l c (held x from kept))

  -- No mark is lost, and at each level every block is marked that an entry of the map touches which
  -- is not available memory and which `Reserves` holds of, as far as it lies in the memory.
  abbrev pub Reserved : ℕ → Pmm → Pmm → Type 0
  Reserved wide p after =
      Keeps p after
      × ((b k j : ℕ)
          → From entry info (info.mmap_addr) b
          → (entry b).type_of ≢ available
          → Reserves wide p (entry b).addr (entry b).len
          → k < pmm_levels
          → (entry b).addr < (j + 1) * (frame_size * 2 ^ k)
          → j * (frame_size * 2 ^ k) < (entry b).addr + (entry b).len
          → j * (frame_size * 2 ^ k) < p.max_size
          → mark (after.words k) j ≡ 1)

  module _ (mem : Memory) (module_at : ℕ → Module) where
    -- What the boot loader has left can be read: the memory map, the command line and those of the
    -- modules.
    pub record Readable : Type 0 where
      pub map_there : has_mmap info ≡ true
      pub map : IsMap entry info
      pub text : has_cmdline info ≡ true → Text mem (info.cmdline)
      pub modules : Modules (info.mods_count) mem module_at (info.mods_addr)

    target_calls-Gives :
        Readable
        → (fuel sizeof_info mb_info : ℕ) → info.mmap_length ≤ fuel
        → Gives (target_calls (suc fuel) sizeof_info mem module_at entry info mb_info)
    unfolding target_calls
    target_calls-Gives r fuel sizeof_info mb_info enough =
        let low : 1 ≤ info.mmap_length = r.map.some_bytes in
        let loop : Gives
            (if has_mmap info then mmap_calls (suc fuel) entry info (info.mmap_addr) else some []) =
          rw r.map_there (
            mmap_calls-Held (r.map) fuel (info.mmap_addr) (omega arith) (omega arith)
              (omega arith)) in
        after-Gives _ _ (call_if-Ends true mb_info sizeof_info) (
          after-Gives _ _
            (if-Ends (has_cmdline info) _ (λ h. string_calls-Ends mem (info.cmdline) (r.text h)))
            (after-Gives _ _ (call_if-Ends (has_mods info) _ _) (
              after-Gives _ _
                (if-Ends (has_mods info) _ (λ h.
                  module_calls-Ends (info.mods_count) mem module_at (info.mods_addr) (r.modules)))
                (after-Gives _ _ (call_if-Ends (has_mmap info) _ _)
                  (before-Gives _ _ loop (call_if-Ends (has_drives info) _ _))))))

    -- Where what the boot loader has left can be read, and with fuel for each byte of the memory
    -- map: `pmm_target_init` returns and loses no mark. Of an entry of the map that is not available
    -- memory it marks at each level every block that the entry touches, as far as it lies in the
    -- memory, where all four levels have bitmaps, the memory has fewer than 2^63 bytes, the entry
    -- begins no later than the memory ends and ends below 2^64, and `pmm_reserve` asks for no shift
    -- by 32 (or that gives 0).
    pub pmm_target_init-marks :
        Readable
        → (wide fuel sizeof_info mb_info : ℕ) → info.mmap_length ≤ fuel
        → (pt : ℕ → ℕ) → (p : Pmm)
        → (after : Pmm) × (pmm_target_init wide
              (suc fuel)
              sizeof_info
              pt
              mem
              module_at
              entry
              info
              mb_info
              p
            ≡ some after)
          × Reserved wide p after
    unfolding pmm_target_init pmm_machine_init
    pmm_target_init-marks r wide fuel sizeof_info mb_info enough pt p =
        let (calls, e, held) = target_calls-Gives r fuel sizeof_info mb_info enough in
        let tables = reserve_all wide p (initial_pt_calls 256 pt 768) in
        let q = reserve_all wide tables bios_calls in
        let keeps : Keeps p q =
          Keeps-trans p tables q (reserve_all-Keeps wide p (initial_pt_calls 256 pt 768))
            (reserve_all-Keeps wide tables bios_calls) in
        (
          reserve_all wide q calls,
          rw (e, pmm_target_init) refl,
          (
            Keeps-trans p q _ keeps (reserve_all-Keeps wide q calls),
            λ b k j from kept res level first last end.
                reserve_all-marks wide q calls (entry b).addr (entry b).len k j (held b from kept)
                  (Reserves-Keeps wide p q (entry b).addr (entry b).len keeps res) level first last
                  (rw keeps.same_max end),
          ),
        )
