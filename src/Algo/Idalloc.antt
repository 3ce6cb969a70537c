-- ===== src/Algo/Idalloc.antt =====
-- kernel/common/src/algo/idalloc.c: ids handed out from a bitmap that grows.
-- The heap is not modelled: `realloc` is an argument, `none` where it fails and otherwise the words
-- that the new block holds beyond the old ones. `IDALLOC_EXPAND_INCREMENT` is the frame size.
pub mod Wf
pub mod Alloc
pub mod Size
mod Tests
use neo_sys_x.Common.{
  ℕ, zero, suc, ◌+◌, ◌-◌, ◌*◌, ◌/◌, ◌%◌, ◌^◌, Bool, true, false, Option, none, some, ltb, leb, ◌==◌,
  if◌then◌else◌, u32, size_max, ◌&&◌,
}
use neo_sys_x.Common.Bitmap.{Bitmap, test_bit, set_bit, clear_bit}

-- `idalloc_t`; `present` is `bitmap != NULL`, and `size` counts bytes.
pub record Idalloc : Type 0 where
  pub size : ℕ
  pub bitmap : Bitmap
  pub present : Bool
  pub next_to_allocate : ℕ
  pub is_static : Bool

-- `pmm_get_frame_size()`
abbrev pub increment : ℕ
increment = 4096

-- `size`, rounded up to a multiple of `unit`.
abbrev pub align_up : ℕ → ℕ → ℕ
align_up size unit = if size % unit == 0 then size else u32 (size + (unit - size % unit))

-- `granted` is whether `calloc` succeeds.
unfoldable pub init : Bool → Idalloc → Bool × Idalloc
init granted base =
    if base.is_static
    then (true, base)
    else let size = align_up (align_up base.size 4) increment in
      if granted
      then (
        true,
        record base { size = size; next_to_allocate = 0; present = true; bitmap = λ k. 0 },
      )
      else (false, record base { size = size; next_to_allocate = 0; present = false })

-- The words of a block of `old` bytes after `realloc` gave it others: what lies beyond is `fresh`.
abbrev pub resized : ℕ → Bitmap → Bitmap → Bitmap
resized old words fresh k = if ltb (k * 4) old then words k else fresh k

-- `memset(&new_bitmap[from], 0, to - from)`, on a word boundary.
abbrev pub zeroed : ℕ → ℕ → Bitmap → Bitmap
zeroed from to words k = if leb from (k * 4) && ltb (k * 4) to then 0 else words k

-- The size that `idalloc_expand` asks for, before the alignment.
abbrev pub wanted_size : ℕ → ℕ
wanted_size max_id = u32 (max_id + 1 + 4 - 1) / 4 * 4

unfoldable pub expand : (ℕ → Option Bitmap) → Idalloc → ℕ → Bool × Idalloc
expand realloc base max_id =
    if base.is_static
    then (false, base)
    else if ltb (wanted_size max_id) base.size
    then (true, base)
    else let new_size = align_up (wanted_size max_id) increment in
      elim (realloc new_size) [
        | none ↦ (false, base)
        | some fresh ↦ (
          true,
          record base {
            size = new_size;
            bitmap = zeroed base.size new_size (resized base.size base.bitmap fresh);
            present = true;
          },
        )
      ]

-- What the loop of `idalloc_alloc` ends with: the id that it takes, or the first id beyond the
-- bitmap.
pub data Scan : Type 0 where
  found : ℕ → Scan
  ended : ℕ → Scan
  out_of_fuel : Scan

unfoldable pub scan : ℕ → Idalloc → ℕ → Scan
scan zero base id = out_of_fuel
scan (suc fuel) base id =
    let rest = scan fuel base (u32 (id + 1)) in
    if leb base.size (id / 32 * 4)
    then ended id
    else if test_bit base.bitmap id
    then rest
    else found id

-- The rounds that the loop takes at most: one for each bit, and the last test.
abbrev pub scan_fuel : Idalloc → ℕ
scan_fuel base = base.size * 8 + 33

-- `none` is a run that never ends.
abbrev pub Outcome : Type 0
Outcome = Option (ℕ × Idalloc)

-- `idalloc_alloc`, with the depth of its recursion.
unfoldable pub alloc_deep : ℕ → (ℕ → Option Bitmap) → Idalloc → Outcome
unfolding scan expand
alloc_deep zero realloc base = none
alloc_deep (suc depth) realloc base = elim (scan (scan_fuel base) base base.next_to_allocate) [
  | found id ↦
      some (id, record base { bitmap = set_bit base.bitmap id; next_to_allocate = u32 (id + 1) })
  | ended id ↦
      (let again = λ (b : Idalloc). alloc_deep depth realloc (record b { next_to_allocate = id }) in
        let (done, grown) = expand realloc base id in
        if done then again grown else some (size_max, grown))
  | out_of_fuel ↦ none
]

-- An expansion makes room for the id, so the second attempt is the last.
unfoldable pub alloc : (ℕ → Option Bitmap) → Idalloc → Outcome
unfolding alloc_deep
alloc realloc base = alloc_deep 2 realloc base

unfoldable pub free : Idalloc → ℕ → Idalloc
free base id =
    if leb base.size (id / 32 * 4) then base else record base { bitmap = clear_bit base.bitmap id }

-- The loop of `idalloc_trim`: how many words are left when the empty ones at the end are dropped.
unfoldable pub last_used : ℕ → Bitmap → ℕ
last_used zero words = 0
last_used (suc i) words = let rest = last_used i words in if words i == 0 then rest else suc i

abbrev pub trimmed_size : Idalloc → ℕ
trimmed_size base =
    let new_size = last_used (base.size / 4) base.bitmap * 4 in
    if ltb new_size increment then increment else align_up new_size increment

unfoldable pub trim : (ℕ → Option Bitmap) → Idalloc → Idalloc
unfolding last_used
trim realloc base = elim (realloc (trimmed_size base)) [
  | none ↦ base
  | some fresh ↦ record base {
    bitmap = resized base.size base.bitmap fresh;
    present = true;
    size = trimmed_size base;
  }
]

unfoldable pub deinit : Idalloc → Idalloc
deinit base = if base.is_static then base else record base { size = 0; present = false }
