-- ===== src/Libc/Memory.antt =====
-- libc/src/string: memory and strings.
-- Memory gives each address its byte. An object does not wrap around the address space, so an
-- address is a plain sum. `char` is signed, as on i386, and an `int` is its 32-bit pattern.
pub mod Copy
pub mod Compare
pub mod Text
pub mod Join
mod Tests
use neo_sys_x.Common.{
  ℕ, zero, suc, ◌+◌, ◌-◌, ◌*◌, ◌/◌, ◌%◌, ◌^◌, ◌≤◌, ◌<◌, ◌≡◌, ◌≢◌, Bool, true, false, ◌&&◌, ◌||◌,
  not, Option, none, some, ltb, leb, ◌==◌, if◌then◌else◌, u32, u8, update,
}

abbrev pub Memory : Type 0
Memory = ℕ → ℕ

abbrev pub IsBytes : Memory → Type 0
IsBytes mem = (a : ℕ) → mem a < 256

-- A `char` as an `int`.
abbrev pub as_int : ℕ → ℕ
as_int c = if ltb c 128 then c else c + 2 ^ 32 - 256

-- The difference of two `char`s.
abbrev pub diff : ℕ → ℕ → ℕ
diff a b = u32 (as_int a + 2 ^ 32 - as_int b)

-- More rounds than there are addresses.
abbrev pub space : ℕ
space = 2 ^ 32

-- The loop of `memchr`, with `left` bytes to go; `none` is `NULL`.
unfoldable pub memchr_from : ℕ → Memory → ℕ → ℕ → ℕ → Option ℕ
memchr_from zero mem ptr ch i = none
memchr_from (suc left) mem ptr ch i =
    let rest = memchr_from left mem ptr ch (i + 1) in
    if as_int (mem (ptr + i)) == ch then some (ptr + i) else rest

abbrev pub memchr : Memory → ℕ → ℕ → ℕ → Option ℕ
memchr mem ptr ch count = memchr_from count mem ptr ch 0

unfoldable pub memcmp_from : ℕ → Memory → ℕ → ℕ → ℕ → ℕ
memcmp_from zero mem lhs rhs i = 0
memcmp_from (suc left) mem lhs rhs i =
    let rest = memcmp_from left mem lhs rhs (i + 1) in
    let ret = diff (mem (lhs + i)) (mem (rhs + i)) in if ret == 0 then rest else ret

abbrev pub memcmp : Memory → ℕ → ℕ → ℕ → ℕ
memcmp mem lhs rhs count = memcmp_from count mem lhs rhs 0

-- The loop of `memcpy`, also that of `memmove` towards lower addresses.
unfoldable pub copy_up : ℕ → Memory → ℕ → ℕ → ℕ → Memory
copy_up zero mem dest src i = mem
copy_up (suc left) mem dest src i =
    copy_up left (update mem (dest + i) (mem (src + i))) dest src (i + 1)

abbrev pub memcpy : Memory → ℕ → ℕ → ℕ → Memory
memcpy mem dest src count = copy_up count mem dest src 0

-- The other loop of `memmove`, which steps with `i++` and ends behind index 0; `none` is a loop
-- still running when `fuel` is spent.
unfoldable pub copy_down : ℕ → Memory → ℕ → ℕ → ℕ → Option Memory
copy_down zero mem dest src i = none
copy_down (suc fuel) mem dest src i =
    let copied = update mem (dest + i) (mem (src + i)) in
    let rest = copy_down fuel copied dest src (u32 (i + 1)) in if i == 0 then some copied else rest

unfoldable pub memmove : ℕ → Memory → ℕ → ℕ → ℕ → Option Memory
unfolding copy_down copy_up
memmove fuel mem dest src count =
    if ltb src dest
    then (if count == 0 then some mem else copy_down fuel mem dest src (count - 1))
    else some (copy_up count mem dest src 0)

unfoldable pub set_from : ℕ → Memory → ℕ → ℕ → ℕ → Memory
set_from zero mem dest ch i = mem
set_from (suc left) mem dest ch i = set_from left (update mem (dest + i) (u8 ch)) dest ch (i + 1)

abbrev pub memset : Memory → ℕ → ℕ → ℕ → Memory
memset mem dest ch count = set_from count mem dest ch 0

unfoldable pub strlen_from : ℕ → Memory → ℕ → ℕ → Option ℕ
strlen_from zero mem str len = none
strlen_from (suc fuel) mem str len =
    let rest = strlen_from fuel mem str (len + 1) in if mem (str + len) == 0 then some len else rest

abbrev pub strlen : Memory → ℕ → Option ℕ
strlen mem str = strlen_from space mem str 0

unfoldable pub strnlen_from : ℕ → Memory → ℕ → ℕ → ℕ
strnlen_from zero mem str len = len
strnlen_from (suc left) mem str len =
    let rest = strnlen_from left mem str (len + 1) in if mem (str + len) == 0 then len else rest

abbrev pub strnlen : Memory → ℕ → ℕ → ℕ
strnlen mem str maxlen = strnlen_from maxlen mem str 0

-- The loop of `strcpy` and `strcat`: up to the terminator, which is copied too.
unfoldable pub strcpy_from : ℕ → Memory → ℕ → ℕ → ℕ → Option Memory
strcpy_from zero mem dest src i = none
strcpy_from (suc fuel) mem dest src i =
    let copied = update mem (dest + i) (mem (src + i)) in
    let rest = strcpy_from fuel copied dest src (i + 1) in
    if copied (src + i) == 0 then some copied else rest

abbrev pub strcpy : Memory → ℕ → ℕ → Option Memory
strcpy mem dest src = strcpy_from space mem dest src 0

unfoldable pub strcat : Memory → ℕ → ℕ → Option Memory
strcat mem dest src = elim (strlen mem dest) [
  | none ↦ none
  | some len ↦ strcpy_from space mem (dest + len) src 0
]

-- The loop of `strncpy` and `strncat`: the terminator or `count` bytes.
unfoldable pub strncpy_from : ℕ → Memory → ℕ → ℕ → ℕ → Memory
strncpy_from zero mem dest src i = mem
strncpy_from (suc left) mem dest src i =
    let copied = update mem (dest + i) (mem (src + i)) in
    let rest = strncpy_from left copied dest src (i + 1) in
    if copied (src + i) == 0 then copied else rest

abbrev pub strncpy : Memory → ℕ → ℕ → ℕ → Memory
strncpy mem dest src count = strncpy_from count mem dest src 0

unfoldable pub strncat : Memory → ℕ → ℕ → ℕ → Option Memory
strncat mem dest src count = elim (strlen mem dest) [
  | none ↦ none
  | some len ↦ some (strncpy_from count mem (dest + len) src 0)
]

-- `none` is a loop out of fuel.
unfoldable pub strchr_from : ℕ → Memory → ℕ → ℕ → ℕ → Option (Option ℕ)
strchr_from zero mem str ch i = none
strchr_from (suc fuel) mem str ch i =
    let rest = strchr_from fuel mem str ch (i + 1) in
    if mem (str + i) == 0
    then some none
    else if as_int (mem (str + i)) == ch
    then some (some (str + i))
    else rest

abbrev pub strchr : Memory → ℕ → ℕ → Option (Option ℕ)
strchr mem str ch = strchr_from space mem str ch 0

-- The loop of `strrchr`, from index `i` down to 0.
unfoldable pub strrchr_from : ℕ → Memory → ℕ → ℕ → Option ℕ
strrchr_from zero mem str ch = if as_int (mem str) == ch then some str else none
strrchr_from (suc i) mem str ch =
    let rest = strrchr_from i mem str ch in
    if as_int (mem (str + suc i)) == ch then some (str + suc i) else rest

unfoldable pub strrchr : Memory → ℕ → ℕ → Option (Option ℕ)
strrchr mem str ch = elim (strlen mem str) [
  | none ↦ none
  | some len ↦ if len == 0 then some none else some (strrchr_from (len - 1) mem str ch)
]

unfoldable pub strcmp_from : ℕ → Memory → ℕ → ℕ → ℕ → Option ℕ
strcmp_from zero mem lhs rhs i = none
strcmp_from (suc fuel) mem lhs rhs i =
    let rest = strcmp_from fuel mem lhs rhs (i + 1) in
    let ret = diff (mem (lhs + i)) (mem (rhs + i)) in
    if mem (lhs + i) == 0 && mem (rhs + i) == 0 then some 0 else if ret == 0 then rest else some ret

abbrev pub strcmp : Memory → ℕ → ℕ → Option ℕ
strcmp mem lhs rhs = strcmp_from space mem lhs rhs 0

unfoldable pub strncmp_from : ℕ → Memory → ℕ → ℕ → ℕ → ℕ
strncmp_from zero mem lhs rhs i = 0
strncmp_from (suc left) mem lhs rhs i =
    let rest = strncmp_from left mem lhs rhs (i + 1) in
    let ret = diff (mem (lhs + i)) (mem (rhs + i)) in
    if mem (lhs + i) == 0 && mem (rhs + i) == 0 then 0 else if ret == 0 then rest else ret

abbrev pub strncmp : Memory → ℕ → ℕ → ℕ → ℕ
strncmp mem lhs rhs count = strncmp_from count mem lhs rhs 0
