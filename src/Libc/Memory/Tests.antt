-- ===== src/Libc/Memory/Tests.antt =====
-- Memory and strings on a concrete memory.
use neo_sys_x.Common.{
  ℕ, ◌+◌, ◌-◌, ◌≤◌, ◌<◌, ◌≡◌, refl, inl, inr, ◌&&◌, some, ltb, leb, ◌==◌, if◌then◌else◌, arith,
}
use neo_sys_x.Libc.Memory.{Memory, IsBytes, memcpy, memmove, strcat}
use neo_sys_x.Libc.Memory.Copy.{memcpy-at}
use neo_sys_x.Libc.Memory.Text.{IsString}
use neo_sys_x.Libc.Memory.Join.{strcat-IsString}

-- "aba" at 10, "ab" at 20, and zeros elsewhere.
abbrev memory : Memory
memory a =
    if a == 10
    then b'a'
    else if a == 11
    then b'b'
    else if a == 12
    then b'a'
    else if a == 20
    then b'a'
    else if a == 21
    then b'b'
    else 0

memory-IsBytes : IsBytes memory
memory-IsBytes a = ground arith

first-IsString : IsString memory 10 3
first-IsString = record { ends = refl; chars = λ k h. ground arith }

second-IsString : IsString memory 20 2
second-IsString = record { ends = refl; chars = λ k h. ground arith }

-- To a lower address, with an overlap of one byte.
memcpy-at_example :
    ((j : ℕ)
      → memcpy memory 19 20 2 j
        ≡ (if leb 19 j && ltb j (19 + 2) then memory (20 + (j - 19)) else memory j))
    × (19 ≤ 20 → memmove 0 memory 19 20 2 ≡ some (memcpy memory 19 20 2))
memcpy-at_example = memcpy-at 0 memory 19 20 2 (inl (omega arith))

strcat-IsString_example :
    (after : Memory) × (strcat memory 20 10 ≡ some after)
    × IsString after 20 (2 + 3)
    × ((k : ℕ) → k < 2 → after (20 + k) ≡ memory (20 + k))
    × ((k : ℕ) → k ≤ 3 → after (20 + 2 + k) ≡ memory (10 + k))
strcat-IsString_example =
    strcat-IsString memory 20 10 2 3 second-IsString first-IsString (omega arith) (omega arith)
      (inr (omega arith))
