-- ===== src/Libc/Memory/Copy.antt =====
-- `memcpy`, `memmove` and `memset`: every byte of the memory after the call.
use neo_sys_x.Common.{
  ℕ, zero, suc, ◌+◌, ◌-◌, ◌^◌, ◌≤◌, ◌<◌, ◌≡◌, refl, ◌⊎◌, inl, inr, true, false, ◌&&◌, none, some,
  ltb, leb, ◌==◌, if◌then◌else◌, arith, u8, u32, update, Bool-cases, ◌∙◌,
}
use neo_sys_x.Libc.Memory.{Memory, copy_up, copy_down, memcpy, memmove, memset, set_from}

copy_up-at :
    (left : ℕ) (mem : Memory) (dest src i j : ℕ)
    → dest ≤ src ⊎ src + i + left ≤ dest + i
    → copy_up left mem dest src i j
      ≡ (if leb (dest + i) j && ltb j (dest + i + left) then mem (src + (j - dest)) else mem j)
unfolding copy_up
copy_up-at zero mem dest src i j ok = ground arith
copy_up-at (suc left) mem dest src i j ok =
    copy_up-at left (update mem (dest + i) (mem (src + i))) dest src (i + 1) j later
    ∙ elim (Bool-cases (j == dest + i)) [
      | inl here ↦
          (let e : src + (j - dest) ≡ src + i = ground arith in
            let below : leb (dest + (i + 1)) j ≡ false = ground arith in
            let from : leb (dest + i) j ≡ true = ground arith in
            let to : ltb j (dest + i + suc left) ≡ true = ground arith in
            rw (below, here, from, to, e) refl)
      | inr other ↦ ground arith
    ]
  where
    later : dest ≤ src ⊎ src + (i + 1) + left ≤ dest + (i + 1)
    later = ground arith

-- After `memcpy` the destination holds what the source held before, though the two may overlap when
-- the source is the higher one, and no other byte changes; `memmove` to the same or a lower address
-- ends, and leaves the same memory.
pub memcpy-at :
    (fuel : ℕ) (mem : Memory) (dest src count : ℕ)
    → dest ≤ src ⊎ src + count ≤ dest
    → ((j : ℕ)
        → memcpy mem dest src count j
          ≡ (if leb dest j && ltb j (dest + count) then mem (src + (j - dest)) else mem j))
      × (dest ≤ src → memmove fuel mem dest src count ≡ some (memcpy mem dest src count))
unfolding memmove
memcpy-at fuel mem dest src count ok = (
  (λ j. copy_up-at count mem dest src 0 j (ground arith) ∙ ground arith),
  (λ low. let e : ltb src dest ≡ false = ground arith in rw e refl),
)

copy_down-none :
    (fuel : ℕ) (mem : Memory) (dest src i : ℕ)
    → 0 < i
    → i + fuel ≤ 2 ^ 32
    → copy_down fuel mem dest src i ≡ none
unfolding copy_down
copy_down-none zero mem dest src i p h = refl
copy_down-none (suc fuel) mem dest src i p h = elim (Bool-cases (leb fuel 0)) [
  | inl last ↦
      (let z : fuel ≡ 0 = ground arith in
        let away : (i == 0) ≡ false = ground arith in rw (away, z) refl)
  | inr more ↦
      (let away : (i == 0) ≡ false = ground arith in
        let next : u32 (i + 1) ≡ i + 1 = ground arith in
        rw (away, next)
          (copy_down-none fuel (update mem (dest + i) (mem (src + i))) dest src (i + 1)
            (omega arith) (omega arith)))
]

-- To a higher address `memmove` of two bytes or more is still running after each number of rounds up
-- to `2 ^ 32 - count + 1`: it counts up from the last byte, until the index wraps around.
memmove-overruns :
    (fuel : ℕ) (mem : Memory) (dest src count : ℕ)
    → src < dest
    → 2 ≤ count
    → count + fuel ≤ 2 ^ 32 + 1
    → memmove fuel mem dest src count ≡ none
unfolding memmove
memmove-overruns fuel mem dest src count h two room =
    let up : ltb src dest ≡ true = ground arith in
    let some_bytes : (count == 0) ≡ false = ground arith in
    rw (up, some_bytes) (copy_down-none fuel mem dest src (count - 1) (omega arith) (omega arith))

set_from-at :
    (left : ℕ) (mem : Memory) (dest ch i j : ℕ)
    → set_from left mem dest ch i j
      ≡ (if leb (dest + i) j && ltb j (dest + i + left) then u8 ch else mem j)
unfolding set_from
set_from-at zero mem dest ch i j = ground arith
set_from-at (suc left) mem dest ch i j =
    set_from-at left (update mem (dest + i) (u8 ch)) dest ch (i + 1) j ∙ ground arith

-- `memset` writes the low byte of `ch` to each byte of the object, and to no other.
pub memset-at :
    (mem : Memory) (dest ch count j : ℕ)
    → memset mem dest ch count j ≡ (if leb dest j && ltb j (dest + count) then u8 ch else mem j)
memset-at mem dest ch count j = set_from-at count mem dest ch 0 j ∙ ground arith
