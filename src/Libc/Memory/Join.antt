-- ===== src/Libc/Memory/Join.antt =====
-- `strcpy`, `strncpy`, `strcat` and `strncat`: every byte of the memory after the call.
use neo_sys_x.Common.{
  ℕ, zero, suc, ◌+◌, ◌-◌, ◌^◌, ◌≤◌, ◌<◌, ◌≡◌, refl, ◌⊎◌, inl, inr, true, false, ◌&&◌, some, ltb,
  leb, ◌==◌, if◌then◌else◌, arith, Bool-cases, ◌∙◌, min, update,
}
use neo_sys_x.Libc.Memory.{Memory, space, strcpy, strcpy_from, strncpy, strncpy_from, strcat}
use neo_sys_x.Libc.Memory.Text.{IsString, strlen-IsString}

-- Two objects, from `a` with `m` bytes and from `b` with `n`.
abbrev pub Apart : ℕ → ℕ → ℕ → ℕ → Type 0
Apart a m b n = a + m ≤ b ⊎ b + n ≤ a

-- What a copy of `count` bytes makes of the memory.
abbrev pub copied_at : Memory → ℕ → ℕ → ℕ → ℕ → ℕ
copied_at mem dest src count j =
    if leb dest j && ltb j (dest + count) then mem (src + (j - dest)) else mem j

update-IsString :
    (mem : Memory) (str n a v : ℕ)
    → a < str ⊎ str + n < a
    → IsString mem str n
    → IsString (update mem a v) str n
update-IsString mem str n a v out s = record {
  ends = ground (arith, s.ends);
  chars = λ k h. ground (arith, s.chars k);
}

-- One step of a copy: the byte at index `i`, and the rest of it.
copy_step :
    (mem : Memory) (dest src i end j : ℕ)
    → Apart dest end src end
    → i < end
    → (if leb (dest + (i + 1)) j && ltb j (dest + end)
        then update mem (dest + i) (mem (src + i)) (src + (j - dest))
        else update mem (dest + i) (mem (src + i)) j)
      ≡ (if leb (dest + i) j && ltb j (dest + end) then mem (src + (j - dest)) else mem j)
copy_step mem dest src i end j apart h = elim (Bool-cases (j == dest + i)) [
  | inl here ↦
      (let e : src + (j - dest) ≡ src + i = ground arith in
        let below : leb (dest + (i + 1)) j ≡ false = ground arith in
        let from : leb (dest + i) j ≡ true = ground arith in
        let to : ltb j (dest + end) ≡ true = ground arith in rw (below, here, from, to, e) refl)
  | inr other ↦ ground arith
]

strcpy_from-at :
    (fuel : ℕ) (mem : Memory) (dest src n i : ℕ)
    → IsString mem src n
    → Apart dest (n + 1) src (n + 1)
    → i ≤ n
    → n < fuel + i
    → (after : Memory) × (strcpy_from fuel mem dest src i ≡ some after)
      × ((j : ℕ)
          → after j ≡ (
              if leb (dest + i) j && ltb j (dest + (n + 1)) then mem (src + (j - dest)) else mem j))
unfolding strcpy_from
strcpy_from-at zero mem dest src n i s apart h f = absurd (omega arith)
strcpy_from-at (suc fuel) mem dest src n i s apart h f =
    let copied = update mem (dest + i) (mem (src + i)) in
    let s' : IsString copied src n =
      update-IsString mem src n (dest + i) (mem (src + i)) (ground arith) s in
    elim (Bool-cases (i == n)) [
      | inl last ↦
          (let e : i ≡ n = ground arith in
            let ended : (copied (src + i) == 0) ≡ true = rw e (
              ground (
                arith,
                (update-IsString mem src n (dest + n) (mem (src + n)) (ground arith) s).ends,
              )) in
            rw ended (
              copied,
              refl,
              λ j. (ground arith ∙ copy_step mem dest src i (n + 1) j apart (omega arith)),
            ))
      | inr more ↦
          (let going : (copied (src + i) == 0) ≡ false = ground (arith, s'.chars i) in
            let (after, e, at) =
              strcpy_from-at fuel copied dest src n (i + 1) s' apart (ground arith) (omega arith) in
            rw going (after, e, λ j. at j ∙ copy_step mem dest src i (n + 1) j apart (omega arith)))
    ]

-- `strcpy` of a string shorter than 2^32 to a place apart from it ends, with the string and its
-- terminator copied and no other byte changed.
pub strcpy-at :
    (mem : Memory) (dest src n : ℕ)
    → IsString mem src n
    → n < 2 ^ 32
    → Apart dest (n + 1) src (n + 1)
    → (after : Memory) × (strcpy mem dest src ≡ some after)
      × ((j : ℕ) → after j ≡ copied_at mem dest src (n + 1) j)
strcpy-at mem dest src n s h apart =
    let (after, e, at) =
      strcpy_from-at space mem dest src n 0 s apart (omega arith) (omega arith) in
    let z : dest + 0 ≡ dest = omega arith in (after, e, λ j. at j ∙ rw z refl)

-- `strcat` of a string to another, both shorter than 2^32, with room behind that one and apart
-- from it, ends. The destination is then one string: its own characters, those of the source, and
-- the terminator.
pub strcat-IsString :
    (mem : Memory) (dest src m n : ℕ)
    → IsString mem dest m
    → IsString mem src n
    → m < 2 ^ 32
    → n < 2 ^ 32
    → Apart dest (m + n + 1) src (n + 1)
    → (after : Memory) × (strcat mem dest src ≡ some after)
      × IsString after dest (m + n)
      × ((k : ℕ) → k < m → after (dest + k) ≡ mem (dest + k))
      × ((k : ℕ) → k ≤ n → after (dest + m + k) ≡ mem (src + k))
unfolding strcat
strcat-IsString mem dest src m n d s hm hn apart =
    let (after, e, at) = strcpy-at mem (dest + m) src n s hn (ground arith) in
    let own : (k : ℕ) → k < m → after (dest + k) ≡ mem (dest + k) =
      λ k h. at (dest + k) ∙ ground arith in
    let source : (k : ℕ) → k ≤ n → after (dest + m + k) ≡ mem (src + k) =
      λ k h. at (dest + m + k) ∙ joined k h in
    (
      after,
      rw ((strlen-IsString mem dest m 0 d hm).0, strcat) e,
      record {
        ends = rw (sum n) (source n (omega arith) ∙ s.ends);
        chars = λ k h. elim (Bool-cases (ltb k m)) [
          | inl first ↦ rw (own k (ground arith)) (d.chars k (ground arith))
          | inr second ↦
              (let k' : m + (k - m) ≡ k = ground arith in
                let e : dest + k ≡ dest + m + (k - m) = omega (arith, k') in
                rw e (rw (source (k - m) (ground arith)) (s.chars (k - m) (ground arith))))
        ];
      },
      own,
      source,
    )
  where
    sum : (k : ℕ) → dest + (m + k) ≡ dest + m + k
    sum k = omega arith

    joined : (k : ℕ) → k ≤ n → copied_at mem (dest + m) src (n + 1) (dest + m + k) ≡ mem (src + k)
    joined k h =
        let i : dest + m + k - (dest + m) ≡ k = omega arith in
        let from : leb (dest + m) (dest + m + k) ≡ true = ground arith in
        let to : ltb (dest + m + k) (dest + m + (n + 1)) ≡ true = ground arith in
        rw (from, to, i) refl

strncpy_from-at :
    (left : ℕ) (mem : Memory) (dest src n i j : ℕ)
    → IsString mem src n
    → Apart dest (n + 1) src (n + 1)
    → i ≤ n
    → strncpy_from left mem dest src i j ≡ (
        if leb (dest + i) j && ltb j (dest + min (i + left) (n + 1))
        then mem (src + (j - dest))
        else mem j)
unfolding strncpy_from
strncpy_from-at zero mem dest src n i j s apart h = ground arith
strncpy_from-at (suc left) mem dest src n i j s apart h =
    let copied = update mem (dest + i) (mem (src + i)) in
    let s' : IsString copied src n =
      update-IsString mem src n (dest + i) (mem (src + i)) (ground arith) s in
    let upto : min (i + 1 + left) (n + 1) ≡ min (i + suc left) (n + 1) = omega arith in
    elim (Bool-cases (i == n)) [
      | inl last ↦
          (let e : i ≡ n = ground arith in
            let ended : (copied (src + i) == 0) ≡ true = rw e (
              ground (
                arith,
                (update-IsString mem src n (dest + n) (mem (src + n)) (ground arith) s).ends,
              )) in
            let end : min (i + suc left) (n + 1) ≡ n + 1 = omega arith in
            rw (ended, end) (ground arith ∙ copy_step mem dest src i (n + 1) j apart (omega arith)))
      | inr more ↦
          (let going : (copied (src + i) == 0) ≡ false = ground (arith, s'.chars i) in
            rw going (
              strncpy_from-at left copied dest src n (i + 1) j s' apart (ground arith)
              ∙ rw upto (
                  copy_step mem dest src i (min (i + suc left) (n + 1)) j (ground arith)
                    (ground arith))))
    ]

-- `strncpy` of a string to a place apart from it copies at most `count` bytes: it adds no
-- terminator where `count` cuts the string off, and where the string is shorter it leaves the
-- bytes behind it alone.
pub strncpy-at :
    (mem : Memory) (dest src n count j : ℕ)
    → IsString mem src n
    → Apart dest (n + 1) src (n + 1)
    → strncpy mem dest src count j ≡ copied_at mem dest src (min count (n + 1)) j
strncpy-at mem dest src n count j s apart =
    let z : dest + 0 ≡ dest = omega arith in
    let y : 0 + count ≡ count = omega arith in
    strncpy_from-at count mem dest src n 0 j s apart (omega arith) ∙ rw (z, y) refl
