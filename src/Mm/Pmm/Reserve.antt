-- ===== src/Mm/Pmm/Reserve.antt =====
-- One round of `pmm_reserve`: which bits the three writes set.
use neo_sys_x.Common.{
  ℕ, ◌+◌, ◌-◌, ◌*◌, ◌/◌, ◌%◌, ◌^◌, ◌<◌, ◌≡◌, refl, inl, inr, Bool, false, ◌&&◌, ◌||◌, ltb, leb,
  ◌==◌, if◌then◌else◌, arith, Bool-cases, u32, min, ◌∙◌,
}
use neo_sys_x.Common.Bits.{bit-le}
use neo_sys_x.Common.Bitmap.{Bitmap, mark}
use neo_sys_x.Mm.Pmm.{first_count, fill_index, run_mask, or_word, fill_words, reserve_run}
use neo_sys_x.Mm.Pmm.Mask.{ShiftOk, bit-run_mask, bit_first_mask, mark-or_word, mark-fill_words}

-- Either the shift by 32 gives 0, or neither partial word of the run asks for it.
abbrev pub RunOk : ℕ → ℕ → ℕ → Type 0
RunOk wide start count =
    ShiftOk wide (first_count start count) × ShiftOk wide ((count - first_count start count) % 32)

-- The bits that a round sets: the run, and the one behind it unless that begins a word.
abbrev pub covers : ℕ → ℕ → ℕ → Bool
covers start count j =
    (leb start j && ltb j (start + count))
    || (j == start + count && (ltb 0 count && ltb 0 ((start + count) % 32)))

-- The three writes together, in numbers: `(q, r)` and `(p, s)` are the word and bit of the start and
-- of an item `j`, `x` is what the item had, and `tail` is the bit behind the run.
module _ (start q r j p s count x tail : ℕ) (hs : s < 32) (es : start ≡ 32 * q + r)
    (ej : j ≡ 32 * p + s) where
  abbrev in_run : Bool
  in_run =
      (leb start j && ltb j (start + count)) || (j == start + count && (ltb 0 count && ltb 0 tail))

  -- The run starts with a word.
  aligned_run :
      (fill last : ℕ)
      → r ≡ 0
      → last < 32
      → count ≡ 32 * fill + last
      → tail ≡ last
      → (if ltb 0 last && (p == q + fill && leb s last)
          then 1
          else (if leb q p && ltb p (q + fill) then 1 else x))
        ≡ (if in_run then 1 else x)
  aligned_run fill last e h c t = ground arith

  -- The run starts inside a word and fills it.
  filling_run :
      (first fill last : ℕ)
      → 0 < r
      → r < 32
      → last < 32
      → first ≡ 32 - r
      → count ≡ first + 32 * fill + last
      → tail ≡ last
      → (if ltb 0 last && (p == q + 1 + fill && leb s last)
          then 1
          else (if leb (q + 1) p && ltb p (q + 1 + fill)
              then 1
              else (if ltb 0 first && (p == q && (leb start j && leb j (start + first)))
                  then 1
                  else x)))
        ≡ (if in_run then 1 else x)
  filling_run first fill last e h l f c t = elim (Bool-cases (p == q)) [
    | inl here ↦
        (let up : leb (q + 1) p ≡ false = ground arith in
          let not_last : (p == q + 1 + fill) ≡ false = ground arith in
          rw (here, up, not_last) (ground arith))
    | inr away ↦ rw away (ground arith)
  ]

  -- The run stays inside its first word.
  inner_run :
      (fill last : ℕ)
      → 0 < r
      → r + count < 32
      → fill ≡ 0
      → last ≡ 0
      → tail ≡ r + count
      → (if ltb 0 last && (p == q + 1 + fill && leb s last)
          then 1
          else (if leb (q + 1) p && ltb p (q + 1 + fill)
              then 1
              else (if ltb 0 count && (p == q && (leb start j && leb j (start + count)))
                  then 1
                  else x)))
        ≡ (if in_run then 1 else x)
  inner_run fill last e c f l t = ground arith

module _ (wide : ℕ) (words : Bitmap) (start count : ℕ) (ok : RunOk wide start count) where
  abbrev first : ℕ
  first = first_count start count

  abbrev fill : ℕ
  fill = (count - first) / 32

  abbrev last : ℕ
  last = count - first - fill * 32

  abbrev one : Bitmap
  one =
      if first == 0
      then words
      else or_word words (start / 32) (u32 (run_mask wide first * 2 ^ (start % 32)))

  mark-one :
      (j : ℕ)
      → mark one j ≡ (
          if ltb 0 first && (j / 32 == start / 32 && (leb start j && leb j (start + first)))
          then 1
          else mark words j)
  mark-one j = elim (Bool-cases (first == 0)) [
    | inl none_first ↦ rw none_first (ground arith)
    | inr some_first ↦
        rw
          (
            some_first,
            mark-or_word words (start / 32) (u32 (run_mask wide first * 2 ^ (start % 32))) j,
          )
          (ground (
            arith,
            bit_first_mask wide first (start % 32) (j % 32) (ground arith) ok.0 (omega arith),
            bit-le (words (j / 32)) (j % 32),
          ))
  ]

  abbrev two : Bitmap
  two = fill_words one (fill_index start) fill

  last_ok : ShiftOk wide last
  last_ok = elim ok.1 [ inl z ↦ inl z | inr n ↦ inr (omega arith) ]

  mark-three :
      (j : ℕ)
      → mark (reserve_run wide words start count) j ≡ (
          if ltb 0 last && (j / 32 == fill_index start + fill && leb (j % 32) last)
          then 1
          else mark two j)
  unfolding reserve_run
  mark-three j = elim (Bool-cases (last == 0)) [
    | inl none_last ↦ rw none_last (ground arith)
    | inr some_last ↦
        rw (some_last, mark-or_word two (fill_index start + fill) (run_mask wide last) j)
          (ground (
            arith,
            bit-run_mask wide last (j % 32) (ground arith) last_ok,
            bit-le (two (j / 32)) (j % 32),
          ))
  ]

  -- The three writes set what `covers` says.
  covers_all :
      (j x : ℕ)
      → (if ltb 0 last && (j / 32 == fill_index start + fill && leb (j % 32) last)
          then 1
          else (if leb (fill_index start) (j / 32) && ltb (j / 32) (fill_index start + fill)
              then 1
              else (if ltb 0 first
                    && (j / 32 == start / 32 && (leb start j && leb j (start + first)))
                  then 1
                  else x)))
        ≡ (if covers start count j then 1 else x)
  covers_all j x = elim (Bool-cases (start % 32 == 0)) [
    | inl at_word ↦ rw at_word (
        aligned_run start (start / 32) (start % 32) j (j / 32) (j % 32) count x
          ((start + count) % 32) (omega arith) (omega arith) (omega arith) ((count - 0) / 32)
          (count - 0 - (count - 0) / 32 * 32) (ground arith) (omega arith) (omega arith)
          (ground arith))
    | inr inside ↦ rw inside (elim (Bool-cases (leb (32 - start % 32) count)) [
      | inl fills ↦
          (let e : min (32 - start % 32) count ≡ 32 - start % 32 = ground arith in
            rw e (
              filling_run start (start / 32) (start % 32) j (j / 32) (j % 32) count x
                ((start + count) % 32) (omega arith) (omega arith) (omega arith) (32 - start % 32)
                ((count - (32 - start % 32)) / 32)
                (count - (32 - start % 32) - (count - (32 - start % 32)) / 32 * 32) (ground arith)
                (omega arith) (omega arith) refl (ground arith) (ground arith)))
      | inr short ↦
          (let e : min (32 - start % 32) count ≡ count = ground arith in
            rw e (
              inner_run start (start / 32) (start % 32) j (j / 32) (j % 32) count x
                ((start + count) % 32) (omega arith) (omega arith) (omega arith)
                ((count - count) / 32) (count - count - (count - count) / 32 * 32) (ground arith)
                (ground arith) (omega arith) (omega arith) (ground arith)))
    ])
  ]

  -- One round of `pmm_reserve` marks, in addition to what was marked, the blocks of its run and
  -- also the one behind the run unless that begins a word, and no other. The round does not ask
  -- for a shift by 32, or that shift gives 0.
  pub mark-reserve_run :
      (j : ℕ)
      → mark (reserve_run wide words start count) j
        ≡ (if covers start count j then 1 else mark words j)
  mark-reserve_run j =
      mark-three j
      ∙ rw (mark-fill_words one (fill_index start) fill j, mark-one j) (covers_all j (mark words j))
