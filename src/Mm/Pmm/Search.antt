-- ===== src/Mm/Pmm/Search.antt =====
-- The search of `pmm_alloc` in one level's bitmap: what it finds and what it overlooks.
use neo_sys_x.Common.{
  ℕ, zero, suc, ◌+◌, ◌-◌, ◌*◌, ◌/◌, ◌%◌, ◌^◌, ◌≤◌, ◌<◌, ◌≡◌, refl, ap, ◌≢◌, inl, inr, true, false,
  ltb, leb, ◌==◌, if◌then◌else◌, arith, Bool-cases, bit_and, Option, none, some,
}
use neo_sys_x.Common.Bits.{bit, bit_ones}
use neo_sys_x.Common.Bitmap.{Bitmap, mark, bit_and_pow-eq-zero}
use neo_sys_x.Mm.Pmm.{skip_full, search_level}

-- `count` clear bits from `start` on.
abbrev pub AllClear : Bitmap → ℕ → ℕ → Type 0
AllClear words start count = (j : ℕ) → start ≤ j → j < start + count → mark words j ≡ 0

-- What a search from `from` on is to find: a run of `req` clear bits inside the bitmap, or none.
abbrev pub Finds : Bitmap → ℕ → ℕ → ℕ → Option ℕ → Type 0
Finds words total req from (some s) = (from ≤ s) × (s + req ≤ total) × AllClear words s req
Finds words total req from none = (s : ℕ) → from ≤ s → s + req ≤ total → AllClear words s req → ⊥

-- No word of the bitmap is full.
abbrev pub NoFullWord : Bitmap → ℕ → Type 0
NoFullWord words total = (w : ℕ) → w * 32 < total → words w ≢ 2 ^ 32 - 1

skip_full-stays :
    (fuel : ℕ) (words : Bitmap) (total w b : ℕ)
    → words w ≢ 2 ^ 32 - 1
    → skip_full fuel words total w b ≡ (w, b)
unfolding skip_full
skip_full-stays zero words total w b h = refl
skip_full-stays (suc fuel) words total w b h =
    let e : (words w == 2 ^ 32 - 1) ≡ false = ground arith in rw e

module _ (words : Bitmap) (total req : ℕ) (some_req : 0 < req)
    (no_full : NoFullWord words total) where
  Finds-later :
      (from from' : ℕ) (r : Option ℕ)
      → from ≤ from'
      → ((s : ℕ) → from ≤ s → s < from' → s + req ≤ total → AllClear words s req → ⊥)
      → Finds words total req from' r
      → Finds words total req from r
  Finds-later from from' (some x) h gap (a, b, c) = (omega arith, b, c)
  Finds-later from from' none h gap f = λ s p q c. elim (Bool-cases (ltb s from')) [
    | inl early ↦ gap s p (ground arith) q c
    | inr late ↦ f s (ground arith) q c
  ]

  abbrev next : ℕ → ℕ → ℕ → ℕ → ℕ → Option ℕ
  next fuel w b c i = search_level fuel words total req (b + 1) w (i + 1) c

  abbrev looked : ℕ → ℕ → ℕ → ℕ → ℕ → Option ℕ
  looked fuel clear w b i =
      if bit_and (words w) (2 ^ i) == 0
      then (if clear + 1 == req then some (b + 1 - (clear + 1)) else next fuel w b (clear + 1) i)
      else next fuel w b 0 i

  -- Where the search stands: bit `i` of word `w`, behind a run of `clear` clear bits.
  record At (w b i clear : ℕ) : Type 0 where
    place : b ≡ 32 * w + i
    run : clear ≤ b
    short : clear < req
    free : AllClear words (b - clear) clear

  looked-Finds :
      (fuel w b i clear : ℕ)
      → i < 32
      → b < total
      → At w b i clear
      → ((c : ℕ) → At w (b + 1) (i + 1) c → Finds words total req (b + 1 - c) (next fuel w b c i))
      → Finds words total req (b - clear) (looked fuel clear w b i)
  looked-Finds fuel w b i clear hi hb at rec =
      rw (bit_and_pow-eq-zero (words w) i) (elim (Bool-cases (bit (words w) i == 0)) [
        | inl zero_bit ↦
            (let here : mark words b ≡ 0 = rw (word, place) (ground arith) in
              let longer : AllClear words (b - clear) (clear + 1) = λ j p q.
                elim (Bool-cases (j == b)) [
                  | inl last ↦ (let e : j ≡ b = ground arith in rw e here)
                  | inr inner ↦ at.free j p (ground (arith, at.run))
                ] in
              let same : b + 1 - (clear + 1) ≡ b - clear = omega arith in
              rw zero_bit (elim (Bool-cases (clear + 1 == req)) [
                | inl enough ↦
                    (let e : req ≡ clear + 1 = ground arith in
                      rw enough (rw (e, same) (omega arith, omega (arith, at.run), longer)))
                | inr more ↦ rw more (
                    rw (← same) (
                      rec (clear + 1) (record {
                        place = omega (arith, at.place);
                        run = omega (arith, at.run);
                        short = ground (arith, at.short);
                        free = rw same longer;
                      })))
              ]))
        | inr one_bit ↦ rw one_bit (
            Finds-later (b - clear) (b + 1 - 0) (next fuel w b 0 i) (omega arith)
              (λ s p q r c. stops one_bit (c b (omega arith) (omega (arith, at.run, at.short))))
              (rec 0 (record {
                place = omega (arith, at.place);
                run = omega arith;
                short = some_req;
                free = λ j p q. absurd (omega arith);
              })))
      ])
    where
      word : b / 32 ≡ w
      word = omega (arith, at.place)

      place : b % 32 ≡ i
      place = omega (arith, at.place)

      stops : (bit (words w) i == 0) ≡ false → mark words b ≡ 0 → ⊥
      stops e m = ground (arith, word, place)

  step :
      (fuel w b i clear : ℕ)
      → b < total
      → At w b i clear
      → search_level (suc fuel) words total req b w i clear
        ≡ (if i == 32 then looked fuel clear (w + 1) b 0 else looked fuel clear w b i)
  unfolding search_level
  step fuel w b i clear hb at =
      let inside : leb total b ≡ false = ground arith in
      rw inside (elim (Bool-cases (i == 32)) [
        | inl ended ↦ rw (
          ended,
          skip_full-stays (total / 32 + 1) words total (w + 1) b
              (no_full (w + 1) (ground (arith, at.place))),
          inside,
        )
        | inr going ↦ rw going (elim (Bool-cases (i == 0)) [
          | inl start ↦
              (let e : i ≡ 0 = ground arith in
                rw start (
                  rw
                    (skip_full-stays (total / 32 + 1) words total w b
                      (no_full w (omega (arith, at.place))))
                    (rw (inside, e))))
          | inr within ↦ rw within
        ])
      ])

  past_end :
      (fuel w b i clear : ℕ)
      → total ≤ b
      → At w b i clear
      → Finds words total req (b - clear) (search_level fuel words total req b w i clear)
  unfolding search_level
  past_end zero w b i clear h at = λ s p q c. absurd (omega (arith, at.short, at.run))
  past_end (suc fuel) w b i clear h at =
      let out : leb total b ≡ true = ground arith in
      rw out (λ s p q c. absurd (omega (arith, at.short, at.run)))

  search_level-Finds :
      (fuel w b i clear : ℕ)
      → total < fuel + b
      → i ≤ 32
      → At w b i clear
      → Finds words total req (b - clear) (search_level fuel words total req b w i clear)
  search_level-Finds zero w b i clear f hi at = past_end zero w b i clear (omega arith) at
  search_level-Finds (suc fuel) w b i clear f hi at = elim (Bool-cases (leb total b)) [
    | inl out ↦ past_end (suc fuel) w b i clear (ground arith) at
    | inr inside ↦ rw (step fuel w b i clear (ground arith) at) (elim (Bool-cases (i == 32)) [
      | inl ended ↦ rw ended (
          looked-Finds fuel (w + 1) b 0 clear (omega arith) (ground arith)
            (record {
              place = ground (arith, at.place);
              run = at.run;
              short = at.short;
              free = at.free;
            })
            (λ c at'.
              search_level-Finds fuel (w + 1) (b + 1) (0 + 1) c (omega arith) (omega arith) at'))
      | inr going ↦ rw going (
          looked-Finds fuel w b i clear (ground arith) (ground arith) at
            (λ c at'. search_level-Finds fuel w (b + 1) (i + 1) c (omega arith) (ground arith) at'))
    ])
  ]

  -- In a bitmap with no full word, the search of `pmm_alloc` for `req` bits, at least one, finds a
  -- run of that many clear bits inside the bitmap, and it finds none only where there is none.
  pub search-Finds : Finds words total req 0 (search_level (total + 1) words total req 0 0 0 0)
  search-Finds = search_level-Finds (total + 1) 0 0 0 0 (omega arith) (omega arith) (record {
    place = refl;
    run = omega arith;
    short = some_req;
    free = λ j p q. absurd (omega arith);
  })

skip_one :
    (fuel : ℕ) (words : Bitmap) (total w b : ℕ)
    → words w ≡ 2 ^ 32 - 1
    → words (w + 1) ≢ 2 ^ 32 - 1
    → b + 32 < total
    → skip_full (fuel + 1) words total w b ≡ (w + 1, b + 32)
unfolding skip_full
skip_one fuel words total w b full other inside =
    let e : fuel + 1 ≡ suc fuel = omega arith in
    let f : (words w == 2 ^ 32 - 1) ≡ true = ground arith in
    let g : leb total (b + 32) ≡ false = ground arith in
    rw e (rw (f, g) (skip_full-stays fuel words total (w + 1) (b + 32) other))

-- Skipping a full word does not end the run before it. At the end of word `w`, with `clear` clear
-- bits behind it, a full word next and a clear bit after that, the search takes these bits for a
-- run of `clear + 1`: what it returns has the last bit of the full word in it, which is taken.
pub search_over_full_word :
    (words : Bitmap) (total fuel w clear : ℕ)
    → 0 < clear
    → clear ≤ 32
    → 32 * w + 64 < total
    → words (w + 1) ≡ 2 ^ 32 - 1
    → bit (words (w + 1 + 1)) 0 ≡ 0
    → let start = 32 * w + 64 - clear in
      (search_level (suc fuel) words total (clear + 1) (32 * w + 32) w 32 clear ≡ some start)
      × (start ≤ 32 * w + 63)
      × (32 * w + 63 < start + (clear + 1))
      × (mark words (32 * w + 63) ≡ 1)
unfolding search_level
search_over_full_word words total fuel w clear c c' inside full free =
    (found, omega arith, omega arith, taken)
  where
    not_full : words (w + 1 + 1) ≢ 2 ^ 32 - 1
    not_full e = ground (arith, bit_ones 32 0 (omega arith))

    word : (32 * w + 63) / 32 ≡ w + 1
    word = omega arith

    place : (32 * w + 63) % 32 ≡ 31
    place = omega arith

    taken : mark words (32 * w + 63) ≡ 1
    taken = rw (word, place, full) (bit_ones 32 31 (omega arith))

    found :
        search_level (suc fuel) words total (clear + 1) (32 * w + 32) w 32 clear
        ≡ some (32 * w + 64 - clear)
    found =
        let a : leb total (32 * w + 32) ≡ false = ground arith in
        let b : leb total (32 * w + 32 + 32) ≡ false = ground arith in
        let d : (clear + 1 == clear + 1) ≡ true = ground arith in
        let e : (bit (words (w + 1 + 1)) 0 == 0) ≡ true = ground arith in
        rw a (
          rw (skip_one (total / 32) words total (w + 1) (32 * w + 32) full not_full (omega arith))
            (rw (b, bit_and_pow-eq-zero (words (w + 1 + 1)) 0, e, d) (ap some (omega arith))))
