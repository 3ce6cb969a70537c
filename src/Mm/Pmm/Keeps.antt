-- ===== src/Mm/Pmm/Keeps.antt =====
-- What `pmm_reserve` leaves as it was, and what several calls of it mark.
use neo_sys_x.Common.{
  ℕ, zero, suc, ◌+◌, ◌-◌, ◌*◌, ◌/◌, ◌%◌, ◌^◌, ◌<◌, ◌≡◌, refl, ◌∙◌, inl, inr, Bool-cases, List, [],
  ◌∷◌, ltb, ◌==◌, update, u32, u64, arith,
}
use neo_sys_x.Common.Bits.{bit-le}
use neo_sys_x.Common.Bitmap.{Bitmap, mark}
use neo_sys_x.Mm.Pmm.{
  Pmm, pmm_levels, frame_size, or_word, fill_words, run_mask, first_count, fill_index, reserve_run,
  reserve_levels, clip, reserve,
}
use neo_sys_x.Mm.Pmm.Mask.{mark-or_word, mark-fill_words}
use neo_sys_x.Mm.Pmm.Levels.{Reserves, reserve-marks}

or_word-keeps :
    (words : Bitmap) (k mask j : ℕ) → mark words j ≡ 1 → mark (or_word words k mask) j ≡ 1
or_word-keeps words k mask j h =
    rw (mark-or_word words k mask j) (ground (arith, bit-le mask (j % 32)))

fill_words-keeps :
    (words : Bitmap) (from count j : ℕ)
    → mark words j ≡ 1
    → mark (fill_words words from count) j ≡ 1
fill_words-keeps words from count j h = rw (mark-fill_words words from count j) (ground arith)

reserve_run-keeps :
    (wide : ℕ) (words : Bitmap) (start count j : ℕ)
    → mark words j ≡ 1
    → mark (reserve_run wide words start count) j ≡ 1
unfolding reserve_run
reserve_run-keeps wide words start count j h =
    let first = first_count start count in
    let fill = (count - first) / 32 in
    let last = count - first - fill * 32 in
    elim (Bool-cases (first == 0)) [
      | inl e ↦
          let two = fill_words-keeps words (fill_index start) fill j h in
          elim (Bool-cases (last == 0)) [
            | inl f ↦ rw (e, f) two
            | inr f ↦
                rw (e, f) (or_word-keeps _ (fill_index start + fill) (run_mask wide last) j two)
          ]
      | inr e ↦
          let one =
            or_word-keeps words (start / 32) (u32 (run_mask wide first * 2 ^ (start % 32))) j h in
          let two = fill_words-keeps _ (fill_index start) fill j one in
          elim (Bool-cases (last == 0)) [
            | inl f ↦ rw (e, f) two
            | inr f ↦
                rw (e, f) (or_word-keeps _ (fill_index start + fill) (run_mask wide last) j two)
          ]
    ]

-- The rounds change no size, and lose no mark.
pub record Keeps (p q : Pmm) : Type 0 where
  pub same_sizes : q.sizes ≡ p.sizes
  pub same_present : q.present ≡ p.present
  pub same_max : q.max_size ≡ p.max_size
  pub marks : (l j : ℕ) → mark (p.words l) j ≡ 1 → mark (q.words l) j ≡ 1

Keeps-self : (p : Pmm) → Keeps p p
Keeps-self p = record {
  same_sizes = refl;
  same_present = refl;
  same_max = refl;
  marks = λ l j h. h;
}

pub Keeps-trans : (p q r : Pmm) → Keeps p q → Keeps q r → Keeps p r
Keeps-trans p q r a b = record {
  same_sizes = b.same_sizes ∙ a.same_sizes;
  same_present = b.same_present ∙ a.same_present;
  same_max = b.same_max ∙ a.same_max;
  marks = λ l j h. b.marks l j (a.marks l j h);
}

update_run-Keeps :
    (wide : ℕ) (p : Pmm) (level start count : ℕ)
    → Keeps p
        (record p { words = update p.words level (reserve_run wide (p.words level) start count) })
update_run-Keeps wide p level start count = record {
  same_sizes = refl;
  same_present = refl;
  same_max = refl;
  marks = λ l j h. elim (Bool-cases (l == level)) [
    | inl e ↦
        let same : l ≡ level = ground arith in
        let g : mark (p.words level) j ≡ 1 = rw (← same) h in
        rw e (reserve_run-keeps wide (p.words level) start count j g)
    | inr e ↦ rw e h
  ];
}

reserve_levels-Keeps :
    (wide left : ℕ) (p : Pmm) (level block addr len : ℕ)
    → Keeps p (reserve_levels wide left p level block addr len)
unfolding reserve_levels
reserve_levels-Keeps wide zero p level block addr len = Keeps-self p
reserve_levels-Keeps wide (suc left) p level block addr len = elim (Bool-cases (p.present level)) [
  | inl e ↦
      let down = addr - addr % block in
      let longer = u64 (len + addr % block) in
      let count = u64 (longer + block - 1) / block in
      let q = record p {
        words = update p.words level (reserve_run wide (p.words level) (down / block) count);
      } in
      rw e (
        Keeps-trans p q _ (update_run-Keeps wide p level (down / block) count)
          (reserve_levels-Keeps wide left q (level + 1) (block * 2) down longer))
  | inr e ↦ rw e (Keeps-self p)
]

pub reserve-Keeps : (wide : ℕ) (p : Pmm) (addr len : ℕ) → Keeps p (reserve wide p addr len)
unfolding reserve
reserve-Keeps wide p addr len = elim (Bool-cases (ltb p.max_size addr)) [
  | inl e ↦ rw e (Keeps-self p)
  | inr e ↦ rw e (reserve_levels-Keeps wide pmm_levels p 0 frame_size addr (clip p addr len))
]

-- Calls of `pmm_reserve`, one after another, each with an address and a length.
unfoldable pub reserve_all : ℕ → Pmm → List (ℕ × ℕ) → Pmm
reserve_all wide p [] = p
reserve_all wide p ((addr, len) ∷ calls) = reserve_all wide (reserve wide p addr len) calls

pub reserve_all-Keeps :
    (wide : ℕ) (p : Pmm) (calls : List (ℕ × ℕ)) → Keeps p (reserve_all wide p calls)
unfolding reserve_all
reserve_all-Keeps wide p [] = Keeps-self p
reserve_all-Keeps wide p ((addr, len) ∷ calls) =
    let q = reserve wide p addr len in
    Keeps-trans p q _ (reserve-Keeps wide p addr len) (reserve_all-Keeps wide q calls)

-- A call of a manager that has the same size and levels.
pub Reserves-Keeps :
    (wide : ℕ) (p q : Pmm) (addr len : ℕ)
    → Keeps p q
    → Reserves wide p addr len
    → Reserves wide q addr len
Reserves-Keeps wide p q addr len k r = record {
  inside = rw k.same_max r.inside;
  no_wrap = r.no_wrap;
  memory = rw k.same_max r.memory;
  all_levels = λ l h. rw k.same_present (r.all_levels l h);
  shifts = rw k.same_max r.shifts;
}

-- `(addr, len)` is one of the calls.
pub data Among : ℕ → ℕ → List (ℕ × ℕ) → Type 0 where
  first : {addr len : ℕ} {calls : List (ℕ × ℕ)} → Among addr len ((addr, len) ∷ calls)
  later :
      {addr len a n : ℕ} {calls : List (ℕ × ℕ)}
      → Among addr len calls
      → Among addr len ((a, n) ∷ calls)

pub reserve_all-marks :
    (wide : ℕ) (p : Pmm) (calls : List (ℕ × ℕ)) (addr len k j : ℕ)
    → Among addr len calls
    → Reserves wide p addr len
    → k < pmm_levels
    → addr < (j + 1) * (frame_size * 2 ^ k)
    → j * (frame_size * 2 ^ k) < addr + len
    → j * (frame_size * 2 ^ k) < p.max_size
    → mark ((reserve_all wide p calls).words k) j ≡ 1
unfolding reserve_all
reserve_all-marks wide p [] addr len k j among r level from to end = elim among [ ]
reserve_all-marks wide p ((a, n) ∷ calls) addr len k j first r level from to end =
    (reserve_all-Keeps wide (reserve wide p a n) calls).marks k j
      (reserve-marks wide p a n k j r level from to end)
reserve_all-marks wide p ((a, n) ∷ calls) addr len k j (later among) r level from to end =
    let q = reserve wide p a n in
    let keeps = reserve-Keeps wide p a n in
    reserve_all-marks wide q calls addr len k j among (Reserves-Keeps wide p q addr len keeps r)
      level from to (rw keeps.same_max end)
