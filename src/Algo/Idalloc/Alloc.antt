-- ===== src/Algo/Idalloc/Alloc.antt =====
-- `idalloc_alloc` and `idalloc_free`: which id is handed out, and what the bitmap says afterwards.
use neo_sys_x.Common.{
  ℕ, ◌+◌, ◌*◌, ◌/◌, ◌%◌, ◌^◌, ◌≤◌, ◌<◌, ◌≡◌, refl, ◌≢◌, Bool, true, false, Option, none, some, ltb,
  leb, ◌==◌, if◌then◌else◌, arith, Bool-cases, Option-cases, ◌⊎◌, inl, inr, u32, size_max,
}
use neo_sys_x.Common.Bits.{bit-le, bit-zero}
use neo_sys_x.Common.Bitmap.{
  Bitmap, mark, set_bit, mark-set_bit, mark-clear_bit, set_bit-IsWords, clear_bit-IsWords,
}
use neo_sys_x.Algo.Idalloc.{
  Idalloc, Scan, found, ended, out_of_fuel, scan, scan_fuel, expand, wanted_size, align_up,
  increment, alloc_deep, alloc, free,
}
use neo_sys_x.Algo.Idalloc.Wf.{IsWf, IsHeap, used, AllUsed, Scanned, scan-Scanned}

-- What a successful call did: `id` is the first free one from `next_to_allocate` on, it alone
-- becomes taken, and the next call starts behind it.
pub record Took (base : Idalloc) (id : ℕ) (after : Idalloc) : Type 0 where
  pub from_next : base.next_to_allocate ≤ id
  pub was_free : used base id ≡ 0
  pub first : AllUsed base base.next_to_allocate id
  pub marks : (j : ℕ) → used after j ≡ (if j == id then 1 else used base j)
  pub next : after.next_to_allocate ≡ id + 1
  pub wf : IsWf after

-- What a failed call did: nothing, and the bitmap has no free id from `next_to_allocate` on.
pub record Exhausted (base : Idalloc) (id : ℕ) (after : Idalloc) : Type 0 where
  pub no_id : id ≡ size_max
  pub kept : after ≡ base
  pub full : (j : ℕ) → base.next_to_allocate ≤ j → j / 32 * 4 < base.size → used base j ≡ 1

abbrev taking : Idalloc → ℕ → Idalloc
taking base id = record base { bitmap = set_bit base.bitmap id; next_to_allocate = u32 (id + 1) }

module _ {base : Idalloc} (wf : IsWf base) where
  taking-Took :
      (id : ℕ)
      → base.next_to_allocate ≤ id
      → id / 32 * 4 < base.size
      → mark base.bitmap id ≢ 1
      → AllUsed base base.next_to_allocate id
      → Took base id (taking base id)
  taking-Took id a b c all = record {
    from_next = a;
    was_free = ground (arith, bit-le (base.bitmap (id / 32)) (id % 32));
    first = all;
    marks = λ j. ground (arith, mark-set_bit base.bitmap id j);
    next = ground (arith, wf.bounded);
    wf = record {
      words = set_bit-IsWords base.bitmap id wf.words;
      whole = wf.whole;
      bounded = wf.bounded;
      next_bounded = ground (arith, wf.bounded, wf.whole);
    };
  }

  pub free-IsWf : (id : ℕ) → IsWf (free base id)
  unfolding free
  free-IsWf id = elim (Bool-cases (leb base.size (id / 32 * 4))) [
    | inl out ↦ rw out wf
    | inr inside ↦ rw inside (record {
      words = clear_bit-IsWords base.bitmap id wf.words;
      whole = wf.whole;
      bounded = wf.bounded;
      next_bounded = wf.next_bounded;
    })
  ]

  pub free-used : (id j : ℕ) → used (free base id) j ≡ (if j == id then 0 else used base j)
  unfolding free
  free-used id j = ground (arith, mark-clear_bit base.bitmap id j wf.words)

  scan_here :
      (id : ℕ) (s : Scan)
      → Scanned base id s
      → id / 32 * 4 < base.size
      → mark base.bitmap id ≡ 0
      → s ≡ found id
  scan_here id (found i) (a, b, c, all) inside free = ground (arith, all id)
  scan_here id (ended i) (a, b, c, all) inside free = ground (arith, all id)
  scan_here id out_of_fuel h inside free = absurd h

-- What an expansion leaves: room for `id`, and the same ids taken.
record Grown (base : Idalloc) (id : ℕ) (grown : Idalloc) : Type 0 where
  wf : IsWf grown
  room : id / 32 * 4 < grown.size
  same : (j : ℕ) → used grown j ≡ used base j

abbrev Expanded : Idalloc → ℕ → Bool × Idalloc → Type 0
Expanded base id (true, grown) = Grown base id grown
Expanded base id (false, same) = same ≡ base

-- The size asked for is a whole number of frames, and has a byte for each id up to the one wanted.
expanded_size :
    (id : ℕ)
    → id ≤ 2 ^ 31
    → (id < align_up (wanted_size id) increment)
      × (align_up (wanted_size id) increment % 4 ≡ 0)
      × (ltb (wanted_size id) (id / 32 * 4) ≡ false)
expanded_size id b = (ground arith, ground arith, ground arith)

expand-Expanded :
    (realloc : ℕ → Option Bitmap) (base : Idalloc) (id : ℕ)
    → IsHeap realloc
    → IsWf base
    → id ≤ 2 ^ 31
    → base.size ≤ id / 32 * 4
    → Expanded base id (expand realloc base id)
unfolding expand
expand-Expanded realloc base id heap wf b out = elim (Bool-cases base.is_static) [
  | inl static ↦ simp static refl
  | inr dynamic ↦
      (let small : ltb (wanted_size id) base.size ≡ false = ground (arith, expanded_size id b) in
        simp (dynamic, small)
          (elim (Option-cases (realloc (align_up (wanted_size id) increment))) [
            | inl failed ↦ rw failed refl
            | inr (fresh, got) ↦ rw got (record {
              wf = record {
                words = λ k. ground (arith, wf.words k, heap.fresh_words _ fresh got k);
                whole = (expanded_size id b).1;
                bounded = heap.limit _ fresh got;
                next_bounded = wf.next_bounded;
              };
              room = omega (arith, expanded_size id b);
              same = λ j. ground (arith, expanded_size id b, bit-zero (j % 32));
            })
          ]))
]

-- The two ways in which a call of `idalloc_alloc` ends.
abbrev pub Ends : Idalloc → ℕ → Idalloc → Type 0
Ends base id after = Took base id after ⊎ Exhausted base id after

abbrev pub Returns : Idalloc → Option (ℕ × Idalloc) → Type 0
Returns base o = (id : ℕ) × (after : Idalloc) × (o ≡ some (id, after)) × Ends base id after

module _ {base : Idalloc} {id : ℕ} {grown : Idalloc} (a : base.next_to_allocate ≤ id)
    (all : AllUsed base base.next_to_allocate id) (out : base.size ≤ id / 32 * 4) (b : id ≤ 2 ^ 31)
    (g : Grown base id grown) where
  bootstrapped : Idalloc
  bootstrapped = record grown { next_to_allocate = id }

  bootstrapped-IsWf : IsWf bootstrapped
  unfolding bootstrapped
  bootstrapped-IsWf = record {
    words = g.wf.words;
    whole = g.wf.whole;
    bounded = g.wf.bounded;
    next_bounded = b;
  }

  id_clear : mark grown.bitmap id ≡ 0
  id_clear = ground (arith, g.same id, g.room)

  second_scan : scan (scan_fuel bootstrapped) bootstrapped id ≡ found id
  unfolding bootstrapped
  second_scan =
      scan_here bootstrapped-IsWf id _
        (scan-Scanned bootstrapped-IsWf (scan_fuel bootstrapped) id b (omega arith) (omega arith))
        g.room id_clear

  Took-bootstrapped : Took base id (taking bootstrapped id)
  unfolding bootstrapped
  Took-bootstrapped =
      let t =
        taking-Took bootstrapped-IsWf id (omega arith) g.room (omega (arith, id_clear))
          (λ j p q. absurd (omega arith)) in
      record {
        from_next = a;
        was_free = ground arith;
        first = all;
        marks = λ j. ground (arith, t.marks j, g.same j);
        next = t.next;
        wf = t.wf;
      }

module _ (realloc : ℕ → Option Bitmap) {base : Idalloc} (heap : IsHeap realloc)
    (wf : IsWf base) where
  -- What follows the loop, by how it ended.
  abbrev after_scan : Scan → Option (ℕ × Idalloc)
  after_scan s = elim s [
    | found id ↦ some (id, taking base id)
    | ended id ↦
        (let again = λ (b : Idalloc). alloc_deep 1 realloc (record b { next_to_allocate = id }) in
          let (done, grown) = expand realloc base id in
          if done then again grown else some (size_max, grown))
    | out_of_fuel ↦ none
  ]

  after_expand :
      (id : ℕ) (r : Bool × Idalloc)
      → Scanned base base.next_to_allocate (ended id)
      → Expanded base id r
      → Returns base (
          if r.0
          then alloc_deep 1 realloc (record (r.1) { next_to_allocate = id })
          else some (size_max, r.1))
  unfolding alloc_deep bootstrapped
  after_expand id (true, grown) (a, b, c, all) g = (
    id,
    taking (bootstrapped a all c b g) id,
    rw (second_scan a all c b g, alloc_deep),
    inl (Took-bootstrapped a all c b g),
  )
  after_expand id (false, same) (a, b, c, all) e = (
    size_max,
    same,
    refl,
    inr (record { no_id = refl; kept = e; full = λ j p q. all j p (omega arith) }),
  )

  after_scan-Returns :
      (s : Scan) → Scanned base base.next_to_allocate s → Returns base (after_scan s)
  after_scan-Returns (found id) (a, b, c, all) =
      (id, taking base id, refl, inl (taking-Took wf id a b c all))
  after_scan-Returns (ended id) h =
      after_expand id (expand realloc base id) h (expand-Expanded realloc base id heap wf h.1 h.2)
  after_scan-Returns out_of_fuel h = absurd h

  -- With a well-formed allocator and a heap of 32-bit words below 256 MB, every call of
  -- `idalloc_alloc` returns: with the first free id from `next_to_allocate` on, which alone
  -- becomes taken, or with `SIZE_MAX`, the allocator unchanged, when no id is free from there on
  -- in the bitmap.
  pub alloc-Returns : Returns base (alloc realloc base)
  unfolding alloc alloc_deep
  alloc-Returns = after_scan-Returns (scan (scan_fuel base) base base.next_to_allocate) (
      scan-Scanned wf (scan_fuel base) base.next_to_allocate wf.next_bounded (omega arith)
        (omega arith))
