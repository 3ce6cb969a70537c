-- ===== src/Mm/Pmm/Alloc/Tests.antt =====
-- `pmm_alloc` on a crowded memory of 16 MB, and twice on one of 128 KB.
use neo_sys_x.Common.{
  ℕ, zero, suc, ◌-◌, ◌+◌, ◌*◌, ◌^◌, ◌≤◌, ◌<◌, ◌≡◌, ◌≢◌, ◌⊎◌, inl, refl, some, true, arith,
}
use neo_sys_x.Mm.Pmm.{
  Pmm, reserve, reserve_levels, or_word, fill_words, pick_level, search_level, skip_full, alloc,
}
use neo_sys_x.Mm.Pmm.Alloc.{Searchable, Allocated, alloc-Allocated}
use neo_sys_x.Mm.Pmm.Levels.{Reserves}
use neo_sys_x.Mm.Pmm.Alloc.Steps.{level_found, answered}
use neo_sys_x.Mm.Pmm.Alloc.Apart.{alloc-alloc_apart}

-- Two frames of three are taken in each group.
abbrev busy : Pmm
busy = record {
  words = λ l k. 0xb6db6db6;
  sizes = λ l. 128;
  present = λ l. true;
  max_size = 16777216;
}

below_4gb : (k : ℕ) → k < 4 → 4096 * (4096 * 2 ^ k) < 2 ^ 32
below_4gb zero h = omega arith
below_4gb (suc zero) h = omega arith
below_4gb (suc (suc zero)) h = omega arith
below_4gb (suc (suc (suc zero))) h = omega arith
below_4gb (suc (suc (suc (suc k)))) h = absurd (omega arith)

busy-Searchable : Searchable busy 5000
busy-Searchable = record {
  some_bytes = omega arith;
  small = omega arith;
  no_full = λ k h w inside. omega arith;
  word = below_4gb;
}

alloc-Allocated_example : Allocated busy 5000 0 (alloc 0 busy 5000)
alloc-Allocated_example = alloc-Allocated busy 5000 0 busy-Searchable

-- 128 KB, all of it free, in bitmaps of one word; then with the first frame reserved.
abbrev tiny : Pmm
tiny = record { words = λ l k. 0; sizes = λ l. 1; present = λ l. true; max_size = 131072 }

abbrev tiny_later : Pmm
tiny_later = reserve 0 tiny 0 4096

one_word : (k : ℕ) → k < 4 → 32 * (4096 * 2 ^ k) < 2 ^ 32
one_word zero h = omega arith
one_word (suc zero) h = omega arith
one_word (suc (suc zero)) h = omega arith
one_word (suc (suc (suc zero))) h = omega arith
one_word (suc (suc (suc (suc k)))) h = absurd (omega arith)

first_word : (k : ℕ) → k < 4 → tiny_later.words k 0 ≢ 2 ^ 32 - 1
unfolding reserve reserve_levels or_word fill_words
first_word zero h = omega arith
first_word (suc zero) h = omega arith
first_word (suc (suc zero)) h = omega arith
first_word (suc (suc (suc zero))) h = omega arith
first_word (suc (suc (suc (suc k)))) h = absurd (omega arith)

one_word_only : (w : ℕ) → w * 32 < 32 → w ≡ 0
one_word_only w h = omega arith

tiny_later-Searchable : Searchable tiny_later 5000
unfolding reserve reserve_levels or_word fill_words
tiny_later-Searchable = record {
  some_bytes = omega arith;
  small = omega arith;
  no_full = λ k h w inside. let e = one_word_only w inside in rw e (first_word k h);
  word = one_word;
}

tiny-Searchable : Searchable tiny 4096
tiny-Searchable = record {
  some_bytes = omega arith;
  small = omega arith;
  no_full = λ k h w inside. omega arith;
  word = one_word;
}

tiny-Reserves : Reserves 0 tiny 0 4096
tiny-Reserves = record {
  inside = omega arith;
  no_wrap = omega arith;
  memory = omega arith;
  all_levels = λ l h. refl;
  shifts = (
    (inl refl, inl refl),
    ((inl refl, inl refl), ((inl refl, inl refl), ((inl refl, inl refl), tt))),
  );
}

first_pick : pick_level 4 tiny 0 4096 4096 ≡ (0, 4096)
unfolding pick_level
first_pick = refl

first_hit : (n : ℕ) → search_level (suc n) (tiny.words 0) 32 1 0 0 0 0 ≡ some 0
unfolding search_level skip_full
first_hit n = refl

second_pick : pick_level 4 tiny_later 0 4096 5000 ≡ (1, 8192)
unfolding pick_level reserve reserve_levels
second_pick = refl

second_hit : (n : ℕ) → search_level (suc (suc (suc n))) (tiny_later.words 1) 32 1 0 0 0 0 ≡ some 2
unfolding search_level skip_full reserve reserve_levels or_word fill_words
second_hit n = refl

first_call : alloc 0 tiny 4096 ≡ (0, tiny_later)
first_call =
    answered 0 tiny 4096 0 4096 0 first_pick (level_found tiny 3 4096 0 4096 0 (first_hit 32))

second_call : alloc 0 tiny_later 5000 ≡ (16384, reserve 0 tiny_later 16384 5000)
unfolding reserve reserve_levels
second_call =
    answered 0 tiny_later 5000 1 8192 16384 second_pick
      (level_found tiny_later 3 5000 1 8192 2 (second_hit 30))

alloc-alloc_apart_example : (0 + 4096 ≤ 16384) ⊎ (16384 + 5000 ≤ 0)
alloc-alloc_apart_example =
    alloc-alloc_apart 0 tiny tiny_later (reserve 0 tiny_later 16384 5000) 4096 5000 0 16384
      tiny-Searchable first_call (omega arith) tiny-Reserves tiny_later-Searchable second_call
      (omega arith) (omega arith) (omega arith)
