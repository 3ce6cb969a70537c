-- ===== src/Cpu/Paging/Entry/Fields.antt =====
-- What the fields of a new entry hold.
use neo_sys_x.Common.{ℕ, ◌/◌, ◌^◌, ◌<◌, ◌≡◌, ◌≢◌, refl, arith}
use neo_sys_x.Cpu.Paging.Entry.{field, set_field, addr, is_large, page_entry, large_entry}

module _ (v e : ℕ) where
  addr-zero : addr (set_field 0 1 v e) ≡ addr e
  unfolding field set_field
  addr-zero = omega arith

  addr-one : addr (set_field 1 1 v e) ≡ addr e
  unfolding field set_field
  addr-one = omega arith

  addr-two : addr (set_field 2 1 v e) ≡ addr e
  unfolding field set_field
  addr-two = omega arith

  addr-eight : addr (set_field 8 1 v e) ≡ addr e
  unfolding field set_field
  addr-eight = omega arith

  addr-twelve : v < 2 ^ 20 → addr (set_field 12 20 v e) ≡ v
  unfolding field set_field
  addr-twelve h = omega arith

  present-zero : field 0 1 (set_field 0 1 1 e) ≡ 1
  unfolding field set_field
  present-zero = omega arith

  present-one : field 0 1 (set_field 1 1 v e) ≡ field 0 1 e
  unfolding field set_field
  present-one = omega arith

  present-two : field 0 1 (set_field 2 1 v e) ≡ field 0 1 e
  unfolding field set_field
  present-two = omega arith

  present-eight : field 0 1 (set_field 8 1 v e) ≡ field 0 1 e
  unfolding field set_field
  present-eight = omega arith

some-present : (e : ℕ) → field 0 1 e ≡ 1 → e ≢ 0
unfolding field
some-present e h = omega arith

module _ (paddr flags e : ℕ) where
  pub page_entry-addr : paddr < 2 ^ 32 → addr (page_entry paddr flags e) ≡ paddr / 2 ^ 12
  unfolding page_entry
  page_entry-addr h =
      rw (addr-eight, addr-two, addr-one, addr-zero) (addr-twelve (paddr / 2 ^ 12) e (omega arith))

  pub page_entry-present : page_entry paddr flags e ≢ 0
  unfolding page_entry
  page_entry-present =
      some-present (page_entry paddr flags e)
        (rw (present-eight, present-two, present-one) (present-zero 1 _))

module _ (v e : ℕ) where
  size-zero : field 7 1 (set_field 0 1 v e) ≡ field 7 1 e
  unfolding field set_field
  size-zero = omega arith

  size-one : field 7 1 (set_field 1 1 v e) ≡ field 7 1 e
  unfolding field set_field
  size-one = omega arith

  size-two : field 7 1 (set_field 2 1 v e) ≡ field 7 1 e
  unfolding field set_field
  size-two = omega arith

  size-eight : field 7 1 (set_field 8 1 v e) ≡ field 7 1 e
  unfolding field set_field
  size-eight = omega arith

  size_high : field 7 1 (set_field 22 10 v e) ≡ field 7 1 e
  unfolding field set_field
  size_high = omega arith

-- The entry of a large page keeps the size bit that the entry had.
pub large_entry-size : (paddr flags e : ℕ) → is_large (large_entry paddr flags e) ≡ is_large e
unfolding large_entry is_large
large_entry-size paddr flags e = rw (size-eight, size-two, size-one, size-zero, size_high) refl

pub large_entry-present : (paddr flags e : ℕ) → large_entry paddr flags e ≢ 0
unfolding large_entry
large_entry-present paddr flags e =
    some-present (large_entry paddr flags e)
      (rw (present-eight, present-two, present-one) (present-zero 1 _))
