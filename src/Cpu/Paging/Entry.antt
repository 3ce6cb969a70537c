-- ===== src/Cpu/Paging/Entry.antt =====
-- The fields of an entry, by their lowest bit and width, and the lookups of `vmm_ops.c`.
pub mod Fields
use neo_sys_x.Common.{
  ℕ, ◌+◌, ◌-◌, ◌*◌, ◌/◌, ◌%◌, ◌^◌, Bool, true, false, Option, none, some, ltb, leb, ◌==◌, ◌&&◌,
  ◌||◌, not, if◌then◌else◌,
}
use neo_sys_x.Cpu.Paging.{Machine, pde_of, pte_of, flag, flag_rw, flag_user, flag_cache_global}

unfoldable pub field : ℕ → ℕ → ℕ → ℕ
field low width e = e / 2 ^ low % 2 ^ width

unfoldable pub set_field : ℕ → ℕ → ℕ → ℕ → ℕ
set_field low width v e =
    e % 2 ^ low + (v % 2 ^ width) * 2 ^ low + e / 2 ^ (low + width) * 2 ^ (low + width)

-- `large.size`, `large.addr`, `large.addr_hi`, `small.pt_paddr` and `addr` of a table's entry.
unfoldable pub is_large : ℕ → Bool
unfolding field
is_large e = field 7 1 e == 1

abbrev pub large_addr : ℕ → ℕ
large_addr e = field 22 10 e

abbrev pub addr : ℕ → ℕ
addr e = field 12 20 e

-- An entry of a table that is mapped to the frame of `paddr`.
unfoldable pub page_entry : ℕ → ℕ → ℕ → ℕ
unfolding set_field flag
page_entry paddr flags e = set_field 8 1 (flag flags flag_cache_global) (
    set_field 2 1 (flag flags flag_user)
      (set_field 1 1 (flag flags flag_rw) (set_field 0 1 1 (set_field 12 20 (paddr / 2 ^ 12) e))))

-- The same of the directory, for a large page.
unfoldable pub large_entry : ℕ → ℕ → ℕ → ℕ
unfolding set_field flag
large_entry paddr flags e = set_field 8 1 (flag flags flag_cache_global) (
    set_field 2 1 (flag flags flag_user)
      (set_field 1 1 (flag flags flag_rw) (set_field 0 1 1 (set_field 22 10 (paddr / 2 ^ 22) e))))

-- An entry of the directory for the table at a physical address.
unfoldable pub table_entry : ℕ → ℕ
unfolding set_field
table_entry pt_paddr =
    set_field 2 1 1
      (set_field 1 1 1 (set_field 0 1 1 (set_field 12 20 (pt_paddr % 2 ^ 32 / 2 ^ 12) 0)))

-- The entry `i` of a table that takes the place of a large page.
unfoldable pub split_entry : ℕ → ℕ → ℕ
unfolding set_field field
split_entry e i = set_field 7 1 (field 12 1 e) (
    set_field 8 1 (field 8 1 e) (
      set_field 6 1 (field 6 1 e) (
        set_field 5 1 (field 5 1 e) (
          set_field 4 1 (field 4 1 e) (
            set_field 3 1 (field 3 1 e) (
              set_field 2 1 (field 2 1 e) (
                set_field 1 1 (field 1 1 e) (
                  set_field 0 1 (field 0 1 e)
                    (set_field 12 20 (field 22 10 e * 2 ^ 10 + i) 0)))))))))

-- What a lookup answers; a read through a `NULL` table is a fault.
pub data Lookup : Type 0 where
  fault : Lookup
  unmapped : Lookup
  mapped : ℕ → Lookup

-- The address in a large page. `large.addr << 22` is an `int`, whose sign goes on into the upper
-- half of the result.
unfoldable pub large_paddr : ℕ → ℕ → ℕ
unfolding field
large_paddr e vaddr =
    let low = large_addr e * 2 ^ 22 in
    if ltb low (2 ^ 31)
    then field 13 8 e * 2 ^ 32 + low + vaddr % 2 ^ 22
    else 2 ^ 64 - 2 ^ 32 + low + vaddr % 2 ^ 22

module _ {W : Type 0} (m : Machine W) (cfg vaddr : ℕ) where
  -- `vmm_get_paddr`
  unfoldable pub get_paddr : Lookup
  unfolding is_large large_paddr field
  get_paddr =
      let c = m.config cfg in
      let e = c.pd (pde_of vaddr) in
      let ptr = c.pt (pde_of vaddr) in
      let pte = m.table ptr (pte_of vaddr) in
      if cfg == 0
      then unmapped
      else if e == 0
      then unmapped
      else if is_large e
      then mapped (large_paddr e vaddr)
      else if ptr == 0
      then fault
      else if pte == 0
      then unmapped
      else mapped (addr pte * 2 ^ 12 + vaddr % 2 ^ 12)

  -- `vmm_is_vaddr_used`; `none` is a fault.
  unfoldable pub is_vaddr_used : Option Bool
  unfolding is_large
  is_vaddr_used =
      let c = m.config cfg in
      let e = c.pd (pde_of vaddr) in
      let ptr = c.pt (pde_of vaddr) in
      if cfg == 0
      then some false
      else if e == 0
      then some false
      else if is_large e
      then some true
      else if ptr == 0
      then none
      else some (not (m.table ptr (pte_of vaddr) == 0))
