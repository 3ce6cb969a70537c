-- ===== src/Drivers/Acpi.antt =====
-- kernel/drivers/acpi/acpi_common: the search for the root pointer, in the memory that the kernel
-- sees. `literal` is the address of the text of `ACPI_RSDP_SIGNATURE`.
pub mod Find
mod Tests
use neo_sys_x.Common.{
  ℕ, zero, suc, ◌+◌, ◌-◌, ◌%◌, ◌^◌, ◌*◌, Bool, true, false, not, ◌&&◌, ltb, leb, ◌==◌,
  if◌then◌else◌, size_max,
}
use neo_sys_x.Libc.Memory.{Memory, memcmp}

-- The fields `revision` and `len` of `acpi_rsdp_t`; a `uint32_t` has its lowest byte first.
abbrev pub revision : Memory → ℕ → ℕ
revision mem rsdp = mem (rsdp + 15)

abbrev pub rsdp_len : Memory → ℕ → ℕ
rsdp_len mem rsdp =
    mem (rsdp + 20) + mem (rsdp + 21) * 2 ^ 8 + mem (rsdp + 22) * 2 ^ 16 + mem (rsdp + 23) * 2 ^ 24

-- The sum of `count` bytes from index `i` on, in a `uint8_t`.
unfoldable pub sum_bytes : ℕ → Memory → ℕ → ℕ → ℕ → ℕ
sum_bytes zero mem rsdp i sum = sum
sum_bytes (suc count) mem rsdp i sum =
    sum_bytes count mem rsdp (i + 1) ((sum + mem (rsdp + i)) % 2 ^ 8)

-- `acpi_verify_rsdp`
unfoldable pub acpi_verify_rsdp : Memory → ℕ → ℕ → Bool
unfolding sum_bytes
acpi_verify_rsdp mem literal rsdp =
    let sum = sum_bytes 20 mem rsdp 0 0 in
    let extended = sum_bytes (rsdp_len mem rsdp - 20) mem rsdp 20 sum in
    if not (memcmp mem rsdp literal 8 == 0)
    then false
    else if not (sum == 0)
    then false
    else if leb 2 (revision mem rsdp) && not (extended == 0)
    then false
    else true

-- The loop of `acpi_find_rsdp`. A turn for each byte is enough where `offset` does not wrap around.
unfoldable pub find_from : ℕ → Memory → ℕ → ℕ → ℕ → ℕ → ℕ → ℕ
find_from zero mem literal align len offset vaddr = size_max
find_from (suc fuel) mem literal align len offset vaddr =
    let rest =
      find_from fuel mem literal align len ((offset + align) % 2 ^ 32) ((vaddr + align) % 2 ^ 32) in
    if leb len offset
    then size_max
    else if not (memcmp mem vaddr literal 8 == 0)
    then rest
    else if not (acpi_verify_rsdp mem literal vaddr)
    then rest
    else vaddr

-- `acpi_find_rsdp`
unfoldable pub acpi_find_rsdp : Memory → ℕ → ℕ → ℕ → ℕ → ℕ
acpi_find_rsdp mem literal from_vaddr len align =
    let step = if ltb align 1 then 1 else align in
    let delta = step - from_vaddr % step in
    let left = if ltb delta len then len - delta else 0 in
    if from_vaddr % step == 0
    then find_from len mem literal step len 0 from_vaddr
    else find_from left mem literal step left 0 ((from_vaddr + delta) % 2 ^ 32)
