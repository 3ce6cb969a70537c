-- ===== src/Drivers/Acpi/Tests.antt =====
-- A region with a root pointer.
use neo_sys_x.Common.{
  ℕ, ◌-◌, ◌≡◌, ◌⊎◌, ◌&&◌, true, false, ltb, leb, ◌==◌, if◌then◌else◌, size_max, refl, arith,
}
use neo_sys_x.Libc.Memory.{Memory, memcmp_from}
use neo_sys_x.Drivers.Acpi.{sum_bytes, acpi_verify_rsdp, acpi_find_rsdp}
use neo_sys_x.Drivers.Acpi.Find.{FirstValid, Checked, acpi_find_rsdp-FirstValid}

-- The text of the signature.
abbrev signature : ℕ → ℕ
signature k =
    if k == 0
    then b'R'
    else if k == 1
    then b'S'
    else if k == 2
    then b'D'
    else if k == 3
    then b' '
    else if k == 4
    then b'P'
    else if k == 5
    then b'T'
    else if k == 6
    then b'R'
    else if k == 7
    then b' '
    else 0

-- The literal stands at 0x500, and a root pointer of revision 0 at 0xe0010, with the checksum
-- behind its signature.
abbrev memory : Memory
memory a =
    if a == 0xe0018
    then 225
    else if ltb a 0x508
    then (if leb 0x500 a then signature (a - 0x500) else 0)
    else if leb 0xe0010 a && ltb a 0xe0018
    then signature (a - 0xe0010)
    else 0

-- It is found, the region in front of it being looked at first.
found : acpi_verify_rsdp memory 0x500 0xe0010 ≡ true
unfolding acpi_verify_rsdp sum_bytes memcmp_from
found = refl

not_before : acpi_verify_rsdp memory 0x500 0xe0000 ≡ false
unfolding acpi_verify_rsdp sum_bytes memcmp_from
not_before = refl

acpi_find_rsdp-FirstValid_example :
    FirstValid memory 0x500 16 0x400 0xe0000 (acpi_find_rsdp memory 0x500 0xe0000 0x400 16)
    × ((acpi_find_rsdp memory 0x500 0xe0000 0x400 16 ≡ size_max)
        ⊎ Checked memory 0x500 (acpi_find_rsdp memory 0x500 0xe0000 0x400 16))
acpi_find_rsdp-FirstValid_example =
    acpi_find_rsdp-FirstValid memory 0x500 16 (omega arith) 0xe0000 0x400 refl (omega arith)
