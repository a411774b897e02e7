-- ===== src/Vmem/Tests.antt =====
-- The start of the translations, and the theorem there.
use lite_core.Prelude.{ℕ, ◌≡◌, true, some, arith, refl, if◌then◌else◌, ◌==◌}
use lite_core.Vmem.{
  walk, large, vmem_virt_to_phys, virt_to_phys32_in, walk_directory32, call_phys2virt,
  default_phys2virt, vmem_set_mode, Vmem, identity, missing, vmem_virt_to_phys64, walk_pml4,
  read_entry, vmem_phys_to_virt64, vmem_phys_to_virt, entry_with, present, translate, table_base,
}
use lite_core.Vmem.Unchecked.{validate_user_range-identity}
use lite_core.Usercopy.{validate_user_range}

abbrev at_start : Vmem
at_start = record { vmem_offset = 0; current_mode = identity; phys2virt = missing }

-- Tables in which no page is mapped.
abbrev empty_tables : ℕ → ℕ
empty_tables a = 0

-- A page of 4 MiB in 32-bit tables at address 0x1000.
abbrev one_page : ℕ → ℕ
one_page a = if a == 0x1004 then 0x800083 else 0

large_page : vmem_virt_to_phys (vmem_set_mode walk at_start) one_page 0x1000 0x412345 ≡ 0x812345
unfolding vmem_virt_to_phys virt_to_phys32_in walk_directory32 call_phys2virt default_phys2virt
    present large table_base vmem_set_mode
large_page = refl

not_mapped : walk_pml4 at_start empty_tables 0x1000 0x5000 ≡ 0
unfolding walk_pml4 read_entry vmem_phys_to_virt64 vmem_phys_to_virt entry_with present translate
    table_base
not_mapped = refl

validate_user_range-identity_example :
    validate_user_range (vmem_virt_to_phys64 at_start empty_tables 0x1000) 3 0x5000 16 ≡ some true
validate_user_range-identity_example =
    validate_user_range-identity at_start empty_tables 0x1000 3 0x5000 16 refl (omega arith)
      (omega arith) (omega arith)
