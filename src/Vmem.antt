-- ===== src/Vmem.antt =====
-- The address translations of src/kernel/mem/vmem.c. Memory is a 64-bit word at every address;
-- UINT64_MAX, which stands for an error, is `none`.
pub mod Unchecked
mod Tests
use lite_core.Prelude.{
  ℕ, ◌+◌, ◌-◌, ◌*◌, ◌/◌, ◌%◌, ◌^◌, Bool, true, false, not, ◌&&◌, ◌||◌, Option, none, some,
  if◌then◌else◌, ltb, leb, ◌==◌, u32, add32, sub32, sub64,
}

-- `vmem_mode_t`
pub data Mode : Type 0 where
  identity offset walk : Mode

-- `phys2virt`: NULL, `default_phys2virt` or another function.
pub data Translation : Type 0 where
  missing default : Translation
  custom : (ℕ → ℕ) → Translation

-- `vmem_offset` (32 bits in two's complement), `current_mode` and `phys2virt`.
pub record Vmem : Type 0 where
  pub vmem_offset : ℕ
  pub current_mode : Mode
  pub phys2virt : Translation

abbrev pub uint32_max : ℕ
uint32_max = 0xFFFFFFFF

unfoldable pub default_phys2virt : Vmem → ℕ → ℕ
default_phys2virt v phys = if v.vmem_offset == 0 then phys else add32 phys v.vmem_offset

-- The translation in the walk mode: by `phys2virt` unless it gives an error, or else by the offset.
unfoldable pub walk_phys2virt : Vmem → Translation → ℕ → ℕ
unfolding default_phys2virt
walk_phys2virt v missing phys = default_phys2virt v phys
walk_phys2virt v default phys =
    let a = default_phys2virt v phys in
    if not (a == 0) && not (a == uint32_max) then a else default_phys2virt v phys
walk_phys2virt v (custom f) phys =
    if not (f phys == 0) && not (f phys == uint32_max) then f phys else default_phys2virt v phys

unfoldable pub translate : Vmem → Mode → ℕ → ℕ
unfolding walk_phys2virt
translate v identity phys = phys
translate v offset phys = add32 phys v.vmem_offset
translate v walk phys = walk_phys2virt v v.phys2virt phys

unfoldable pub vmem_phys_to_virt : Vmem → ℕ → ℕ
unfolding translate
vmem_phys_to_virt v phys =
    if phys == uint32_max then uint32_max else translate v v.current_mode phys

unfoldable pub vmem_phys_to_virt64 : Vmem → ℕ → Option ℕ
unfolding vmem_phys_to_virt
vmem_phys_to_virt64 v phys =
    if ltb uint32_max phys
    then none
    else if vmem_phys_to_virt v phys == uint32_max
    then none
    else some (vmem_phys_to_virt v phys)

-- The parts of a page table entry: the present bit, the page size bit, the address of what it
-- points at.
unfoldable pub present : ℕ → Bool
present entry = entry % 2 == 1

unfoldable pub large : ℕ → Bool
large entry = entry / 2 ^ 7 % 2 == 1

unfoldable pub table_base : ℕ → ℕ
table_base entry = entry / 2 ^ 12 * 2 ^ 12

-- The four indices of a virtual address.
abbrev pub pml4_index : ℕ → ℕ
pml4_index virt = virt / 2 ^ 39 % 512

abbrev pub pdpt_index : ℕ → ℕ
pdpt_index virt = virt / 2 ^ 30 % 512

abbrev pub pd_index : ℕ → ℕ
pd_index virt = virt / 2 ^ 21 % 512

abbrev pub pt_index : ℕ → ℕ
pt_index virt = virt / 2 ^ 12 % 512

-- The entry of a table; 0, which is not present, where its address has no translation.
unfoldable pub entry_with : (ℕ → ℕ) → Option ℕ → ℕ
entry_with words none = 0
entry_with words (some a) = words a

unfoldable pub read_entry : Vmem → (ℕ → ℕ) → (table index : ℕ) → ℕ
unfolding vmem_phys_to_virt64 entry_with
read_entry v words table index = entry_with words (vmem_phys_to_virt64 v (table + index * 8))

unfoldable pub walk_pt : Vmem → (ℕ → ℕ) → (table virt : ℕ) → ℕ
unfolding read_entry present table_base
walk_pt v words table virt =
    let entry = read_entry v words table (pt_index virt) in
    if present entry then table_base entry + virt % 2 ^ 12 else 0

unfoldable pub walk_pd : Vmem → (ℕ → ℕ) → (table virt : ℕ) → ℕ
unfolding read_entry present large table_base walk_pt
walk_pd v words table virt =
    let entry = read_entry v words table (pd_index virt) in
    if not (present entry)
    then 0
    else if large entry
    then entry / 2 ^ 21 * 2 ^ 21 + virt % 2 ^ 21
    else walk_pt v words (table_base entry) virt

unfoldable pub walk_pdpt : Vmem → (ℕ → ℕ) → (table virt : ℕ) → ℕ
unfolding read_entry present large table_base walk_pd
walk_pdpt v words table virt =
    let entry = read_entry v words table (pdpt_index virt) in
    if not (present entry)
    then 0
    else if large entry
    then entry / 2 ^ 30 % 2 ^ 22 * 2 ^ 30 + virt % 2 ^ 30
    else walk_pd v words (table_base entry) virt

-- The walk of `vmem_virt_to_phys64` from the `cr3` register; 0 where a page is not mapped.
unfoldable pub walk_pml4 : Vmem → (ℕ → ℕ) → (cr3 virt : ℕ) → ℕ
unfolding read_entry present table_base walk_pdpt
walk_pml4 v words cr3 virt =
    let entry = read_entry v words (table_base cr3) (pml4_index virt) in
    if present entry then walk_pdpt v words (table_base entry) virt else 0

-- `vmem_offset` as 64 bits.
unfoldable pub sign_extend : ℕ → ℕ
sign_extend x = if leb (2 ^ 31) x then x + (2 ^ 64 - 2 ^ 32) else x

unfoldable pub virt_to_phys_in : Mode → Vmem → (ℕ → ℕ) → (cr3 virt : ℕ) → ℕ
unfolding sign_extend walk_pml4
virt_to_phys_in identity v words cr3 virt = virt
virt_to_phys_in offset v words cr3 virt =
    let phys = sub64 virt (sign_extend v.vmem_offset) in if leb (2 ^ 63) phys then 0 else phys
virt_to_phys_in walk v words cr3 virt = walk_pml4 v words cr3 virt

unfoldable pub vmem_virt_to_phys64 : Vmem → (ℕ → ℕ) → (cr3 virt : ℕ) → ℕ
unfolding virt_to_phys_in
vmem_virt_to_phys64 v words cr3 virt = virt_to_phys_in v.current_mode v words cr3 virt

-- `phys2virt`, or `default_phys2virt` where it is NULL.
unfoldable pub call_phys2virt : Vmem → Translation → ℕ → ℕ
unfolding default_phys2virt
call_phys2virt v missing phys = default_phys2virt v phys
call_phys2virt v default phys = default_phys2virt v phys
call_phys2virt v (custom f) phys = f phys

-- The walk through the two levels of 32-bit page tables, whose words are `words32`; 0 where a page
-- is not mapped.
unfoldable pub walk_table32 : (words32 : ℕ → ℕ) → (pt_virt virt : ℕ) → ℕ
unfolding present table_base
walk_table32 words32 pt_virt virt =
    let pte = words32 (pt_virt + virt / 2 ^ 12 % 1024 * 4) in
    if pt_virt == 0 then 0 else if present pte then table_base pte + virt % 2 ^ 12 else 0

unfoldable pub walk_directory32 : Vmem → (words32 : ℕ → ℕ) → (pd_virt virt : ℕ) → ℕ
unfolding present large table_base call_phys2virt walk_table32
walk_directory32 v words32 pd_virt virt =
    let pde = words32 (pd_virt + virt / 2 ^ 22 % 1024 * 4) in
    if pd_virt == 0
    then 0
    else if not (present pde)
    then 0
    else if large pde
    then pde / 2 ^ 22 * 2 ^ 22 + virt % 2 ^ 22
    else walk_table32 words32 (call_phys2virt v v.phys2virt (table_base pde)) virt

-- The difference in the offset mode is one of signed 32-bit numbers.
unfoldable pub virt_to_phys32_in : Mode → Vmem → (words32 : ℕ → ℕ) → (cr3 virt : ℕ) → ℕ
unfolding table_base call_phys2virt walk_directory32
virt_to_phys32_in identity v words32 cr3 virt = virt
virt_to_phys32_in offset v words32 cr3 virt =
    let phys = sub32 virt v.vmem_offset in if leb (2 ^ 31) phys then 0 else phys
virt_to_phys32_in walk v words32 cr3 virt =
    walk_directory32 v words32 (call_phys2virt v v.phys2virt (u32 (table_base cr3))) virt

unfoldable pub vmem_virt_to_phys : Vmem → (words32 : ℕ → ℕ) → (cr3 virt : ℕ) → ℕ
unfolding virt_to_phys32_in
vmem_virt_to_phys v words32 cr3 virt = virt_to_phys32_in v.current_mode v words32 cr3 virt

unfoldable pub vmem_set_offset : ℕ → Vmem → Vmem
vmem_set_offset bytes v = record v { vmem_offset = bytes }

unfoldable pub vmem_reset : Vmem → Vmem
vmem_reset v = record v { vmem_offset = 0 }

unfoldable pub vmem_set_mode : Mode → Vmem → Vmem
vmem_set_mode mode v = record v { current_mode = mode }

-- A NULL function means the default one.
unfoldable pub vmem_set_phys2virt : Option (ℕ → ℕ) → Vmem → Vmem
vmem_set_phys2virt none v = record v { phys2virt = default }
vmem_set_phys2virt (some f) v = record v { phys2virt = custom f }
