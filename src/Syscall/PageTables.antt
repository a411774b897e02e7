-- ===== src/Syscall/PageTables.antt =====
-- `alloc_page_table` (here `new_page_table`), `map_page_pd` and `unmap_page_pd` of
-- src/kernel/mem/paging.c, as the page tables of `sys_sbrk`. Memory is a word of
-- 32 bits at every address; NULL and -1 are `none` or false; `invlpg` is left out.
use lite_core.Prelude.{
  ℕ, zero, suc, ◌+◌, ◌*◌, ◌/◌, ◌%◌, ◌^◌, Bool, true, false, not, ◌&&◌, Option, none, some,
  if◌then◌else◌, ltb, leb, ◌==◌, update, u32,
}
use lite_core.Frames.{Memmap, alloc_frame, free_frame}
use lite_core.Vmem.{Vmem, vmem_phys_to_virt, vmem_virt_to_phys, present, table_base}
use lite_core.Syscall.{Pager}

-- The indices of an address in a page directory and in a page table.
abbrev pub directory_index : ℕ → ℕ
directory_index virt = virt / 2 ^ 22 % 1024

abbrev pub table_index : ℕ → ℕ
table_index virt = virt / 2 ^ 12 % 1024

-- The words of the page at `phys` are set to 0.
unfoldable pub clear_table : (phys : ℕ) → (ℕ → ℕ) → ℕ → ℕ
clear_table phys words a = if leb phys a && ltb a (phys + 4096) then 0 else words a

unfoldable pub new_page_table :
    (heap : ℕ → Bool) → Vmem → (ℕ → ℕ) → Memmap → Option ℕ × (ℕ → ℕ) × Memmap
unfolding clear_table
new_page_table heap v words m =
    let (frame, m') = alloc_frame heap m in
    let virt = vmem_phys_to_virt v (u32 frame) in
    if frame == 0
    then (none, words, m')
    else if virt == 0
    then (none, words, m')
    else (some virt, clear_table (u32 frame) words, m')

-- The table gets its entry.
unfoldable pub write_page : (pt phys virt flags : ℕ) → (ℕ → ℕ) → ℕ → ℕ
unfolding table_base
write_page pt phys virt flags words =
    update words (pt + table_index virt * 4) (table_base phys + flags % 2 ^ 12)

-- The mapping in a directory whose entry is not present, with the table that was allocated.
unfoldable pub map_in_new :
    Vmem → (cr3 pd phys virt flags : ℕ) → Option ℕ × (ℕ → ℕ) × Memmap → Bool × (ℕ → ℕ) × Memmap
unfolding vmem_virt_to_phys write_page table_base
map_in_new v cr3 pd phys virt flags (none, words, m) = (false, words, m)
map_in_new v cr3 pd phys virt flags (some new_pt_virt, words, m) =
    let new_pt_phys = vmem_virt_to_phys v words cr3 new_pt_virt in
    if new_pt_phys == 0 then (false, words, m) else (
      true,
      write_page new_pt_virt phys virt flags
          (update words (pd + directory_index virt * 4) (table_base new_pt_phys + 3)),
      m,
    )

unfoldable pub map_page_pd :
    (heap : ℕ → Bool)
    → Vmem
    → (cr3 pd_phys phys virt flags : ℕ) → (ℕ → ℕ)
    → Memmap
    → Bool × (ℕ → ℕ) × Memmap
unfolding new_page_table map_in_new write_page present table_base
map_page_pd heap v cr3 pd_phys phys virt flags words m =
    let flags' = if present flags then flags else flags + 1 in
    let pd = vmem_phys_to_virt v pd_phys in
    let pde = words (pd + directory_index virt * 4) in
    let pt = vmem_phys_to_virt v (table_base pde) in
    if pd == 0
    then (false, words, m)
    else if not (present pde)
    then map_in_new v cr3 pd phys virt flags' (new_page_table heap v words m)
    else if pt == 0
    then (false, words, m)
    else (true, write_page pt phys virt flags' words, m)

-- None of the `n` entries from `a` on is present.
unfoldable pub is_empty : (ℕ → ℕ) → (a n : ℕ) → Bool
unfolding present
is_empty words a zero = true
is_empty words a (suc n) = not (present (words a)) && is_empty words (a + 4) n

unfoldable pub unmap_page_pd : Vmem → (pd_phys virt : ℕ) → (ℕ → ℕ) → Memmap → (ℕ → ℕ) × Memmap
unfolding is_empty present table_base
unmap_page_pd v pd_phys virt words m =
    let pd = vmem_phys_to_virt v pd_phys in
    let pde = words (pd + directory_index virt * 4) in
    let pt_phys = table_base pde in
    let pt = vmem_phys_to_virt v pt_phys in
    let cleared = update words (pt + table_index virt * 4) 0 in
    if pd == 0
    then (words, m)
    else if not (present pde)
    then (words, m)
    else if pt == 0
    then (words, m)
    else if not (present (words (pt + table_index virt * 4)))
    then (words, m)
    else if is_empty cleared pt 1024
    then (update cleared (pd + directory_index virt * 4) 0, free_frame pt_phys m)
    else (cleared, m)

-- The page tables of the program; the flags of a user page are present, writable and user.
abbrev pub page_tables : (heap : ℕ → Bool) → Vmem → (cr3 : ℕ) → Pager (ℕ → ℕ)
page_tables heap v cr3 = record {
  map_page_pd = λ pd phys virt words m. map_page_pd heap v cr3 pd phys virt 7 words m;
  unmap_page_pd = λ pd virt words m. unmap_page_pd v pd virt words m;
}
