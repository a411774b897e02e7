-- ===== src/Paging.antt =====
-- The four-level page tables of src/kernel/mem/paging64.c, in the words of memory (Vmem) and with the
-- frames of Frames. The TLB is left out.
pub mod Entries
pub mod Allocate
pub mod Walk
pub mod Levels
pub mod Ensure
pub mod Mapping
pub mod Sharing
pub mod Boot
pub mod Directories
pub mod Identity
mod Tests
use lite_core.Prelude.{
  ℕ, zero, suc, ◌+◌, ◌-◌, ◌*◌, ◌/◌, ◌%◌, ◌^◌, Bool, true, false, not, ◌&&◌, ◌||◌, Option, none,
  some, if◌then◌else◌, ltb, leb, ◌==◌, update, u32,
}
use lite_core.Frames.{Memmap, alloc_frame}
use lite_core.Vmem.{
  Vmem, vmem_phys_to_virt, vmem_phys_to_virt64, vmem_virt_to_phys64, present, large, table_base,
  pml4_index, pdpt_index, pd_index, pt_index,
}

-- Memory, the frames, the `cr3` register and `kernel_pml4_phys`.
pub record Paging : Type 0 where
  pub words : ℕ → ℕ
  pub frames : Memmap
  pub cr3 : ℕ
  pub kernel_pml4 : ℕ

abbrev pub set_word : ℕ → ℕ → Paging → Paging
set_word a w s = record s { words = update s.words a w }

-- The loop over the 512 entries of the table at `base`: entry `i` becomes `f i`.
unfoldable pub fill : (base : ℕ) → (ℕ → ℕ) → (ℕ → ℕ) → ℕ → ℕ
fill base f words a = if leb base a && ltb a (base + 4096) then f ((a - base) / 8) else words a

-- `~(1ULL << 63)`
unfoldable pub clear_nx : ℕ → ℕ
clear_nx entry = entry % 2 ^ 63

-- `PAGING_PRESENT | PAGING_RW | PAGING_USER` on the address of a table.
unfoldable pub table_entry : ℕ → ℕ
unfolding clear_nx table_base
table_entry phys = clear_nx (table_base phys + 7)

-- The split of a large page into 512 small ones.
unfoldable pub split_entry : (entry i : ℕ) → ℕ
unfolding large table_base
split_entry entry i =
    let flags = entry % 2 ^ 12 in
    table_base (entry / 2 ^ 21 * 2 ^ 21 + i * 0x1000)
    + (if large entry then flags - 2 ^ 7 else flags)

unfoldable pub page_entry : (phys flags : ℕ) → ℕ
unfolding present table_base clear_nx
page_entry phys flags =
    let with_present = if present flags then flags else flags + 1 in
    clear_nx (table_base phys + with_present % 2 ^ 12)

abbrev pub set_page : (phys virt flags table : ℕ) → Paging → Bool × Paging
set_page phys virt flags table s =
    (true, set_word (table + pt_index virt * 8) (page_entry phys flags) s)

-- The entries of a new user PML4 at `table`.
unfoldable pub user_entries : (table kernel_table : ℕ) → Paging → Paging
user_entries table kernel_table s = record s {
  words = λ a.
      if leb table a && ltb a (table + 4096)
      then (let i = (a - table) / 8 in
          if (i == 0) || leb 256 i then s.words (kernel_table + i * 8) else 0)
      else s.words a;
}

module _ (heap : ℕ → Bool) (v : Vmem) where
  -- `alloc_page_table` of src/kernel/mem/paging.c, which clears the frame at its physical address:
  -- the virtual address of the table.
  unfoldable pub alloc_page_table : Paging → Option ℕ × Paging
  unfolding fill
  alloc_page_table s =
      let (frame, m) = alloc_frame heap s.frames in
      let s1 = record s { frames = m } in
      let virt = vmem_phys_to_virt v (u32 frame) in
      if (frame == 0)
      then (none, s1)
      else if virt == 0
      then (none, s1)
      else (some virt, record s1 { words = fill (u32 frame) (λ i. 0) s1.words })

  -- A new table whose entry `i` is `f i` is entered at the address `slot`. The source compares the
  -- physical address with UINT64_MAX.
  unfoldable pub enter_table : (f : ℕ → ℕ) (slot : ℕ) → Option ℕ × Paging → Bool × Paging
  unfolding fill table_entry
  enter_table f slot (none, s) = (false, s)
  enter_table f slot (some virt, s) =
      let filled = record s { words = fill virt f s.words } in
      let phys = vmem_virt_to_phys64 v filled.words s.cr3 virt in
      if phys == 2 ^ 64 - 1
      then (false, filled)
      else (true, set_word slot (table_entry phys) filled)

  -- The entry at `slot` of one of the two upper levels: a new table if there is none, or else the
  -- NX bit is cleared.
  unfoldable pub ensure_table : (slot : ℕ) → Paging → Bool × Paging
  unfolding alloc_page_table enter_table present clear_nx
  ensure_table slot s =
      if present (s.words slot)
      then (true, set_word slot (clear_nx (s.words slot)) s)
      else enter_table (λ i. 0) slot (alloc_page_table s)

  -- The entry at `slot` of a page directory.
  unfoldable pub ensure_page_table : (slot : ℕ) → Paging → Bool × Paging
  unfolding alloc_page_table enter_table present large clear_nx split_entry
  ensure_page_table slot s =
      let entry = s.words slot in
      if not (present entry)
      then enter_table (λ i. 0) slot (alloc_page_table s)
      else if large entry
      then enter_table (split_entry entry) slot (alloc_page_table s)
      else (true, set_word slot (clear_nx entry) s)

  -- What follows at the table that the entry at `slot` points at, if it has a virtual address.
  unfoldable pub descend : (slot : ℕ) → (ℕ → Paging → Bool × Paging) → Bool × Paging → Bool × Paging
  unfolding table_base
  descend slot next (false, s) = (false, s)
  descend slot next (true, s) = elim (vmem_phys_to_virt64 v (table_base (s.words slot))) [
    | none ↦ (false, s)
    | some table ↦ next table s
  ]

  unfoldable pub map_in_pd : (phys virt flags table : ℕ) → Paging → Bool × Paging
  unfolding ensure_page_table descend page_entry
  map_in_pd phys virt flags table s =
      let slot = table + pd_index virt * 8 in
      descend slot (set_page phys virt flags) (ensure_page_table slot s)

  unfoldable pub map_in_pdpt : (phys virt flags table : ℕ) → Paging → Bool × Paging
  unfolding ensure_table descend map_in_pd
  map_in_pdpt phys virt flags table s =
      let slot = table + pdpt_index virt * 8 in
      descend slot (map_in_pd phys virt flags) (ensure_table slot s)

  unfoldable pub map_in_pml4 : (phys virt flags table : ℕ) → Paging → Bool × Paging
  unfolding ensure_table descend map_in_pdpt
  map_in_pml4 phys virt flags table s =
      let slot = table + pml4_index virt * 8 in
      descend slot (map_in_pdpt phys virt flags) (ensure_table slot s)

  -- The result `true` is 0 in the source, `false` is -1.
  unfoldable pub map_page_64 : (pml4_phys phys virt flags : ℕ) → Paging → Bool × Paging
  unfolding map_in_pml4
  map_page_64 pml4_phys phys virt flags s = elim (vmem_phys_to_virt64 v pml4_phys) [
    | none ↦ (false, s)
    | some table ↦ map_in_pml4 phys virt flags table s
  ]

  unfoldable pub map_page_current_64 : (phys virt flags : ℕ) → Paging → Bool × Paging
  unfolding map_page_64
  map_page_current_64 phys virt flags s = map_page_64 s.cr3 phys virt flags s

  -- The physical address of the new PML4, or 0.
  unfoldable pub paging64_create_user_pml4 : Paging → ℕ × Paging
  unfolding user_entries
  paging64_create_user_pml4 s =
      let (frame, m) = alloc_frame heap s.frames in
      let s1 = record s { frames = m } in
      if s.kernel_pml4 == 0
      then (0, s)
      else if frame == 0
      then (0, s1)
      else elim (vmem_phys_to_virt64 v frame) [
        | none ↦ (0, s1)
        | some table ↦ elim (vmem_phys_to_virt64 v s.kernel_pml4) [
          | none ↦ (0, s1)
          | some kernel_table ↦ (frame, user_entries table kernel_table s1)
        ]
      ]
