-- ===== src/Paging/Boot.antt =====
-- The kernel's own PML4 (`paging64_init_kernel_pml4` of src/kernel/mem/paging64.c): a copy of the one
-- that the firmware left in `cr3`, with the first 4 GiB mapped to themselves by large pages.
use lite_core.Prelude.{
  ℕ, zero, suc, ◌+◌, ◌*◌, Bool, true, false, Option, none, some, if◌then◌else◌, ◌==◌,
}
use lite_core.Frames.{alloc_frame}
use lite_core.Vmem.{Vmem, vmem_phys_to_virt64, table_base}
use lite_core.Paging.{Paging, set_word, fill}

-- Entry `i` of the page directory `n`: present, writable, for the user, a large page.
unfoldable pub identity_entry : (n i : ℕ) → ℕ
identity_entry n i = n * 0x40000000 + i * 0x200000 + 0x87

-- The address of a table with the bits for present, writable, user.
abbrev pub low_entry : ℕ → ℕ
low_entry phys = table_base phys + 7

module _ (heap : ℕ → Bool) (v : Vmem) where
  unfoldable pub with_address : (phys : ℕ) → Option ℕ → Option (ℕ × ℕ)
  with_address phys none = none
  with_address phys (some virt) = some (phys, virt)

  -- A frame and its virtual address.
  unfoldable pub new_frame : Paging → Option (ℕ × ℕ) × Paging
  unfolding with_address
  new_frame s =
      let (frame, m) = alloc_frame heap s.frames in
      let s1 = record s { frames = m } in
      if frame == 0 then (none, s1) else (with_address frame (vmem_phys_to_virt64 v frame), s1)

  -- The page directory `n` of the PDPT at `pdpt`.
  unfoldable pub enter_pd : (pdpt n : ℕ) → Option (ℕ × ℕ) × Paging → Bool × Paging
  unfolding fill identity_entry
  enter_pd pdpt n (none, s) = (false, s)
  enter_pd pdpt n (some (phys, virt), s) = (
    true,
    set_word (pdpt + n * 8) (low_entry phys)
        (record s { words = fill virt (identity_entry n) s.words }),
  )

  unfoldable pub add_pd : (pdpt n : ℕ) → Bool × Paging → Bool × Paging
  unfolding new_frame enter_pd
  add_pd pdpt n (false, s) = (false, s)
  add_pd pdpt n (true, s) = enter_pd pdpt n (new_frame s)

  -- The first `n` page directories.
  unfoldable pub map_low : (pdpt n : ℕ) → Paging → Bool × Paging
  unfolding add_pd
  map_low pdpt zero s = (true, s)
  map_low pdpt (suc n) s = add_pd pdpt n (map_low pdpt n s)

  -- The switch to the new PML4.
  unfoldable pub switch : (pml4_phys pml4 pdpt_phys : ℕ) → Bool × Paging → Bool × Paging
  switch pml4_phys pml4 pdpt_phys (false, s) = (false, s)
  switch pml4_phys pml4 pdpt_phys (true, s) = (
    true,
    record (set_word pml4 (low_entry pdpt_phys) s) { cr3 = pml4_phys; kernel_pml4 = pml4_phys },
  )

  unfoldable pub add_pdpt : (pml4_phys pml4 : ℕ) → Option (ℕ × ℕ) × Paging → Bool × Paging
  unfolding map_low switch fill
  add_pdpt pml4_phys pml4 (none, s) = (false, s)
  add_pdpt pml4_phys pml4 (some (pdpt_phys, pdpt), s) =
      switch pml4_phys pml4 pdpt_phys
        (map_low pdpt 4 (record s { words = fill pdpt (λ i. 0) s.words }))

  unfoldable pub copy_pml4 : (firmware : ℕ) → Option (ℕ × ℕ) × Paging → Bool × Paging
  unfolding new_frame add_pdpt fill
  copy_pml4 firmware (none, s) = (false, s)
  copy_pml4 firmware (some (pml4_phys, pml4), s) =
      add_pdpt pml4_phys pml4
        (new_frame (record s { words = fill pml4 (λ i. s.words (firmware + i * 8)) s.words }))

  -- The result says whether the kernel runs on its own PML4, which the source does not return.
  unfoldable pub paging64_init_kernel_pml4 : Paging → Bool × Paging
  unfolding new_frame copy_pml4
  paging64_init_kernel_pml4 s = elim (vmem_phys_to_virt64 v s.cr3) [
    | none ↦ (false, s)
    | some firmware ↦ copy_pml4 firmware (new_frame s)
  ]
