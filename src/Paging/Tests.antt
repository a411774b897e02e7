-- ===== src/Paging/Tests.antt =====
-- Page tables on three frames from 1 MiB on, and the theorems there.
use lite_core.Prelude.{
  ℕ, ◌≡◌, refl, [], ◌∷◌, Bool, true, arith, if◌then◌else◌, ◌==◌, inl, inr, subst, sym,
}
use lite_core.Frames.{Memmap, find_chunk, chunk_test, bit}
use lite_core.Frames.Used.{used}
use lite_core.Vmem.{Vmem, identity, missing, present, large, table_base}
use lite_core.Paging.{Paging, clear_nx, map_page_64, paging64_create_user_pml4}
use lite_core.Paging.Allocate.{InUse, InRange}
use lite_core.Paging.Walk.{Pml4Path}
use lite_core.Paging.Levels.{Ready}
use lite_core.Paging.Mapping.{Mapping, map_page_64-Mapping}
use lite_core.Paging.Boot.{paging64_init_kernel_pml4}
use lite_core.Paging.Identity.{Booted, paging64_init_kernel_pml4-Booted}
use lite_core.Paging.Sharing.{Spaced, paging64_create_user_pml4-Spaced}

abbrev at_start : Vmem
at_start = record { vmem_offset = 0; current_mode = identity; phys2virt = missing }

-- 300 frames, the first three of them taken.
abbrev three_taken : Memmap
three_taken = record {
  start_addr = 0x100000;
  end_addr = 0x22C000;
  start_frame = 256;
  frames = 300;
  max_frames = 300;
  chunks = record { idx = 0; words = λ w. if w == 0 then 7 else 0 } ∷ [];
}

abbrev memory : ℕ → Bool
memory chi = true

-- A PML4 at 1 MiB whose entry 0 points at an empty PDPT on the next page, with the NX bit set.
abbrev tables : ℕ → ℕ
tables a = if a == 0x100000 then 0x8000000000101007 else 0

abbrev booted : Paging
booted = record { words = tables; frames = three_taken; cr3 = 0x100000; kernel_pml4 = 0x100000 }

-- The third frame, which is no page table.
abbrev Program : ℕ → Type 0
Program x = x ≡ 258

in_range : InRange three_taken
in_range = record { above = omega arith; under = omega arith }

first_taken : InUse three_taken 256
unfolding used find_chunk chunk_test bit
first_taken = record { frame = 0; place = refl; below = omega arith; mark = refl }

second_taken : InUse three_taken 257
unfolding used find_chunk chunk_test bit
second_taken = record { frame = 1; place = refl; below = omega arith; mark = refl }

third_taken : InUse three_taken 258
unfolding used find_chunk chunk_test bit
third_taken = record { frame = 2; place = refl; below = omega arith; mark = refl }

booted-Ready : Ready Program 256 booted
booted-Ready = record {
  range = in_range;
  met = λ x e. subst (InUse three_taken) (sym e) third_taken;
  unmet = λ e. omega arith;
  in_use = first_taken;
}

booted_path : Pml4Path 0x400000 Program booted 256
unfolding present large table_base clear_nx
booted_path = inr (record {
  is_present = refl;
  is_small = refl;
  page = 257;
  base = refl;
  in_use = second_taken;
  unmet = λ e. omega arith;
  other = λ e. omega arith;
  below = inl refl;
})

map_page_64-Mapping_example :
    Mapping at_start Program booted 0x100000 0x103000 0x400000
      (map_page_64 memory at_start 0x100000 0x103000 0x400000 6 booted)
map_page_64-Mapping_example =
    map_page_64-Mapping memory at_start Program booted 256 0x103000 0x400000 6 refl (λ chi. refl)
      (omega arith) booted-Ready booted_path

paging64_create_user_pml4-Spaced_example :
    Spaced at_start booted (paging64_create_user_pml4 memory at_start booted)
paging64_create_user_pml4-Spaced_example =
    paging64_create_user_pml4-Spaced memory at_start booted 256 refl (λ chi. refl) in_range refl
      first_taken

paging64_init_kernel_pml4-Booted_example :
    Booted at_start booted (paging64_init_kernel_pml4 memory at_start booted)
paging64_init_kernel_pml4-Booted_example =
    paging64_init_kernel_pml4-Booted memory at_start refl (λ chi. refl) booted in_range
      (omega arith)
