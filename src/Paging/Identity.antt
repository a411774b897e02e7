-- ===== src/Paging/Identity.antt =====
-- The kernel's own PML4 (`paging64_init_kernel_pml4` of src/kernel/mem/paging64.c) maps the first 4 GiB
-- to themselves.
use lite_core.Prelude.{
  ℕ, zero, suc, ◌+◌, ◌-◌, ◌*◌, ◌/◌, ◌%◌, ◌^◌, ◌<◌, ◌≡◌, ◌≢◌, Bool, true, false, not, Option, none,
  some, if◌then◌else◌, if-elim, if-true, if-false, update, ◌==◌, arith, refl, sym, ap, ◌∙◌, subst,
}
use lite_core.Frames.Used.{used}
use lite_core.Frames.Alloc.{AlwaysGiven}
use lite_core.Vmem.{
  Vmem, identity, present, large, table_base, read_entry, walk_pt, walk_pd, walk_pdpt, walk_pml4,
  pd_index, pdpt_index, pml4_index,
}
use lite_core.Paging.{Paging, fill}
use lite_core.Paging.Entries.{
  phys_to_virt64-identity, read_entry-identity, fill-inside, fill-outside,
}
use lite_core.Paging.Allocate.{InUse, InRange}
use lite_core.Paging.Levels.{page_below, at_slot}
use lite_core.Paging.Mapping.{walk_pdpt_down}
use lite_core.Paging.Sharing.{walk_by_entry}
use lite_core.Frames.{alloc_frame}
use lite_core.Paging.Boot.{
  identity_entry, low_entry, new_frame, enter_pd, add_pd, map_low, switch, add_pdpt, copy_pml4,
  paging64_init_kernel_pml4,
}
use lite_core.Paging.Directories.{FrameResult, new_frame-result, Low, LowResult, map_low-result}

-- The kernel runs on its own PML4: the first 4 GiB are mapped to themselves, and all entries but the
-- first are the firmware's. Or all frames are in use and `cr3` is as it was.
abbrev pub Booted : Vmem → Paging → Bool × Paging → Type 0
Booted v s (false, s') =
    (s'.cr3 ≡ s.cr3) × ((j : ℕ) → j < s'.frames.frames → used s'.frames.chunks j ≡ true)
Booted v s (true, s') =
    (s'.kernel_pml4 ≡ s'.cr3)
    × ((virt : ℕ) → virt < 2 ^ 32 → walk_pml4 v s'.words s'.cr3 virt ≡ virt)
    × ((i : ℕ) → 0 < i → i < 512 → s'.words (s'.cr3 + i * 8) ≡ s.words (s.cr3 + i * 8))

-- The walk at a page directory whose entry maps a large page to itself.
walk_pd_large :
    (v : Vmem) (words : ℕ → ℕ) (q j virt : ℕ)
    → v.current_mode ≡ identity
    → q < 2 ^ 20 - 1
    → j < 4
    → virt / 2 ^ 30 ≡ j
    → words (q * 4096 + pd_index virt * 8) ≡ identity_entry j (pd_index virt)
    → walk_pd v words (q * 4096) virt ≡ virt
unfolding walk_pd present large identity_entry
walk_pd_large v words q j virt mode lt j_small gib entry =
    let k = pd_index virt in
    let e = read_entry v words (q * 4096) k in
    let same : e ≡ j * 0x40000000 + k * 0x200000 + 0x87 =
      read_entry-identity v words q k mode lt (omega arith) ∙ entry in
    let odd : (j * 0x40000000 + k * 0x200000 + 0x87) % 2 ≡ 1 = omega arith in
    let eighth : (j * 0x40000000 + k * 0x200000 + 0x87) / 2 ^ 7 % 2 ≡ 1 = omega arith in
    let there : present e ≡ true = ap present same ∙ ap (λ b. b == 1) odd in
    let big : large e ≡ true = ap large same ∙ ap (λ b. b == 1) eighth in
    if-false (not (present e)) 0 _ (ap not there)
    ∙ if-true (large e) (e / 2 ^ 21 * 2 ^ 21 + virt % 2 ^ 21) (walk_pt v words (table_base e) virt)
        big
    ∙ ap (λ e. e / 2 ^ 21 * 2 ^ 21 + virt % 2 ^ 21) same
    ∙ omega (arith, gib)

-- The walk from a PML4 whose entry 0 points at the PDPT.
walk-Low :
    (v : Vmem) (firmware : ℕ → ℕ) (s : Paging) (q0 q1 virt : ℕ)
    → v.current_mode ≡ identity
    → Low firmware s q0 q1 4
    → virt < 2 ^ 32
    → walk_pml4 v (update s.words (q0 * 4096) (q1 * 4096 + 7)) (q0 * 4096) virt ≡ virt
unfolding present large table_base
walk-Low v firmware s q0 q1 virt mode low lt =
    let words = update s.words (q0 * 4096) (q1 * 4096 + 7) in
    let q0_small = page_below s q0 low.range low.pml4 in
    let q1_small = page_below s q1 low.range low.pdpt in
    let d = low.directories (virt / 2 ^ 30) (omega arith) in
    let q_small = page_below s d.page low.range d.in_use in
    let kept : (a : ℕ) → a / 4096 ≢ q0 → words a ≡ s.words a =
      λ a ne. if-false (a == q0 * 4096) (q1 * 4096 + 7) (s.words a) (ground arith) in
    let first : words (q0 * 4096 + pml4_index virt * 8) ≡ q1 * 4096 + 7 =
      ap words (omega arith) ∙ at_slot (q0 * 4096) (q1 * 4096 + 7) s.words in
    let second : words (q1 * 4096 + pdpt_index virt * 8) ≡ d.page * 4096 + 7 =
      kept (q1 * 4096 + pdpt_index virt * 8) (omega (arith, low.two))
      ∙ ap s.words (omega arith)
      ∙ d.entry in
    let third : words (d.page * 4096 + pd_index virt * 8)
        ≡ identity_entry (virt / 2 ^ 30) (pd_index virt) =
      kept (d.page * 4096 + pd_index virt * 8) (omega (arith, d.no_pml4))
      ∙ d.entries (pd_index virt) (omega arith) in
    walk_by_entry v words q0 virt mode q0_small
    ∙ ap (λ e. if present e then walk_pdpt v words (table_base e) virt else 0) first
    ∙ if-true (present (q1 * 4096 + 7)) _ 0 (ground arith)
    ∙ ap (λ b. walk_pdpt v words b virt) (omega arith)
    ∙ walk_pdpt_down v words q1 d.page virt mode q1_small (ap present second ∙ ground arith)
        (ap large second ∙ ground arith) (ap table_base second ∙ omega arith)
    ∙ walk_pd_large v words d.page (virt / 2 ^ 30) virt mode q_small (omega arith) refl third

module _ (heap : ℕ → Bool) (v : Vmem) (mode : v.current_mode ≡ identity)
    (always : AlwaysGiven heap) where
  new_frame-cr3 : (s : Paging) → (new_frame heap v s).1.cr3 ≡ s.cr3
  unfolding new_frame
  new_frame-cr3 s =
      if-elim (λ (r : Option (ℕ × ℕ) × Paging). r.1.cr3 ≡ s.cr3)
        ((alloc_frame heap s.frames).0 == 0) _ _ (λ e. refl) (λ e. refl)

  enter_pd-cr3 :
      (pdpt n : ℕ) (r : Option (ℕ × ℕ) × Paging) → (enter_pd heap v pdpt n r).1.cr3 ≡ r.1.cr3
  unfolding enter_pd
  enter_pd-cr3 pdpt n (none, s) = refl
  enter_pd-cr3 pdpt n (some (phys, virt), s) = refl

  add_pd-cr3 : (pdpt n : ℕ) (r : Bool × Paging) → (add_pd heap v pdpt n r).1.cr3 ≡ r.1.cr3
  unfolding add_pd
  add_pd-cr3 pdpt n (false, s) = refl
  add_pd-cr3 pdpt n (true, s) = enter_pd-cr3 pdpt n (new_frame heap v s) ∙ new_frame-cr3 s

  map_low-cr3 : (pdpt n : ℕ) (s : Paging) → (map_low heap v pdpt n s).1.cr3 ≡ s.cr3
  unfolding map_low
  map_low-cr3 pdpt zero s = refl
  map_low-cr3 pdpt (suc n) s = add_pd-cr3 pdpt n (map_low heap v pdpt n s) ∙ map_low-cr3 pdpt n s

  switch-Booted :
      (s : Paging) (q0 q1 : ℕ) (r : Bool × Paging)
      → r.1.cr3 ≡ s.cr3
      → LowResult heap (λ i. s.words (s.cr3 + i * 8)) q0 q1 4 r
      → Booted v s (switch heap v (q0 * 4096) (q0 * 4096) (q1 * 4096) r)
  unfolding switch table_base
  switch-Booted s q0 q1 (false, s') same exhausted = (same, exhausted always)
  switch-Booted s q0 q1 (true, s') same low =
      let base : low_entry (q1 * 4096) ≡ q1 * 4096 + 7 = omega arith in
      (
        refl,
        λ virt lt.
            ap (λ e. walk_pml4 v (update s'.words (q0 * 4096) e) (q0 * 4096) virt) base
            ∙ walk-Low v (λ i. s.words (s.cr3 + i * 8)) s' q0 q1 virt mode low lt,
        λ i positive lt.
            if-false (q0 * 4096 + i * 8 == q0 * 4096) (low_entry (q1 * 4096))
              (s'.words (q0 * 4096 + i * 8)) (ground arith)
            ∙ low.copied i lt,
      )

  add_pdpt-Booted :
      (s s1 : Paging) (q0 : ℕ) (r : Option (ℕ × ℕ) × Paging)
      → s1.cr3 ≡ s.cr3
      → r.1.cr3 ≡ s.cr3
      → InUse s1.frames q0
      → ((i : ℕ) → i < 512 → s1.words (q0 * 4096 + i * 8) ≡ s.words (s.cr3 + i * 8))
      → FrameResult heap s1 r
      → Booted v s (add_pdpt heap v (q0 * 4096) (q0 * 4096) r)
  unfolding add_pdpt
  add_pdpt-Booted s s1 q0 (none, s2) same same2 pml4 copied exhausted = (same2, exhausted always)
  add_pdpt-Booted s s1 q0 (some (phys, virt), s2) same same2 pml4 copied t =
      let q1 = t.page in
      let cleared : (x : ℕ) → Paging = λ x. record s2 { words = fill x (λ i. 0) s2.words } in
      subst
        (λ x.
          Booted v s
            (switch heap v (q0 * 4096) (q0 * 4096) x (map_low heap v virt 4 (cleared virt))))
        (sym t.at_phys)
        (subst
          (λ x.
            Booted v s
              (switch heap v (q0 * 4096) (q0 * 4096) (q1 * 4096) (map_low heap v x 4 (cleared x))))
          (sym t.at_virt)
          (switch-Booted s q0 q1 (map_low heap v (q1 * 4096) 4 (cleared (q1 * 4096)))
            (map_low-cr3 (q1 * 4096) 4 (cleared (q1 * 4096)) ∙ same2)
            (map_low-result heap v (λ i. s.words (s.cr3 + i * 8)) q0 q1 4 (cleared (q1 * 4096)) mode
              (omega arith)
              (record {
                range = t.grown.range;
                pml4 = t.grown.still q0 pml4;
                pdpt = t.grown.taken;
                two = λ e. t.grown.fresh q0 pml4 (sym e);
                copied = λ i lt.
                    fill-outside q1 (q0 * 4096 + i * 8) (λ i. 0) s2.words
                      (omega (arith, t.grown.fresh q0 pml4))
                    ∙ ap (λ g. g (q0 * 4096 + i * 8)) t.same_words
                    ∙ copied i lt;
                directories = λ j before. absurd (below_zero before);
              }))))
    where
      below_zero : {j : ℕ} → j < 0 → ⊥
      below_zero lt = omega arith

  copy_pml4-Booted :
      (s : Paging) (r : Option (ℕ × ℕ) × Paging)
      → r.1.cr3 ≡ s.cr3
      → FrameResult heap s r
      → Booted v s (copy_pml4 heap v s.cr3 r)
  unfolding copy_pml4
  copy_pml4-Booted s (none, s1) same exhausted = (same, exhausted always)
  copy_pml4-Booted s (some (phys, virt), s1) same t =
      let copy : (x : ℕ) → Paging =
        λ x. record s1 { words = fill x (λ i. s1.words (s.cr3 + i * 8)) s1.words } in
      let q0 = t.page in
      let s2 = copy (q0 * 4096) in
      subst (λ x. Booted v s (add_pdpt heap v x virt (new_frame heap v (copy virt))))
        (sym t.at_phys)
        (subst (λ x. Booted v s (add_pdpt heap v (q0 * 4096) x (new_frame heap v (copy x))))
          (sym t.at_virt)
          (add_pdpt-Booted s s2 q0 (new_frame heap v s2) same (new_frame-cr3 s2 ∙ same)
            t.grown.taken
            (λ i lt.
              fill-inside q0 i (λ i. s1.words (s.cr3 + i * 8)) s1.words lt
              ∙ ap (λ g. g (s.cr3 + i * 8)) t.same_words)
            (new_frame-result heap v s2 mode t.grown.range)))

  -- In the identity mode, with frames between the first page and 4 GiB, a heap that always has
  -- memory for a chunk, and `cr3` below 4 GiB less a byte, `paging64_init_kernel_pml4` switches to
  -- a PML4 in which every address below 4 GiB is translated to itself and whose other entries are
  -- those of the PML4 before; or every frame is in use and `cr3` stays.
  pub paging64_init_kernel_pml4-Booted :
      (s : Paging)
      → InRange s.frames
      → s.cr3 < 2 ^ 32 - 1
      → Booted v s (paging64_init_kernel_pml4 heap v s)
  unfolding paging64_init_kernel_pml4
  paging64_init_kernel_pml4-Booted s range lt =
      subst
        (λ o. Booted v s (elim o as (λ x. Bool × Paging) [
          | none ↦ (false, s)
          | some firmware ↦ copy_pml4 heap v firmware (new_frame heap v s)
        ]))
        (sym (phys_to_virt64-identity v s.cr3 mode lt))
        (copy_pml4-Booted s (new_frame heap v s) (new_frame-cr3 s)
          (new_frame-result heap v s mode range))
