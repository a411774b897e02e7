-- ===== src/Paging/Mapping.antt =====
-- `map_page_64` (src/kernel/mem/paging64.c) and the walk of `vmem_virt_to_phys64`
-- (src/kernel/mem/vmem.c) through the tables it has made.
use lite_core.Prelude.{
  ℕ, ◌+◌, ◌-◌, ◌*◌, ◌/◌, ◌%◌, ◌^◌, ◌<◌, ◌≡◌, inl, inr, Bool, true, false, not, none, some, if-true,
  if-false, arith, refl, sym, ap, ◌∙◌, subst,
}
use lite_core.Frames.Used.{used}
use lite_core.Frames.Alloc.{AlwaysGiven}
use lite_core.Vmem.{
  Vmem, identity, present, large, table_base, read_entry, walk_pt, walk_pd, walk_pdpt, walk_pml4,
  pml4_index, pdpt_index, pd_index, pt_index,
}
use lite_core.Paging.{
  Paging, set_page, page_entry, ensure_table, ensure_page_table, map_in_pd, map_in_pdpt,
  map_in_pml4, map_page_64,
}
use lite_core.Paging.Entries.{
  phys_to_virt64-identity, read_entry-identity, present-page_entry, table_base-page_entry,
}
use lite_core.Paging.Walk.{With, PdPath, PdptPath, Pml4Path, AnyTable, PdPath-keep, PdptPath-keep}
use lite_core.Paging.Levels.{Ready, page_below, at_slot, off_slot}
use lite_core.Paging.Ensure.{
  Mapped, ensure_table-Ensured, ensure_page_table-Ensured, descend-Mapped,
}

-- The physical address that `virt` is to have.
abbrev pub page_target : (phys virt : ℕ) → ℕ
page_target phys virt = phys / 2 ^ 12 * 2 ^ 12 + virt % 2 ^ 12

-- One step of the walk, at an entry that points at a table.
walk_pd_down :
    (v : Vmem) (words : ℕ → ℕ) (p q virt : ℕ)
    → v.current_mode ≡ identity
    → p < 2 ^ 20 - 1
    → present (words (p * 4096 + pd_index virt * 8)) ≡ true
    → large (words (p * 4096 + pd_index virt * 8)) ≡ false
    → table_base (words (p * 4096 + pd_index virt * 8)) ≡ q * 4096
    → walk_pd v words (p * 4096) virt ≡ walk_pt v words (q * 4096) virt
unfolding walk_pd
walk_pd_down v words p q virt mode lt there small base =
    let e = read_entry v words (p * 4096) (pd_index virt) in
    let same : e ≡ words (p * 4096 + pd_index virt * 8) =
      read_entry-identity v words p (pd_index virt) mode lt (omega arith) in
    if-false (not (present e)) 0 _ (ap not (ap present same ∙ there))
    ∙ if-false (large e) (e / 2 ^ 21 * 2 ^ 21 + virt % 2 ^ 21) (walk_pt v words (table_base e) virt)
        (ap large same ∙ small)
    ∙ ap (λ b. walk_pt v words b virt) (ap table_base same ∙ base)

pub walk_pdpt_down :
    (v : Vmem) (words : ℕ → ℕ) (p q virt : ℕ)
    → v.current_mode ≡ identity
    → p < 2 ^ 20 - 1
    → present (words (p * 4096 + pdpt_index virt * 8)) ≡ true
    → large (words (p * 4096 + pdpt_index virt * 8)) ≡ false
    → table_base (words (p * 4096 + pdpt_index virt * 8)) ≡ q * 4096
    → walk_pdpt v words (p * 4096) virt ≡ walk_pd v words (q * 4096) virt
unfolding walk_pdpt
walk_pdpt_down v words p q virt mode lt there small base =
    let e = read_entry v words (p * 4096) (pdpt_index virt) in
    let same : e ≡ words (p * 4096 + pdpt_index virt * 8) =
      read_entry-identity v words p (pdpt_index virt) mode lt (omega arith) in
    if-false (not (present e)) 0 _ (ap not (ap present same ∙ there))
    ∙ if-false (large e) (e / 2 ^ 30 % 2 ^ 22 * 2 ^ 30 + virt % 2 ^ 30)
        (walk_pd v words (table_base e) virt) (ap large same ∙ small)
    ∙ ap (λ b. walk_pd v words b virt) (ap table_base same ∙ base)

walk_pml4_down :
    (v : Vmem) (words : ℕ → ℕ) (p q virt : ℕ)
    → v.current_mode ≡ identity
    → p < 2 ^ 20 - 1
    → present (words (p * 4096 + pml4_index virt * 8)) ≡ true
    → table_base (words (p * 4096 + pml4_index virt * 8)) ≡ q * 4096
    → walk_pml4 v words (p * 4096) virt ≡ walk_pdpt v words (q * 4096) virt
unfolding walk_pml4 table_base
walk_pml4_down v words p q virt mode lt there base =
    let e = read_entry v words (table_base (p * 4096)) (pml4_index virt) in
    let same : e ≡ words (p * 4096 + pml4_index virt * 8) =
      ap (λ b. read_entry v words b (pml4_index virt)) (omega arith)
      ∙ read_entry-identity v words p (pml4_index virt) mode lt (omega arith) in
    if-true (present e) (walk_pdpt v words (table_base e) virt) 0 (ap present same ∙ there)
    ∙ ap (λ b. walk_pdpt v words b virt) (ap table_base same ∙ base)

walk_pt_down :
    (v : Vmem) (words : ℕ → ℕ) (p phys virt flags : ℕ)
    → v.current_mode ≡ identity
    → p < 2 ^ 20 - 1
    → phys < 2 ^ 63
    → words (p * 4096 + pt_index virt * 8) ≡ page_entry phys flags
    → walk_pt v words (p * 4096) virt ≡ page_target phys virt
unfolding walk_pt
walk_pt_down v words p phys virt flags mode lt small entry =
    let e = read_entry v words (p * 4096) (pt_index virt) in
    let same : e ≡ page_entry phys flags =
      read_entry-identity v words p (pt_index virt) mode lt (omega arith) ∙ entry in
    if-true (present e) (table_base e + virt % 2 ^ 12) 0
      (ap present same ∙ present-page_entry phys flags)
    ∙ ap (λ b. b + virt % 2 ^ 12) (ap table_base same ∙ table_base-page_entry phys flags small)

module _ (heap : ℕ → Bool) (v : Vmem) (mode : v.current_mode ≡ identity) (phys virt flags : ℕ)
    (small : phys < 2 ^ 63) where
  pt-Mapped :
      (K : ℕ → Type 0) (s : Paging) (p : ℕ)
      → Ready K p s
      → Mapped heap K
          (λ words. walk_pt v words (p * 4096) virt)
          (page_target phys virt)
          s
          (set_page phys virt flags (p * 4096) s)
  pt-Mapped K s p ready = (
    walk_pt_down v _ p phys virt flags mode (page_below s p ready.range ready.in_use) small
        (at_slot (p * 4096 + pt_index virt * 8) (page_entry phys flags) s.words),
    λ a k.
        off_slot p (pt_index virt) (page_entry phys flags) a s.words (omega arith)
          (λ e. ready.unmet (subst K e k)),
  )

  pd-Mapped :
      (K : ℕ → Type 0) (s : Paging) (p : ℕ)
      → Ready K p s
      → PdPath virt K s p
      → Mapped heap K
          (λ words. walk_pd v words (p * 4096) virt)
          (page_target phys virt)
          s
          (map_in_pd heap v phys virt flags (p * 4096) s)
  unfolding map_in_pd
  pd-Mapped K s p ready path =
      descend-Mapped heap v K p (pd_index virt) AnyTable s (page_target phys virt)
        (set_page phys virt flags) (λ words. walk_pd v words (p * 4096) virt)
        (λ table words. walk_pt v words table virt)
        (ensure_page_table heap v (p * 4096 + pd_index virt * 8) s) mode
        (λ s1 q ready1 below. pt-Mapped (With K p) s1 q ready1)
        (λ words q. walk_pd_down v words p q virt mode (page_below s p ready.range ready.in_use))
        (omega arith)
        (ensure_page_table-Ensured heap v K p (pd_index virt) s mode (omega arith) ready path)

  pdpt-Mapped :
      (K : ℕ → Type 0) (s : Paging) (p : ℕ)
      → Ready K p s
      → PdptPath virt K s p
      → Mapped heap K
          (λ words. walk_pdpt v words (p * 4096) virt)
          (page_target phys virt)
          s
          (map_in_pdpt heap v phys virt flags (p * 4096) s)
  unfolding map_in_pdpt present
  pdpt-Mapped K s p ready path =
      descend-Mapped heap v K p (pdpt_index virt) (PdPath virt (With K p)) s (page_target phys virt)
        (map_in_pd heap v phys virt flags) (λ words. walk_pdpt v words (p * 4096) virt)
        (λ table words. walk_pd v words table virt)
        (ensure_table heap v (p * 4096 + pdpt_index virt * 8) s) mode
        (λ s1 q ready1 below. pd-Mapped (With K p) s1 q ready1 below)
        (λ words q. walk_pdpt_down v words p q virt mode (page_below s p ready.range ready.in_use))
        (omega arith)
        (ensure_table-Ensured heap v K p (pdpt_index virt) (PdPath virt (With K p)) s mode
          (omega arith) ready (λ s1 q zeros. inl (ap present (zeros (pd_index virt) (omega arith))))
          (λ s1 q apart ne b. PdPath-keep virt p q (With K p) s s1 apart ne b) path)

  pml4-Mapped :
      (K : ℕ → Type 0) (s : Paging) (p : ℕ)
      → Ready K p s
      → Pml4Path virt K s p
      → Mapped heap K
          (λ words. walk_pml4 v words (p * 4096) virt)
          (page_target phys virt)
          s
          (map_in_pml4 heap v phys virt flags (p * 4096) s)
  unfolding map_in_pml4 present
  pml4-Mapped K s p ready path =
      descend-Mapped heap v K p (pml4_index virt) (PdptPath virt (With K p)) s
        (page_target phys virt) (map_in_pdpt heap v phys virt flags)
        (λ words. walk_pml4 v words (p * 4096) virt) (λ table words. walk_pdpt v words table virt)
        (ensure_table heap v (p * 4096 + pml4_index virt * 8) s) mode
        (λ s1 q ready1 below. pdpt-Mapped (With K p) s1 q ready1 below)
        (λ words q there big.
          walk_pml4_down v words p q virt mode (page_below s p ready.range ready.in_use) there)
        (omega arith)
        (ensure_table-Ensured heap v K p (pml4_index virt) (PdptPath virt (With K p)) s mode
          (omega arith) ready
          (λ s1 q zeros. inl (ap present (zeros (pdpt_index virt) (omega arith))))
          (λ s1 q apart ne b. PdptPath-keep virt p q (With K p) s s1 apart (inr refl) ne b) path)

-- The mapping is there and the words of the pages of `K` are kept, or all frames are in use.
abbrev pub Mapping :
    Vmem → (K : ℕ → Type 0) (s : Paging) (pml4_phys phys virt : ℕ) → Bool × Paging → Type 0
Mapping v K s pml4_phys phys virt (false, s2) =
    (j : ℕ) → j < s2.frames.frames → used s2.frames.chunks j ≡ true
Mapping v K s pml4_phys phys virt (true, s2) =
    (walk_pml4 v s2.words pml4_phys virt ≡ page_target phys virt)
    × ((a : ℕ) → K (a / 4096) → s2.words a ≡ s.words a)

-- In the identity mode, with frames between the first page and 4 GiB, a heap that always has
-- memory for a chunk, a PML4 on a page in use, on the way of `virt` tables on pages in use that
-- are apart from each other and from the pages of `K`, which are in use too, and `phys` below
-- 2^63, `map_page_64` maps `virt`: the walk from the PML4 then gives `phys` with the offset of
-- `virt` in its page, whether the tables were there or not or a large page was split, and the
-- words of the pages of `K` stay. If it gives -1, every frame is in use.
pub map_page_64-Mapping :
    (heap : ℕ → Bool) (v : Vmem) (K : ℕ → Type 0) (s : Paging) (p phys virt flags : ℕ)
    → v.current_mode ≡ identity
    → AlwaysGiven heap
    → phys < 2 ^ 63
    → Ready K p s
    → Pml4Path virt K s p
    → Mapping v K s (p * 4096) phys virt (map_page_64 heap v (p * 4096) phys virt flags s)
unfolding map_page_64
map_page_64-Mapping heap v K s p phys virt flags mode always small ready path =
    subst
      (λ o. Mapping v K s (p * 4096) phys virt (elim o as (λ x. Bool × Paging) [
        | none ↦ (false, s)
        | some table ↦ map_in_pml4 heap v phys virt flags table s
      ]))
      (sym (
        phys_to_virt64-identity v (p * 4096) mode
          (omega (arith, page_below s p ready.range ready.in_use))))
      (settle (map_in_pml4 heap v phys virt flags (p * 4096) s)
        (pml4-Mapped heap v mode phys virt flags small K s p ready path))
  where
    settle :
        (r : Bool × Paging)
        → Mapped heap K (λ words. walk_pml4 v words (p * 4096) virt) (page_target phys virt) s r
        → Mapping v K s (p * 4096) phys virt r
    settle (false, s2) exhausted = exhausted always
    settle (true, s2) m = m
