-- ===== src/Paging/Ensure.antt =====
-- The steps of `map_page_64` (src/kernel/mem/paging64.c) from a table to the next one: the entry is
-- ensured, and the rest of the mapping goes on in the table it points at.
use lite_core.Prelude.{
  ℕ, ◌+◌, ◌*◌, ◌/◌, ◌<◌, ◌≡◌, ◌≢◌, inl, inr, ◌⊎◌, Bool, true, false, not, Option, none, some,
  if-elim, arith, sym, ap, ◌∙◌, subst,
}
use lite_core.Vmem.{Vmem, identity, present, large, table_base, vmem_phys_to_virt64}
use lite_core.Paging.{
  Paging, split_entry, enter_table, ensure_table, ensure_page_table, descend, alloc_page_table,
}
use lite_core.Paging.Entries.{phys_to_virt64-identity}
use lite_core.Paging.Allocate.{Tabled, Exhausted, alloc_page_table-Tabled}
use lite_core.Paging.Walk.{With, Table, Apart, AnyTable}
use lite_core.Paging.Levels.{Ready, Ensured, page_below, entered, kept_table}

-- The mapping went on: the walk gives the target, and the words of the pages of `K` are kept.
abbrev pub Mapped :
    (ℕ → Bool)
    → (K : ℕ → Type 0) (reached : (ℕ → ℕ) → ℕ) (target : ℕ) (s : Paging) → Bool × Paging
    → Type 0
Mapped heap K reached target s (false, s2) = Exhausted heap s2.frames
Mapped heap K reached target s (true, s2) =
    (reached s2.words ≡ target) × ((a : ℕ) → K (a / 4096) → s2.words a ≡ s.words a)

-- What is below a table all of whose entries are `f`.
abbrev pub Filled : (f : ℕ → ℕ) (Below : Paging → ℕ → Type 0) → Type 0
Filled f Below =
    (s1 : Paging) (q : ℕ) → ((j : ℕ) → j < 512 → s1.words (q * 4096 + j * 8) ≡ f j) → Below s1 q

new_table :
    (heap : ℕ → Bool) (v : Vmem) (K : ℕ → Type 0) (p i : ℕ) (f : ℕ → ℕ)
    (Below : Paging → ℕ → Type 0) (s : Paging) (r : Option ℕ × Paging)
    → v.current_mode ≡ identity
    → i < 512
    → Ready K p s
    → Filled f Below
    → Tabled heap s r
    → Ensured heap K p (p * 4096 + i * 8) Below s (enter_table heap v f (p * 4096 + i * 8) r)
unfolding enter_table
new_table heap v K p i f Below s (none, s') mode lt ready fresh exhausted = exhausted
new_table heap v K p i f Below s (some virt, s') mode lt ready fresh t =
    entered heap v K p i virt f Below s s' mode lt ready fresh t

absurd_bool {ℓ} : {A : Type ℓ} (b : Bool) → b ≡ true → b ≡ false → A
absurd_bool b e e' = ground arith

pub ensure_table-Ensured :
    (heap : ℕ → Bool) (v : Vmem) (K : ℕ → Type 0) (p i : ℕ) (Below : Paging → ℕ → Type 0)
    (s : Paging)
    → v.current_mode ≡ identity
    → i < 512
    → Ready K p s
    → Filled (λ j. 0) Below
    → ((s1 : Paging) (q : ℕ) → Apart p s s1 → q ≢ p → Below s q → Below s1 q)
    → (present (s.words (p * 4096 + i * 8)) ≡ false) ⊎ Table s K p (p * 4096 + i * 8) Below
    → Ensured heap K p (p * 4096 + i * 8) Below s (ensure_table heap v (p * 4096 + i * 8) s)
unfolding ensure_table
ensure_table-Ensured heap v K p i Below s mode lt ready fresh keep path =
    let slot = p * 4096 + i * 8 in
    if-elim (Ensured heap K p slot Below s) (present (s.words slot)) _ _
      (λ there. elim path [
        | inl absent ↦ absurd_bool (present (s.words slot)) there absent
        | inr t ↦ kept_table K p i Below s lt ready keep t
      ])
      (λ absent.
        new_table heap v K p i (λ j. 0) Below s (alloc_page_table heap v s) mode lt ready fresh
          (alloc_page_table-Tabled heap v s mode ready.range))

pub ensure_page_table-Ensured :
    (heap : ℕ → Bool) (v : Vmem) (K : ℕ → Type 0) (p i : ℕ) (s : Paging)
    → v.current_mode ≡ identity
    → i < 512
    → Ready K p s
    → (present (s.words (p * 4096 + i * 8)) ≡ false)
      ⊎ ((large (s.words (p * 4096 + i * 8)) ≡ true) ⊎ Table s K p (p * 4096 + i * 8) AnyTable)
    → Ensured heap K p (p * 4096 + i * 8) AnyTable s (ensure_page_table heap v (p * 4096 + i * 8) s)
unfolding ensure_page_table
ensure_page_table-Ensured heap v K p i s mode lt ready path =
    let slot = p * 4096 + i * 8 in
    let tabled = alloc_page_table-Tabled heap v s mode ready.range in
    if-elim (Ensured heap K p slot AnyTable s) (not (present (s.words slot))) _ _
      (λ absent.
        new_table heap v K p i (λ j. 0) AnyTable s (alloc_page_table heap v s) mode lt ready
          (λ s1 q h. tt) tabled)
      (λ there.
        if-elim (Ensured heap K p slot AnyTable s) (large (s.words slot)) _ _
          (λ big.
            new_table heap v K p i (split_entry (s.words slot)) AnyTable s
              (alloc_page_table heap v s) mode lt ready (λ s1 q h. tt) tabled)
          (λ small. elim path [
            | inl absent ↦ absurd_bool (not (present (s.words slot))) (ap not absent) there
            | inr (inl big) ↦ absurd_bool (large (s.words slot)) big small
            | inr (inr t) ↦ kept_table K p i AnyTable s lt ready (λ s1 q w ne b. b) t
          ]))

-- If the next level maps at its table, and the walk from this table goes on there, then this level maps.
pub descend-Mapped :
    (heap : ℕ → Bool) (v : Vmem) (K : ℕ → Type 0) (p i : ℕ) (Below : Paging → ℕ → Type 0)
    (s : Paging) (target : ℕ) (next : ℕ → Paging → Bool × Paging) (reached : (ℕ → ℕ) → ℕ)
    (reached_from : ℕ → (ℕ → ℕ) → ℕ) (r : Bool × Paging)
    → v.current_mode ≡ identity
    → ((s1 : Paging) (q : ℕ)
        → Ready (With K p) q s1
        → Below s1 q
        → Mapped heap (With K p) (reached_from (q * 4096)) target s1 (next (q * 4096) s1))
    → ((words : ℕ → ℕ) (q : ℕ)
        → present (words (p * 4096 + i * 8)) ≡ true
        → large (words (p * 4096 + i * 8)) ≡ false
        → table_base (words (p * 4096 + i * 8)) ≡ q * 4096
        → reached words ≡ reached_from (q * 4096) words)
    → i < 512
    → Ensured heap K p (p * 4096 + i * 8) Below s r
    → Mapped heap K reached target s (descend heap v (p * 4096 + i * 8) next r)
unfolding descend
descend-Mapped heap v K p i Below s target next reached reached_from (false, s1) mode goes_on walks
      lt exhausted =
    exhausted
descend-Mapped heap v K p i Below s target next reached reached_from (true, s1) mode goes_on walks
      lt c =
    let slot = p * 4096 + i * 8 in
    let translated : vmem_phys_to_virt64 v (table_base (s1.words slot)) ≡ some (c.page * 4096) =
      ap (vmem_phys_to_virt64 v) c.base
      ∙ phys_to_virt64-identity v (c.page * 4096) mode
          (omega (arith, page_below s1 c.page c.ready.range c.ready.in_use)) in
    subst
      (λ o.
        Mapped heap K reached target s
          (elim o as (λ x. Bool × Paging) [ none ↦ (false, s1) | some table ↦ next table s1 ]))
      (sym translated) (after (next (c.page * 4096) s1) (goes_on s1 c.page c.ready c.below))
  where
    after :
        (r2 : Bool × Paging)
        → Mapped heap (With K p) (reached_from (c.page * 4096)) target s1 r2
        → Mapped heap K reached target s r2
    after (false, s2) exhausted = exhausted
    after (true, s2) (h, kept) =
        let same : s2.words (p * 4096 + i * 8) ≡ s1.words (p * 4096 + i * 8) =
          kept (p * 4096 + i * 8) (inr (omega arith)) in
        (
          walks s2.words c.page (ap present same ∙ c.is_present) (ap large same ∙ c.is_small)
                (ap table_base same ∙ c.base)
              ∙ h,
          λ a k. kept a (inl k) ∙ c.kept a k,
        )
