-- ===== src/Paging/Walk.antt =====
-- The existing tables on the way of a virtual address (src/kernel/mem/paging64.c): what a mapping
-- needs of them, and what is kept of it by a write to another page.
use lite_core.Prelude.{
  ℕ, ◌+◌, ◌*◌, ◌/◌, ◌<◌, ◌≡◌, ◌≢◌, inl, inr, ◌⊎◌, true, false, arith, sym, ap, ◌∙◌, subst,
}
use lite_core.Vmem.{present, large, table_base, pdpt_index, pd_index, pml4_index}
use lite_core.Paging.{Paging, clear_nx}
use lite_core.Paging.Allocate.{InUse}

-- The pages of `K` and page `p`.
abbrev pub With : (ℕ → Type 0) → ℕ → ℕ → Type 0
With K p x = K x ⊎ (x ≡ p)

-- The entry at `slot` of page `p` points at a table, on a page in use that is not one of those met
-- before. Its NX bit may be set.
pub record Table (s : Paging) (K : ℕ → Type 0) (p slot : ℕ) (Below : Paging → ℕ → Type 0)
    : Type 0 where
  pub is_present : present (s.words slot) ≡ true
  pub is_small : large (s.words slot) ≡ false
  pub page : ℕ
  pub base : table_base (clear_nx (s.words slot)) ≡ page * 4096
  pub in_use : InUse s.frames page
  pub unmet : K page → ⊥
  pub other : page ≢ p
  pub below : Below s page

-- Nothing is asked of the entries of a page table.
abbrev pub AnyTable : Paging → ℕ → Type 0
AnyTable s p = Unit {0}

abbrev pub PdPath : (virt : ℕ) → (ℕ → Type 0) → Paging → ℕ → Type 0
PdPath virt K s p =
    let slot = p * 4096 + pd_index virt * 8 in
    (present (s.words slot) ≡ false) ⊎ ((large (s.words slot) ≡ true) ⊎ Table s K p slot AnyTable)

abbrev pub PdptPath : (virt : ℕ) → (ℕ → Type 0) → Paging → ℕ → Type 0
PdptPath virt K s p =
    let slot = p * 4096 + pdpt_index virt * 8 in
    (present (s.words slot) ≡ false) ⊎ Table s K p slot (PdPath virt (With K p))

abbrev pub Pml4Path : (virt : ℕ) → (ℕ → Type 0) → Paging → ℕ → Type 0
Pml4Path virt K s p =
    let slot = p * 4096 + pml4_index virt * 8 in
    (present (s.words slot) ≡ false) ⊎ Table s K p slot (PdptPath virt (With K p))

-- The two states differ at most on page `p0`, which was met before.
pub record Apart (p0 : ℕ) (s s1 : Paging) : Type 0 where
  pub words : (a : ℕ) → a / 4096 ≢ p0 → s1.words a ≡ s.words a
  pub frames : (x : ℕ) → InUse s.frames x → InUse s1.frames x

slot-same :
    (p0 q i : ℕ) (s s1 : Paging)
    → Apart p0 s s1
    → q ≢ p0
    → i < 512
    → s1.words (q * 4096 + i * 8) ≡ s.words (q * 4096 + i * 8)
slot-same p0 q i s s1 w ne lt = w.words (q * 4096 + i * 8) (omega arith)

Table-keep :
    (p0 p i : ℕ) (K : ℕ → Type 0) (s s1 : Paging) (Below : Paging → ℕ → Type 0)
    → Apart p0 s s1
    → p ≢ p0
    → i < 512
    → ((q : ℕ) → (K q → ⊥) → Below s q → Below s1 q)
    → Table s K p (p * 4096 + i * 8) Below
    → Table s1 K p (p * 4096 + i * 8) Below
Table-keep p0 p i K s s1 Below w ne lt keep t =
    let same = slot-same p0 p i s s1 w ne lt in
    record {
      is_present = ap present same ∙ t.is_present;
      is_small = ap large same ∙ t.is_small;
      page = t.page;
      base = ap (λ w. table_base (clear_nx w)) same ∙ t.base;
      in_use = w.frames t.page t.in_use;
      unmet = t.unmet;
      other = t.other;
      below = keep t.page t.unmet t.below;
    }

pub PdPath-keep :
    (virt p0 p : ℕ) (K : ℕ → Type 0) (s s1 : Paging)
    → Apart p0 s s1
    → p ≢ p0
    → PdPath virt K s p
    → PdPath virt K s1 p
PdPath-keep virt p0 p K s s1 w ne h =
    let same = slot-same p0 p (pd_index virt) s s1 w ne (omega arith) in
    elim h [
      | inl absent ↦ inl (ap present same ∙ absent)
      | inr (inl big) ↦ inr (inl (ap large same ∙ big))
      | inr (inr t) ↦ inr (
          inr (Table-keep p0 p (pd_index virt) K s s1 AnyTable w ne (omega arith) (λ q out b. b) t))
    ]

pub PdptPath-keep :
    (virt p0 p : ℕ) (K : ℕ → Type 0) (s s1 : Paging)
    → Apart p0 s s1
    → K p0
    → p ≢ p0
    → PdptPath virt K s p
    → PdptPath virt K s1 p
PdptPath-keep virt p0 p K s s1 w met ne h = elim h [
  | inl absent ↦
      inl (ap present (slot-same p0 p (pdpt_index virt) s s1 w ne (omega arith)) ∙ absent)
  | inr t ↦ inr (
      Table-keep p0 p (pdpt_index virt) K s s1 (PdPath virt (With K p)) w ne (omega arith)
        (λ q out b. PdPath-keep virt p0 q (With K p) s s1 w (λ e. out (subst K (sym e) met)) b) t)
]
