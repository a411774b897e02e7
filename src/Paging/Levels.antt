-- ===== src/Paging/Levels.antt =====
-- One level of `map_page_64` (src/kernel/mem/paging64.c): the entry of a table is made to point at
-- a table of the next level, and the words of the tables met before are kept.
use lite_core.Prelude.{
  ℕ, ◌+◌, ◌-◌, ◌*◌, ◌/◌, ◌^◌, ◌<◌, ◌≡◌, ◌≢◌, inl, inr, Bool, true, false, some, if-elim, if-true,
  if-false, update, ◌==◌, arith, refl, sym, ap, ◌∙◌, subst,
}
use lite_core.Vmem.{Vmem, identity, present, large, table_base, vmem_virt_to_phys64}
use lite_core.Paging.{Paging, set_word, fill, clear_nx, table_entry, enter_table}
use lite_core.Paging.Entries.{
  present-clear_nx, large-clear_nx, present-table_entry, large-table_entry, table_base-table_entry,
  virt_to_phys64-identity, fill-inside, fill-outside,
}
use lite_core.Paging.Allocate.{InRange, InUse, NewTable, Exhausted}
use lite_core.Paging.Walk.{With, Table, Apart}

-- Page `p` holds a table, and so do the pages of `K`, which are others.
pub record Ready (K : ℕ → Type 0) (p : ℕ) (s : Paging) : Type 0 where
  pub range : InRange s.frames
  pub met : (x : ℕ) → K x → InUse s.frames x
  pub unmet : K p → ⊥
  pub in_use : InUse s.frames p

-- The entry at `slot` of page `p` points at a table that is ready for the next level.
pub record Child (K : ℕ → Type 0) (p slot : ℕ) (Below : Paging → ℕ → Type 0) (s s1 : Paging)
    : Type 0 where
  pub page : ℕ
  pub is_present : present (s1.words slot) ≡ true
  pub is_small : large (s1.words slot) ≡ false
  pub base : table_base (s1.words slot) ≡ page * 4096
  pub ready : Ready (With K p) page s1
  pub kept : (a : ℕ) → K (a / 4096) → s1.words a ≡ s.words a
  pub below : Below s1 page

abbrev pub Ensured :
    (ℕ → Bool)
    → (K : ℕ → Type 0) (p slot : ℕ) (Below : Paging → ℕ → Type 0) (s : Paging) → Bool × Paging
    → Type 0
Ensured heap K p slot Below s (false, s1) = Exhausted heap s1.frames
Ensured heap K p slot Below s (true, s1) = Child K p slot Below s s1

pub page_below : (s : Paging) (q : ℕ) → InRange s.frames → InUse s.frames q → q < 2 ^ 20 - 1
page_below s q range u = omega (arith, range.under, u.place, u.below)

pub at_slot : (slot w : ℕ) (words : ℕ → ℕ) → update words slot w slot ≡ w
at_slot slot w words = if-true (slot == slot) w (words slot) (ground arith)

pub off_slot :
    (p i w a : ℕ) (words : ℕ → ℕ)
    → i < 512
    → a / 4096 ≢ p
    → update words (p * 4096 + i * 8) w a ≡ words a
off_slot p i w a words lt other = if-false _ w (words a) (ground arith)

-- A page below 4 GiB has not the address that stands for an error.
not_limit : {phys q : ℕ} → phys ≡ q * 4096 → q < 2 ^ 20 - 1 → (phys == 2 ^ 64 - 1) ≡ true → ⊥
not_limit at_q small e = ground arith

-- A new table is entered.
pub entered :
    (heap : ℕ → Bool) (v : Vmem) (K : ℕ → Type 0) (p i virt : ℕ) (f : ℕ → ℕ)
    (Below : Paging → ℕ → Type 0) (s s' : Paging)
    → v.current_mode ≡ identity
    → i < 512
    → Ready K p s
    → ((s1 : Paging) (q : ℕ) → ((j : ℕ) → j < 512 → s1.words (q * 4096 + j * 8) ≡ f j) → Below s1 q)
    → NewTable s virt s'
    → Ensured heap K p
        (p * 4096 + i * 8)
        Below
        s
        (enter_table heap v f (p * 4096 + i * 8) (some virt, s'))
unfolding enter_table
entered heap v K p i virt f Below s s' mode lt ready fresh t =
    let slot = p * 4096 + i * 8 in
    let q = t.page in
    let filled = fill virt f s'.words in
    let phys = vmem_virt_to_phys64 v filled s'.cr3 virt in
    let same : phys ≡ q * 4096 = virt_to_phys64-identity v filled s'.cr3 virt mode ∙ t.at_page in
    let q_small : q < 2 ^ 20 - 1 = page_below s' q t.grown.range t.grown.taken in
    let apart : p ≢ q = t.grown.fresh p ready.in_use in
    let words1 = update filled slot (table_entry phys) in
    let entry : words1 slot ≡ table_entry (q * 4096) =
      at_slot slot (table_entry phys) filled ∙ ap table_entry same in
    let other : (a : ℕ) → a / 4096 ≢ p → a / 4096 ≢ q → words1 a ≡ s.words a = λ a ne_p ne_q.
      off_slot p i (table_entry phys) a filled lt ne_p
      ∙ ap (λ b. fill b f s'.words a) t.at_page
      ∙ fill-outside q a f s'.words ne_q
      ∙ t.others a ne_q in
    if-elim (Ensured heap K p slot Below s) (phys == 2 ^ 64 - 1) _ _
      (λ e. absurd (not_limit same q_small e))
      (λ e. record {
        page = q;
        is_present = ap present entry ∙ present-table_entry q (omega (arith, q_small));
        is_small = ap large entry ∙ large-table_entry q (omega (arith, q_small));
        base = ap table_base entry ∙ table_base-table_entry q (omega (arith, q_small));
        ready = record {
          range = t.grown.range;
          met = λ x h. elim h [
            | inl k ↦ t.grown.still x (ready.met x k)
            | inr is_p ↦ t.grown.still x (subst (InUse s.frames) (sym is_p) ready.in_use)
          ];
          unmet = λ h. elim h [
            | inl k ↦ t.grown.fresh q (ready.met q k) refl
            | inr is_p ↦ apart (sym is_p)
          ];
          in_use = t.grown.taken;
        };
        kept = λ a k.
            other a (λ is_p. ready.unmet (subst K is_p k))
              (λ is_q. t.grown.fresh (a / 4096) (ready.met (a / 4096) k) is_q);
        below = fresh _ q (λ j small.
            off_slot p i (table_entry phys) (q * 4096 + j * 8) filled lt (omega (arith, apart))
            ∙ ap (λ b. fill b f s'.words (q * 4096 + j * 8)) t.at_page
            ∙ fill-inside q j f s'.words small);
      })

-- The table that is there already is kept.
pub kept_table :
    (K : ℕ → Type 0) (p i : ℕ) (Below : Paging → ℕ → Type 0) (s : Paging)
    → i < 512
    → Ready K p s
    → ((s1 : Paging) (q : ℕ) → Apart p s s1 → q ≢ p → Below s q → Below s1 q)
    → Table s K p (p * 4096 + i * 8) Below
    → Child K p
        (p * 4096 + i * 8)
        Below
        s
        (set_word (p * 4096 + i * 8) (clear_nx (s.words (p * 4096 + i * 8))) s)
kept_table K p i Below s lt ready keep t =
    let slot = p * 4096 + i * 8 in
    let entry = s.words slot in
    let words1 = update s.words slot (clear_nx entry) in
    let now : words1 slot ≡ clear_nx entry = at_slot slot (clear_nx entry) s.words in
    record {
      page = t.page;
      is_present = ap present now ∙ present-clear_nx entry ∙ t.is_present;
      is_small = ap large now ∙ large-clear_nx entry ∙ t.is_small;
      base = ap table_base now ∙ t.base;
      ready = record {
        range = ready.range;
        met = λ x h. elim h [
          | inl k ↦ ready.met x k
          | inr is_p ↦ subst (InUse s.frames) (sym is_p) ready.in_use
        ];
        unmet = λ h. elim h [ inl k ↦ t.unmet k | inr is_p ↦ t.other is_p ];
        in_use = t.in_use;
      };
      kept =
          λ a k. off_slot p i (clear_nx entry) a s.words lt (λ is_p. ready.unmet (subst K is_p k));
      below =
          keep _ t.page
            (record {
              words = λ a ne. off_slot p i (clear_nx entry) a s.words lt ne;
              frames = λ x u. u;
            })
            t.other t.below;
    }
