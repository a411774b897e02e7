-- ===== src/Paging/Sharing.antt =====
-- The address space that `paging64_create_user_pml4` (src/kernel/mem/paging64.c) makes: what it
-- shares with the kernel's.
use lite_core.Prelude.{
  ℕ, ◌+◌, ◌-◌, ◌*◌, ◌/◌, ◌^◌, ◌<◌, ◌≡◌, ◌≢◌, inl, inr, ◌⊎◌, Bool, true, false, ◌&&◌, ◌||◌, none,
  some, if◌then◌else◌, if-elim, if-true, if-false, ltb, leb, ◌==◌, arith, refl, sym, ap, ◌∙◌, subst,
}
use lite_core.Frames.{Memmap, alloc_frame}
use lite_core.Frames.Used.{used}
use lite_core.Frames.Alloc.{AlwaysGiven}
use lite_core.Vmem.{
  Vmem, identity, present, table_base, vmem_phys_to_virt64, read_entry, walk_pdpt, walk_pml4,
  pml4_index,
}
use lite_core.Paging.{Paging, user_entries, paging64_create_user_pml4}
use lite_core.Paging.Entries.{phys_to_virt64-identity, read_entry-identity}
use lite_core.Paging.Allocate.{InUse, InRange, Grown, frame_cases, absurd_marks}
use lite_core.Paging.Levels.{page_below}

-- The entry 0 and the entries from 256 on are the kernel's.
abbrev pub is_shared : (virt : ℕ) → Bool
is_shared virt = (pml4_index virt == 0) || leb 256 (pml4_index virt)

-- The new PML4 is on a page that was free, its entries 0 and from 256 on are those of the kernel's
-- PML4 and the others are 0; a shared address is translated as in the kernel's PML4, any other is not
-- mapped, and the words of the pages in use are kept.
pub record UserSpace (v : Vmem) (s : Paging) (r : ℕ × Paging) : Type 0 where
  pub page : ℕ
  pub at_page : r.0 ≡ page * 4096
  pub grown : Grown s.frames page r.1.frames
  pub entries :
      (i : ℕ)
      → i < 512
      → r.1.words (r.0 + i * 8)
        ≡ (if (i == 0) || leb 256 i then s.words (s.kernel_pml4 + i * 8) else 0)
  pub walk :
      (virt : ℕ)
      → walk_pml4 v r.1.words r.0 virt
        ≡ (if is_shared virt then walk_pml4 v r.1.words s.kernel_pml4 virt else 0)
  pub kept : (a : ℕ) → InUse s.frames (a / 4096) → r.1.words a ≡ s.words a

entries_inside :
    (q k i : ℕ) (s : Paging)
    → i < 512
    → (user_entries (q * 4096) (k * 4096) s).words (q * 4096 + i * 8)
      ≡ (if (i == 0) || leb 256 i then s.words (k * 4096 + i * 8) else 0)
unfolding user_entries
entries_inside q k i s lt =
    let at_i : (q * 4096 + i * 8 - q * 4096) / 8 ≡ i = omega arith in
    if-true (leb (q * 4096) (q * 4096 + i * 8) && ltb (q * 4096 + i * 8) (q * 4096 + 4096)) _
      (s.words (q * 4096 + i * 8)) (ground arith)
    ∙ ap (λ j. if (j == 0) || leb 256 j then s.words (k * 4096 + j * 8) else 0) at_i

entries_outside :
    (q k a : ℕ) (s : Paging)
    → a / 4096 ≢ q
    → (user_entries (q * 4096) (k * 4096) s).words a ≡ s.words a
unfolding user_entries
entries_outside q k a s other =
    if-false (leb (q * 4096) a && ltb a (q * 4096 + 4096)) _ (s.words a) (ground arith)

-- A walk by the entry of the PML4.
pub walk_by_entry :
    (v : Vmem) (words : ℕ → ℕ) (p virt : ℕ)
    → v.current_mode ≡ identity
    → p < 2 ^ 20 - 1
    → walk_pml4 v words (p * 4096) virt ≡ (
        let e = words (p * 4096 + pml4_index virt * 8) in
        if present e then walk_pdpt v words (table_base e) virt else 0)
unfolding walk_pml4 table_base
walk_by_entry v words p virt mode lt =
    ap (λ e. if present e then walk_pdpt v words (table_base e) virt else 0)
      (ap (λ b. read_entry v words b (pml4_index virt)) (omega arith)
        ∙ read_entry-identity v words p (pml4_index virt) mode lt (omega arith))

entry_choice :
    (v : Vmem) (words : ℕ → ℕ) (virt e : ℕ) (b : Bool)
    → (let e1 = if b then e else 0 in
        if present e1 then walk_pdpt v words (table_base e1) virt else 0)
      ≡ (if b then (if present e then walk_pdpt v words (table_base e) virt else 0) else 0)
unfolding present
entry_choice v words virt e true = refl
entry_choice v words virt e false = refl

-- The walks in the new address space.
walk_user :
    (v : Vmem) (s : Paging) (q k virt : ℕ)
    → v.current_mode ≡ identity
    → q < 2 ^ 20 - 1
    → k < 2 ^ 20 - 1
    → k ≢ q
    → let words = (user_entries (q * 4096) (k * 4096) s).words in
      walk_pml4 v words (q * 4096) virt
      ≡ (if is_shared virt then walk_pml4 v words (k * 4096) virt else 0)
walk_user v s q k virt mode q_small k_small other =
    let i = pml4_index virt in
    let words = (user_entries (q * 4096) (k * 4096) s).words in
    let entry : words (q * 4096 + i * 8)
        ≡ (if is_shared virt then words (k * 4096 + i * 8) else 0) =
      entries_inside q k i s (omega arith)
      ∙ ap (λ w. if is_shared virt then w else 0)
          (sym (entries_outside q k (k * 4096 + i * 8) s (omega (arith, other)))) in
    walk_by_entry v words q virt mode q_small
    ∙ ap (λ e. if present e then walk_pdpt v words (table_base e) virt else 0) entry
    ∙ entry_choice v words virt (words (k * 4096 + i * 8)) (is_shared virt)
    ∙ ap (λ w. if is_shared virt then w else 0) (sym (walk_by_entry v words k virt mode k_small))

-- The address space made from the frame that `r` gives.
made :
    (v : Vmem) (q k : ℕ) (s : Paging) (r : ℕ × Memmap)
    → v.current_mode ≡ identity
    → k < 2 ^ 20 - 1
    → s.kernel_pml4 ≡ k * 4096
    → r.0 ≡ q * 4096
    → q < 2 ^ 20 - 1
    → Grown s.frames q r.1
    → InUse s.frames k
    → UserSpace v s (r.0, user_entries (q * 4096) (k * 4096) (record s { frames = r.1 }))
unfolding user_entries
made v q k s r mode k_small at_k address small grown in_use =
    let s2 = user_entries (q * 4096) (k * 4096) (record s { frames = r.1 }) in
    record {
      page = q;
      at_page = address;
      grown = grown;
      entries = λ i lt.
          ap (λ a. s2.words (a + i * 8)) address
          ∙ entries_inside q k i (record s { frames = r.1 }) lt
          ∙ ap (λ a. if (i == 0) || leb 256 i then s.words (a + i * 8) else 0) (sym at_k);
      walk = λ virt.
          ap (λ a. walk_pml4 v s2.words a virt) address
          ∙ walk_user v (record s { frames = r.1 }) q k virt mode small k_small
              (grown.fresh k in_use)
          ∙ ap (λ a. if is_shared virt then walk_pml4 v s2.words a virt else 0) (sym at_k);
      kept = λ a u. entries_outside q k a (record s { frames = r.1 }) (grown.fresh (a / 4096) u);
    }

-- No frame is left and no word has changed, or there is a new address space.
abbrev pub Spaced : Vmem → Paging → ℕ × Paging → Type 0
Spaced v s r =
    ((r.0 ≡ 0)
      × (r.1.words ≡ s.words)
      × ((j : ℕ) → j < r.1.frames.frames → used r.1.frames.chunks j ≡ true))
    ⊎ UserSpace v s r

-- In the identity mode, with frames between the first page and 4 GiB, a heap that always has
-- memory for a chunk, and the kernel's PML4 on a page in use, `paging64_create_user_pml4` gives 0
-- when every frame is in use and changes no word then; else it gives a page that was free, as a
-- PML4 whose entry 0 and entries from 256 on are those of the kernel's PML4 and whose others are
-- 0: the addresses of these entries are translated as in the kernel's PML4, and no other address
-- is mapped. The words of the pages in use stay.
pub paging64_create_user_pml4-Spaced :
    (heap : ℕ → Bool) (v : Vmem) (s : Paging) (k : ℕ)
    → v.current_mode ≡ identity
    → AlwaysGiven heap
    → InRange s.frames
    → s.kernel_pml4 ≡ k * 4096
    → InUse s.frames k
    → Spaced v s (paging64_create_user_pml4 heap v s)
unfolding paging64_create_user_pml4
paging64_create_user_pml4-Spaced heap v s k mode always range at_k in_use =
    let r = alloc_frame heap s.frames in
    let s1 = record s { frames = r.1 } in
    let k_small = page_below s k range in_use in
    let positive : 0 < k = omega (arith, range.above, in_use.place) in
    let kernel_there : vmem_phys_to_virt64 v s.kernel_pml4 ≡ some (k * 4096) =
      ap (vmem_phys_to_virt64 v) at_k
      ∙ phys_to_virt64-identity v (k * 4096) mode (omega (arith, k_small)) in
    if-elim (Spaced v s) (s.kernel_pml4 == 0) (0, s) _ (λ e. absurd (not_null at_k positive e))
      (λ e. elim (frame_cases heap s.frames range) [
        | inl (null, exhausted) ↦
            if-elim (Spaced v s) (r.0 == 0) (0, s1) _ (λ e1. inl (refl, refl, exhausted always))
              (λ e1. absurd_marks (sym e1 ∙ ap (λ n. n == 0) null))
        | inr (q, address, low, small, grown) ↦
            if-elim (Spaced v s) (r.0 == 0) (0, s1) _
              (λ e1. absurd (not_null address (omega (arith, low, range.above)) e1))
              (λ e1.
                let there : vmem_phys_to_virt64 v r.0 ≡ some (q * 4096) =
                  ap (vmem_phys_to_virt64 v) address
                  ∙ phys_to_virt64-identity v (q * 4096) mode (omega (arith, small)) in
                subst
                  (λ o. Spaced v s (elim o as (λ x. ℕ × Paging) [
                    | none ↦ (0, s1)
                    | some table ↦ elim (vmem_phys_to_virt64 v s.kernel_pml4) as (λ x. ℕ × Paging) [
                      | none ↦ (0, s1)
                      | some kernel_table ↦ (r.0, user_entries table kernel_table s1)
                    ]
                  ]))
                  (sym there)
                  (subst
                    (λ o. Spaced v s (elim o as (λ x. ℕ × Paging) [
                      | none ↦ (0, s1)
                      | some kernel_table ↦ (r.0, user_entries (q * 4096) kernel_table s1)
                    ]))
                    (sym kernel_there)
                    (inr (made v q k s r mode k_small at_k address small grown in_use))))
      ])
  where
    not_null : {n q : ℕ} → n ≡ q * 4096 → 0 < q → (n == 0) ≡ true → ⊥
    not_null at_q lt e = ground arith
