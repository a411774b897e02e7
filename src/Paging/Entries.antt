-- ===== src/Paging/Entries.antt =====
-- The bit fields of the entries in src/kernel/mem/paging64.c, and the words of a table by its page.
use lite_core.Prelude.{
  ℕ, ◌+◌, ◌-◌, ◌*◌, ◌/◌, ◌^◌, ◌<◌, ◌≡◌, ◌≢◌, true, false, none, some, if-false, ltb, ◌==◌, arith,
  ap, ◌∙◌,
}
use lite_core.Vmem.{
  Vmem, identity, translate, vmem_phys_to_virt, vmem_phys_to_virt64, vmem_virt_to_phys64,
  virt_to_phys_in, entry_with, read_entry, present, large, table_base,
}
use lite_core.Paging.{fill, clear_nx, table_entry, page_entry}

pub present-clear_nx : (e : ℕ) → present (clear_nx e) ≡ present e
unfolding present clear_nx
present-clear_nx e = ap (λ k. k == 1) (omega arith)

pub large-clear_nx : (e : ℕ) → large (clear_nx e) ≡ large e
unfolding large clear_nx
large-clear_nx e = ap (λ k. k == 1) (omega arith)

-- An entry for the table at page `q`.
pub present-table_entry : (q : ℕ) → q < 2 ^ 20 → present (table_entry (q * 4096)) ≡ true
unfolding present table_entry clear_nx table_base
present-table_entry q lt = ground arith

pub large-table_entry : (q : ℕ) → q < 2 ^ 20 → large (table_entry (q * 4096)) ≡ false
unfolding large table_entry clear_nx table_base
large-table_entry q lt = ground arith

pub table_base-table_entry : (q : ℕ) → q < 2 ^ 20 → table_base (table_entry (q * 4096)) ≡ q * 4096
unfolding table_base table_entry clear_nx
table_base-table_entry q lt = omega arith

pub present-page_entry : (phys flags : ℕ) → present (page_entry phys flags) ≡ true
unfolding present page_entry clear_nx table_base
present-page_entry phys flags = ground arith

pub table_base-page_entry :
    (phys flags : ℕ) → phys < 2 ^ 63 → table_base (page_entry phys flags) ≡ phys / 2 ^ 12 * 2 ^ 12
unfolding present page_entry clear_nx table_base
table_base-page_entry phys flags lt = ground arith

-- In the identity mode an address below 4 GiB less a byte is its own translation.
pub phys_to_virt-identity :
    (v : Vmem) (p : ℕ) → v.current_mode ≡ identity → p < 2 ^ 32 - 1 → vmem_phys_to_virt v p ≡ p
unfolding vmem_phys_to_virt translate
phys_to_virt-identity v p mode lt =
    if-false (p == 0xFFFFFFFF) 0xFFFFFFFF (translate v v.current_mode p) (ground arith)
    ∙ ap (λ m. translate v m p) mode

pub phys_to_virt64-identity :
    (v : Vmem) (p : ℕ)
    → v.current_mode ≡ identity
    → p < 2 ^ 32 - 1
    → vmem_phys_to_virt64 v p ≡ some p
unfolding vmem_phys_to_virt64
phys_to_virt64-identity v p mode lt =
    let same : vmem_phys_to_virt v p ≡ p = phys_to_virt-identity v p mode lt in
    if-false (ltb 0xFFFFFFFF p) none _ (ground arith)
    ∙ if-false (vmem_phys_to_virt v p == 0xFFFFFFFF) none (some (vmem_phys_to_virt v p))
        (ground (arith, same))
    ∙ ap some same

pub virt_to_phys64-identity :
    (v : Vmem) (words : ℕ → ℕ) (cr3 p : ℕ)
    → v.current_mode ≡ identity
    → vmem_virt_to_phys64 v words cr3 p ≡ p
unfolding vmem_virt_to_phys64 virt_to_phys_in
virt_to_phys64-identity v words cr3 p mode = ap (λ m. virt_to_phys_in m v words cr3 p) mode

pub read_entry-identity :
    (v : Vmem) (words : ℕ → ℕ) (q i : ℕ)
    → v.current_mode ≡ identity
    → q < 2 ^ 20 - 1
    → i < 512
    → read_entry v words (q * 4096) i ≡ words (q * 4096 + i * 8)
unfolding read_entry entry_with
read_entry-identity v words q i mode lt small =
    ap (entry_with words) (phys_to_virt64-identity v (q * 4096 + i * 8) mode (omega arith))

pub fill-inside :
    (q i : ℕ) (f words : ℕ → ℕ) → i < 512 → fill (q * 4096) f words (q * 4096 + i * 8) ≡ f i
unfolding fill
fill-inside q i f words small =
    let at_i : (q * 4096 + i * 8 - q * 4096) / 8 ≡ i = omega arith in ground arith

pub fill-outside : (q a : ℕ) (f words : ℕ → ℕ) → a / 4096 ≢ q → fill (q * 4096) f words a ≡ words a
unfolding fill
fill-outside q a f words other = ground arith
