-- ===== src/Paging/Allocate.antt =====
-- The page tables among the frames: what `alloc_page_table` (src/kernel/mem/paging.c) gives.
use lite_core.Prelude.{
  ℕ, ◌+◌, ◌-◌, ◌*◌, ◌/◌, ◌^◌, ◌≤◌, ◌<◌, ◌≡◌, ◌≢◌, inl, inr, ◌⊎◌, Bool, true, false, Option, none,
  some, if-elim, if-true, ◌==◌, arith, refl, sym, ap, ◌∙◌, subst, u32,
}
use lite_core.Frames.{Memmap, alloc_frame}
use lite_core.Frames.Used.{used}
use lite_core.Frames.Alloc.{AlwaysGiven, Given, alloc_frame-Allocated}
use lite_core.Frames.Range.{alloc_frame-SameRange}
use lite_core.Vmem.{Vmem, identity, vmem_phys_to_virt}
use lite_core.Paging.{Paging, fill, alloc_page_table}
use lite_core.Paging.Entries.{fill-outside, phys_to_virt-identity}

-- The frames lie above the first page and below 4 GiB.
pub record InRange (m : Memmap) : Type 0 where
  pub above : 0 < m.start_frame
  pub under : m.start_frame + m.frames < 2 ^ 20

-- Page `q` is a frame that is in use.
pub record InUse (m : Memmap) (q : ℕ) : Type 0 where
  pub frame : ℕ
  pub place : q ≡ m.start_frame + frame
  pub below : frame < m.frames
  pub mark : used m.chunks frame ≡ true

-- A page that was free is now in use, as are those that were.
pub record Grown (m : Memmap) (q : ℕ) (m' : Memmap) : Type 0 where
  pub fresh : (x : ℕ) → InUse m x → x ≢ q
  pub taken : InUse m' q
  pub still : (x : ℕ) → InUse m x → InUse m' x
  pub range : InRange m'

-- Where the heap has memory for the marks of the frames, every frame is in use.
abbrev pub Exhausted : (ℕ → Bool) → Memmap → Type 0
Exhausted heap m = AlwaysGiven heap → (j : ℕ) → j < m.frames → used m.chunks j ≡ true

pub absurd_marks {ℓ} : {A : Type ℓ} → false ≡ true → A
absurd_marks e = ground arith

Given-Grown :
    (heap : ℕ → Bool) (m : Memmap) (i : ℕ)
    → InRange m
    → Given heap m (alloc_frame heap m) i
    → Grown m (m.start_frame + i) (alloc_frame heap m).1
Given-Grown heap m i range g =
    let same = alloc_frame-SameRange heap m in
    record {
      fresh = λ x w e.
          absurd_marks (sym g.free ∙ ap (used m.chunks) (omega (arith, w.place, e)) ∙ w.mark);
      taken = record {
        frame = i;
        place = ap (λ k. k + i) (sym same.0);
        below = subst (λ n. i < n) (sym same.1) g.in_range;
        mark = g.taken i ∙ if-true (i == i) true (used m.chunks i) (ground arith);
      };
      still = λ x w. record {
        frame = w.frame;
        place = w.place ∙ ap (λ k. k + w.frame) (sym same.0);
        below = subst (λ n. w.frame < n) (sym same.1) w.below;
        mark =
            g.taken w.frame
            ∙ if-elim (λ b. b ≡ true) (w.frame == i) true (used m.chunks w.frame) (λ e. refl)
                (λ e. w.mark);
      };
      range = record {
        above = omega (arith, same.0, range.above);
        under = omega (arith, same.0, same.1, range.under);
      };
    }

-- The table that `alloc_page_table` gives: an empty page, and the other words as they were.
pub record NewTable (s : Paging) (virt : ℕ) (s' : Paging) : Type 0 where
  pub page : ℕ
  pub at_page : virt ≡ page * 4096
  pub grown : Grown s.frames page s'.frames
  pub others : (a : ℕ) → a / 4096 ≢ page → s'.words a ≡ s.words a
  pub same_cr3 : s'.cr3 ≡ s.cr3

abbrev pub Tabled : (ℕ → Bool) → Paging → Option ℕ × Paging → Type 0
Tabled heap s (none, s') = Exhausted heap s'.frames
Tabled heap s (some virt, s') = NewTable s virt s'

-- No frame is left, or the frame of page `q` is given.
pub frame_cases :
    (heap : ℕ → Bool) (m : Memmap)
    → InRange m
    → let r = alloc_frame heap m in
      ((r.0 ≡ 0) × Exhausted heap r.1)
      ⊎ ((q : ℕ) × (r.0 ≡ q * 4096) × (m.start_frame ≤ q) × (q < 2 ^ 20 - 1) × Grown m q r.1)
frame_cases heap m range =
    let same = alloc_frame-SameRange heap m in
    elim (alloc_frame-Allocated heap m (omega (arith, range.under))) [
      | inl refused ↦ inl (
        refused.null,
        λ always j lt. refused.same j ∙ refused.full always j (subst (λ n. j < n) same.1 lt),
      )
      | inr (i, g) ↦ inr (
        m.start_frame + i,
        g.address,
        omega arith,
        omega (arith, g.in_range, range.under),
        Given-Grown heap m i range g,
      )
    ]

pub alloc_page_table-Tabled :
    (heap : ℕ → Bool) (v : Vmem) (s : Paging)
    → v.current_mode ≡ identity
    → InRange s.frames
    → Tabled heap s (alloc_page_table heap v s)
unfolding alloc_page_table
alloc_page_table-Tabled heap v s mode range =
    let r = alloc_frame heap s.frames in
    let virt = vmem_phys_to_virt v (u32 r.0) in
    elim (frame_cases heap s.frames range) [
      | inl (null, exhausted) ↦
          if-elim (Tabled heap s) (r.0 == 0) _ _ (λ e. exhausted)
            (λ e. absurd_marks (sym e ∙ ap (λ k. k == 0) null))
      | inr (q, address, low, small, grown) ↦
          let same : u32 r.0 ≡ q * 4096 = omega (arith, address, small) in
          let at_q : virt ≡ q * 4096 =
            ap (vmem_phys_to_virt v) same ∙ phys_to_virt-identity v (q * 4096) mode (omega arith) in
          if-elim (Tabled heap s) (r.0 == 0) _ _
            (λ e always.
              let null : r.0 ≡ 0 = ground arith in absurd (no_zero null address low range.above))
            (λ e.
              if-elim (Tabled heap s) (virt == 0) _ _
                (λ e' always.
                  let null : virt ≡ 0 = ground arith in absurd (no_zero null at_q low range.above))
                (λ e'. record {
                  page = q;
                  at_page = at_q;
                  grown = grown;
                  others = λ a other.
                      ap (λ b. fill b (λ i. 0) s.words a) same
                      ∙ fill-outside q a (λ i. 0) s.words other;
                  same_cr3 = refl;
                }))
    ]
  where
    no_zero : {n q start : ℕ} → n ≡ 0 → n ≡ q * 4096 → start ≤ q → 0 < start → ⊥
    no_zero null at_q low lt = omega arith
