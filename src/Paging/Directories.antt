-- ===== src/Paging/Directories.antt =====
-- The page directories of the kernel's own PML4 (`paging64_init_kernel_pml4` of
-- src/kernel/mem/paging64.c), one at a time.
use lite_core.Prelude.{
  ℕ, zero, suc, ◌+◌, ◌*◌, ◌/◌, ◌≤◌, ◌<◌, ◌≡◌, ◌≢◌, inl, inr, ◌⊎◌, Bool, true, false, Option, none,
  some, if-elim, if-false, ◌==◌, arith, refl, sym, ap, ◌∙◌, subst,
}
use lite_core.Frames.{alloc_frame}
use lite_core.Vmem.{Vmem, identity, table_base, vmem_phys_to_virt64}
use lite_core.Paging.{Paging, set_word, fill}
use lite_core.Paging.Entries.{phys_to_virt64-identity, fill-inside, fill-outside}
use lite_core.Paging.Allocate.{InUse, InRange, Grown, Exhausted, frame_cases, absurd_marks}
use lite_core.Paging.Levels.{at_slot, off_slot}
use lite_core.Paging.Boot.{
  identity_entry, low_entry, with_address, new_frame, enter_pd, add_pd, map_low,
}

-- A frame that was free, at its own address.
pub record Framed (s : Paging) (phys virt : ℕ) (s' : Paging) : Type 0 where
  pub page : ℕ
  pub at_phys : phys ≡ page * 4096
  pub at_virt : virt ≡ page * 4096
  pub grown : Grown s.frames page s'.frames
  pub same_words : s'.words ≡ s.words

abbrev pub FrameResult : (ℕ → Bool) → Paging → Option (ℕ × ℕ) × Paging → Type 0
FrameResult heap s (none, s') = Exhausted heap s'.frames
FrameResult heap s (some (phys, virt), s') = Framed s phys virt s'

pub new_frame-result :
    (heap : ℕ → Bool) (v : Vmem) (s : Paging)
    → v.current_mode ≡ identity
    → InRange s.frames
    → FrameResult heap s (new_frame heap v s)
unfolding new_frame with_address
new_frame-result heap v s mode range =
    let r = alloc_frame heap s.frames in
    let s1 = record s { frames = r.1 } in
    elim (frame_cases heap s.frames range) [
      | inl (null, exhausted) ↦
          if-elim (FrameResult heap s) (r.0 == 0) (none, s1) _ (λ e. exhausted)
            (λ e. absurd_marks (sym e ∙ ap (λ k. k == 0) null))
      | inr (q, address, low, small, grown) ↦
          if-elim (FrameResult heap s) (r.0 == 0) (none, s1) _
            (λ e. absurd (not_null address (omega (arith, low, range.above)) e))
            (λ e.
              subst (λ o. FrameResult heap s (with_address heap v r.0 o, s1))
                (sym (
                  ap (vmem_phys_to_virt64 v) address
                  ∙ phys_to_virt64-identity v (q * 4096) mode (omega (arith, small))))
                (record {
                  page = q;
                  at_phys = address;
                  at_virt = refl;
                  grown = grown;
                  same_words = refl;
                }))
    ]
  where
    not_null : {n q : ℕ} → n ≡ q * 4096 → 0 < q → (n == 0) ≡ true → ⊥
    not_null at_q lt e = ground arith

-- Page directory `j` of the PDPT on page `q1` stands on a page of its own and maps its GiB to itself.
pub record Directory (s : Paging) (q0 q1 j : ℕ) : Type 0 where
  pub page : ℕ
  pub in_use : InUse s.frames page
  pub no_pml4 : page ≢ q0
  pub no_pdpt : page ≢ q1
  pub entry : s.words (q1 * 4096 + j * 8) ≡ page * 4096 + 7
  pub entries : (i : ℕ) → i < 512 → s.words (page * 4096 + i * 8) ≡ identity_entry j i

-- The PML4 on page `q0` with the entries `firmware`, the PDPT on page `q1` and its first `n` page
-- directories.
pub record Low (firmware : ℕ → ℕ) (s : Paging) (q0 q1 n : ℕ) : Type 0 where
  pub range : InRange s.frames
  pub pml4 : InUse s.frames q0
  pub pdpt : InUse s.frames q1
  pub two : q1 ≢ q0
  pub copied : (i : ℕ) → i < 512 → s.words (q0 * 4096 + i * 8) ≡ firmware i
  pub directories : (j : ℕ) → j < n → Directory s q0 q1 j

abbrev pub LowResult : (ℕ → Bool) → (firmware : ℕ → ℕ) (q0 q1 n : ℕ) → Bool × Paging → Type 0
LowResult heap firmware q0 q1 n (false, s) = Exhausted heap s.frames
LowResult heap firmware q0 q1 n (true, s) = Low firmware s q0 q1 n

Framed-filled :
    (s s' : Paging) (phys virt : ℕ) (f : ℕ → ℕ) (t : Framed s phys virt s') (a : ℕ)
    → a / 4096 ≢ t.page
    → fill virt f s'.words a ≡ s.words a
Framed-filled s s' phys virt f t a ne =
    ap (λ b. fill b f s'.words a) t.at_virt
    ∙ fill-outside t.page a f s'.words ne
    ∙ ap (λ g. g a) t.same_words

-- A page directory that is there is kept when the next one is entered.
Directory-kept :
    (s s' : Paging) (q0 q1 j n phys virt : ℕ) (f : ℕ → ℕ) (t : Framed s phys virt s')
    → n < 512
    → j < n
    → InUse s.frames q1
    → Directory s q0 q1 j
    → Directory
        (set_word (q1 * 4096 + n * 8) (low_entry phys) (record s' { words = fill virt f s'.words }))
        q0
        q1
        j
Directory-kept s s' q0 q1 j n phys virt f t lt before pdpt d =
    let away : q1 ≢ t.page = t.grown.fresh q1 pdpt in
    let other : d.page ≢ t.page = t.grown.fresh d.page d.in_use in
    record {
      page = d.page;
      in_use = t.grown.still d.page d.in_use;
      no_pml4 = d.no_pml4;
      no_pdpt = d.no_pdpt;
      entry =
          if-false (q1 * 4096 + j * 8 == q1 * 4096 + n * 8) (low_entry phys) _ (ground arith)
          ∙ Framed-filled s s' phys virt f t (q1 * 4096 + j * 8) (omega (arith, away))
          ∙ d.entry;
      entries = λ i small.
          off_slot q1 n (low_entry phys) (d.page * 4096 + i * 8) (fill virt f s'.words) lt
            (omega (arith, d.no_pdpt))
          ∙ Framed-filled s s' phys virt f t (d.page * 4096 + i * 8) (omega (arith, other))
          ∙ d.entries i small;
    }

-- The page directory that is entered.
Directory-new :
    (s s' : Paging) (q0 q1 n phys virt : ℕ) (t : Framed s phys virt s')
    → n < 512
    → InUse s.frames q0
    → InUse s.frames q1
    → Directory
        (set_word
          (q1 * 4096 + n * 8)
          (low_entry phys)
          (record s' { words = fill virt (identity_entry n) s'.words }))
        q0
        q1
        n
unfolding table_base
Directory-new s s' q0 q1 n phys virt t lt pml4 pdpt =
    let words = fill virt (identity_entry n) s'.words in
    let away : q1 ≢ t.page = t.grown.fresh q1 pdpt in
    let base : phys ≡ t.page * 4096 = t.at_phys in
    record {
      page = t.page;
      in_use = t.grown.taken;
      no_pml4 = λ e. t.grown.fresh q0 pml4 (sym e);
      no_pdpt = λ e. away (sym e);
      entry = at_slot (q1 * 4096 + n * 8) (low_entry phys) words ∙ omega (arith, base);
      entries = λ i small.
          off_slot q1 n (low_entry phys) (t.page * 4096 + i * 8) words lt (omega (arith, away))
          ∙ ap (λ b. fill b (identity_entry n) s'.words (t.page * 4096 + i * 8)) t.at_virt
          ∙ fill-inside t.page i (identity_entry n) s'.words small;
    }

module _ (heap : ℕ → Bool) (v : Vmem) (firmware : ℕ → ℕ) where
  enter_pd-result :
      (s : Paging) (q0 q1 n : ℕ) (r : Option (ℕ × ℕ) × Paging)
      → n < 512
      → Low firmware s q0 q1 n
      → FrameResult heap s r
      → LowResult heap firmware q0 q1 (suc n) (enter_pd heap v (q1 * 4096) n r)
  unfolding enter_pd
  enter_pd-result s q0 q1 n (none, s') lt low exhausted = exhausted
  enter_pd-result s q0 q1 n (some (phys, virt), s') lt low t = record {
    range = t.grown.range;
    pml4 = t.grown.still q0 low.pml4;
    pdpt = t.grown.still q1 low.pdpt;
    two = low.two;
    copied = λ i small.
        off_slot q1 n (low_entry phys) (q0 * 4096 + i * 8) (fill virt (identity_entry n) s'.words)
          lt (omega (arith, low.two))
        ∙ Framed-filled s s' phys virt (identity_entry n) t (q0 * 4096 + i * 8)
            (omega (arith, t.grown.fresh q0 low.pml4))
        ∙ low.copied i small;
    directories = λ j before. elim (earlier j n before) [
      | inl is_n ↦
          subst (Directory _ q0 q1) (sym is_n)
            (Directory-new s s' q0 q1 n phys virt t lt low.pml4 low.pdpt)
      | inr less ↦
          Directory-kept s s' q0 q1 j n phys virt (identity_entry n) t lt less low.pdpt
            (low.directories j less)
    ];
  }
    where
      earlier : (j n : ℕ) → j < suc n → (j ≡ n) ⊎ (j < n)
      earlier j n before = ground arith

  add_pd-result :
      (q0 q1 n : ℕ) (r : Bool × Paging)
      → v.current_mode ≡ identity
      → n < 512
      → LowResult heap firmware q0 q1 n r
      → LowResult heap firmware q0 q1 (suc n) (add_pd heap v (q1 * 4096) n r)
  unfolding add_pd
  add_pd-result q0 q1 n (false, s) mode lt exhausted = exhausted
  add_pd-result q0 q1 n (true, s) mode lt low =
      enter_pd-result s q0 q1 n (new_frame heap v s) lt low
        (new_frame-result heap v s mode low.range)

  pub map_low-result :
      (q0 q1 n : ℕ) (s : Paging)
      → v.current_mode ≡ identity
      → n ≤ 512
      → Low firmware s q0 q1 0
      → LowResult heap firmware q0 q1 n (map_low heap v (q1 * 4096) n s)
  unfolding map_low
  map_low-result q0 q1 zero s mode le low = low
  map_low-result q0 q1 (suc n) s mode le low =
      add_pd-result q0 q1 n (map_low heap v (q1 * 4096) n s) mode (omega arith)
        (map_low-result q0 q1 n s mode (omega arith) low)
