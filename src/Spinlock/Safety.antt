-- ===== src/Spinlock/Safety.antt =====
-- What holds in every state that the spin lock of src/kernel/sync/spinlock.c reaches.
use lite_core.Prelude.{
  ℕ, ◌≡◌, ◌≢◌, ◌⊎◌, inl, inr, true, false, if-elim, if-false, if-true, ◌==◌, u32, arith, refl, sym,
  ap, ◌∙◌, subst,
}
use lite_core.Spinlock.{
  outside, spinning, inside, unlocked, Cpu, System, is_inside, is_outside, interrupts, cli, set_cpu,
  irq_save, xchg_round, spin_unlock, irq_restore, Step, save, round, unlock, restore, other_work,
  Reach, start, later,
}

abbrev pub IsInside : System → ℕ → Type 0
IsInside s i = is_inside (s.cpus i).phase ≡ true

-- At most one processor is inside, the lock is 1 while one is and 0 while none is, and interrupts
-- are off from the save to the restore.
pub record IsSafe (s : System) : Type 0 where
  pub unique : (i j : ℕ) → IsInside s i → IsInside s j → i ≡ j
  pub held : (i : ℕ) → IsInside s i → s.lock ≡ 1
  pub covered : (s.lock ≡ 0) ⊎ ((i : ℕ) × IsInside s i)
  pub quiet : (i : ℕ) → is_outside (s.cpus i).phase ≡ false → interrupts (s.cpus i).rflags ≡ 0

interrupts-cli : (f : ℕ) → interrupts (cli f) ≡ 0
unfolding cli interrupts
interrupts-cli f = omega arith

true_is_false {ℓ} : {A : Type ℓ} → true ≡ false → A
true_is_false e = ground arith

-- A processor that is set to a phase outside the lock is not inside; the others are as before.
IsInside-before :
    (i j : ℕ) (c : Cpu) (s : System)
    → is_inside c.phase ≡ false
    → IsInside (set_cpu i c s) j
    → (j ≢ i) × IsInside s j
IsInside-before i j c s out =
    if-elim (λ k. is_inside k.phase ≡ true → (j ≢ i) × IsInside s j) (j == i) c (s.cpus j)
      (λ e w. true_is_false (sym w ∙ out)) (λ e w. (ground arith, w))

IsInside-after :
    (i j : ℕ) (c : Cpu) (s : System) → j ≢ i → IsInside s j → IsInside (set_cpu i c s) j
IsInside-after i j c s ne w =
    ap (λ k. is_inside k.phase) (if-false (j == i) c (s.cpus j) (ground arith)) ∙ w

quiet_after :
    (i : ℕ) (c : Cpu) (s : System)
    → IsSafe s
    → (is_outside c.phase ≡ false → interrupts c.rflags ≡ 0)
    → (j : ℕ) → is_outside ((set_cpu i c s).cpus j).phase ≡ false
    → interrupts ((set_cpu i c s).cpus j).rflags ≡ 0
quiet_after i c s h off j =
    if-elim (λ k. is_outside k.phase ≡ false → interrupts k.rflags ≡ 0) (j == i) c (s.cpus j)
      (λ e. off) (λ e. h.quiet j)

-- A processor moves without the lock.
move-IsSafe :
    (i : ℕ) (c : Cpu) (s : System)
    → is_inside (s.cpus i).phase ≡ false
    → is_inside c.phase ≡ false
    → (is_outside c.phase ≡ false → interrupts c.rflags ≡ 0)
    → IsSafe s
    → IsSafe (set_cpu i c s)
move-IsSafe i c s before out off h = record {
  unique = λ j k at_j at_k.
      h.unique j k (IsInside-before i j c s out at_j).1 (IsInside-before i k c s out at_k).1;
  held = λ j at_j. h.held j (IsInside-before i j c s out at_j).1;
  covered = elim h.covered [
    | inl free ↦ inl free
    | inr (j, at_j) ↦ inr (
      j,
      IsInside-after i j c s
          (λ e. true_is_false (sym at_j ∙ ap (λ k. is_inside (s.cpus k).phase) e ∙ before)) at_j,
    )
  ];
  quiet = quiet_after i c s h off;
}

-- A processor takes the free lock.
take-IsSafe :
    (i flags : ℕ) (s : System)
    → (s.cpus i).phase ≡ spinning flags
    → s.lock ≡ 0
    → IsSafe s
    → IsSafe (set_cpu i (record (s.cpus i) { phase = inside flags }) (record s { lock = 1 }))
unfolding is_inside is_outside
take-IsSafe i flags s at_i free h =
    let c : Cpu = record (s.cpus i) { phase = inside flags } in
    let s' : System = set_cpu i c (record s { lock = 1 }) in
    let only : (j : ℕ) → IsInside s' j → j ≡ i = λ j.
      if-elim (λ k. is_inside k.phase ≡ true → j ≡ i) (j == i) c (s.cpus j) (λ e w. ground arith)
        (λ e w. let held : s.lock ≡ 1 = h.held j w in absurd (omega (arith, free, held))) in
    record {
      unique = λ j k at_j at_k. only j at_j ∙ sym (only k at_k);
      held = λ j at_j. refl;
      covered = inr (i, ap (λ k. is_inside k.phase) (if-true (i == i) c (s.cpus i) (ground arith)));
      quiet = λ j.
          if-elim (λ k. is_outside k.phase ≡ false → interrupts k.rflags ≡ 0) (j == i) c (s.cpus j)
            (λ e out. h.quiet i (ap is_outside at_i)) (λ e. h.quiet j);
    }

-- A processor gives the lock back.
give-IsSafe :
    (i flags : ℕ) (s : System)
    → (s.cpus i).phase ≡ inside flags
    → IsSafe s
    → IsSafe (set_cpu i (record (s.cpus i) { phase = unlocked flags }) (record s { lock = 0 }))
unfolding is_inside is_outside
give-IsSafe i flags s at_i h =
    let c : Cpu = record (s.cpus i) { phase = unlocked flags } in
    let s' : System = set_cpu i c (record s { lock = 0 }) in
    let nobody : (j : ℕ) → IsInside s' j → j ≢ j = λ j w.
      let before = IsInside-before i j c s refl w in
      absurd (before.0 (h.unique j i before.1 (ap is_inside at_i))) in
    record {
      unique = λ j k at_j at_k. absurd (nobody j at_j refl);
      held = λ j at_j. absurd (nobody j at_j refl);
      covered = inl refl;
      quiet = λ j.
          if-elim (λ k. is_outside k.phase ≡ false → interrupts k.rflags ≡ 0) (j == i) c (s.cpus j)
            (λ e out. h.quiet i (ap is_outside at_i)) (λ e. h.quiet j);
    }

-- A round of a processor while another one is inside changes nothing but the lock, which is 1.
retry-IsSafe : (s : System) → s.lock ≢ 0 → IsSafe s → IsSafe (record s { lock = 1 })
retry-IsSafe s busy h = record {
  unique = h.unique;
  held = λ j at_j. refl;
  covered = elim h.covered [ inl free ↦ absurd (busy free) | inr w ↦ inr w ];
  quiet = h.quiet;
}

Step-IsSafe : {s t : System} → Step s t → IsSafe s → IsSafe t
unfolding irq_save xchg_round spin_unlock irq_restore is_inside is_outside
Step-IsSafe {s} (save i at_i) h =
    let f = (s.cpus i).rflags in
    move-IsSafe i (record { rflags = cli f; phase = spinning (u32 f) }) s (ap is_inside at_i) refl
      (λ e. interrupts-cli f) h
Step-IsSafe {s} (round i flags at_i) h =
    if-elim IsSafe (s.lock == 0) _ (record s { lock = 1 })
      (λ e. let free : s.lock ≡ 0 = ground arith in take-IsSafe i flags s at_i free h)
      (λ e. let busy : s.lock ≢ 0 = ground arith in retry-IsSafe s busy h)
Step-IsSafe {s} (unlock i flags at_i) h = give-IsSafe i flags s at_i h
Step-IsSafe {s} (restore i flags at_i) h =
    move-IsSafe i (record { rflags = flags; phase = outside }) s (ap is_inside at_i) refl
      (λ e. true_is_false e) h
Step-IsSafe {s} (other_work i rflags at_i) h =
    move-IsSafe i (record { rflags = rflags; phase = outside }) s (ap is_inside at_i) refl
      (λ e. true_is_false e) h

-- Whatever steps the processors take in whatever order from a free lock, at most one is between
-- `spin_lock` and `spin_unlock`, the lock is 1 while one is, and is 0 unless one is, and a
-- processor has its interrupts off from `irq_save` to `irq_restore`.
pub Reach-IsSafe : {rflags : ℕ → ℕ} {s : System} → Reach rflags s → IsSafe s
unfolding is_inside is_outside
Reach-IsSafe start = record {
  unique = λ i j at_i. true_is_false (sym at_i);
  held = λ i at_i. true_is_false (sym at_i);
  covered = inl refl;
  quiet = λ i e. true_is_false e;
}
Reach-IsSafe (later r st) = Step-IsSafe st (Reach-IsSafe r)

-- In every state that can be reached, a processor that spins while none is inside has the lock
-- after its next exchange, with interrupts off.
pub xchg_round-enters :
    {rflags : ℕ → ℕ} {s : System} (i flags : ℕ)
    → Reach rflags s
    → ((j : ℕ) → is_inside (s.cpus j).phase ≡ false)
    → (s.cpus i).phase ≡ spinning flags
    → let t = xchg_round i flags s in
      ((t.cpus i).phase ≡ inside flags) × (t.lock ≡ 1) × (interrupts (t.cpus i).rflags ≡ 0)
unfolding xchg_round is_outside
xchg_round-enters {s} i flags r nobody at_i =
    let safe : IsSafe s = Reach-IsSafe r in
    let free : s.lock ≡ 0 = elim safe.covered [
      | inl free ↦ free
      | inr (j, at_j) ↦ true_is_false (sym at_j ∙ nobody j)
    ] in
    let off : interrupts (s.cpus i).rflags ≡ 0 = safe.quiet i (ap is_outside at_i) in
    let entered : System =
      set_cpu i (record (s.cpus i) { phase = inside flags }) (record s { lock = 1 }) in
    subst
      (λ t. ((t.cpus i).phase ≡ inside flags) × (t.lock ≡ 1) × (interrupts (t.cpus i).rflags ≡ 0))
      (sym (if-true (s.lock == 0) entered (record s { lock = 1 }) (ground arith)))
      (let here =
          if-true (i == i) (record (s.cpus i) { phase = inside flags }) (s.cpus i) (ground arith) in
        (ap (λ k. k.phase) here, refl, ap (λ k. interrupts k.rflags) here ∙ off))
