-- ===== src/Tasks/Slots.antt =====
-- The search for a free slot in src/kernel/task/multi_task.c.
use lite_core.Prelude.{
  ℕ, zero, suc, ◌+◌, ◌≤◌, ◌<◌, ◌≡◌, ◌≢◌, Option, none, some, arith, subst, ◌==◌, if-elim,
}
use lite_core.Tasks.{free_slot}

-- The slots from `i` on, for `n` slots, are taken up to the answer, which is free.
abbrev pub FirstFree : (n i : ℕ) → (ℕ → ℕ) → Option ℕ → Type 0
FirstFree n i tasks none = (j : ℕ) → i ≤ j → j < i + n → tasks j ≢ 0
FirstFree n i tasks (some k) =
    (i ≤ k) × (k < i + n) × (tasks k ≡ 0) × ((j : ℕ) → i ≤ j → j < k → tasks j ≢ 0)

FirstFree-behind :
    (n i : ℕ) (tasks : ℕ → ℕ) (o : Option ℕ)
    → tasks i ≢ 0
    → FirstFree n (i + 1) tasks o
    → FirstFree (suc n) i tasks o
FirstFree-behind n i tasks none ne w = λ j le lt e.
    let other : j ≢ i = λ q. ne (subst (λ k. tasks k ≡ 0) q e) in w j (omega arith) (omega arith) e
FirstFree-behind n i tasks (some k) ne w = (
  omega arith,
  omega arith,
  w.2,
  λ j le lt e.
      let other : j ≢ i = λ q. ne (subst (λ k. tasks k ≡ 0) q e) in w.3 j (omega arith) lt e,
)

pub free_slot-FirstFree : (n i : ℕ) (tasks : ℕ → ℕ) → FirstFree n i tasks (free_slot n i tasks)
unfolding free_slot
free_slot-FirstFree zero i tasks = λ j le lt. ground arith
free_slot-FirstFree (suc n) i tasks =
    if-elim (FirstFree (suc n) i tasks) (tasks i == 0) (some i) (free_slot n (i + 1) tasks)
      (λ e.
        let free : tasks i ≡ 0 = ground arith in
        (omega arith, omega arith, free, λ j le lt. ground arith))
      (λ e.
        let taken : tasks i ≢ 0 = ground arith in
        FirstFree-behind n i tasks (free_slot n (i + 1) tasks) taken
          (free_slot-FirstFree n (i + 1) tasks))
