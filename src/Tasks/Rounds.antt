-- ===== src/Tasks/Rounds.antt =====
-- The turns of the tasks that yield, and the end of a task, in src/kernel/task/multi_task.c.
use lite_core.Prelude.{
  if-false, ℕ, zero, suc, ◌≡◌, ◌≢◌, false, not, ◌&&◌, Option, none, some, List, [], ◌∷◌, ◌++◌,
  arith, refl, sym, ap, subst, ◌∙◌, ◌==◌, if◌then◌else◌, length,
}
use lite_core.Tasks.{Tasks, ready, dead, is_running, is_dead, set_state, task_schedule, task_exit}
use lite_core.Tasks.Queue.{Queue-same, Away}
use lite_core.Tasks.Switch.{Scheduled, Running, Switched}
use lite_core.Tasks.Schedule.{Turn, task_schedule-Turn}

-- The current task yields `k` times, and the others each when they run.
abbrev pub yields : (k idle : ℕ) → Tasks → Tasks
yields zero idle s = s
yields (suc k) idle s = yields k idle (task_schedule idle s).1

append_assoc : (l r t : List ℕ) → (l ++ r) ++ t ≡ l ++ (r ++ t)
append_assoc [] r t = refl
append_assoc (x ∷ l) r t = ap (λ k. x ∷ k) (append_assoc l r t)

yield_once :
    (idle n : ℕ) (q : List ℕ) (s : Tasks)
    → idle ≢ 0
    → Running s (n ∷ q)
    → let s' = (task_schedule idle s).1 in
      (s'.current_task ≡ n) × Running s' (q ++ (s.current_task ∷ []))
unfolding is_running
yield_once idle n q s ne w =
    let t : Switched n q s (task_schedule idle s).0 (task_schedule idle s).1 =
      task_schedule-Turn idle s (n ∷ q) ne w.0 in
    (
      t.current,
      (
        subst
            (λ st.
              Scheduled (task_schedule idle s).1
                (if is_running st then q ++ (s.current_task ∷ []) else q))
            w.1 t.scheduled,
        ap (λ x. ((task_schedule idle s).1.mem x).state) t.current ∙ t.run,
      ),
    )

-- While the current task runs, a waiting task runs after as many yields as tasks wait before it
-- and one more; the tasks that ran until then wait behind the others, in their order.
pub task_schedule-Running :
    (idle t : ℕ) (l r : List ℕ) (s : Tasks)
    → idle ≢ 0
    → Running s (l ++ (t ∷ r))
    → let s' = yields (suc (length l)) idle s in
      (s'.current_task ≡ t) × Running s' (r ++ (s.current_task ∷ l))
task_schedule-Running idle t [] r s ne w = yield_once idle t r s ne w
task_schedule-Running idle t (n ∷ l) r s ne w =
    let s1 = (task_schedule idle s).1 in
    let step : (s1.current_task ≡ n) × Running s1 ((l ++ (t ∷ r)) ++ (s.current_task ∷ [])) =
      yield_once idle n (l ++ (t ∷ r)) s ne w in
    let rest =
      task_schedule-Running idle t l (r ++ (s.current_task ∷ [])) s1 ne
        (subst (Running s1) (append_assoc l (t ∷ r) (s.current_task ∷ [])) step.1) in
    (
      rest.0,
      subst (Running (yields (suc (length l)) idle s1))
          (append_assoc r (s.current_task ∷ []) (s1.current_task ∷ l)
            ∙ ap (λ c. r ++ (s.current_task ∷ (c ∷ l))) step.0)
          rest.1,
    )

-- The task after an exit and those that wait then.
abbrev pub next_after : (idle : ℕ) → List ℕ → ℕ
next_after idle [] = idle
next_after idle (n ∷ q) = n

abbrev pub others_after : List ℕ → List ℕ
others_after [] = []
others_after (n ∷ q) = q

dead-Scheduled :
    (s : Tasks) (l : List ℕ) → Scheduled s l → Scheduled (set_state s.current_task dead s) l
unfolding set_state
dead-Scheduled s l w = record {
  enabled = w.enabled;
  current = w.current;
  queue = Queue-same s (set_state s.current_task dead s) l (ground arith) refl refl w.queue;
  apart = w.apart;
}

Turn-dead :
    (idle : ℕ) (s : Tasks) (l : List ℕ) (r : Option ℕ × Tasks)
    → (s.mem s.current_task).state ≡ dead
    → Turn idle s l r
    → Switched (next_after idle l) (others_after l) s r.0 r.1
unfolding is_dead
Turn-dead idle s [] r end turn =
    let on : (not (is_dead (s.mem s.current_task).state) && (s.current_task == idle)) ≡ false =
      ap (λ st. not (is_dead st) && (s.current_task == idle)) end in
    subst (λ T. T)
      (if-false (not (is_dead (s.mem s.current_task).state) && (s.current_task == idle))
        ((r.0 ≡ none) × (r.1 ≡ s)) (Switched idle [] s r.0 r.1) on)
      turn
Turn-dead idle s (n ∷ q) r end turn = turn

-- The task `c` is left for the next one, and is dead.
abbrev pub Left : (idle c : ℕ) → List ℕ → Option ℕ × Tasks → Type 0
Left idle c l r =
    (r.0 ≡ some (next_after idle l))
    × (r.1.current_task ≡ next_after idle l)
    × Running r.1 (others_after l)
    × Away c (others_after l)
    × ((r.1.mem c).state ≡ dead)

Away-next :
    (idle c : ℕ) (l : List ℕ)
    → c ≢ idle
    → Away c l
    → (next_after idle l ≢ c) × Away c (others_after l)
Away-next idle c [] ne away = (λ e. ne (sym e), tt)
Away-next idle c (n ∷ q) ne away = (λ e. away.0 (sym e), away.1)

Switched-Left :
    (idle : ℕ) (s : Tasks) (l : List ℕ) (r : Option ℕ × Tasks)
    → s.current_task ≢ idle
    → Scheduled s l
    → (s.mem s.current_task).state ≡ dead
    → Switched (next_after idle l) (others_after l) s r.0 r.1
    → Left idle s.current_task l r
unfolding is_running
Switched-Left idle s l r other w end t =
    let away = Away-next idle s.current_task l other w.apart in
    let requeue : Scheduled r.1 (others_after l) =
      subst
        (λ st.
          Scheduled r.1
            (if is_running st then others_after l ++ (s.current_task ∷ []) else others_after l))
        end t.scheduled in
    let target : (next_after idle l == s.current_task) ≡ false = ground (arith, away.0) in
    (
      t.to ∙ ap (λ b. if b then none else some (next_after idle l)) target,
      t.current,
      (requeue, ap (λ x. (r.1.mem x).state) t.current ∙ t.run),
      away.1,
      t.left away.0 ∙ ap (λ st. if is_running st then ready else st) end,
    )

-- `task_exit` of another task than the idle one switches to the first waiting task, or to the idle
-- one if none waits; that task runs, the other tasks still wait, and the task that ended is dead
-- and waits no more.
pub task_exit-Left :
    (idle : ℕ) (s : Tasks) (l : List ℕ)
    → idle ≢ 0
    → s.current_task ≢ idle
    → Scheduled s l
    → Left idle s.current_task l (task_exit idle s)
unfolding task_exit set_state
task_exit-Left idle s l ne other w =
    let d : Tasks = set_state s.current_task dead s in
    let on : (s.current_task == 0) ≡ false = ground (arith, w.current) in
    let v : Scheduled d l = dead-Scheduled s l w in
    let end : (d.mem s.current_task).state ≡ dead = ground arith in
    subst (Left idle s.current_task l)
      (ap (task_schedule idle) (sym (if-false (s.current_task == 0) s d on)))
      (Switched-Left idle d l (task_schedule idle d) other v end
        (Turn-dead idle d l (task_schedule idle d) end (task_schedule-Turn idle d l ne v)))
