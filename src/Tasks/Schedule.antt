-- ===== src/Tasks/Schedule.antt =====
-- The choice of the next task in src/kernel/task/multi_task.c, against a list of waiting tasks.
use lite_core.Prelude.{
  if-false, ℕ, ◌≡◌, ◌≢◌, inl, inr, ◌⊎◌, Bool, true, false, not, ◌&&◌, ◌||◌, Option, none, some,
  List, [], ◌∷◌, ◌++◌, arith, refl, sym, ap, ap₂, subst, ◌∙◌, if◌then◌else◌, ◌==◌,
}
use lite_core.Tasks.{
  Tasks, TaskState, ready, running, blocked, dead, is_running, is_dead, take_head, switch_to,
  schedule_to, task_schedule,
}
use lite_core.Tasks.Queue.{Away}
use lite_core.Tasks.Switch.{
  Scheduled, Switched, Taken, take_head-Taken, take_head-empty, switch_to-Switched,
}

-- Round robin: the first waiting task is next; when none waits, the idle task is, unless it is the
-- current one and not dead, which then goes on.
abbrev pub Turn : (idle : ℕ) → Tasks → List ℕ → Option ℕ × Tasks → Type 0
Turn idle s (n ∷ q) (to, s') = Switched n q s to s'
Turn idle s [] (to, s') =
    if not (is_dead (s.mem s.current_task).state) && (s.current_task == idle)
    then (to ≡ none) × (s' ≡ s)
    else Switched idle [] s to s'

-- The queue's head is no part of what `Switched` says of the state before.
Switched-Taken :
    (n h : ℕ) (q : List ℕ) (s s1 : Tasks) (target : Option ℕ) (s' : Tasks)
    → Taken n q s h s1
    → Switched n q s1 target s'
    → Switched n q s target s'
Switched-Taken n h q s s1 target s' t w =
    let same : (s1.mem s1.current_task).state ≡ (s.mem s.current_task).state =
      t.state s1.current_task ∙ ap (λ x. (s.mem x).state) t.current in
    record {
      current = w.current;
      scheduled =
          subst (Scheduled s')
            (ap₂ (λ st c. if is_running st then q ++ (c ∷ []) else q) same t.current) w.scheduled;
      to = w.to ∙ ap (λ c. if n == c then none else some n) t.current;
      run = w.run;
      left = λ ne.
          ap (λ x. (s'.mem x).state) (sym t.current)
          ∙ w.left (λ e. ne (e ∙ t.current))
          ∙ ap (λ st. if is_running st then ready else st) same;
      others = λ x ne other. w.others x ne (λ e. other (e ∙ t.current)) ∙ t.state x;
    }

schedule_to-first :
    (idle n : ℕ) (q : List ℕ) (s : Tasks)
    → n ≢ 0
    → Away n q
    → n ≢ s.current_task
    → Scheduled s q
    → Switched n q s (schedule_to idle n s).0 (schedule_to idle n s).1
unfolding schedule_to
schedule_to-first idle n q s ne away other w =
    let this : (n == 0) ≡ false = ground arith in
    rw this (switch_to-Switched n q s ne (inr other) away w)

not_running : (st : TaskState) → is_dead st ≡ true → is_running st ≡ false
unfolding is_dead is_running
not_running ready e = refl
not_running running e = sym e
not_running blocked e = refl
not_running dead e = refl

-- The test of an empty queue, with what happens when it fails.
none-turn :
    (idle : ℕ) (s : Tasks) (is_dead is_idle : Bool) (to : Option ℕ × Tasks)
    → (is_dead ≡ true ⊎ is_idle ≡ false → Switched idle [] s to.0 to.1)
    → let r = if not (is_dead || not is_idle) then (none, s) else to in
      if not is_dead && is_idle then (r.0 ≡ none) × (r.1 ≡ s) else Switched idle [] s r.0 r.1
none-turn idle s true is_idle to turn = turn (inl refl)
none-turn idle s false true to turn = (refl, refl)
none-turn idle s false false to turn = turn (inr refl)

schedule_to-none :
    (idle : ℕ) (s : Tasks) → idle ≢ 0 → Scheduled s [] → Turn idle s [] (schedule_to idle 0 s)
unfolding schedule_to
schedule_to-none idle s ne w =
    none-turn idle s (is_dead (s.mem s.current_task).state) (s.current_task == idle)
      (if idle == s.current_task then none else some idle, switch_to idle s)
      (λ c.
        switch_to-Switched idle [] s ne
          (elim c [
            | inl stopped ↦ inl (not_running (s.mem s.current_task).state stopped)
            | inr other ↦ inr (ground arith)
          ])
          tt w)

schedule-on :
    (idle : ℕ) (s : Tasks) (l : List ℕ)
    → Scheduled s l
    → task_schedule idle s ≡ schedule_to idle (take_head s).0 (take_head s).1
unfolding task_schedule
schedule-on idle s l w =
    if-false (not s.scheduler_enabled || (s.current_task == 0)) (none, s)
      (schedule_to idle (take_head s).0 (take_head s).1) (ground (arith, w.enabled, w.current))

-- The first waiting task was taken, and the others wait.
Taken-Scheduled :
    (n : ℕ) (q : List ℕ) (s : Tasks) (h : ℕ) (s1 : Tasks)
    → Scheduled s (n ∷ q)
    → Taken n q s h s1
    → Scheduled s1 q
Taken-Scheduled n q s h s1 w t = record {
  enabled = t.enabled ∙ w.enabled;
  current = λ e. w.current (sym t.current ∙ e);
  queue = t.queue;
  apart = subst (λ c. Away c q) (sym t.current) w.apart.1;
}

-- While the scheduler is on and its queue holds the waiting tasks, each once and the current one
-- not among them, `task_schedule` is round robin: the first waiting task runs next, and a running
-- current task waits behind the others. When none waits, the idle task runs next, unless it is the
-- current one and not dead, which then goes on. Other tasks keep their states.
pub task_schedule-Turn :
    (idle : ℕ) (s : Tasks) (l : List ℕ)
    → idle ≢ 0
    → Scheduled s l
    → Turn idle s l (task_schedule idle s)
task_schedule-Turn idle s [] ne w =
    subst (Turn idle s [])
      (sym
        (schedule-on idle s [] w ∙ ap (λ r. schedule_to idle r.0 r.1) (take_head-empty s w.queue)))
      (schedule_to-none idle s ne w)
task_schedule-Turn idle s (n ∷ q) ne w =
    let s1 = (take_head s).1 in
    let t : Taken n q s (take_head s).0 s1 = take_head-Taken n q s w.queue in
    let turn : Switched n q s1 (schedule_to idle n s1).0 (schedule_to idle n s1).1 =
      schedule_to-first idle n q s1 w.queue.linked.1 w.queue.distinct.0
        (λ e. w.apart.0 (sym (e ∙ t.current))) (Taken-Scheduled n q s (take_head s).0 s1 w t) in
    subst (Turn idle s (n ∷ q))
      (sym (schedule-on idle s (n ∷ q) w ∙ ap (λ h. schedule_to idle h s1) t.first))
      (Switched-Taken n (take_head s).0 q s s1 (schedule_to idle n s1).0 (schedule_to idle n s1).1 t
        turn)
