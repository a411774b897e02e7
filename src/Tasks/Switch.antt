-- ===== src/Tasks/Switch.antt =====
-- The two halves of a schedule in src/kernel/task/multi_task.c: the head of the queue is taken, and the
-- current task is left for another one.
use lite_core.Prelude.{
  ℕ, ◌≡◌, ◌≢◌, inl, inr, ◌⊎◌, true, false, Option, none, some, List, [], ◌∷◌, ◌++◌, arith, refl,
  sym, ◌∙◌, if◌then◌else◌, ◌==◌, Bool-cases,
}
use lite_core.Tasks.{Tasks, ready, running, is_running, take_head, switch_to}
use lite_core.Tasks.Queue.{
  Queue, Linking, Linked, Linked-frame, Queue-snoc, Queue-same, Away, Away-snoc, last_of, next_in,
  not_last,
}

-- The scheduler is on and a task that does not wait is the current one; the tasks of the list wait in
-- the queue.
pub record Scheduled (s : Tasks) (l : List ℕ) : Type 0 where
  pub enabled : s.scheduler_enabled ≡ true
  pub current : s.current_task ≢ 0
  pub queue : Queue s l
  pub apart : Away s.current_task l

-- The current task runs and the tasks of the list wait.
abbrev pub Running : Tasks → List ℕ → Type 0
Running s l = Scheduled s l × ((s.mem s.current_task).state ≡ running)

-- The waiting tasks after those of `q`, once the current task is left: a running one waits at the end.
abbrev pub requeued : Tasks → List ℕ → List ℕ
requeued s q = if is_running (s.mem s.current_task).state then q ++ (s.current_task ∷ []) else q

-- The current task of `s` is left for `n`, and the tasks of `q` wait before it.
pub record Switched (n : ℕ) (q : List ℕ) (s : Tasks) (target : Option ℕ) (s' : Tasks) : Type 0 where
  pub current : s'.current_task ≡ n
  pub scheduled : Scheduled s' (requeued s q)
  pub to : target ≡ (if n == s.current_task then none else some n)
  pub run : (s'.mem n).state ≡ running
  pub left :
      n ≢ s.current_task
      → (s'.mem s.current_task).state
        ≡ (if is_running (s.mem s.current_task).state then ready else (s.mem s.current_task).state)
  pub others : (x : ℕ) → x ≢ n → x ≢ s.current_task → (s'.mem x).state ≡ (s.mem x).state

-- The first task is taken: the others still wait, and the rest of the state is as it was.
pub record Taken (n : ℕ) (q : List ℕ) (s : Tasks) (h : ℕ) (s1 : Tasks) : Type 0 where
  pub first : h ≡ n
  pub queue : Queue s1 q
  pub state : (x : ℕ) → (s1.mem x).state ≡ (s.mem x).state
  pub current : s1.current_task ≡ s.current_task
  pub enabled : s1.scheduler_enabled ≡ s.scheduler_enabled

-- The writes that take the head.
record Unlinked (h : ℕ) (s s1 : Tasks) : Type 0 where
  head : s1.ready_queue_head ≡ next_in s h
  tail : s1.ready_queue_tail ≡ (if next_in s h == 0 then 0 else s.ready_queue_tail)
  same : (x : ℕ) → x ≢ h → next_in s1 x ≡ next_in s x

tail_behind :
    (next : ℕ → ℕ) (n tail : ℕ) (q : List ℕ)
    → Linked next (next n) q
    → tail ≡ last_of n q
    → (if next n == 0 then 0 else tail) ≡ last_of 0 q
tail_behind next n tail [] w e = ground (arith, w)
tail_behind next n tail (x ∷ q) w e =
    let first : next n ≡ x = w.0 in let ne : x ≢ 0 = w.1 in ground (arith, e)

Queue-tail : (n : ℕ) (q : List ℕ) (s s1 : Tasks) → Queue s (n ∷ q) → Unlinked n s s1 → Queue s1 q
Queue-tail n q s s1 w u = record {
  linked =
      rw (u.head)
        (Linked-frame (next_in s) (next_in s1) n (next_in s n) q u.same w.distinct.0 w.linked.2);
  tail = u.tail ∙ tail_behind (next_in s) n s.ready_queue_tail q w.linked.2 w.tail;
  distinct = w.distinct.1;
}

pub take_head-Taken :
    (n : ℕ) (q : List ℕ) (s : Tasks) → Queue s (n ∷ q) → Taken n q s (take_head s).0 (take_head s).1
unfolding take_head
take_head-Taken n q s w =
    let first : s.ready_queue_head ≡ n = w.linked.0 in
    let ne : n ≢ 0 = w.linked.1 in
    record {
      first = ground arith;
      queue =
          Queue-tail n q s (take_head s).1 w
            (record { head = ground arith; tail = ground arith; same = ground arith });
      state = ground arith;
      current = ground arith;
      enabled = ground arith;
    }

pub take_head-empty : (s : Tasks) → Queue s [] → take_head s ≡ (0, s)
unfolding take_head
take_head-empty s w = rw (w.linked) refl

switch_to-Linking :
    (n : ℕ) (s : Tasks)
    → is_running (s.mem s.current_task).state ≡ true
    → s.current_task ≢ n
    → s.current_task ≢ s.ready_queue_tail
    → Linking s.current_task s (switch_to n s)
unfolding switch_to
switch_to-Linking n s run other not_last = record {
  head = ground arith;
  tail = ground arith;
  end = ground arith;
  link = ground arith;
  same = ground arith;
}

-- A running current task is left for another one.
switch_to-running :
    (n : ℕ) (q : List ℕ) (s : Tasks)
    → is_running (s.mem s.current_task).state ≡ true
    → n ≢ 0
    → n ≢ s.current_task
    → Away n q
    → Scheduled s q
    → Scheduled (switch_to n s) (q ++ (s.current_task ∷ []))
unfolding switch_to
switch_to-running n q s run ne other away w =
    let link : Linking s.current_task s (switch_to n s) =
      switch_to-Linking n s run (λ e. other (sym e))
        (not_last s.current_task q w.current w.apart w.queue.tail) in
    record {
      enabled = ground (arith, w.enabled);
      current = ground (arith);
      queue = Queue-snoc s.current_task s (switch_to n s) q w.current w.apart link w.queue;
      apart = Away-snoc n s.current_task q other away;
    }

switch_to-stopped :
    (n : ℕ) (q : List ℕ) (s : Tasks)
    → is_running (s.mem s.current_task).state ≡ false
    → n ≢ 0
    → Away n q
    → Scheduled s q
    → Scheduled (switch_to n s) q
unfolding switch_to
switch_to-stopped n q s run ne away w = record {
  enabled = ground (arith, w.enabled);
  current = ground (arith);
  queue = Queue-same s (switch_to n s) q (ground arith) (ground arith) (ground arith) w.queue;
  apart = away;
}

switch_to-Scheduled :
    (n : ℕ) (q : List ℕ) (s : Tasks)
    → n ≢ 0
    → is_running (s.mem s.current_task).state ≡ false ⊎ n ≢ s.current_task
    → Away n q
    → Scheduled s q
    → Scheduled (switch_to n s) (requeued s q)
switch_to-Scheduled n q s ne other away w =
    elim (Bool-cases (is_running (s.mem s.current_task).state)) [
      | inl run ↦ rw run (elim other [
        | inl stopped ↦ ground arith
        | inr other ↦ switch_to-running n q s run ne other away w
      ])
      | inr stopped ↦ rw stopped (switch_to-stopped n q s stopped ne away w)
    ]

pub switch_to-Switched :
    (n : ℕ) (q : List ℕ) (s : Tasks)
    → n ≢ 0
    → is_running (s.mem s.current_task).state ≡ false ⊎ n ≢ s.current_task
    → Away n q
    → Scheduled s q
    → Switched n q s (if n == s.current_task then none else some n) (switch_to n s)
unfolding switch_to
switch_to-Switched n q s ne other away w = record {
  current = ground arith;
  scheduled = switch_to-Scheduled n q s ne other away w;
  to = refl;
  run = ground arith;
  left = ground arith;
  others = ground arith;
}
