-- ===== src/Tasks/Ready.antt =====
-- The start of the scheduler and the tasks that begin to wait in src/kernel/task/multi_task.c.
use lite_core.Prelude.{ℕ, ◌<◌, ◌≡◌, ◌≢◌, ◌∙◌, subst, List, [], ◌∷◌, ◌++◌, arith, refl, sym}
use lite_core.Tasks.{Tasks, ready, max_tasks, task_ready, task_init}
use lite_core.Tasks.Queue.{Queue, Linking, Queue-snoc, Away, Away-snoc, not_last}
use lite_core.Tasks.Switch.{Scheduled, Running}

task_ready-Linking :
    (t : ℕ) (s : Tasks) → t ≢ 0 → t ≢ s.ready_queue_tail → Linking t s (task_ready t s)
unfolding task_ready
task_ready-Linking t s ne other = record {
  head = ground arith;
  tail = ground arith;
  end = ground arith;
  link = ground arith;
  same = ground arith;
}

task_ready-Queue :
    (t : ℕ) (s : Tasks) (l : List ℕ)
    → t ≢ 0
    → Away t l
    → Queue s l
    → Queue (task_ready t s) (l ++ (t ∷ []))
task_ready-Queue t s l ne away q =
    Queue-snoc t s (task_ready t s) l ne away
      (task_ready-Linking t s ne (not_last t l ne away q.tail)) q

-- `task_ready` of a task that neither waits nor is the current one puts it behind the waiting
-- tasks, keeps the queue in order, and makes it ready; the current task and the states of the
-- others stay.
pub task_ready-Scheduled :
    (t : ℕ) (s : Tasks) (l : List ℕ)
    → t ≢ 0
    → t ≢ s.current_task
    → Away t l
    → Scheduled s l
    → Scheduled (task_ready t s) (l ++ (t ∷ []))
      × ((task_ready t s).current_task ≡ s.current_task)
      × (((task_ready t s).mem t).state ≡ ready)
      × ((x : ℕ) → x ≢ t → ((task_ready t s).mem x).state ≡ (s.mem x).state)
unfolding task_ready
task_ready-Scheduled t s l ne other away w =
    let current : (task_ready t s).current_task ≡ s.current_task = ground arith in
    (
      record {
        enabled = ground (arith, w.enabled);
        current = λ e. w.current (sym current ∙ e);
        queue = task_ready-Queue t s l ne away w.queue;
        apart =
            subst (λ c. Away c (l ++ (t ∷ []))) (sym current)
              (Away-snoc s.current_task t l (λ e. other (sym e)) w.apart);
      },
      current,
      ground arith,
      λ x. ground arith,
    )

-- After `task_init` the idle task is the current one and runs, no task waits, and the other slots
-- of the table are free.
pub task_init-Running :
    (idle cr3 rsp : ℕ) (idle_name : List ℕ) (s : Tasks)
    → idle ≢ 0
    → let s' = task_init idle cr3 rsp idle_name s in
      Running s' []
      × (s'.current_task ≡ idle)
      × (s'.tasks 0 ≡ idle)
      × ((i : ℕ) → 0 < i → i < max_tasks → s'.tasks i ≡ 0)
unfolding task_init
task_init-Running idle cr3 rsp idle_name s ne = (
  (
    record {
      enabled = refl;
      current = ne;
      queue = record { linked = refl; tail = refl; distinct = tt };
      apart = tt;
    },
    ground arith,
  ),
  refl,
  refl,
  λ i. ground arith,
)
