-- ===== src/Tasks/Create.antt =====
-- The creation of a task in src/kernel/task/multi_task.c.
use lite_core.Prelude.{ℕ, ◌-◌, ◌≡◌, ◌≢◌, ◌⊎◌, Bool, false, Option, none, some, update, u32}
use lite_core.Tasks.{Task, Tasks, ready, Machine, max_tasks, take_page}
use lite_core.Tasks.Slots.{FirstFree}

-- What is left alone whether a task is created or not: the queue, the current task and the switch.
abbrev pub ends : Tasks → ℕ × ℕ × ℕ × Bool
ends s = (s.ready_queue_head, s.ready_queue_tail, s.current_task, s.scheduler_enabled)

-- No task was created: the table is as it was.
pub record Refused (s : Tasks) (r : ℕ × Tasks) : Type 0 where
  pub result : r.0 ≡ 0
  pub tasks : r.1.tasks ≡ s.tasks
  pub kept : ends r.1 ≡ ends s

-- A task was created, in the slot; it does not wait to run yet.
pub record Filled (entry slot task : ℕ) (kernel_mode : Bool) (id : ℕ) (s : Tasks) (r : ℕ × Tasks)
    : Type 0 where
  pub tasks : r.1.tasks ≡ update s.tasks slot task
  pub result : r.0 ≡ task
  pub tid : (r.1.mem task).tid ≡ id
  pub state : (r.1.mem task).state ≡ ready
  pub rip : (r.1.mem task).rip ≡ entry
  pub mode : (r.1.mem task).kernel_mode ≡ kernel_mode
  pub next : (r.1.mem task).next ≡ 0
  pub others : (x : ℕ) → x ≢ task → r.1.mem x ≡ s.mem x
  pub kept : ends r.1 ≡ ends s

abbrev pub Made : (entry slot task : ℕ) → Bool → (id : ℕ) → Tasks → ℕ × Tasks → Type 0
Made entry slot task kernel_mode id s r = Refused s r ⊎ Filled entry slot task kernel_mode id s r

-- The task is as `task_create` first fills it.
record New (id : ℕ) (kernel_mode : Bool) (t : Task) : Type 0 where
  tid : t.tid ≡ id
  state : t.state ≡ ready
  mode : t.kernel_mode ≡ kernel_mode
  next : t.next ≡ 0

-- `s'` is `s` but for the frames, the identifiers and the memory of the task.
record Before (task : ℕ) (s s' : Tasks) : Type 0 where
  tasks : s'.tasks ≡ s.tasks
  others : (x : ℕ) → x ≢ task → s'.mem x ≡ s.mem x
  kept : ends s' ≡ ends s

-- The task's address, when it has a frame.
abbrev pub new_address : Machine → Tasks → ℕ
new_address m s = m.phys_to_virt (u32 (take_page m s).0)

-- What `task_create` gives for a search for a slot.
abbrev Attempt : Machine → (entry : ℕ) → Bool → Tasks → Option ℕ → ℕ × Tasks → Type 0
Attempt m entry kernel_mode s none r = r ≡ (0, s)
Attempt m entry kernel_mode s (some slot) r =
    Made entry slot (new_address m s) kernel_mode s.next_tid s r

-- The scheduler is off or there is no free slot, or the slot is the first free one.
abbrev pub Created : Machine → (entry : ℕ) → Bool → Tasks → ℕ × Tasks → Type 0
Created m entry kernel_mode s r =
    (((s.scheduler_enabled ≡ false) ⊎ FirstFree (max_tasks - 1) 1 s.tasks none) × (r ≡ (0, s)))
    ⊎ ((slot : ℕ) × FirstFree (max_tasks - 1) 1 s.tasks (some slot)
        × Made entry slot (new_address m s) kernel_mode s.next_tid s r)
