-- ===== src/Tasks/Tests.antt =====
-- An idle task and two tasks that wait, and the theorems there.
use lite_core.Prelude.{ℕ, ◌+◌, ◌≡◌, ◌≢◌, List, [], ◌∷◌, true, false, none, arith, refl}
use lite_core.Tasks.{
  Task, Tasks, ready, blocked, Machine, task_init, task_ready, task_schedule, task_exit,
}
use lite_core.Tasks.Switch.{Scheduled, Running}
use lite_core.Tasks.Schedule.{Turn, task_schedule-Turn}
use lite_core.Tasks.Ready.{task_ready-Scheduled, task_init-Running}
use lite_core.Tasks.Rounds.{Left, yields, task_schedule-Running, task_exit-Left}

abbrev blank : Task
blank = record {
  tid = 0;
  name = [];
  state = blocked;
  kernel_mode = false;
  rsp = 0;
  rip = 0;
  rflags = 0;
  cr3 = 0;
  kernel_stack = 0;
  user_stack = 0;
  page_directory = 0;
  user_brk = 0;
  user_brk_size = 0;
  time_slice = 0;
  total_time = 0;
  next = 0;
  fds = λ i. none;
}

-- Three frames of which the heap can record each.
abbrev off : Tasks
off = record {
  tasks = λ i. 0;
  mem = λ t. blank;
  words = λ a. 0;
  current_task = 0;
  ready_queue_head = 0;
  ready_queue_tail = 0;
  next_tid = 1;
  scheduler_enabled = false;
  frames = record {
    start_addr = 0;
    end_addr = 0;
    start_frame = 1;
    frames = 3;
    max_frames = 3;
    chunks = [];
  };
}

abbrev idle_name : List ℕ
idle_name = 105 ∷ 100 ∷ 108 ∷ 101 ∷ []

abbrev booted : Tasks
booted = task_init 1 0x1000 0x9000 idle_name off

booted-Scheduled : Scheduled booted []
booted-Scheduled = (task_init-Running 1 0x1000 0x9000 idle_name off (omega arith)).0.0

abbrev one_waits : Tasks
one_waits = task_ready 5 booted

one_waits-Scheduled : Scheduled one_waits (5 ∷ [])
unfolding task_init
one_waits-Scheduled =
    (task_ready-Scheduled 5 booted [] (omega arith) (omega arith) tt booted-Scheduled).0

abbrev two_wait : Tasks
two_wait = task_ready 9 one_waits

two_wait-Scheduled : Scheduled two_wait (5 ∷ 9 ∷ [])
unfolding task_init task_ready
two_wait-Scheduled =
    (task_ready-Scheduled 9 one_waits (5 ∷ []) (omega arith) (omega arith) (omega arith, tt)
      one_waits-Scheduled).0

task_ready-Scheduled_example :
    Scheduled two_wait (5 ∷ 9 ∷ [])
    × (two_wait.current_task ≡ one_waits.current_task)
    × ((two_wait.mem 9).state ≡ ready)
    × ((x : ℕ) → x ≢ 9 → (two_wait.mem x).state ≡ (one_waits.mem x).state)
unfolding task_init task_ready
task_ready-Scheduled_example =
    task_ready-Scheduled 9 one_waits (5 ∷ []) (omega arith) (omega arith) (omega arith, tt)
      one_waits-Scheduled

task_schedule-Turn_example : Turn 1 two_wait (5 ∷ 9 ∷ []) (task_schedule 1 two_wait)
task_schedule-Turn_example =
    task_schedule-Turn 1 two_wait (5 ∷ 9 ∷ []) (omega arith) two_wait-Scheduled

two_wait-Running : Running two_wait (5 ∷ 9 ∷ [])
unfolding task_init task_ready
two_wait-Running = (two_wait-Scheduled, refl)

task_schedule-Running_example :
    ((yields 2 1 two_wait).current_task ≡ 9)
    × Running (yields 2 1 two_wait) (two_wait.current_task ∷ 5 ∷ [])
task_schedule-Running_example =
    task_schedule-Running 1 9 (5 ∷ []) [] two_wait (omega arith) two_wait-Running

-- The first task runs.
abbrev first_runs : Tasks
first_runs = (task_schedule 1 two_wait).1

first_runs-Scheduled : Scheduled first_runs (9 ∷ 1 ∷ [])
unfolding task_init task_ready
first_runs-Scheduled =
    (task_schedule-Running 1 5 [] (9 ∷ []) two_wait (omega arith) two_wait-Running).1.0

task_exit-Left_example : Left 1 5 (9 ∷ 1 ∷ []) (task_exit 1 first_runs)
unfolding task_schedule task_ready task_init
task_exit-Left_example =
    task_exit-Left 1 first_runs (9 ∷ 1 ∷ []) (omega arith) (omega arith) first_runs-Scheduled

abbrev machine : Machine
machine = record {
  heap = λ n. true;
  phys_to_virt = λ a. a + 0xc000;
  create_user_pml4 = λ f. (0x7000, f);
  cr3 = 0x1000;
  exit_address = 0x4000;
}
