-- ===== src/Tasks.antt =====
-- The tasks of src/kernel/task/multi_task.c: the task table, the ready queue (linked through the
-- tasks' `next`) and the choice of the next task. A task is named by its address; interrupts are off
-- in each function, so it is one step. The switch of the registers is assembly: a schedule returns
-- whom it would switch to. `idle` is the address of `idle_task`.
pub mod Queue
pub mod Switch
pub mod Schedule
pub mod Ready
pub mod Rounds
pub mod Slots
pub mod Create
mod Tests
use lite_core.Prelude.{
  ℕ, zero, suc, ◌+◌, ◌-◌, ◌*◌, ◌^◌, Bool, true, false, ◌&&◌, ◌||◌, not, Option, none, some, List,
  [], ◌∷◌, if◌then◌else◌, ltb, leb, ◌==◌, update, u32, add32, add64, sub64,
}
use lite_core.Frames.{Memmap, alloc_frame}

-- `task_state_t`
pub data TaskState : Type 0 where
  ready running blocked dead : TaskState

-- `task_t`, with the registers that `task_create` sets to something other than 0. In `fds` -1 is
-- `none`.
pub record Task : Type 0 where
  pub tid : ℕ
  pub name : List ℕ
  pub state : TaskState
  pub kernel_mode : Bool
  pub rsp : ℕ
  pub rip : ℕ
  pub rflags : ℕ
  pub cr3 : ℕ
  pub kernel_stack : ℕ
  pub user_stack : ℕ
  pub page_directory : ℕ
  pub user_brk : ℕ
  pub user_brk_size : ℕ
  pub time_slice : ℕ
  pub total_time : ℕ
  pub next : ℕ
  pub fds : ℕ → Option ℕ

-- The file's variables, the tasks and the words in memory, and the frames that `task_create`
-- allocates.
pub record Tasks : Type 0 where
  pub tasks : ℕ → ℕ
  pub mem : ℕ → Task
  pub words : ℕ → ℕ
  pub current_task : ℕ
  pub ready_queue_head : ℕ
  pub ready_queue_tail : ℕ
  pub next_tid : ℕ
  pub scheduler_enabled : Bool
  pub frames : Memmap

abbrev pub max_tasks : ℕ
max_tasks = 64

abbrev pub time_slice_default : ℕ
time_slice_default = 10

unfoldable pub set_state : ℕ → TaskState → Tasks → Tasks
set_state t st s = record s { mem = update s.mem t (record (s.mem t) { state = st }) }

unfoldable pub set_next : ℕ → ℕ → Tasks → Tasks
set_next t n s = record s { mem = update s.mem t (record (s.mem t) { next = n }) }

-- The `if (ready_queue_tail) … else …` that links a task behind the queue.
unfoldable pub link_tail : ℕ → Tasks → Tasks
unfolding set_next
link_tail t s =
    if s.ready_queue_tail == 0
    then record s { ready_queue_head = t; ready_queue_tail = t }
    else record (set_next s.ready_queue_tail t s) { ready_queue_tail = t }

unfoldable pub task_ready : ℕ → Tasks → Tasks
unfolding set_state set_next link_tail
task_ready t s = if t == 0 then s else link_tail t (set_next t 0 (set_state t ready s))

-- The head of the queue is taken: the task, or 0.
unfoldable pub take_head : Tasks → ℕ × Tasks
unfolding set_next
take_head s =
    if s.ready_queue_head == 0
    then (0, s)
    else let h = s.ready_queue_head in
      let n = (s.mem h).next in
      (
        h,
        set_next h 0 (record s {
          ready_queue_head = n;
          ready_queue_tail = if n == 0 then 0 else s.ready_queue_tail;
        }),
      )

unfoldable pub is_running : TaskState → Bool
is_running running = true
is_running ready = false
is_running blocked = false
is_running dead = false

unfoldable pub is_dead : TaskState → Bool
is_dead dead = true
is_dead ready = false
is_dead blocked = false
is_dead running = false

-- The current task goes behind the queue if it still runs; `next_task` becomes the current one.
unfoldable pub switch_to : ℕ → Tasks → Tasks
unfolding set_state set_next link_tail is_running
switch_to next_task s =
    let old = s.current_task in
    let queued =
      if is_running (s.mem old).state
      then set_next old 0 (link_tail old (set_state old ready s))
      else s in
    set_state next_task running (record queued { current_task = next_task })

-- What `task_schedule` does with the head `h` that it took, or 0.
unfoldable pub schedule_to : (idle h : ℕ) → Tasks → Option ℕ × Tasks
unfolding switch_to is_dead
schedule_to idle h s =
    let next_task = if h == 0 then idle else h in
    if (h == 0) && not (is_dead (s.mem s.current_task).state || not (s.current_task == idle))
    then (none, s)
    else (if next_task == s.current_task then none else some next_task, switch_to next_task s)

-- `task_schedule`, and the same choice in `task_schedule_from_irq`: the task to switch to, if
-- it is another one.
unfoldable pub task_schedule : (idle : ℕ) → Tasks → Option ℕ × Tasks
unfolding take_head schedule_to
task_schedule idle s =
    if not s.scheduler_enabled || (s.current_task == 0)
    then (none, s)
    else let (h, s1) = take_head s in schedule_to idle h s1

unfoldable pub task_exit : (idle : ℕ) → Tasks → Option ℕ × Tasks
unfolding set_state
task_exit idle s =
    task_schedule idle (if s.current_task == 0 then s else set_state s.current_task dead s)

abbrev pub task_current : Tasks → ℕ
task_current s = s.current_task

-- `str_copy` into `room` bytes, the terminator included; it is left out here.
unfoldable pub str_copy : (room : ℕ) → List ℕ → List ℕ
str_copy zero src = []
str_copy (suc zero) src = []
str_copy (suc (suc room)) [] = []
str_copy (suc (suc room)) (c ∷ src) = if c == 0 then [] else c ∷ str_copy (suc room) src

-- The loop over the slots from `i` on, for `n` slots.
unfoldable pub free_slot : ℕ → (i : ℕ) → (ℕ → ℕ) → Option ℕ
free_slot zero i tasks = none
free_slot (suc n) i tasks =
    let rest = free_slot n (i + 1) tasks in if tasks i == 0 then some i else rest

-- `fds` of a new task: a kernel task has the three standard ones.
unfoldable pub initial_fds : Bool → ℕ → Option ℕ
initial_fds kernel_mode fd = if kernel_mode && ltb fd 3 then some fd else none

-- What `task_create` is given by the parts that are not modelled: the heap's answers for the frame
-- map's chunks, `vmem_phys_to_virt`, `paging64_create_user_pml4` with the frames that it takes, the
-- `cr3` register, and the address of `task_exit`.
pub record Machine : Type 0 where
  pub heap : ℕ → Bool
  pub phys_to_virt : ℕ → ℕ
  pub create_user_pml4 : Memmap → ℕ × Memmap
  pub cr3 : ℕ
  pub exit_address : ℕ

abbrev pub page_bytes : ℕ
page_bytes = 0x1000

-- A task as `task_create` first fills it; what its memory held stands for the other fields.
unfoldable pub new_task : (tid : ℕ) (name : List ℕ) (kernel_mode : Bool) → Task → Task
new_task tid name kernel_mode t = record t {
  tid = tid;
  name = str_copy 32 name;
  state = ready;
  kernel_mode = kernel_mode;
  time_slice = time_slice_default;
  total_time = 0;
  next = 0;
}

-- The branch for a kernel task: the address of `task_exit` goes on top of the kernel stack.
unfoldable pub enter_kernel_task : Machine → (entry slot task : ℕ) → Tasks → Tasks
enter_kernel_task m entry slot task s =
    let sp = sub64 (s.mem task).kernel_stack 8 in
    record s {
      tasks = update s.tasks slot task;
      words = update s.words sp m.exit_address;
      mem = update s.mem task (record (s.mem task) {
        page_directory = m.cr3;
        user_stack = 0;
        user_brk = 0;
        user_brk_size = 0;
        rsp = sp;
        rip = entry;
        rflags = 0x202;
        cr3 = m.cr3;
        fds = initial_fds true;
      });
    }

-- `create_task_page_directory`: the kernel's directory if there is no new one.
unfoldable pub create_task_page_directory : Machine → Memmap → ℕ × Memmap
create_task_page_directory m f =
    let (pml4, f') = m.create_user_pml4 f in (if pml4 == 0 then m.cr3 else pml4, f')

-- The end of the branch for a user task, with its page directory and the frame of its stack.
unfoldable pub enter_user_task : Machine → (pd_phys ustack entry slot task : ℕ) → Tasks → Tasks
enter_user_task m pd_phys ustack entry slot task s =
    let frame_virt = m.phys_to_virt (u32 ustack) in
    record s {
      tasks = update s.tasks slot task;
      words =
          if frame_virt == 0
          then s.words
          else (λ a. if leb frame_virt a && ltb a (frame_virt + page_bytes) then 0 else s.words a);
      mem = update s.mem task (record (s.mem task) {
        page_directory = pd_phys;
        user_stack = u32 ustack;
        user_brk = 0;
        user_brk_size = 0;
        rsp = u32 ustack;
        rip = entry;
        rflags = 0x202;
        cr3 = pd_phys;
        fds = initial_fds false;
      });
    }

-- A frame, and the state without it; 0 if there is none.
unfoldable pub take_page : Machine → Tasks → ℕ × Tasks
take_page m s = let (a, f) = alloc_frame m.heap s.frames in (a, record s { frames = f })

unfoldable pub create_user_task : Machine → (entry slot task : ℕ) → Tasks → ℕ × Tasks
create_user_task m entry slot task s =
    let (pd_phys, f) = create_task_page_directory m s.frames in
    let s1 = record s { frames = f } in
    let s2 = record s1 {
      mem = update s1.mem task (record (s1.mem task) { page_directory = pd_phys });
    } in
    let (ustack, s3) = take_page m s2 in
    if pd_phys == 0
    then (0, s1)
    else if ustack == 0
    then (0, s3)
    else (task, enter_user_task m pd_phys ustack entry slot task s3)

-- What follows once the task's structure has its frame.
unfoldable pub create_in : Machine → (entry slot task : ℕ) → List ℕ → Bool → Tasks → ℕ × Tasks
create_in m entry slot task name kernel_mode s =
    let s1 = record s {
      next_tid = add32 s.next_tid 1;
      mem = update s.mem task (new_task s.next_tid name kernel_mode (s.mem task));
    } in
    let (kstack, s2) = take_page m s1 in
    let kstack_virt = u32 (m.phys_to_virt (u32 kstack) + 0x1000) in
    let s3 = record s2 {
      mem = update s2.mem task (record (s2.mem task) { kernel_stack = kstack_virt });
    } in
    if kstack == 0
    then (0, s2)
    else if kernel_mode
    then (task, enter_kernel_task m entry slot task s3)
    else create_user_task m entry slot task s3

-- What follows the search for a slot.
unfoldable pub create_at :
    Machine → (entry : ℕ) → List ℕ → (kernel_mode : Bool) → Option ℕ → Tasks → ℕ × Tasks
create_at m entry name kernel_mode none s = (0, s)
create_at m entry name kernel_mode (some slot) s =
    let (frame, s1) = take_page m s in
    if frame == 0
    then (0, s1)
    else create_in m entry slot (m.phys_to_virt (u32 frame)) name kernel_mode s1

-- The task's address, or 0.
unfoldable pub task_create :
    Machine → (entry : ℕ) → List ℕ → (kernel_mode : Bool) → Tasks → ℕ × Tasks
task_create m entry name kernel_mode s =
    if not s.scheduler_enabled
    then (0, s)
    else create_at m entry name kernel_mode (free_slot (max_tasks - 1) 1 s.tasks) s

-- `task_init`, with the `cr3` and `rsp` registers; `idle_name` is "idle".
unfoldable pub task_init : (idle cr3 rsp : ℕ) (idle_name : List ℕ) → Tasks → Tasks
task_init idle cr3 rsp idle_name s = record s {
  tasks = λ i. if ltb i max_tasks then (if i == 0 then idle else 0) else s.tasks i;
  mem = update s.mem idle (record (s.mem idle) {
    tid = 0;
    name = str_copy 32 idle_name;
    state = running;
    kernel_mode = true;
    rsp = rsp;
    rip = 0;
    rflags = 0x202;
    cr3 = cr3;
    kernel_stack = rsp;
    user_stack = 0;
    page_directory = cr3;
    time_slice = time_slice_default;
    total_time = 0;
    next = 0;
    fds = initial_fds true;
  });
  current_task = idle;
  ready_queue_head = 0;
  ready_queue_tail = 0;
  scheduler_enabled = true;
}
