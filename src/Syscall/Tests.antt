-- ===== src/Syscall/Tests.antt =====
-- A task with a break of 100 bytes, and the theorems there.
use lite_core.Prelude.{ℕ, Bool, true, false, none, [], ◌∷◌, if◌then◌else◌, ◌==◌, arith, ◌≡◌, refl}
use lite_core.Tasks.{Task, running}
use lite_core.Frames.{
  alloc_frame, alloc_from, obtain, find_chunk, scan_words, scan_bits, chunk_test, bit, take_frame,
}
use lite_core.Vmem.{Vmem, identity, missing, vmem_phys_to_virt}
use lite_core.Syscall.{User, current, sys_sbrk}
use lite_core.Syscall.Sbrk.{Grown, sys_sbrk-Grown}
use lite_core.Syscall.PageTables.{map_page_pd, page_tables}

abbrev mode : Vmem
mode = record { vmem_offset = 0; current_mode = identity; phys2virt = missing }

abbrev small_heap : Task
small_heap = record {
  tid = 1;
  name = [];
  state = running;
  kernel_mode = false;
  rsp = 0;
  rip = 0;
  rflags = 0;
  cr3 = 0x7000;
  kernel_stack = 0;
  user_stack = 0;
  page_directory = 0x7000;
  user_brk = 0x40000000;
  user_brk_size = 100;
  time_slice = 10;
  total_time = 0;
  next = 0;
  fds = λ fd. none;
}

-- Frame 256 is in use as the table of the first page of the break, which is at 0x105000.
abbrev user : User (ℕ → ℕ)
user = record {
  tasks = record {
    tasks = λ i. 0;
    mem = λ t. small_heap;
    words = λ a. 0;
    current_task = 5;
    ready_queue_head = 0;
    ready_queue_tail = 0;
    next_tid = 2;
    scheduler_enabled = true;
    frames = record {
      start_addr = 0x100000;
      end_addr = 0x110000;
      start_frame = 256;
      frames = 16;
      max_frames = 16;
      chunks = record { idx = 0; words = λ w. if w == 0 then 1 else 0 } ∷ [];
    };
  };
  tables = λ a. if a == 0x7400 then 0x100007 else if a == 0x100000 then 0x105007 else 0;
}

abbrev memory : ℕ → Bool
memory chi = true

sys_sbrk-Grown_example :
    Grown 50 user (sys_sbrk (page_tables memory mode 0x7000) memory true 50 user)
unfolding current
sys_sbrk-Grown_example =
    sys_sbrk-Grown (page_tables memory mode 0x7000) memory true 50 user (omega arith) (omega arith)

-- The page of the break gets the frame 257.
remaps :
    (sys_sbrk (page_tables memory mode 0x7000) memory true 50 user).1.tables 0x100000 ≡ 0x101007
unfolding current sys_sbrk alloc_frame alloc_from obtain find_chunk scan_words scan_bits chunk_test
    bit take_frame map_page_pd vmem_phys_to_virt
remaps = refl

-- A page behind the end of the first table takes a frame for a new table.
new_table :
    (map_page_pd memory mode 0x7000 0x7000 0x9000 0x40400000 7 user.tables user.tasks.frames).1
      0x7404
    ≡ 0x101003
unfolding map_page_pd vmem_phys_to_virt alloc_frame alloc_from obtain find_chunk scan_words
    scan_bits chunk_test bit take_frame
new_table = refl
