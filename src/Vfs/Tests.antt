-- ===== src/Vfs/Tests.antt =====
-- A file system with one file of five bytes, and the theorems there.
use lite_core.Prelude.{
  ℕ, ◌+◌, ◌≡◌, Bool, true, none, some, List, [], ◌∷◌, if◌then◌else◌, ltb, ◌==◌, min, arith, refl,
  inr, if-true,
}
use lite_core.Tasks.{Task, running}
use lite_core.Vfs.{
  Backend, VfsFile, Active, Vfs, vfs_open, vfs_read, first_none, is_none, open_at, hand_out, fds,
  copy_path,
}
use lite_core.Vfs.Lookup.{Opened}
use lite_core.Vfs.Reading.{Serves}
use lite_core.Vfs.Sessions.{
  ReadThrough, vfs_read-Through, OpenRead, vfs_open-vfs_read, OpenClose, vfs_open-vfs_close,
}

abbrev content : ℕ → ℕ
content j = 65 + j

abbrev letters : (ℕ → ℕ) → ℕ → ℕ → ℕ
letters buf len j = if ltb j (min len 5) then content j else buf j

abbrev one_file : Backend ℕ ℕ
one_file = record {
  mount_with_cache = some (λ d. (some 7, d));
  read_file = some (λ sb path buf len d. (true, letters buf len, min len 5, d + 1));
  write_file = none;
  get_file_size = some (λ sb path d. (true, 5, d + 1));
}

abbrev mounted : Active ℕ ℕ
mounted = record { backend = one_file; sb = 7 }

abbrev AnyDisk : ℕ → Type 0
AnyDisk d = Unit {0}

one_file-Serves : (path : List ℕ) → Serves mounted AnyDisk path 5 content
one_file-Serves path = record {
  query = λ sb path d. (true, 5, d + 1);
  has_query = refl;
  query_ok = λ d has. refl;
  query_size = λ d has. refl;
  query_has = λ d has. tt;
  read = λ sb path buf len d. (true, letters buf len, min len 5, d + 1);
  has_read = refl;
  read_ok = λ buf len d has. refl;
  read_bytes = λ buf len d j has lt. if-true (ltb j (min len 5)) (content j) (buf j) (ground arith);
  read_len = λ buf len d has. refl;
  read_has = λ buf len d has. tt;
}

abbrev running_task : Task
running_task = record {
  tid = 1;
  name = [];
  state = running;
  kernel_mode = true;
  rsp = 0;
  rip = 0;
  rflags = 0;
  cr3 = 0;
  kernel_stack = 0;
  user_stack = 0;
  page_directory = 0;
  user_brk = 0;
  user_brk_size = 0;
  time_slice = 10;
  total_time = 0;
  next = 0;
  fds = λ fd. if fd == 4 then some 9 else (if ltb fd 3 then some fd else none);
}

-- Descriptor 4 leads to a file through handle 9.
abbrev letters_file : VfsFile
letters_file = record {
  path = 47 ∷ 97 ∷ [];
  buf = none;
  buf_size = 5;
  buf_allocated = 0;
  offset = 2;
}

abbrev state : Vfs ℕ ℕ
state = record {
  backends = one_file ∷ [];
  backend_count = 1;
  active = some mounted;
  open_files = λ h. if h == 9 then some letters_file else none;
  tasks = record {
    tasks = λ i. 0;
    mem = λ t. running_task;
    words = λ a. 0;
    current_task = 5;
    ready_queue_head = 0;
    ready_queue_tail = 0;
    next_tid = 2;
    scheduler_enabled = true;
    frames = record {
      start_addr = 0;
      end_addr = 0;
      start_frame = 0;
      frames = 0;
      max_frames = 0;
      chunks = [];
    };
  };
  disk = 0;
}

abbrev heap : ℕ → Bool
heap n = true

abbrev zeros : ℕ → ℕ
zeros j = 0

state-Opened : Opened state 4 9 letters_file
unfolding fds
state-Opened = record {
  task = omega arith;
  low = omega arith;
  high = omega arith;
  entry = refl;
  handle = omega arith;
  file = refl;
}

vfs_read-Through_example :
    ReadThrough mounted AnyDisk 5 content heap zeros 2 4 9 letters_file state
      (vfs_read heap zeros 4 zeros 2 state)
vfs_read-Through_example =
    vfs_read-Through mounted AnyDisk 5 content heap zeros zeros 2 4 9 letters_file state
      state-Opened refl (one_file-Serves letters_file.path) (omega arith) (omega arith) (inr refl)
      tt

vfs_open-vfs_read_example :
    OpenRead mounted AnyDisk 5 content true heap zeros zeros 3 state
      (vfs_open true (47 ∷ 98 ∷ []) state)
vfs_open-vfs_read_example =
    vfs_open-vfs_read mounted AnyDisk 5 content true heap zeros zeros 3 (47 ∷ 98 ∷ []) state refl
      (one_file-Serves (copy_path 255 (47 ∷ 98 ∷ []))) (omega arith) tt

vfs_open-vfs_close_example : OpenClose state (vfs_open true (47 ∷ 98 ∷ []) state)
vfs_open-vfs_close_example = vfs_open-vfs_close true (47 ∷ 98 ∷ []) state

-- The new file gets descriptor 3.
open_state : (vfs_open true (47 ∷ 98 ∷ []) state).0 ≡ some 3
unfolding vfs_open first_none is_none open_at hand_out fds
open_state = refl
