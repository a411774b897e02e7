-- ===== src/Vfs.antt =====
-- The virtual file system of src/kernel/fs/vfs.c: its backends, the table of open files and the
-- descriptors of the current task. The file systems are parameters: a `Backend` acts on a state
-- `D` of the disk, and `S` is the type of its superblocks. A NULL path or buffer is left out, and
-- the result -1 of an operation is `none`.
pub mod Mounting
pub mod Writing
pub mod Lookup
pub mod Reading
pub mod Opening
pub mod Sessions
mod Tests
use lite_core.Prelude.{
  ℕ, zero, suc, ◌+◌, ◌-◌, ◌*◌, ◌/◌, ◌^◌, Bool, true, false, ◌&&◌, ◌||◌, not, Option, none, some,
  List, [], ◌∷◌, ◌++◌, if◌then◌else◌, ltb, leb, ◌==◌, update, u32, add32, add64, min,
}
use lite_core.Tasks.{Task, Tasks}

-- `struct vfs_backend`; a missing operation is `none`. A mount gives the superblock. A read gives
-- whether it returned 0, what the buffer holds then, and the length; a size query the size.
pub record Backend (S D : Type 0) : Type 0 where
  pub mount_with_cache : Option (D → Option S × D)
  pub read_file : Option (S → List ℕ → (ℕ → ℕ) → ℕ → D → Bool × (ℕ → ℕ) × ℕ × D)
  pub write_file : Option (S → List ℕ → (ℕ → ℕ) → ℕ → D → Bool × D)
  pub get_file_size : Option (S → List ℕ → D → Bool × ℕ × D)

-- `struct vfs_file`, without `type` and `sb`, which nothing reads.
pub record VfsFile : Type 0 where
  pub path : List ℕ
  pub buf : Option (ℕ → ℕ)
  pub buf_size : ℕ
  pub buf_allocated : ℕ
  pub offset : ℕ

-- `active_backend` and `active_sb`
pub record Active (S D : Type 0) : Type 0 where
  pub backend : Backend S D
  pub sb : S

-- The file's variables, the tasks and the disk.
pub record Vfs (S D : Type 0) : Type 0 where
  pub backends : List (Backend S D)
  pub backend_count : ℕ
  pub active : Option (Active S D)
  pub open_files : ℕ → Option VfsFile
  pub tasks : Tasks
  pub disk : D

abbrev pub max_open_files : ℕ
max_open_files = 2048

abbrev pub max_backends : ℕ
max_backends = 128

unfoldable pub is_none {ℓ} : {A : Type ℓ} → Option A → Bool
is_none none = true
is_none (some a) = false

-- The first index from `i` on, of `n`, without an entry.
unfoldable pub first_none {ℓ} : {A : Type ℓ} → ℕ → (i : ℕ) → (ℕ → Option A) → Option ℕ
unfolding is_none
first_none zero i f = none
first_none (suc n) i f = let rest = first_none n (i + 1) f in if is_none (f i) then some i else rest

-- `fds` of the current task, and a write to it.
unfoldable pub fds : Tasks → ℕ → Option ℕ
fds t fd = (t.mem t.current_task).fds fd

unfoldable pub set_fd : ℕ → Option ℕ → Tasks → Tasks
set_fd fd h t = record t {
  mem =
      update t.mem t.current_task
        (record (t.mem t.current_task) { fds = update (t.mem t.current_task).fds fd h });
}

-- A descriptor of an open file.
abbrev pub is_file : ℕ → Bool
is_file fd = leb 3 fd && ltb fd 32

-- `path` in an open file: at most 255 bytes, up to the terminator, which is left out.
unfoldable pub copy_path : ℕ → List ℕ → List ℕ
copy_path zero path = []
copy_path (suc room) [] = []
copy_path (suc room) (c ∷ path) = if c == 0 then [] else c ∷ copy_path room path

-- The number of bytes that `vfs_read` copies.
unfoldable pub copy_length : (len offset buf_size : ℕ) → ℕ
copy_length len offset buf_size =
    let avail = if ltb offset buf_size then buf_size - offset else 0 in
    if ltb avail (u32 len) then avail else u32 len

-- The copy of `vfs_read` from the cached file: the count, the caller's buffer and the file.
unfoldable pub copy_out : (buffer : ℕ → ℕ) (len : ℕ) → VfsFile → (ℕ → ℕ) → ℕ × (ℕ → ℕ) × VfsFile
copy_out buffer len f bytes =
    let to_copy = copy_length len f.offset f.buf_size in
    (
      to_copy,
      (λ i. if ltb i to_copy then bytes (add32 f.offset i) else buffer i),
      record f { offset = add32 f.offset to_copy },
    )

unfoldable pub copy_cached :
    (buffer : ℕ → ℕ) (len : ℕ) → Option (ℕ → ℕ) → VfsFile → ℕ × (ℕ → ℕ) × VfsFile
unfolding copy_out
copy_cached buffer len none f = (0, buffer, f)
copy_cached buffer len (some bytes) f = copy_out buffer len f bytes

-- The handle of a descriptor and its file, as `vfs_read`, `vfs_write` and `vfs_lseek` find them.
unfoldable pub file_at : (ℕ → Option VfsFile) → Option ℕ → Option (ℕ × VfsFile)
file_at files none = none
file_at files (some h) =
    if leb max_open_files h then none else elim (files h) [ none ↦ none | some f ↦ some (h, f) ]

-- An int by its 32 bits: -1 is `none`.
unfoldable pub int_result : ℕ → Option ℕ
int_result n = if n == 2 ^ 32 - 1 then none else some n

-- The end of `vfs_read`, once the file is loaded or could not be.
unfoldable pub finish_read {ℓ} :
    {D : Type ℓ} (buffer : ℕ → ℕ) (len : ℕ) → Bool → VfsFile → D → Option ℕ × (ℕ → ℕ) × VfsFile × D
unfolding copy_cached int_result
finish_read buffer len false f d = (none, buffer, f, d)
finish_read buffer len true f d =
    let (n, buffer', f') = copy_cached buffer len f.buf f in (int_result n, buffer', f', d)

unfoldable pub new_file : List ℕ → VfsFile
unfolding copy_path
new_file pathname = record {
  path = copy_path 255 pathname;
  buf = none;
  buf_size = 0;
  buf_allocated = 0;
  offset = 0;
}

module _ {S D : Type 0} where
  unfoldable pub free_global_handle : ℕ → Vfs S D → Vfs S D
  free_global_handle idx v =
      if leb max_open_files idx then v else record v { open_files = update v.open_files idx none }

  -- The size query, which keeps the old size when it fails or gives 0.
  unfoldable pub size_with : Option (S → List ℕ → D → Bool × ℕ × D) → S → VfsFile → D → VfsFile × D
  size_with none sb f d = (f, d)
  size_with (some get_file_size) sb f d =
      let (ok, sz, d') = get_file_size sb f.path d in
      (if ok && ltb 0 sz then record f { buf_size = sz } else f, d')

  unfoldable pub size_file : Option (Active S D) → VfsFile → D → VfsFile × D
  unfolding size_with
  size_file none f d = (f, d)
  size_file (some a) f d = size_with a.backend.get_file_size a.sb f d

  -- The read of the whole file into a new buffer, whose first bytes are `garbage`: whether
  -- `vfs_read` goes on.
  unfoldable pub load_with :
      (heap : ℕ → Bool) (garbage : ℕ → ℕ)
      → Option (S → List ℕ → (ℕ → ℕ) → ℕ → D → Bool × (ℕ → ℕ) × ℕ × D)
      → S
      → VfsFile
      → D
      → Bool × VfsFile × D
  load_with heap garbage none sb f d = (true, f, d)
  load_with heap garbage (some read_file) sb f d =
      let (ok, bytes, out_len, d') = read_file sb f.path garbage f.buf_size d in
      let sized = record f { buf_allocated = f.buf_size } in
      if f.buf_size == 0
      then (true, f, d)
      else if not (heap f.buf_size)
      then (false, f, d)
      else if ok
      then (true, record sized { buf = some bytes; buf_size = u32 out_len }, d')
      else (false, sized, d')

  unfoldable pub load_file :
      (heap : ℕ → Bool) (garbage : ℕ → ℕ) → Option (Active S D) → VfsFile → D → Bool × VfsFile × D
  unfolding size_file load_with
  load_file heap garbage active f d =
      let (sized, d') = if f.buf_size == 0 then size_file active f d else (f, d) in
      elim active [
        | none ↦ (true, sized, d')
        | some a ↦ load_with heap garbage a.backend.read_file a.sb sized d'
      ]

  -- `vfs_read` of an open file.
  unfoldable pub read_opened :
      (heap : ℕ → Bool) (garbage buffer : ℕ → ℕ) (len : ℕ)
      → Option (Active S D)
      → VfsFile
      → D
      → Option ℕ × (ℕ → ℕ) × VfsFile × D
  unfolding load_file finish_read is_none
  read_opened heap garbage buffer len active f d =
      let (ok, loaded, d') =
        if is_none f.buf then load_file heap garbage active f d else (true, f, d) in
      finish_read buffer len ok loaded d'

  unfoldable pub find_file : ℕ → Vfs S D → Option (ℕ × VfsFile)
  unfolding fds file_at
  find_file fd v =
      if v.tasks.current_task == 0
      then none
      else if is_file fd
      then file_at v.open_files (fds v.tasks fd)
      else none

  abbrev pub set_file : ℕ → VfsFile → Vfs S D → Vfs S D
  set_file h f v = record v { open_files = update v.open_files h (some f) }

  unfoldable pub read_found :
      (heap : ℕ → Bool) (garbage buffer : ℕ → ℕ) (len : ℕ)
      → Option (ℕ × VfsFile)
      → Vfs S D
      → Option ℕ × (ℕ → ℕ) × Vfs S D
  unfolding read_opened
  read_found heap garbage buffer len none v = (none, buffer, v)
  read_found heap garbage buffer len (some (h, f)) v =
      let (n, buffer', f', d) = read_opened heap garbage buffer len v.active f v.disk in
      (n, buffer', record (set_file h f' v) { disk = d })

  -- `vfs_read` of another descriptor than 0: the count, the caller's buffer and the state.
  unfoldable pub vfs_read :
      (heap : ℕ → Bool) (garbage : ℕ → ℕ) (fd : ℕ) (buffer : ℕ → ℕ) (len : ℕ)
      → Vfs S D
      → Option ℕ × (ℕ → ℕ) × Vfs S D
  unfolding find_file read_found
  vfs_read heap garbage fd buffer len v = read_found heap garbage buffer len (find_file fd v) v

  unfoldable pub release : (fd : ℕ) → Option ℕ → Vfs S D → Bool × Vfs S D
  unfolding free_global_handle set_fd
  release fd none v = (false, v)
  release fd (some h) v =
      let freed = free_global_handle h v in
      (true, record freed { tasks = set_fd fd none freed.tasks })

  -- `vfs_close`, which is `vfs_fd_release_for_current`.
  unfoldable pub vfs_close : ℕ → Vfs S D → Bool × Vfs S D
  unfolding release fds
  vfs_close fd v =
      if v.tasks.current_task == 0
      then (false, v)
      else if is_file fd
      then release fd (fds v.tasks fd) v
      else (false, v)

  -- The descriptor that `vfs_open` hands out for the handle `h`, or what it does without one.
  unfoldable pub hand_out : ℕ → Option ℕ → Vfs S D → Option ℕ × Vfs S D
  unfolding free_global_handle set_fd
  hand_out h none v = (none, free_global_handle h v)
  hand_out h (some fd) v = (some fd, record v { tasks = set_fd fd (some h) v.tasks })

  -- `vfs_open` of the file `f`, for the free handle that it found.
  unfoldable pub open_at : Option ℕ → VfsFile → Vfs S D → Option ℕ × Vfs S D
  unfolding size_file first_none fds hand_out
  open_at none f v = (none, v)
  open_at (some h) f v =
      let (sized, d) = size_file v.active f v.disk in
      let opened = record (set_file h sized v) { disk = d } in
      hand_out h (if v.tasks.current_task == 0 then none else first_none 29 3 (fds v.tasks)) opened

  -- `vfs_open`; `memory` says whether the structure of the file has memory.
  unfoldable pub vfs_open : (memory : Bool) → List ℕ → Vfs S D → Option ℕ × Vfs S D
  unfolding open_at new_file is_none
  vfs_open memory pathname v =
      if is_none v.active || not memory
      then (none, v)
      else open_at (first_none max_open_files 0 v.open_files) (new_file pathname) v
