-- ===== src/Vfs/Opening.antt =====
-- `vfs_open` and `vfs_close` of src/kernel/fs/vfs.c.
use lite_core.Prelude.{
  ℕ, ◌+◌, ◌≤◌, ◌<◌, ◌≡◌, ◌≢◌, Bool, true, false, not, ◌||◌, Option, none, some, List, arith, refl,
  sym, subst, ◌∙◌, if-elim, if-true, if-false, leb, ◌==◌, update, fun_ext,
}
use lite_core.Tasks.{Tasks}
use lite_core.Vfs.{
  VfsFile, Vfs, is_none, first_none, fds, set_fd, free_global_handle, size_file, set_file, new_file,
  hand_out, open_at, vfs_open, max_open_files,
}
use lite_core.Vfs.Lookup.{Vacant, first_none-Vacant, is_none-none, fds-set, Opened}

set_fd-task :
    (t : Tasks) (fd : ℕ) (h : Option ℕ) → t.current_task ≢ 0 → (set_fd fd h t).current_task ≢ 0
unfolding set_fd
set_fd-task t fd h on = on

module _ {S D : Type 0} where
  -- The file that `vfs_open` makes, and the disk after its size query.
  abbrev pub made : List ℕ → Vfs S D → VfsFile × D
  made path v = size_file v.active (new_file path) v.disk

  -- The descriptor and the handle were free and lead to the new file; the rest of the tables is as
  -- it was.
  pub record NewFile (path : List ℕ) (v : Vfs S D) (fd h : ℕ) (v' : Vfs S D) : Type 0 where
    pub opened : Opened v' fd h (made path v).0
    pub free_handle : v.open_files h ≡ none
    pub free_fd : fds v.tasks fd ≡ none
    pub files : v'.open_files ≡ update v.open_files h (some (made path v).0)
    pub tasks : v'.tasks ≡ set_fd fd (some h) v.tasks
    pub active : v'.active ≡ v.active
    pub disk : v'.disk ≡ (made path v).1

  -- Why there is no descriptor: the heap, no mounted file system, no free handle, no task, or no
  -- free descriptor.
  pub data Refused (memory : Bool) (v : Vfs S D) : Type 0 where
    no_memory : memory ≡ false → Refused memory v
    no_backend : v.active ≡ none → Refused memory v
    no_handle :
        ((k : ℕ) → 0 ≤ k → k < 0 + max_open_files → v.open_files k ≢ none) → Refused memory v
    no_task : v.tasks.current_task ≡ 0 → Refused memory v
    no_descriptor : ((k : ℕ) → 3 ≤ k → k < 3 + 29 → fds v.tasks k ≢ none) → Refused memory v

  -- What `vfs_open` comes to: without a descriptor, the tables are as they were.
  abbrev pub Result : (memory : Bool) (path : List ℕ) → Vfs S D → Option ℕ × Vfs S D → Type 0
  Result memory path v (none, v') =
      Refused memory v
      × (v'.open_files ≡ v.open_files)
      × (v'.tasks ≡ v.tasks)
      × (v'.active ≡ v.active)
  Result memory path v (some fd, v') = (h : ℕ) × NewFile path v fd h v'

  pub free_global_handle-none :
      (h : ℕ) (v : Vfs S D)
      → h < max_open_files
      → free_global_handle h v ≡ record v { open_files = update v.open_files h none }
  unfolding free_global_handle
  free_global_handle-none h v lt = if-false (leb max_open_files h) v _ (ground arith)

  -- What `open_at` does once it looks for a descriptor.
  abbrev with_file : (path : List ℕ) (h : ℕ) → Vfs S D → Vfs S D
  with_file path h v = record (set_file h (made path v).0 v) { disk = (made path v).1 }

  hand_out-none :
      (memory : Bool) (path : List ℕ) (v : Vfs S D) (h : ℕ)
      → h < max_open_files
      → v.open_files h ≡ none
      → Refused memory v
      → Result memory path v (hand_out h none (with_file path h v))
  unfolding hand_out
  hand_out-none memory path v h lt free why =
      subst (λ v'. Result memory path v (none, v'))
        (sym (free_global_handle-none h (with_file path h v) lt))
        (why, fun_ext (λ k. ground (arith, free)), refl, refl)

  hand_out-some :
      (memory : Bool) (path : List ℕ) (v : Vfs S D) (h : ℕ) (o : Option ℕ)
      → h < max_open_files
      → v.open_files h ≡ none
      → v.tasks.current_task ≢ 0
      → Vacant 29 3 (fds v.tasks) o
      → Result memory path v (hand_out h o (with_file path h v))
  unfolding hand_out
  hand_out-some memory path v h none lt free on w =
      hand_out-none memory path v h lt free (no_descriptor w)
  hand_out-some memory path v h (some fd) lt free on (low, high, free_fd) = (
    h,
    record {
      opened = record {
        task = set_fd-task v.tasks fd (some h) on;
        low = low;
        high = high;
        entry =
            fds-set v.tasks fd fd (some h)
            ∙ if-true (fd == fd) (some h) (fds v.tasks fd) (ground arith);
        handle = lt;
        file = ground arith;
      };
      free_handle = free;
      free_fd = free_fd;
      files = refl;
      tasks = refl;
      active = refl;
      disk = refl;
    },
  )

  open_at-Result :
      (memory : Bool) (path : List ℕ) (v : Vfs S D) (o : Option ℕ)
      → Vacant max_open_files 0 v.open_files o
      → Result memory path v (open_at o (new_file path) v)
  unfolding open_at
  open_at-Result memory path v none w = (no_handle w, refl, refl, refl)
  open_at-Result memory path v (some h) (low, lt, free) =
      if-elim (λ o. Result memory path v (hand_out h o (with_file path h v)))
        (v.tasks.current_task == 0) none (first_none 29 3 (fds v.tasks))
        (λ e. hand_out-none memory path v h lt free (no_task (ground arith)))
        (λ e.
          hand_out-some memory path v h (first_none 29 3 (fds v.tasks)) lt free (ground arith)
            (first_none-Vacant 29 3 (fds v.tasks)))

  no_active :
      (memory : Bool) (v : Vfs S D) → (is_none v.active || not memory) ≡ true → Refused memory v
  no_active true v e = no_backend (is_none-none v.active (ground arith))
  no_active false v e = no_memory refl

  pub vfs_open-Result :
      (memory : Bool) (path : List ℕ) (v : Vfs S D) → Result memory path v (vfs_open memory path v)
  unfolding vfs_open
  vfs_open-Result memory path v =
      if-elim (Result memory path v) (is_none v.active || not memory) (none, v) _
        (λ e. (no_active memory v e, refl, refl, refl))
        (λ e.
          open_at-Result memory path v (first_none max_open_files 0 v.open_files)
            (first_none-Vacant max_open_files 0 v.open_files))
