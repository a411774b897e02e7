-- ===== src/Vfs/Sessions.antt =====
-- What a task sees of an open file in src/kernel/fs/vfs.c: a read, a read behind an open, and a close
-- behind an open.
use lite_core.Prelude.{
  ℕ, ◌+◌, ◌-◌, ◌≤◌, ◌<◌, ◌^◌, ◌≡◌, inr, Bool, true, false, Option, none, some, List, arith, refl,
  sym, ap, subst, ◌∙◌, if-elim, if-true, if-false, ◌==◌, update, fun_ext, min, u32,
}
use lite_core.Vfs.{
  VfsFile, Vfs, Active, fds, set_fd, size_file, new_file, vfs_open, vfs_close, release, is_file,
  vfs_read, read_found, read_opened, copy_path,
}
use lite_core.Vfs.Lookup.{fds-set, Opened, find_file-Opened}
use lite_core.Vfs.Reading.{Serves, Read, Cached, Sized, size_file-Sized, read_opened-Read}
use lite_core.Vfs.Opening.{Refused, made, NewFile, Result, vfs_open-Result, free_global_handle-none}

module _ {S D : Type 0} (a : Active S D) (Has : D → Type 0) (size : ℕ) (content : ℕ → ℕ) where
  -- A read of the file `f` through `h`, with the file that it leaves there.
  abbrev pub ReadThrough :
      (heap : ℕ → Bool) (buffer : ℕ → ℕ) (len fd h : ℕ)
      → VfsFile
      → Vfs S D
      → Option ℕ × (ℕ → ℕ) × Vfs S D
      → Type 0
  ReadThrough heap buffer len fd h f v (n, buffer', v') =
      (f' : VfsFile) × Read a Has size content heap buffer len f (n, buffer', f', v'.disk)
      × Opened v' fd h f'
      × (v'.open_files ≡ update v.open_files h (some f'))
      × (v'.tasks ≡ v.tasks)
      × (v'.active ≡ v.active)

  read_found-Through :
      (heap : ℕ → Bool) (garbage buffer : ℕ → ℕ) (len fd h : ℕ) (f : VfsFile) (v : Vfs S D)
      → Opened v fd h f
      → v.active ≡ some a
      → Serves a Has f.path size content
      → size < 2 ^ 31
      → f.offset < 2 ^ 32
      → Cached size content f.buf f.buf_size
      → Has v.disk
      → ReadThrough heap buffer len fd h f v (read_found heap garbage buffer len (some (h, f)) v)
  unfolding read_found
  read_found-Through heap garbage buffer len fd h f v w on serves small below cached has =
      let r = read_opened heap garbage buffer len v.active f v.disk in
      (
        r.2,
        subst
            (λ o.
              Read a Has size content heap buffer len f
                (read_opened heap garbage buffer len o f v.disk))
            (sym on)
            (read_opened-Read a Has size content heap garbage buffer len f v.disk serves small below
              cached has),
        record {
          task = w.task;
          low = w.low;
          high = w.high;
          entry = w.entry;
          handle = w.handle;
          file = ground arith;
        },
        refl,
        refl,
        refl,
      )

  -- For an open file whose backend serves a file of less than 2^31 bytes, with an offset below
  -- 2^32 and a cache that holds nothing, the size, or the contents, `vfs_read` gives the next
  -- bytes of the file, as many as there are and `len` (taken as 32 bits) asks for, leaves the rest
  -- of the buffer alone, and moves the offset behind them; it gives -1 only if the heap has no
  -- room for the file. The other open files and the tasks stay.
  pub vfs_read-Through :
      (heap : ℕ → Bool) (garbage buffer : ℕ → ℕ) (len fd h : ℕ) (f : VfsFile) (v : Vfs S D)
      → Opened v fd h f
      → v.active ≡ some a
      → Serves a Has f.path size content
      → size < 2 ^ 31
      → f.offset < 2 ^ 32
      → Cached size content f.buf f.buf_size
      → Has v.disk
      → ReadThrough heap buffer len fd h f v (vfs_read heap garbage fd buffer len v)
  unfolding vfs_read
  vfs_read-Through heap garbage buffer len fd h f v w on serves small below cached has =
      subst (λ o. ReadThrough heap buffer len fd h f v (read_found heap garbage buffer len o v))
        (sym (find_file-Opened v fd h f w))
        (read_found-Through heap garbage buffer len fd h f v w on serves small below cached has)

  -- A first read of a file.
  abbrev pub FirstRead : (heap : ℕ → Bool) (buffer : ℕ → ℕ) (len : ℕ) → Option ℕ × (ℕ → ℕ) → Type 0
  FirstRead heap buffer len (none, buffer') = (heap size ≡ false) × (buffer' ≡ buffer)
  FirstRead heap buffer len (some n, buffer') =
      (n ≡ min (u32 len) size)
      × ((j : ℕ) → j < n → buffer' j ≡ content j)
      × ((j : ℕ) → n ≤ j → buffer' j ≡ buffer j)

  Through-First :
      (heap : ℕ → Bool) (buffer : ℕ → ℕ) (len fd h : ℕ) (f : VfsFile) (v : Vfs S D) (n : Option ℕ)
      (buffer' : ℕ → ℕ) (v' : Vfs S D)
      → f.offset ≡ 0
      → ReadThrough heap buffer len fd h f v (n, buffer', v')
      → FirstRead heap buffer len (n, buffer')
  Through-First heap buffer len fd h f v none buffer' v' start w = (w.1.0, w.1.1)
  Through-First heap buffer len fd h f v (some n) buffer' v' start w = (
    w.1.0 ∙ ap (λ o. min (u32 len) (size - o)) start ∙ ap (min (u32 len)) (omega arith),
    (λ j lt. w.1.1 j lt ∙ ap (λ o. content (o + j)) start ∙ ap content (omega arith)),
    w.1.2,
  )

  made-Serves :
      (path : List ℕ) (v : Vfs S D)
      → v.active ≡ some a
      → Serves a Has (copy_path 255 path) size content
      → Has v.disk
      → Sized a Has size content (new_file path) (made path v).0 (made path v).1
  unfolding new_file
  made-Serves path v on serves has =
      subst
        (λ o.
          Sized a Has size content (new_file path) (size_file o (new_file path) v.disk).0
            (size_file o (new_file path) v.disk).1)
        (sym on) (size_file-Sized a Has size content (new_file path) v.disk serves refl has)

  -- What `vfs_open` and then a first read come to.
  abbrev pub OpenRead :
      (memory : Bool) (heap : ℕ → Bool) (garbage buffer : ℕ → ℕ) (len : ℕ)
      → Vfs S D
      → Option ℕ × Vfs S D
      → Type 0
  OpenRead memory heap garbage buffer len v (none, v') =
      Refused memory v × (v'.open_files ≡ v.open_files) × (v'.tasks ≡ v.tasks)
  OpenRead memory heap garbage buffer len v (some fd, v') =
      let r = vfs_read heap garbage fd buffer len v' in FirstRead heap buffer len (r.0, r.1)

  NewFile-Read :
      (heap : ℕ → Bool) (garbage buffer : ℕ → ℕ) (len fd h : ℕ) (path : List ℕ) (v v' : Vfs S D)
      → NewFile path v fd h v'
      → v.active ≡ some a
      → Serves a Has (copy_path 255 path) size content
      → size < 2 ^ 31
      → Has v.disk
      → let r = vfs_read heap garbage fd buffer len v' in FirstRead heap buffer len (r.0, r.1)
  unfolding new_file
  NewFile-Read heap garbage buffer len fd h path v v' w on serves small has =
      let f : VfsFile = (made path v).0 in
      let z : Sized a Has size content (new_file path) f (made path v).1 =
        made-Serves path v on serves has in
      let r = vfs_read heap garbage fd buffer len v' in
      Through-First heap buffer len fd h f v' r.0 r.1 r.2 z.stage.offset (
        vfs_read-Through heap garbage buffer len fd h f v' w.opened (w.active ∙ on)
          (subst (λ p. Serves a Has p size content) (sym z.stage.path) serves) small
          (subst (λ o. o < 2 ^ 32) (sym z.stage.offset) (omega arith))
          (subst (λ o. Cached size content o f.buf_size) (sym z.buf) (inr z.known))
          (subst Has (sym w.disk) z.has))

  Result-OpenRead :
      (memory : Bool) (heap : ℕ → Bool) (garbage buffer : ℕ → ℕ) (len : ℕ) (path : List ℕ)
      (v : Vfs S D) (o : Option ℕ) (v' : Vfs S D)
      → v.active ≡ some a
      → Serves a Has (copy_path 255 path) size content
      → size < 2 ^ 31
      → Has v.disk
      → Result memory path v (o, v')
      → OpenRead memory heap garbage buffer len v (o, v')
  Result-OpenRead memory heap garbage buffer len path v none v' on serves small has w =
      (w.0, w.1, w.2)
  Result-OpenRead memory heap garbage buffer len path v (some fd) v' on serves small has w =
      NewFile-Read heap garbage buffer len fd w.0 path v v' w.1 on serves small has

  -- When the backend serves a file of less than 2^31 bytes at the first 255 bytes of the path,
  -- `vfs_open` either gives a descriptor, whose first `vfs_read` gives the first bytes of the file
  -- or finds no room for it in the heap, or it gives -1 for want of memory, a backend, a handle, a
  -- task or a descriptor, and leaves the open files and the tasks alone.
  pub vfs_open-vfs_read :
      (memory : Bool) (heap : ℕ → Bool) (garbage buffer : ℕ → ℕ) (len : ℕ) (path : List ℕ)
      (v : Vfs S D)
      → v.active ≡ some a
      → Serves a Has (copy_path 255 path) size content
      → size < 2 ^ 31
      → Has v.disk
      → OpenRead memory heap garbage buffer len v (vfs_open memory path v)
  vfs_open-vfs_read memory heap garbage buffer len path v on serves small has =
      let r = vfs_open memory path v in
      Result-OpenRead memory heap garbage buffer len path v r.0 r.1 on serves small has
        (vfs_open-Result memory path v)

-- An entry that was free is made and taken back.
taken_back {ℓ} :
    {A : Type ℓ} (f g : ℕ → Option A) (h : ℕ) (o : Option A)
    → f h ≡ none
    → ((k : ℕ) → update f h o k ≡ g k)
    → (k : ℕ) → update g h none k ≡ f k
taken_back f g h o free made k =
    if-elim (λ r. r ≡ f k) (k == h) none (g k)
      (λ e. let here : k ≡ h = ground arith in sym (ap f here ∙ free))
      (λ e. sym (made k) ∙ if-false (k == h) o (f k) e)

module _ {S D : Type 0} where
  -- The tables are as in `v`.
  abbrev pub Restored : Vfs S D → Vfs S D → Type 0
  Restored v v' = (v'.open_files ≡ v.open_files) × ((x : ℕ) → fds v'.tasks x ≡ fds v.tasks x)

  -- What `vfs_open` and then `vfs_close` come to.
  abbrev pub OpenClose : Vfs S D → Option ℕ × Vfs S D → Type 0
  OpenClose v (none, v') = Restored v v'
  OpenClose v (some fd, v') = ((vfs_close fd v').0 ≡ true) × Restored v (vfs_close fd v').1

  -- The state behind the close of `fd`, whose handle is `h`.
  abbrev closed : (fd h : ℕ) → Vfs S D → Vfs S D
  closed fd h v = record v {
    open_files = update v.open_files h none;
    tasks = set_fd fd none v.tasks;
  }

  vfs_close-closed :
      (fd h : ℕ) (f : VfsFile) (v : Vfs S D)
      → Opened v fd h f
      → vfs_close fd v ≡ (true, closed fd h v)
  unfolding vfs_close release
  vfs_close-closed fd h f v w =
      if-false (v.tasks.current_task == 0) (false, v) _ (ground (arith, w.task))
      ∙ if-true (is_file fd) (release fd (fds v.tasks fd) v) (false, v)
          (ground (arith, w.low, w.high))
      ∙ ap (λ o. release fd o v) w.entry
      ∙ ap (λ u. (true, record u { tasks = set_fd fd none u.tasks }))
          (free_global_handle-none h v w.handle)

  closed-Restored :
      (path : List ℕ) (fd h : ℕ) (v v' : Vfs S D)
      → NewFile path v fd h v'
      → Restored v (closed fd h v')
  closed-Restored path fd h v v' w =
      let files : (k : ℕ) → update v.open_files h (some (made path v).0) k ≡ v'.open_files k =
        λ k. ap (λ g. g k) (sym w.files) in
      (
        fun_ext
            (taken_back v.open_files v'.open_files h (some (made path v).0) w.free_handle files),
        λ x.
            fds-set v'.tasks fd x none
            ∙ taken_back (fds v.tasks) (fds v'.tasks) fd (some h) w.free_fd
                (λ k. sym (ap (λ t. fds t k) w.tasks ∙ fds-set v.tasks fd k (some h))) x,
      )

  NewFile-Close :
      (path : List ℕ) (fd h : ℕ) (v v' : Vfs S D)
      → NewFile path v fd h v'
      → ((vfs_close fd v').0 ≡ true) × Restored v (vfs_close fd v').1
  NewFile-Close path fd h v v' w =
      subst (λ r. (r.0 ≡ true) × Restored v r.1)
        (sym (vfs_close-closed fd h (made path v).0 v' w.opened))
        (refl, closed-Restored path fd h v v' w)

  Result-OpenClose :
      (memory : Bool) (path : List ℕ) (v : Vfs S D) (o : Option ℕ) (v' : Vfs S D)
      → Result memory path v (o, v')
      → OpenClose v (o, v')
  Result-OpenClose memory path v none v' w = (w.1, λ x. ap (λ t. fds t x) w.2)
  Result-OpenClose memory path v (some fd) v' w = NewFile-Close path fd w.0 v v' w.1

  -- `vfs_close` of the descriptor that `vfs_open` gave succeeds, and the open files and the
  -- current task's descriptors are then what they were before the open; they are also when the
  -- open gives -1.
  pub vfs_open-vfs_close :
      (memory : Bool) (path : List ℕ) (v : Vfs S D) → OpenClose v (vfs_open memory path v)
  vfs_open-vfs_close memory path v =
      let r = vfs_open memory path v in
      Result-OpenClose memory path v r.0 r.1 (vfs_open-Result memory path v)
