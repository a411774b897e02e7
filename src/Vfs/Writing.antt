-- ===== src/Vfs/Writing.antt =====
-- The seek and the write of an open file in src/kernel/fs/vfs.c.
use lite_core.Prelude.{ℕ, Bool, Option, none, some, if◌then◌else◌, ltb, ◌==◌, u32, add64}
use lite_core.Vfs.{int_result, VfsFile, Active, Vfs, find_file, set_file}

-- The seek to `offset`, 64 bits in two's complement.
unfoldable pub new_offset : (offset whence : ℕ) → VfsFile → Option ℕ
new_offset offset whence f =
    if whence == 0
    then some (u32 offset)
    else if whence == 1
    then some (u32 (add64 f.offset offset))
    else if whence == 2
    then some (u32 (add64 f.buf_size offset))
    else none

-- What a write that the backend took leaves in the file.
unfoldable pub written : (heap : ℕ → Bool) (garbage buffer : ℕ → ℕ) (len : ℕ) → VfsFile → VfsFile
written heap garbage buffer len f =
    let copy : ℕ → ℕ = λ i. if ltb i len then buffer i else garbage i in
    record f { buf = if heap len then some copy else none; buf_size = u32 len; offset = u32 len }

module _ {S D : Type 0} where
  unfoldable pub vfs_lseek : (fd offset whence : ℕ) → Vfs S D → Option ℕ × Vfs S D
  unfolding find_file new_offset int_result
  vfs_lseek fd offset whence v = elim (find_file fd v) [
    | none ↦ (none, v)
    | some (h, f) ↦ elim (new_offset offset whence f) [
      | none ↦ (none, v)
      | some o ↦ (int_result o, set_file h (record f { offset = o }) v)
    ]
  ]

  unfoldable pub write_found :
      (heap : ℕ → Bool) (garbage buffer : ℕ → ℕ) (len : ℕ)
      → Option (Active S D)
      → Option (ℕ × VfsFile)
      → Vfs S D
      → Option ℕ × Vfs S D
  unfolding written int_result
  write_found heap garbage buffer len active none v = (none, v)
  write_found heap garbage buffer len none (some (h, f)) v = (none, v)
  write_found heap garbage buffer len (some a) (some (h, f)) v = elim (a.backend.write_file) [
    | none ↦ (none, v)
    | some write_file ↦
        let (ok, d) = write_file a.sb f.path buffer len v.disk in
        if ok
        then (
          int_result (u32 len),
          record (set_file h (written heap garbage buffer len f) v) { disk = d },
        )
        else (none, record v { disk = d })
  ]

  -- `vfs_write` of another descriptor than 1 and 2.
  unfoldable pub vfs_write :
      (heap : ℕ → Bool) (garbage : ℕ → ℕ) (fd : ℕ) (buffer : ℕ → ℕ) (len : ℕ)
      → Vfs S D
      → Option ℕ × Vfs S D
  unfolding find_file write_found
  vfs_write heap garbage fd buffer len v =
      write_found heap garbage buffer len v.active (find_file fd v) v
