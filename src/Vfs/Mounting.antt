-- ===== src/Vfs/Mounting.antt =====
-- The backends of src/kernel/fs/vfs.c and the mount.
use lite_core.Prelude.{
  ◌+◌, Bool, true, false, Option, none, some, List, [], ◌∷◌, ◌++◌, if◌then◌else◌, leb,
}
use lite_core.Vfs.{Backend, Active, Vfs, max_backends}

module _ {S D : Type 0} where
  unfoldable pub vfs_register_backend : Backend S D → Vfs S D → Bool × Vfs S D
  vfs_register_backend b v = if leb max_backends v.backend_count then (false, v) else (
    true,
    record v { backends = v.backends ++ (b ∷ []); backend_count = v.backend_count + 1 },
  )

  unfoldable pub mount : Backend S D → D → Option S × D
  mount b d = elim (b.mount_with_cache) [ none ↦ (none, d) | some m ↦ m d ]

  -- The loop of `vfs_mount_with_cache`.
  unfoldable pub mount_first : List (Backend S D) → D → Option (Active S D) × D
  unfolding mount
  mount_first [] d = (none, d)
  mount_first (b ∷ bs) d =
      let (sb, d') = mount b d in
      let rest = mount_first bs d' in
      elim sb [ none ↦ rest | some s ↦ (some (record { backend = b; sb = s }), d') ]

  unfoldable pub vfs_mount_with_cache : Vfs S D → Bool × Vfs S D
  unfolding mount_first
  vfs_mount_with_cache v =
      let (active, d) = mount_first v.backends v.disk in
      elim active [
        | none ↦ (false, record v { disk = d })
        | some a ↦ (true, record v { active = some a; disk = d })
      ]
