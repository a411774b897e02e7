-- ===== src/Vfs/Reading.antt =====
-- `vfs_read` of src/kernel/fs/vfs.c against the contents of a file.
use lite_core.Prelude.{
  ℕ, ◌+◌, ◌-◌, ◌^◌, ◌≤◌, ◌<◌, ◌≡◌, inl, inr, ◌⊎◌, Bool, true, false, not, ◌&&◌, Option, none, some,
  List, arith, refl, sym, ap, subst, ◌∙◌, if◌then◌else◌, if-elim, ltb, ◌==◌, u32, add32, min,
}
use lite_core.Vfs.{
  VfsFile, Active, is_none, size_with, size_file, load_with, load_file, copy_length, copy_out,
  copy_cached, finish_read, int_result, read_opened,
}
use lite_core.Vfs.Lookup.{is_none-none}

-- The backend serves the file at the path as long as the disk has it: its size is `size` and byte `j`
-- is `content j`.
pub record Serves {S D : Type 0} (a : Active S D) (Has : D → Type 0) (path : List ℕ) (size : ℕ)
    (content : ℕ → ℕ) : Type 0 where
  pub query : S → List ℕ → D → Bool × ℕ × D
  pub has_query : a.backend.get_file_size ≡ some query
  pub query_ok : (d : D) → Has d → (query a.sb path d).0 ≡ true
  pub query_size : (d : D) → Has d → (query a.sb path d).1 ≡ size
  pub query_has : (d : D) → Has d → Has (query a.sb path d).2
  pub read : S → List ℕ → (ℕ → ℕ) → ℕ → D → Bool × (ℕ → ℕ) × ℕ × D
  pub has_read : a.backend.read_file ≡ some read
  pub read_ok : (buf : ℕ → ℕ) (len : ℕ) (d : D) → Has d → (read a.sb path buf len d).0 ≡ true
  pub read_bytes :
      (buf : ℕ → ℕ) (len : ℕ) (d : D) (j : ℕ)
      → Has d
      → j < min len size
      → (read a.sb path buf len d).1 j ≡ content j
  pub read_len :
      (buf : ℕ → ℕ) (len : ℕ) (d : D) → Has d → (read a.sb path buf len d).2 ≡ min len size
  pub read_has : (buf : ℕ → ℕ) (len : ℕ) (d : D) → Has d → Has (read a.sb path buf len d).3

-- What an open file holds of its contents: nothing but perhaps the size, or all.
abbrev pub Cached : (size : ℕ) → (ℕ → ℕ) → Option (ℕ → ℕ) → ℕ → Type 0
Cached size content none buf_size = (buf_size ≡ 0) ⊎ (buf_size ≡ size)
Cached size content (some b) buf_size = (buf_size ≡ size) × ((j : ℕ) → j < size → b j ≡ content j)

-- The same once the file is loaded: an empty one has no buffer.
abbrev pub Loaded : (size : ℕ) → (ℕ → ℕ) → Option (ℕ → ℕ) → ℕ → Type 0
Loaded size content none buf_size = (buf_size ≡ 0) × (size ≡ 0)
Loaded size content (some b) buf_size = (buf_size ≡ size) × ((j : ℕ) → j < size → b j ≡ content j)

-- `f'` is a later stage of the file `f`: it has the same path and offset.
pub record Stage (f f' : VfsFile) : Type 0 where
  pub path : f'.path ≡ f.path
  pub offset : f'.offset ≡ f.offset

Cached-Loaded :
    (size : ℕ) (content : ℕ → ℕ) (o : Option (ℕ → ℕ)) (n : ℕ)
    → is_none o ≡ false
    → Cached size content o n
    → Loaded size content o n
unfolding is_none
Cached-Loaded size content none n e w = ground arith
Cached-Loaded size content (some b) n e w = w

copy_length-min :
    (len offset size : ℕ) → copy_length len offset size ≡ min (u32 len) (size - offset)
unfolding copy_length
copy_length-min len offset size = ground arith

if-below : (j n x y : ℕ) → j < n → (if ltb j n then x else y) ≡ x
if-below j n x y lt = ground arith

if-above : (j n x y : ℕ) → n ≤ j → (if ltb j n then x else y) ≡ y
if-above j n x y le = ground arith

module _ {S D : Type 0} (a : Active S D) (Has : D → Type 0) (size : ℕ) (content : ℕ → ℕ) where
  -- The file after its size query.
  pub record Sized (f f' : VfsFile) (d' : D) : Type 0 where
    pub stage : Stage f f'
    pub buf : f'.buf ≡ f.buf
    pub known : f'.buf_size ≡ size
    pub has : Has d'

  pub size_file-Sized :
      (f : VfsFile) (d : D)
      → Serves a Has f.path size content
      → f.buf_size ≡ 0
      → Has d
      → Sized f (size_file (some a) f d).0 (size_file (some a) f d).1
  unfolding size_file size_with
  size_file-Sized f d w empty has =
      let r = w.query a.sb f.path d in
      subst (λ o. Sized f (size_with o a.sb f d).0 (size_with o a.sb f d).1) (sym w.has_query)
        (if-elim (λ f'. Sized f f' r.2) (r.0 && ltb 0 r.1) (record f { buf_size = r.1 }) f
          (λ e. record {
            stage = record { path = refl; offset = refl };
            buf = refl;
            known = w.query_size d has;
            has = w.query_has d has;
          })
          (λ e. record {
            stage = record { path = refl; offset = refl };
            buf = refl;
            known = ground (arith, w.query_ok d has, w.query_size d has);
            has = w.query_has d has;
          }))

  -- The file after an attempt to load it.
  abbrev Load : (heap : ℕ → Bool) → VfsFile → Bool × VfsFile × D → Type 0
  Load heap f (ok, f', d') =
      Stage f f'
      × Has d'
      × (if ok
          then Loaded size content f'.buf f'.buf_size
          else (heap size ≡ false) × Cached size content f'.buf f'.buf_size)

  length-whole :
      (garbage : ℕ → ℕ) (f : VfsFile) (d : D) (w : Serves a Has f.path size content)
      → f.buf_size ≡ size
      → size < 2 ^ 31
      → Has d
      → u32 (w.read a.sb f.path garbage f.buf_size d).2 ≡ size
  length-whole garbage f d w known small has =
      let len : (w.read a.sb f.path garbage f.buf_size d).2 ≡ min f.buf_size size =
        w.read_len garbage f.buf_size d has in
      ground (arith, len)

  load_with-Load :
      (heap : ℕ → Bool) (garbage : ℕ → ℕ) (f : VfsFile) (d : D)
      (w : Serves a Has f.path size content)
      → size < 2 ^ 31
      → f.buf ≡ none
      → f.buf_size ≡ size
      → Has d
      → Load heap f (load_with heap garbage (some w.read) a.sb f d)
  unfolding load_with
  load_with-Load heap garbage f d w small unread known has =
      let r = w.read a.sb f.path garbage f.buf_size d in
      let stage : Stage f f = record { path = refl; offset = refl } in
      if-elim (Load heap f) (f.buf_size == 0) (true, f, d) _
        (λ e.
          let zero_size : f.buf_size ≡ 0 = ground arith in
          (stage, has, rw unread (zero_size, sym known ∙ zero_size)))
        (λ e.
          if-elim (Load heap f) (not (heap f.buf_size)) (false, f, d) _
            (λ e.
              let full : heap size ≡ false = subst (λ n. heap n ≡ false) known (ground arith) in
              (
                stage,
                has,
                (full, subst (λ o. Cached size content o f.buf_size) (sym unread) (inr known)),
              ))
            (λ e.
              if-elim (Load heap f) r.0 _ _
                (λ e. (
                  record { path = refl; offset = refl },
                  w.read_has garbage f.buf_size d has,
                  (
                    length-whole garbage f d w known small has,
                    λ j lt. w.read_bytes garbage f.buf_size d j has (omega arith),
                  ),
                ))
                (λ e. let ok : r.0 ≡ true = w.read_ok garbage f.buf_size d has in ground arith)))

  Load-Before :
      (heap : ℕ → Bool) (f f' : VfsFile) (r : Bool × VfsFile × D)
      → Stage f f'
      → Load heap f' r
      → Load heap f r
  Load-Before heap f f' r b w =
      (record { path = w.0.path ∙ b.path; offset = w.0.offset ∙ b.offset }, w.1, w.2)

  load_with-known :
      (heap : ℕ → Bool) (garbage : ℕ → ℕ) (f : VfsFile) (d : D)
      → Serves a Has f.path size content
      → size < 2 ^ 31
      → f.buf ≡ none
      → f.buf_size ≡ size
      → Has d
      → Load heap f (load_with heap garbage a.backend.read_file a.sb f d)
  load_with-known heap garbage f d w small unread known has =
      subst (λ o. Load heap f (load_with heap garbage o a.sb f d)) (sym w.has_read)
        (load_with-Load heap garbage f d w small unread known has)

  load_file-Load :
      (heap : ℕ → Bool) (garbage : ℕ → ℕ) (f : VfsFile) (d : D)
      → Serves a Has f.path size content
      → size < 2 ^ 31
      → f.buf ≡ none
      → (f.buf_size ≡ 0) ⊎ (f.buf_size ≡ size)
      → Has d
      → Load heap f (load_file heap garbage (some a) f d)
  unfolding load_file
  load_file-Load heap garbage f d w small unread known has =
      let P : VfsFile × D → Type 0 =
        λ r. Load heap f (load_with heap garbage a.backend.read_file a.sb r.0 r.1) in
      if-elim P (f.buf_size == 0) (size_file (some a) f d) (f, d)
        (λ e.
          let z : Sized f (size_file (some a) f d).0 (size_file (some a) f d).1 =
            size_file-Sized f d w (ground arith) has in
          Load-Before heap f (size_file (some a) f d).0 _ z.stage (
            load_with-known heap garbage (size_file (some a) f d).0 (size_file (some a) f d).1
              (subst (λ p. Serves a Has p size content) (sym z.stage.path) w) small (z.buf ∙ unread)
              z.known z.has))
        (λ e.
          load_with-known heap garbage f d w small unread
            (elim known [ inl zero_size ↦ ground (arith) | inr known ↦ known ]) has)

  -- What a read of `len` bytes into a buffer comes to.
  abbrev pub Read :
      (heap : ℕ → Bool) (buffer : ℕ → ℕ) (len : ℕ)
      → VfsFile
      → Option ℕ × (ℕ → ℕ) × VfsFile × D
      → Type 0
  Read heap buffer len f (none, buffer', f', d) =
      (heap size ≡ false)
      × (buffer' ≡ buffer)
      × Stage f f'
      × Cached size content f'.buf f'.buf_size
      × Has d
  Read heap buffer len f (some n, buffer', f', d) =
      (n ≡ min (u32 len) (size - f.offset))
      × ((j : ℕ) → j < n → buffer' j ≡ content (f.offset + j))
      × ((j : ℕ) → n ≤ j → buffer' j ≡ buffer j)
      × (f'.path ≡ f.path)
      × (f'.offset ≡ f.offset + n)
      × Cached size content f'.buf f'.buf_size
      × Has d

  copy_file_bytes :
      (heap : ℕ → Bool) (buffer : ℕ → ℕ) (len : ℕ) (f f' : VfsFile) (d : D) (o : Option (ℕ → ℕ))
      → f'.buf ≡ o
      → size < 2 ^ 31
      → f.offset < 2 ^ 32
      → Stage f f'
      → Loaded size content o f'.buf_size
      → Has d
      → let r = copy_cached buffer len o f' in Read heap buffer len f (some r.0, r.1, r.2, d)
  unfolding copy_cached copy_out
  copy_file_bytes heap buffer len f f' d none at_buf small below st (empty, zero_size) has = (
    ground (arith, zero_size),
    λ j lt. ground arith,
    λ j le. refl,
    st.path,
    omega (arith, st.offset),
    subst (λ o. Cached size content o f'.buf_size) (sym at_buf) (inl empty),
    has,
  )
  copy_file_bytes heap buffer len f f' d (some b) at_buf small below st (known, bytes) has =
      let n = copy_length len f'.offset f'.buf_size in
      let count : n ≡ min (u32 len) (size - f.offset) =
        copy_length-min len f'.offset f'.buf_size
        ∙ ap (λ o. min (u32 len) (f'.buf_size - o)) st.offset
        ∙ ap (λ k. min (u32 len) (k - f.offset)) known in
      let place : (j : ℕ) → j < n → add32 f'.offset j ≡ f.offset + j =
        λ j lt. omega (arith, st.offset) in
      (
        count,
        λ j lt.
            if-below j n (b (add32 f'.offset j)) (buffer j) lt
            ∙ ap b (place j lt)
            ∙ bytes (f.offset + j) (omega arith),
        λ j le. if-above j n (b (add32 f'.offset j)) (buffer j) le,
        st.path,
        omega (arith, st.offset),
        subst (λ o. Cached size content o f'.buf_size) (sym at_buf) (known, bytes),
        has,
      )

  finish_read-Read :
      (heap : ℕ → Bool) (buffer : ℕ → ℕ) (len : ℕ) (f f' : VfsFile) (ok : Bool) (d : D)
      → size < 2 ^ 31
      → f.offset < 2 ^ 32
      → Load heap f (ok, f', d)
      → Read heap buffer len f (finish_read buffer len ok f' d)
  unfolding finish_read int_result
  finish_read-Read heap buffer len f f' false d small below w = (w.2.0, refl, w.0, w.2.1, w.1)
  finish_read-Read heap buffer len f f' true d small below w =
      let r = copy_cached buffer len f'.buf f' in
      let w' = copy_file_bytes heap buffer len f f' d f'.buf refl small below w.0 w.2 w.1 in
      if-elim (λ o. Read heap buffer len f (o, r.1, r.2, d)) (r.0 == 2 ^ 32 - 1) none (some r.0)
        (λ e. absurd (count_small e w'.0 small)) (λ e. w')
    where
      count_small :
          {n : ℕ}
          → (n == 2 ^ 32 - 1) ≡ true
          → n ≡ min (u32 len) (size - f.offset)
          → size < 2 ^ 31
          → ⊥
      count_small e n_is lt = ground arith

  pub read_opened-Read :
      (heap : ℕ → Bool) (garbage buffer : ℕ → ℕ) (len : ℕ) (f : VfsFile) (d : D)
      → Serves a Has f.path size content
      → size < 2 ^ 31
      → f.offset < 2 ^ 32
      → Cached size content f.buf f.buf_size
      → Has d
      → Read heap buffer len f (read_opened heap garbage buffer len (some a) f d)
  unfolding read_opened
  read_opened-Read heap garbage buffer len f d w small below cached has =
      if-elim (λ r. Read heap buffer len f (finish_read buffer len r.0 r.1 r.2)) (is_none f.buf)
        (load_file heap garbage (some a) f d) (true, f, d)
        (λ e.
          let unread : f.buf ≡ none = is_none-none f.buf e in
          let r = load_file heap garbage (some a) f d in
          finish_read-Read heap buffer len f r.1 r.0 r.2 small below (
            load_file-Load heap garbage f d w small unread
              (subst (λ o. Cached size content o f.buf_size) unread cached) has))
        (λ e. finish_read-Read heap buffer len f f true d small below (
          record { path = refl; offset = refl },
          has,
          Cached-Loaded size content f.buf f.buf_size e cached,
        ))
