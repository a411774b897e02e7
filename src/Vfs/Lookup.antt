-- ===== src/Vfs/Lookup.antt =====
-- The searches for a free handle and a free descriptor in src/kernel/fs/vfs.c, and the way from a
-- descriptor to its file.
use lite_core.Prelude.{
  ℕ, zero, suc, ◌+◌, ◌≤◌, ◌<◌, ◌≡◌, ◌≢◌, true, false, Option, none, some, arith, refl, ap, subst,
  ◌∙◌, if◌then◌else◌, if-elim, if-true, if-false, leb, ◌==◌,
}
use lite_core.Tasks.{Tasks}
use lite_core.Vfs.{
  VfsFile, Vfs, is_none, first_none, fds, set_fd, file_at, find_file, is_file, max_open_files,
}

pub is_none-none {ℓ} : {A : Type ℓ} (o : Option A) → is_none o ≡ true → o ≡ none
unfolding is_none
is_none-none none e = refl
is_none-none (some x) e = ground arith

-- An index in the range that has no entry, or none if each has one.
abbrev pub Vacant {ℓ} : {A : Type ℓ} → (n i : ℕ) → (ℕ → Option A) → Option ℕ → Type ℓ
Vacant n i f none = (k : ℕ) → i ≤ k → k < i + n → f k ≢ none
Vacant n i f (some k) = (i ≤ k) × (k < i + n) × (f k ≡ none)

Vacant-suc {ℓ} :
    {A : Type ℓ} (n i : ℕ) (f : ℕ → Option A) (o : Option ℕ)
    → f i ≢ none
    → Vacant n (i + 1) f o
    → Vacant (suc n) i f o
Vacant-suc n i f none ne w = λ k le lt e.
    let other : k ≢ i = λ q. ne (subst (λ j. f j ≡ none) q e) in w k (omega arith) (omega arith) e
Vacant-suc n i f (some k) ne w = (omega arith, omega arith, w.2)

is_none-false {ℓ} : {A : Type ℓ} (o : Option A) → is_none o ≡ false → o ≢ none
unfolding is_none
is_none-false o e q = ground (arith, ap is_none q)

pub first_none-Vacant {ℓ} :
    {A : Type ℓ} (n i : ℕ) (f : ℕ → Option A) → Vacant n i f (first_none n i f)
unfolding first_none
first_none-Vacant zero i f = λ k le lt. absurd (omega arith)
first_none-Vacant (suc n) i f =
    if-elim (Vacant (suc n) i f) (is_none (f i)) (some i) (first_none n (i + 1) f)
      (λ e. (omega arith, omega arith, is_none-none (f i) e))
      (λ e.
        Vacant-suc n i f (first_none n (i + 1) f) (is_none-false (f i) e)
          (first_none-Vacant n (i + 1) f))

pub fds-set :
    (t : Tasks) (fd x : ℕ) (h : Option ℕ) → fds (set_fd fd h t) x ≡ (if x == fd then h else fds t x)
unfolding fds set_fd
fds-set t fd x h = ground arith

file_at-some :
    (files : ℕ → Option VfsFile) (o : Option ℕ) (h : ℕ) (f : VfsFile)
    → o ≡ some h
    → h < max_open_files
    → files h ≡ some f
    → file_at files o ≡ some (h, f)
unfolding file_at
file_at-some files o h f entry lt file =
    ap (file_at files) entry
    ∙ if-false (leb max_open_files h) none _ (ground arith)
    ∙ ap (λ x. elim x as (λ y. Option (ℕ × VfsFile)) [ none ↦ none | some g ↦ some (h, g) ]) file

module _ {S D : Type 0} where
  -- A descriptor of the current task leads to the file `f` through the handle `h`.
  pub record Opened (v : Vfs S D) (fd h : ℕ) (f : VfsFile) : Type 0 where
    pub task : v.tasks.current_task ≢ 0
    pub low : 3 ≤ fd
    pub high : fd < 32
    pub entry : fds v.tasks fd ≡ some h
    pub handle : h < max_open_files
    pub file : v.open_files h ≡ some f

  pub find_file-Opened :
      (v : Vfs S D) (fd h : ℕ) (f : VfsFile) → Opened v fd h f → find_file fd v ≡ some (h, f)
  unfolding find_file
  find_file-Opened v fd h f w =
      if-false (v.tasks.current_task == 0) none _ (ground (arith, w.task))
      ∙ if-true (is_file fd) (file_at v.open_files (fds v.tasks fd)) none
          (ground (arith, w.low, w.high))
      ∙ file_at-some v.open_files (fds v.tasks fd) h f w.entry w.handle w.file
