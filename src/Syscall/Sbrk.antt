-- ===== src/Syscall/Sbrk.antt =====
-- The break of the current task under `sys_sbrk` of src/kernel/syscall.c.
use lite_core.Prelude.{
  ℕ, ◌+◌, ◌^◌, ◌<◌, ◌≡◌, ◌≢◌, Bool, false, Option, none, some, List, [], arith, refl, sym, ap,
  subst, ◌∙◌, if◌then◌else◌, if-elim, if-true, if-false, leb, ◌==◌, u32, add64, sub64,
}
use lite_core.Frames.{Memmap}
use lite_core.Tasks.{Tasks}
use lite_core.Syscall.{
  Pager, User, user_heap_base, page_size, current, set_brk, alloc_frames, map_pages, page_down,
  page_count, grow_with, grow, sys_sbrk,
}

-- The break of the current task: before its first use, the start of the heap's range.
abbrev pub break_of : Tasks → ℕ
break_of t =
    if (current t).user_brk == 0
    then user_heap_base
    else (current t).user_brk + (current t).user_brk_size

-- The answer is the break before, and the break moves by `inc`; or the answer is -1, and it stays.
-- The other tasks stay.
abbrev pub Grown : {P : Type 0} → (inc : ℕ) → User P → Option ℕ × User P → Type 0
Grown inc u (none, u') =
    (break_of u'.tasks ≡ break_of u.tasks)
    × ((x : ℕ) → x ≢ u.tasks.current_task → u'.tasks.mem x ≡ u.tasks.mem x)
Grown inc u (some b, u') =
    (b ≡ break_of u.tasks)
    × (break_of u'.tasks ≡ break_of u.tasks + inc)
    × ((x : ℕ) → x ≢ u.tasks.current_task → u'.tasks.mem x ≡ u.tasks.mem x)

current_set :
    (brk size : ℕ) (t : Tasks)
    → current (set_brk brk size t) ≡ record (current t) { user_brk = brk; user_brk_size = size }
unfolding current set_brk
current_set brk size t = if-true (t.current_task == t.current_task) _ _ (ground arith)

break_of-set_brk :
    (brk size : ℕ) (t : Tasks)
    → break_of (set_brk brk size t) ≡ (if brk == 0 then user_heap_base else brk + size)
break_of-set_brk brk size t =
    ap (λ k. if k.user_brk == 0 then user_heap_base else k.user_brk + k.user_brk_size)
      (current_set brk size t)

pub break_in_use :
    (t : Tasks)
    → (current t).user_brk ≢ 0
    → break_of t ≡ (current t).user_brk + (current t).user_brk_size
break_in_use t ne =
    if-false ((current t).user_brk == 0) user_heap_base
      ((current t).user_brk + (current t).user_brk_size) (ground arith)

-- The break of a task that uses it, behind a write of a larger size.
break_moves :
    (inc size : ℕ) (t t' : Tasks)
    → (current t).user_brk ≢ 0
    → size ≡ (current t).user_brk_size + inc
    → break_of (set_brk (current t).user_brk size t') ≡ break_of t + inc
break_moves inc size t t' ne larger =
    break_of-set_brk (current t).user_brk size t'
    ∙ if-false ((current t).user_brk == 0) user_heap_base ((current t).user_brk + size)
        (ground arith)
    ∙ omega (arith, larger, break_in_use t ne)

-- The first use of the break does not move it.
break_first :
    (t : Tasks) → (current t).user_brk ≡ 0 → break_of (set_brk user_heap_base 0 t) ≡ break_of t
break_first t fresh =
    break_of-set_brk user_heap_base 0 t
    ∙ sym (
        if-true ((current t).user_brk == 0) user_heap_base
          ((current t).user_brk + (current t).user_brk_size) (ground (arith, fresh)))

others_stay :
    (brk size : ℕ) (t : Tasks) (x : ℕ) → x ≢ t.current_task → (set_brk brk size t).mem x ≡ t.mem x
unfolding set_brk
others_stay brk size t x ne = if-false (x == t.current_task) _ _ (ground arith)

module _ {P : Type 0} (pager : Pager P) where
  -- The break is in use and lies, also when it has grown, in the first 4 GiB.
  record InRange (inc : ℕ) (u : User P) : Type 0 where
    started : (current u.tasks).user_brk ≢ 0
    room : (current u.tasks).user_brk + (current u.tasks).user_brk_size + inc + page_size < 2 ^ 32

  grow_with-Grown :
      (inc : ℕ) (o : Option (List ℕ)) (m : Memmap) (u : User P)
      → InRange inc u
      → let b = add64 (current u.tasks).user_brk (current u.tasks).user_brk_size in
        Grown inc u (grow_with pager b inc (o, m) u)
  unfolding grow_with current set_brk
  grow_with-Grown inc none m u w = (refl, λ x ne. refl)
  grow_with-Grown inc (some frames) m u w =
      let brk = (current u.tasks).user_brk in
      let b = add64 brk (current u.tasks).user_brk_size in
      let start = page_down b in
      let r =
        map_pages pager (u32 (current u.tasks).page_directory) start start [] frames u.tables m in
      let started : brk ≢ 0 = w.started in
      let room : brk + (current u.tasks).user_brk_size + inc + page_size < 2 ^ 32 = w.room in
      if-elim (Grown inc u) r.0 _ _
        (λ e. (
          omega (arith, break_in_use u.tasks started),
          break_moves inc (sub64 (add64 b inc) brk) u.tasks (record (u.tasks) { frames = r.2 })
              started (omega arith),
          others_stay brk (sub64 (add64 b inc) brk) (record (u.tasks) { frames = r.2 }),
        ))
        (λ e. (refl, λ x ne. refl))

  grow-Grown :
      (heap : ℕ → Bool) (memory : Bool) (inc : ℕ) (u : User P)
      → InRange inc u
      → Grown inc u (grow pager heap memory inc u)
  unfolding grow
  grow-Grown heap memory inc u w =
      let brk = (current u.tasks).user_brk in
      let size = (current u.tasks).user_brk_size in
      let b = add64 brk size in
      let pages = page_count b (add64 b inc) in
      let started : brk ≢ 0 = w.started in
      let room : brk + size + inc + page_size < 2 ^ 32 = w.room in
      let before : b ≡ break_of u.tasks = omega (arith, break_in_use u.tasks started) in
      if-elim (Grown inc u) (inc == 0) _ _
        (λ e.
          let nothing : inc ≡ 0 = ground arith in (before, omega (arith, nothing), λ x ne. refl))
        (λ e.
          if-elim (Grown inc u) (leb (2 ^ 63) inc) _ _ (λ e. (refl, λ x ne. refl))
            (λ e.
              if-elim (Grown inc u) (pages == 0) _ _
                (λ e. (
                  before,
                  break_moves inc (add64 size inc) u.tasks u.tasks started (omega arith),
                  others_stay brk (add64 size inc) u.tasks,
                ))
                (λ e.
                  if-elim (Grown inc u) memory _ _
                    (λ e.
                      grow_with-Grown inc (alloc_frames heap pages [] u.tasks.frames).0
                        (alloc_frames heap pages [] u.tasks.frames).1 u w)
                    (λ e. (refl, λ x ne. refl)))))

  Grown-first :
      (inc : ℕ) (u : User P) (r : Option ℕ × User P)
      → (current u.tasks).user_brk ≡ 0
      → Grown inc (record u { tasks = set_brk user_heap_base 0 u.tasks }) r
      → Grown inc u r
  unfolding set_brk
  Grown-first inc u (none, u') fresh w = (
    w.0 ∙ break_first u.tasks fresh,
    λ x ne. w.1 x ne ∙ others_stay user_heap_base 0 u.tasks x ne,
  )
  Grown-first inc u (some b, u') fresh w = (
    w.0 ∙ break_first u.tasks fresh,
    w.1 ∙ ap (λ k. k + inc) (break_first u.tasks fresh),
    λ x ne. w.2 x ne ∙ others_stay user_heap_base 0 u.tasks x ne,
  )

  first-InRange :
      (inc : ℕ) (u : User P)
      → (current u.tasks).user_brk ≡ 0
      → break_of u.tasks + inc + page_size < 2 ^ 32
      → InRange inc (record u { tasks = set_brk user_heap_base 0 u.tasks })
  first-InRange inc u fresh room =
      let set = current_set user_heap_base 0 u.tasks in
      let brk : (current (set_brk user_heap_base 0 u.tasks)).user_brk ≡ user_heap_base =
        ap (λ k. k.user_brk) set in
      let size : (current (set_brk user_heap_base 0 u.tasks)).user_brk_size ≡ 0 =
        ap (λ k. k.user_brk_size) set in
      let at_base : break_of u.tasks ≡ user_heap_base =
        sym (break_first u.tasks fresh) ∙ break_of-set_brk user_heap_base 0 u.tasks in
      record { started = omega (arith, brk); room = omega (arith, brk, size, at_base, room) }

  -- For a growth that ends a page below 4 GiB, `sys_sbrk` of the current task either gives the
  -- break before and moves the break by `inc`, or gives -1 and leaves the break where it was; the
  -- other tasks stay.
  pub sys_sbrk-Grown :
      (heap : ℕ → Bool) (memory : Bool) (inc : ℕ) (u : User P)
      → u.tasks.current_task ≢ 0
      → break_of u.tasks + inc + page_size < 2 ^ 32
      → Grown inc u (sys_sbrk pager heap memory inc u)
  unfolding sys_sbrk
  sys_sbrk-Grown heap memory inc u task room =
      let on : (u.tasks.current_task == 0) ≡ false = ground (arith, task) in
      let first : User P = record u { tasks = set_brk user_heap_base 0 u.tasks } in
      subst (Grown inc u) (sym (if-false (u.tasks.current_task == 0) (none, u) _ on)) (
        if-elim (λ v. Grown inc u (grow pager heap memory inc v)) ((current u.tasks).user_brk == 0)
          first u
          (λ e.
            let fresh : (current u.tasks).user_brk ≡ 0 = ground arith in
            Grown-first inc u (grow pager heap memory inc first) fresh
              (grow-Grown heap memory inc first (first-InRange inc u fresh room)))
          (λ e.
            let started : (current u.tasks).user_brk ≢ 0 = ground arith in
            grow-Grown heap memory inc u (record {
              started = started;
              room = omega (arith, break_in_use u.tasks started, room);
            })))
