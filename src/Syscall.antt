-- ===== src/Syscall.antt =====
-- The growth of a task's heap in src/kernel/syscall.c, `sys_sbrk`. The page tables are the parameter
-- `Pager` over a state `P`, which PageTables fills with src/kernel/mem/paging.c; the frames are those
-- of Tasks. The result -1 is `none`.
pub mod Sbrk
pub mod PageTables
mod Tests
use lite_core.Prelude.{
  ℕ, zero, suc, ◌+◌, ◌-◌, ◌*◌, ◌/◌, ◌%◌, ◌^◌, Bool, true, false, Option, none, some, List, [], ◌∷◌,
  ◌++◌, if◌then◌else◌, ltb, leb, ◌==◌, update, u32, add32, add64, sub64,
}
use lite_core.Frames.{Memmap, alloc_frame, free_frame}
use lite_core.Tasks.{Task, Tasks}

-- `map_page_pd`, with the flags of a user page, says whether it returned 0; `unmap_page_pd`. Both
-- may take and give back frames.
pub record Pager (P : Type 0) : Type 0 where
  pub map_page_pd : (pd phys virt : ℕ) → P → Memmap → Bool × P × Memmap
  pub unmap_page_pd : (pd virt : ℕ) → P → Memmap → P × Memmap

-- The tasks, with the frames, and the page tables.
pub record User (P : Type 0) : Type 0 where
  pub tasks : Tasks
  pub tables : P

abbrev pub user_heap_base : ℕ
user_heap_base = 0x40000000

abbrev pub page_size : ℕ
page_size = 0x1000

-- The current task, and a write to its break.
unfoldable pub current : Tasks → Task
current t = t.mem t.current_task

unfoldable pub set_brk : (brk size : ℕ) → Tasks → Tasks
unfolding current
set_brk brk size t = record t {
  mem = update t.mem t.current_task (record (current t) { user_brk = brk; user_brk_size = size });
}

unfoldable pub free_all : List ℕ → Memmap → Memmap
free_all [] m = m
free_all (a ∷ l) m = free_all l (free_frame a m)

-- The loop that allocates `n` frames more than `got`.
unfoldable pub alloc_frames :
    (heap : ℕ → Bool) → ℕ → (got : List ℕ) → Memmap → Option (List ℕ) × Memmap
unfolding free_all
alloc_frames heap zero got m = (some got, m)
alloc_frames heap (suc n) got m =
    let (frm, m') = alloc_frame heap m in
    let rest = alloc_frames heap n (got ++ (u32 frm ∷ [])) m' in
    if frm == 0 then (none, free_all got m') else rest

-- The page of an address, and the number of pages from that of the break up to the new end.
unfoldable pub page_down : ℕ → ℕ
page_down a = u32 a / page_size * page_size

unfoldable pub page_count : (current_brk new_end : ℕ) → ℕ
unfolding page_down
page_count current_brk new_end =
    let prev_page = page_down current_brk in
    let new_page_end = page_down (add64 new_end 0xFFF) in
    if ltb prev_page new_page_end then (new_page_end - prev_page) / page_size else 0

module _ {P : Type 0} (pager : Pager P) where
  -- The pages from `va` on are unmapped and their frames freed.
  unfoldable pub undo_pages : (pd va : ℕ) → List ℕ → P → Memmap → P × Memmap
  undo_pages pd va [] p m = (p, m)
  undo_pages pd va (a ∷ l) p m =
      let (p', m') = pager.unmap_page_pd pd va p m in
      undo_pages pd (add32 va page_size) l p' (free_frame a m')

  -- The loop that maps the frames; those of `before` are mapped from `start` on.
  unfoldable pub map_pages :
      (pd start va : ℕ) (before frames : List ℕ) → P → Memmap → Bool × P × Memmap
  unfolding undo_pages free_all
  map_pages pd start va before [] p m = (true, p, m)
  map_pages pd start va before (a ∷ l) p m =
      let (ok, p', m') = pager.map_page_pd pd a va p m in
      let rest = map_pages pd start (add32 va page_size) (before ++ (a ∷ [])) l p' m' in
      let undone = undo_pages pd start before p' (free_all (a ∷ l) m') in
      if ok then rest else (false, undone.0, undone.1)

  -- What follows once the frames are allocated, or are not.
  unfoldable pub grow_with :
      (current_brk inc : ℕ) → Option (List ℕ) × Memmap → User P → Option ℕ × User P
  unfolding map_pages current set_brk
  grow_with current_brk inc (none, m) u =
      (none, record u { tasks = record (u.tasks) { frames = m } })
  grow_with current_brk inc (some frames, m) u =
      let start = page_down current_brk in
      let (ok, p, m') =
        map_pages (u32 (current u.tasks).page_directory) start start [] frames u.tables m in
      let t : Tasks = record (u.tasks) { frames = m' } in
      let size = sub64 (add64 current_brk inc) (current u.tasks).user_brk in
      if ok
      then (
        some current_brk,
        record { tasks = set_brk (current u.tasks).user_brk size t; tables = p },
      )
      else (none, record { tasks = t; tables = p })

  -- `sys_sbrk` behind the first use; `memory` says whether the array of frames has memory.
  unfoldable pub grow : (heap : ℕ → Bool) (memory : Bool) (inc : ℕ) → User P → Option ℕ × User P
  unfolding page_count alloc_frames grow_with current set_brk
  grow heap memory inc u =
      let t = current u.tasks in
      let current_brk = add64 t.user_brk t.user_brk_size in
      let pages = page_count current_brk (add64 current_brk inc) in
      if inc == 0
      then (some current_brk, u)
      else if leb (2 ^ 63) inc
      then (none, u)
      else if pages == 0
      then (
        some current_brk,
        record u { tasks = set_brk t.user_brk (add64 t.user_brk_size inc) u.tasks },
      )
      else (if memory
          then grow_with current_brk inc (alloc_frames heap pages [] u.tasks.frames) u
          else (none, u))

  -- `inc` has 64 bits in two's complement.
  unfoldable pub sys_sbrk : (heap : ℕ → Bool) (memory : Bool) (inc : ℕ) → User P → Option ℕ × User P
  unfolding grow current set_brk
  sys_sbrk heap memory inc u =
      if u.tasks.current_task == 0
      then (none, u)
      else grow heap memory inc (
          if (current u.tasks).user_brk == 0
          then record u { tasks = set_brk user_heap_base 0 u.tasks }
          else u)
