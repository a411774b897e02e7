-- ===== src/Kmalloc/Kfree.antt =====
-- `kfree` of src/kernel/mem/manager.c, and what the file builds from it and from `kmalloc`:
-- `stack_alloc`, `stack_free`, the heap statistics and the heap branch of `mem_has_space`.
use lite_core.Prelude.{
  ℕ, zero, suc, ◌+◌, ◌-◌, Bool, true, false, ◌||◌, not, Option, none, some, if◌then◌else◌, ltb, leb,
  ◌==◌, u32, add32, add64, sub64,
}
use lite_core.Kmalloc.{
  Heap, Allocation, returned, fuel_exhausted, sizeof_header, kmalloc_canary, size_at, next_at,
  set_next, absorb_next, align_up, kmalloc,
}

-- The test that ends in "kfree CANARY MISMATCH".
unfoldable pub canary_mismatch : ℕ → Heap → Bool
canary_mismatch hdr h =
    let user_bytes = size_at h hdr - sizeof_header in
    let canary = sub64 (add64 (add64 hdr sizeof_header) user_bytes) 4 in
    if ltb (sizeof_header + 4) (size_at h hdr)
    then not (h.words canary == kmalloc_canary)
    else false

-- The walk to the last free block below `hdr`, from `cur` on.
unfoldable pub last_below : ℕ → (hdr cur : ℕ) → Heap → Option ℕ
last_below zero hdr cur h = none
last_below (suc fuel) hdr cur h =
    let rest = last_below fuel hdr (next_at h cur) h in
    if next_at h cur == 0 then some cur else if ltb (next_at h cur) hdr then rest else some cur

-- `hdr->next = cur->next; cur->next = hdr;`
unfoldable pub insert_after : (cur hdr : ℕ) → Heap → Heap
unfolding set_next
insert_after cur hdr h = set_next cur hdr (set_next hdr (next_at h cur) h)

-- The insertion in address order.
unfoldable pub insert : ℕ → ℕ → Heap → Option Heap
unfolding last_below set_next insert_after
insert fuel hdr h =
    if (h.free_list == 0) || ltb hdr h.free_list
    then some (record (set_next hdr h.free_list h) { free_list = hdr })
    else elim (last_below fuel hdr h.free_list h) [
      | none ↦ none
      | some cur ↦ some (insert_after cur hdr h)
    ]

-- The loop that merges neighbours.
unfoldable pub coalesce : ℕ → ℕ → Heap → Option Heap
coalesce zero cur h = none
coalesce (suc fuel) cur h =
    let merged = coalesce fuel cur (absorb_next cur h) in
    let advanced = coalesce fuel (next_at h cur) h in
    if (cur == 0) || (next_at h cur == 0)
    then some h
    else if add64 cur (size_at h cur) == next_at h cur
    then merged
    else advanced

-- `kfree`: the heap, and whether a mismatch was reported.
unfoldable pub kfree : ℕ → ℕ → Heap → Option (Heap × Bool)
kfree fuel ptr h =
    let hdr = sub64 ptr sizeof_header in
    if ptr == 0
    then some (h, false)
    else if ltb hdr h.heap_start
    then some (h, false)
    else elim (insert fuel hdr h) [
      | none ↦ none
      | some h' ↦ elim (coalesce fuel h'.free_list h') [
        | none ↦ none
        | some h'' ↦ some (h'', canary_mismatch hdr h)
      ]
    ]

-- The top of the new stack, or 0.
unfoldable pub stack_alloc : ℕ → ℕ → Heap → Allocation
unfolding align_up
stack_alloc fuel size h =
    if size == 0 then returned 0 h else elim (kmalloc fuel (align_up size) h) [
      | fuel_exhausted ↦ fuel_exhausted
      | returned p h' ↦ if p == 0 then returned 0 h' else returned (add64 p (align_up size)) h'
    ]

unfoldable pub stack_free : ℕ → (top size : ℕ) → Heap → Option (Heap × Bool)
unfolding align_up
stack_free fuel top size h =
    if (top == 0) || (size == 0) then some (h, false) else kfree fuel (sub64 top (align_up size)) h

unfoldable pub heap_total_bytes : Heap → ℕ
heap_total_bytes h = if ltb h.heap_start h.heap_end then u32 (h.heap_end - h.heap_start) else 0

-- The user bytes of a free block.
unfoldable pub user_bytes : ℕ → ℕ
user_bytes size = if ltb sizeof_header size then size - sizeof_header else 0

unfoldable pub free_bytes_from : ℕ → (cur total_free : ℕ) → Heap → Option ℕ
unfolding user_bytes
free_bytes_from zero cur total_free h = none
free_bytes_from (suc fuel) cur total_free h =
    let rest =
      free_bytes_from fuel (next_at h cur) (add32 total_free (user_bytes (size_at h cur))) h in
    if cur == 0 then some total_free else rest

unfoldable pub heap_free_bytes : ℕ → Heap → Option ℕ
unfolding free_bytes_from
heap_free_bytes fuel h = free_bytes_from fuel h.free_list 0 h

unfoldable pub largest_from : ℕ → (cur largest : ℕ) → Heap → Option ℕ
unfolding user_bytes
largest_from zero cur largest h = none
largest_from (suc fuel) cur largest h =
    let bytes = user_bytes (size_at h cur) in
    let rest = largest_from fuel (next_at h cur) (if ltb largest bytes then bytes else largest) h in
    if cur == 0 then some largest else rest

unfoldable pub heap_largest_free_block : ℕ → Heap → Option ℕ
unfolding largest_from
heap_largest_free_block fuel h = largest_from fuel h.free_list 0 h

-- `mem_has_space` for `MEM_TYPE_HEAP`: the walk for a block of `wanted` user bytes.
unfoldable pub has_block : ℕ → (wanted cur : ℕ) → Heap → Option Bool
has_block zero wanted cur h = none
has_block (suc fuel) wanted cur h =
    let rest = has_block fuel wanted (next_at h cur) h in
    if cur == 0
    then some false
    else if leb (wanted + sizeof_header) (size_at h cur)
    then some true
    else rest

unfoldable pub heap_has_space : ℕ → ℕ → Heap → Option Bool
unfolding has_block align_up
heap_has_space fuel size h = has_block fuel (align_up size) h.free_list h
