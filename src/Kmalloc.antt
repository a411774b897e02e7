-- ===== src/Kmalloc.antt =====
-- The kernel heap of src/kernel/mem/manager.c: `mem_init`, `kmalloc`, `kfree`, `heap_expand` and
-- the functions over them. Memory is what the allocator reads and writes of it: a header at every
-- address and a 32-bit word at every address (the canaries). Each call runs under `heap_lock`, so
-- it is one step. Pointers are 64-bit, sizes 32-bit. `printk` is left out, except that `kfree`
-- says whether it reported a mismatch. Headers at addresses that overlap are independent, as no
-- blocks of a valid heap overlap; the walk over the free list behind a hit, which counts for a
-- message, is left out.
pub mod Kfree
pub mod Chain
pub mod FirstFit
pub mod Fit
pub mod Expand
pub mod Alloc
pub mod Retry
pub mod Release
pub mod Merge
pub mod Join
pub mod Balance
pub mod Limits
pub mod Statistics
mod Tests
use lite_core.Prelude.{
  ℕ, zero, suc, ◌+◌, ◌-◌, ◌*◌, ◌/◌, ◌||◌, Option, none, some, if◌then◌else◌, ltb, leb, ◌==◌, update,
  u32, add32, sub32, add64, sub64,
}

-- `block_header_t`
pub record Header : Type 0 where
  pub size : ℕ
  pub tag : ℕ
  pub next : ℕ

abbrev pub sizeof_header : ℕ
sizeof_header = 16

abbrev pub kmalloc_canary : ℕ
kmalloc_canary = 0xDEADBEEF

pub record Heap : Type 0 where
  pub headers : ℕ → Header
  pub words : ℕ → ℕ
  pub free_list : ℕ
  pub heap_start : ℕ
  pub heap_end : ℕ
  pub alloc_seq : ℕ

abbrev pub size_at : Heap → ℕ → ℕ
size_at h a = (h.headers a).size

abbrev pub next_at : Heap → ℕ → ℕ
next_at h a = (h.headers a).next

unfoldable pub set_size : ℕ → ℕ → Heap → Heap
set_size a n h = record h { headers = update h.headers a (record (h.headers a) { size = n }) }

unfoldable pub set_next : ℕ → ℕ → Heap → Heap
set_next a n h = record h { headers = update h.headers a (record (h.headers a) { next = n }) }

unfoldable pub set_tag : ℕ → ℕ → Heap → Heap
set_tag a n h = record h { headers = update h.headers a (record (h.headers a) { tag = n }) }

-- `prev ? prev->next : free_list`
unfoldable pub link : Heap → ℕ → ℕ
link h prev = if prev == 0 then h.free_list else next_at h prev

-- `if (prev) prev->next = n; else free_list = n;`
unfoldable pub set_link : ℕ → ℕ → Heap → Heap
unfolding set_next
set_link prev n h = if prev == 0 then record h { free_list = n } else set_next prev n h

-- `align_up`: to a multiple of 8, in 32 bits
unfoldable pub align_up : ℕ → ℕ
align_up size = add32 size 7 / 8 * 8

unfoldable pub wanted_with_canary : ℕ → ℕ
unfolding align_up
wanted_with_canary size = align_up (u32 (align_up size + 4))

unfoldable pub total_size : ℕ → ℕ
unfolding wanted_with_canary
total_size size = u32 (wanted_with_canary size + sizeof_header)

pub mem_init : ℕ → ℕ → Heap → Heap
unfolding set_next set_size
mem_init start end h =
    if leb end start || ltb (end - start) sizeof_header
    then h
    else set_next start 0 (
        set_size start (end - start)
          (record h { heap_start = start; heap_end = end; free_list = start }))

-- What one walk of the free list comes to: the block at `found`, or the end of the list.
pub data Search : Type 0 where
  found : ℕ → Heap → Search
  exhausted : Heap → Search
  out_of_fuel : Search

-- The block `cur`, behind `prev`, is cut or given out whole.
unfoldable pub carve : (total prev cur : ℕ) → Heap → Heap
unfolding set_link set_next set_size
carve total prev cur h =
    if leb (total + sizeof_header + 8 * 2) (size_at h cur)
    then (let next_block = add64 cur total in
        let h1 = set_size next_block (sub32 (size_at h cur) total) h in
        let h2 = set_next next_block (next_at h1 cur) h1 in
        set_link prev next_block (set_size cur total h2))
    else set_link prev (next_at h cur) h

-- The loop over the free list. A block of size 0 is unlinked.
unfoldable pub search : ℕ → (total prev cur : ℕ) → Heap → Search
unfolding carve
search zero total prev cur h = out_of_fuel
search (suc fuel) total prev cur h =
    let unlinked = set_link prev (next_at h cur) h in
    let skip = search fuel total prev (next_at unlinked cur) unlinked in
    let rest = search fuel total cur (next_at h cur) h in
    if cur == 0
    then exhausted h
    else if size_at h cur == 0
    then skip
    else if leb total (size_at h cur)
    then found cur (carve total prev cur h)
    else rest

-- What follows a hit: the tag of a large block, and the canary.
unfoldable pub finish : (size cur : ℕ) → Heap → Heap
unfolding set_tag wanted_with_canary
finish size cur h =
    let tagged =
      if leb 256 size
      then record (set_tag cur h.alloc_seq h) { alloc_seq = add32 h.alloc_seq 1 }
      else h in
    let canary = sub64 (add64 (add64 cur sizeof_header) (wanted_with_canary size)) 4 in
    record tagged { words = update tagged.words canary kmalloc_canary }

-- The walk of `heap_expand` to the insertion point: the last block below `new_block`, or 0.
unfoldable pub insertion_point : ℕ → (new_block prev cur : ℕ) → Heap → Option ℕ
insertion_point zero new_block prev cur h = none
insertion_point (suc fuel) new_block prev cur h =
    let rest = insertion_point fuel new_block cur (next_at h cur) h in
    if cur == 0 then some prev else if ltb cur new_block then rest else some prev

-- `cur->size += cur->next->size; cur->next = cur->next->next;`
unfoldable pub absorb_next : ℕ → Heap → Heap
unfolding set_next set_size
absorb_next cur h =
    let after = next_at h cur in
    let grown = set_size cur (add32 (size_at h cur) (size_at h after)) h in
    set_next cur (next_at grown (next_at grown cur)) grown

-- The merge with the next block at the end of `heap_expand`.
unfoldable pub merge_next : ℕ → Heap → Heap
unfolding absorb_next
merge_next b h =
    if next_at h b == 0
    then h
    else if add64 b (size_at h b) == next_at h b
    then absorb_next b h
    else h

-- The insertion behind `prev` with its two merges.
unfoldable pub place : (prev new_block : ℕ) → Heap → Heap
unfolding merge_next set_next set_size
place prev new_block h =
    if prev == 0
    then merge_next new_block (record (set_next new_block h.free_list h) { free_list = new_block })
    else (let linked = set_next prev new_block (set_next new_block (next_at h prev) h) in
        if add64 prev (size_at linked prev) == new_block
        then merge_next prev (
            let grown =
              set_size prev (add32 (size_at linked prev) (size_at linked new_block)) linked in
            set_next prev (next_at grown new_block) grown)
        else merge_next new_block linked)

unfoldable pub page_up : ℕ → ℕ
page_up n = add32 n 0xFFF / 0x1000 * 0x1000

-- The header of the new block, at the end of the heap.
unfoldable pub fresh_block : ℕ → Heap → Heap
fresh_block n h =
    let fresh : Header = record { size = n; tag = 0; next = 0 } in
    record h { headers = update h.headers h.heap_end fresh }

-- `heap_expand`. It always returns 0; `none` means that the walk ran out of fuel.
unfoldable pub heap_expand : ℕ → ℕ → Heap → Option Heap
unfolding insertion_point place page_up fresh_block
heap_expand fuel additional_size h =
    if additional_size == 0
    then some h
    else (let additional = page_up additional_size in
        let h1 = fresh_block additional h in
        let end = add64 h.heap_end additional in
        if h1.free_list == 0
        then some (record h1 { free_list = h.heap_end; heap_end = end })
        else elim (insertion_point fuel h.heap_end 0 h1.free_list h1) [
          | none ↦ none
          | some prev ↦ some (record (place prev h.heap_end h1) { heap_end = end })
        ])

-- The bytes that a failed walk asks `heap_expand` for: at least 1 MiB.
unfoldable pub expand_size : ℕ → ℕ
expand_size total = if ltb total 0x100000 then 0x100000 else total

-- A call of `kmalloc`: the pointer (0 is NULL) and the heap.
pub data Allocation : Type 0 where
  returned : ℕ → Heap → Allocation
  fuel_exhausted : Allocation

-- `kmalloc_internal`, with the number of retries left in place of `retry_count`.
unfoldable pub kmalloc_internal : ℕ → ℕ → ℕ → Heap → Allocation
kmalloc_internal fuel zero size h = returned 0 h
kmalloc_internal fuel (suc retries) size h =
    if (size == 0) || (h.free_list == 0)
    then returned 0 h
    else elim (search fuel (total_size size) 0 h.free_list h) [
      | out_of_fuel ↦ fuel_exhausted
      | found cur h' ↦ returned (add64 cur sizeof_header) (finish size cur h')
      | exhausted h' ↦ elim (heap_expand fuel (expand_size (total_size size)) h') [
        | none ↦ fuel_exhausted
        | some h'' ↦ kmalloc_internal fuel retries size h''
      ]
    ]

-- `retry_count` goes from 0 to 3.
unfoldable pub kmalloc : ℕ → ℕ → Heap → Allocation
kmalloc fuel size h = kmalloc_internal fuel 4 size h
