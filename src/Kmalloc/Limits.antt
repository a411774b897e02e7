-- ===== src/Kmalloc/Limits.antt =====
-- The start of the heap (src/kernel/mem/manager.c).
use lite_core.Prelude.{ℕ, ◌+◌, ◌-◌, ◌≤◌, ◌<◌, ◌^◌, ◌≡◌, [], ◌∷◌, arith, leb, ltb, refl, false}
use lite_core.Kmalloc.{Heap, link, mem_init}
use lite_core.Kmalloc.Chain.{IsValid}

-- `mem_init` of a range above address 0, within 4 GiB and with room for a header makes the whole
-- range one free block of a valid heap.
pub mem_init-IsValid :
    (start end : ℕ) (h : Heap)
    → 0 < start
    → start + 16 ≤ end
    → end ≤ 2 ^ 32
    → IsValid (mem_init start end h) ((start, end - start) ∷ [])
unfolding mem_init link
mem_init-IsValid start end h pos room small =
    let order : leb end start ≡ false = ground arith in
    let fits : ltb (end - start) 16 ≡ false = ground arith in
    rw (order, fits)
      (record {
        chain = (refl, ground arith, ground arith);
        layout = omega arith;
        start = pos;
        end = small;
      })
