-- ===== src/Kmalloc/Statistics.antt =====
-- What the heap statistics of src/kernel/mem/manager.c count.
use lite_core.Prelude.{
  ℕ, zero, suc, ◌+◌, ◌-◌, ◌*◌, ◌≤◌, ◌<◌, ◌^◌, ◌≡◌, inl, inr, List, [], ◌∷◌, some, arith,
  if◌then◌else◌, leb, ltb, ◌==◌, ap, ◌∙◌, sym, Bool-cases, length, Bool, false, ◌||◌, add32,
}
use lite_core.Kmalloc.{Heap, size_at, align_up, link}
use lite_core.Kmalloc.Kfree.{
  user_bytes, free_bytes_from, heap_free_bytes, has_block, heap_has_space,
}
use lite_core.Kmalloc.Chain.{Block, Chain, Layout, IsValid, free_list-link, link-next}
use lite_core.Kmalloc.Fit.{free_bytes}

abbrev user_total : List Block → ℕ
user_total [] = 0
user_total ((a, s) ∷ bs) = s - 16 + user_total bs

user_total-free_bytes :
    (lo hi : ℕ) (bs : List Block)
    → Layout lo hi bs
    → (user_total bs + 16 * length bs ≡ free_bytes bs) × (lo + free_bytes bs ≤ hi)
user_total-free_bytes lo hi [] l = omega arith
user_total-free_bytes lo hi ((a, s) ∷ bs) l = omega (arith, user_total-free_bytes (a + s) hi bs l.2)

free_bytes_from-Chain :
    (fuel p lo hi total : ℕ) (bs : List Block) (h : Heap)
    → length bs < fuel
    → 0 < lo
    → hi ≤ 2 ^ 32
    → total < lo
    → Layout lo hi bs
    → Chain h p bs
    → free_bytes_from fuel (link h p) total h ≡ some (total + user_total bs)
unfolding free_bytes_from user_bytes
free_bytes_from-Chain zero p lo hi total bs h fueled pos small low l c = absurd (omega arith)
free_bytes_from-Chain (suc f) p lo hi total [] h fueled pos small low l c =
    rw c (ap some (omega arith))
free_bytes_from-Chain (suc f) p lo hi total ((a, s) ∷ bs) h fueled pos small low l c =
    let inside = user_total-free_bytes (a + s) hi bs l.2 in
    let nonnull : (a == 0) ≡ false = ground arith in
    let next = link-next h a (omega arith) in
    let sum : add32 total (if ltb 16 (size_at h a) then size_at h a - 16 else 0)
        ≡ total + (s - 16) =
      ground arith in
    let rest =
      free_bytes_from-Chain f a (a + s) hi (total + (s - 16)) bs h (omega arith) (omega arith) small
        (omega arith) l.2 c.2 in
    rw (c.0, nonnull, sum) (rw (next) at rest ∙ ap some (omega arith))

-- On a valid heap and fuel above the length of the free list, `heap_free_bytes` ends and counts
-- the free bytes less a header for each free block.
pub heap_free_bytes_lem :
    (fuel : ℕ) (h : Heap) (bs : List Block)
    → IsValid h bs
    → length bs < fuel
    → heap_free_bytes fuel h ≡ some (free_bytes bs - 16 * length bs)
unfolding heap_free_bytes
heap_free_bytes_lem fuel h bs v fueled =
    let e =
      free_bytes_from-Chain fuel 0 h.heap_start h.heap_end 0 bs h fueled v.start v.end v.start
        v.layout v.chain in
    ap (λ x. free_bytes_from fuel x 0 h) (sym (free_list-link h))
    ∙ e
    ∙ ap some (omega (arith, user_total-free_bytes h.heap_start h.heap_end bs v.layout))

-- Some free block has room for a header and `wanted` user bytes.
unfoldable pub has_room : ℕ → List Block → Bool
has_room wanted [] = false
has_room wanted ((a, s) ∷ bs) = leb (wanted + 16) s || has_room wanted bs

has_block-has_room :
    (fuel p lo hi wanted : ℕ) (bs : List Block) (h : Heap)
    → length bs < fuel
    → 0 < lo
    → Layout lo hi bs
    → Chain h p bs
    → has_block fuel wanted (link h p) h ≡ some (has_room wanted bs)
unfolding has_block has_room
has_block-has_room zero p lo hi wanted bs h fueled pos l c = absurd (omega arith)
has_block-has_room (suc f) p lo hi wanted [] h fueled pos l c = rw c
has_block-has_room (suc f) p lo hi wanted ((a, s) ∷ bs) h fueled pos l c =
    let nonnull : (a == 0) ≡ false = ground arith in
    let rest = has_block-has_room f a (a + s) hi wanted bs h (omega arith) (omega arith) l.2 c.2 in
    rw (c.0, nonnull, c.1)
      (elim (Bool-cases (leb (wanted + 16) s)) [
        | inl room ↦ rw room
        | inr short ↦ rw short (rw (link-next h a (omega arith)) at rest)
      ])

-- On a valid heap and fuel above the length of the free list, the heap branch of `mem_has_space`
-- ends and says whether a free block has room for a header and the rounded request.
pub heap_has_space_lem :
    (fuel size : ℕ) (h : Heap) (bs : List Block)
    → IsValid h bs
    → length bs < fuel
    → heap_has_space fuel size h ≡ some (has_room (align_up size) bs)
unfolding heap_has_space
heap_has_space_lem fuel size h bs v fueled =
    ap (λ x. has_block fuel (align_up size) x h) (sym (free_list-link h))
    ∙ has_block-has_room fuel 0 h.heap_start h.heap_end (align_up size) bs h fueled v.start v.layout
        v.chain
