-- ===== src/Kmalloc/Balance.antt =====
-- `kfree` of src/kernel/mem/manager.c as a whole, and a `kfree` after a `kmalloc`.
use lite_core.Prelude.{
  ℕ, ◌+◌, ◌-◌, ◌≤◌, ◌<◌, ◌^◌, ◌≡◌, List, some, arith, if◌then◌else◌, ltb, ◌==◌, refl, ap, ◌∙◌,
  length, true, false, add64, sub64, not, Bool, ◌∷◌,
}
use lite_core.Kmalloc.{
  Header, Heap, Allocation, returned, fuel_exhausted, size_at, kmalloc, kmalloc_canary, total_size,
}
use lite_core.Kmalloc.Kfree.{insert, coalesce, kfree, canary_mismatch}
use lite_core.Kmalloc.Chain.{Block, Outside, IsValid}
use lite_core.Kmalloc.Fit.{Apart, free_bytes}
use lite_core.Kmalloc.Alloc.{Allocated, Succeeds, total_size_lem}
use lite_core.Kmalloc.Retry.{kmalloc-Succeeds}
use lite_core.Kmalloc.Release.{
  insert_block, insert_block-Layout, free_bytes-insert_block, length-insert_block, insert-Inserted,
}
use lite_core.Kmalloc.Join.{join, Separate}
use lite_core.Kmalloc.Merge.{coalesce-AllMerged}

-- A block given out: its header holds its size, and it lies in the heap, apart from the free blocks.
pub record IsGiven (h : Heap) (bs : List Block) (a n : ℕ) : Type 0 where
  pub header : size_at h a ≡ n
  pub room : 24 ≤ n
  pub above : h.heap_start ≤ a
  pub inside : a + n ≤ h.heap_end
  pub apart : Apart a n bs

-- What `kfree` makes of the heap.
pub record Released (h : Heap) (bs : List Block) (a n : ℕ) (g : Heap) (cs : List Block)
    : Type 0 where
  pub valid : IsValid g cs
  pub blocks : cs ≡ join (insert_block a n bs)
  pub bytes : free_bytes cs ≡ free_bytes bs + n
  pub separate : Separate cs
  pub others : (x : ℕ) → Outside x (insert_block a n bs) → size_at g x ≡ size_at h x
  pub words : g.words ≡ h.words
  pub heap_end : g.heap_end ≡ h.heap_end

canary_mismatch_lem :
    (a n : ℕ) (h : Heap)
    → size_at h a ≡ n
    → 24 ≤ n
    → a + n ≤ 2 ^ 32
    → canary_mismatch a h ≡ not (h.words (a + n - 4) == kmalloc_canary)
unfolding canary_mismatch
canary_mismatch_lem a n h e room small =
    let long : ltb 20 n ≡ true = ground arith in
    let at : sub64 (add64 (add64 a 16) (n - 16)) 4 ≡ a + n - 4 = omega arith in rw (e, long, at)

kfree-runs :
    (fuel a n : ℕ) (h h' g : Heap) {bs : List Block}
    → IsValid h bs
    → IsGiven h bs a n
    → insert fuel a h ≡ some h'
    → coalesce fuel h'.free_list h' ≡ some g
    → kfree fuel (a + 16) h ≡ some (g, not (h.words (a + n - 4) == kmalloc_canary))
unfolding kfree
kfree-runs fuel a n h h' g v k inserted merged =
    let hdr : sub64 (a + 16) 16 ≡ a = omega (arith, v.end, k.inside) in
    let nonnull : (a + 16 == 0) ≡ false = ground arith in
    let in_heap : ltb a h.heap_start ≡ false = ground (arith, k.above) in
    rw (hdr, nonnull, in_heap, inserted, merged)
      (ap (λ b. some (g, b))
        (ap (λ x. canary_mismatch x h) hdr
          ∙ canary_mismatch_lem a n h k.header k.room (omega (arith, v.end, k.inside))))

-- `kfree` of a block that was given out, on a valid heap and fuel above the length of the free
-- list, ends: the block is put back in address order, neighbours are merged, and the headers
-- outside the free blocks and the memory stay. A mismatch is reported exactly if the last word of
-- the block does not hold the canary.
pub kfree-Released :
    (fuel a n : ℕ) (h : Heap) (bs : List Block)
    → IsValid h bs
    → IsGiven h bs a n
    → length bs + 1 < fuel
    → (g : Heap) × (cs : List Block) × (kfree fuel (a + 16) h
        ≡ some (g, not (h.words (a + n - 4) == kmalloc_canary)))
      × Released h bs a n g cs
kfree-Released fuel a n h bs v k fueled =
    let (h', inserted, i) =
      insert-Inserted fuel a n h bs v (omega (arith, k.room)) k.header k.above k.inside k.apart
        (omega arith) in
    let l = insert_block a n bs in
    let (g, merged, m) =
      coalesce-AllMerged fuel h.heap_start h.heap_end l h'
        (omega (arith, length-insert_block a n bs)) v.end v.start
        (insert_block-Layout a n h.heap_start h.heap_end bs (omega (arith, k.room)) k.above k.inside
          k.apart v.layout)
        i.chain in
    (
      g,
      join l,
      kfree-runs fuel a n h h' g v k inserted merged,
      record {
        valid = record {
          chain = m.chain;
          layout = rw (m.heap_start, i.heap_start, m.heap_end, i.heap_end) m.layout;
          start = omega (arith, m.heap_start, i.heap_start, v.start);
          end = omega (arith, m.heap_end, i.heap_end, v.end);
        };
        blocks = refl;
        bytes = omega (arith, m.bytes, free_bytes-insert_block a n bs);
        separate = m.separate;
        others = λ x out. ap (λ (hd : Header). hd.size) (m.outside x out) ∙ i.sizes x;
        words = m.words ∙ i.words;
        heap_end = m.heap_end ∙ i.heap_end;
      },
    )

-- The block of a successful `kmalloc` can be given back.
Allocated-IsGiven :
    (size : ℕ) (h : Heap) (bs : List Block) (p : ℕ) (g : Heap) (a n : ℕ) (rest : List Block)
    → Allocated size h bs p g a n rest
    → IsGiven g rest a n
Allocated-IsGiven size h bs p g a n rest d = record {
  header = d.header;
  room = omega (arith, d.room);
  above = omega (arith, d.above, d.start);
  inside = d.inside;
  apart = d.apart;
}

-- `kfree` checks the last word of the block, `kmalloc` writes the word behind the rounded request.
kmalloc-kfree_canary :
    (size : ℕ) (h : Heap) (bs : List Block) (p : ℕ) (g : Heap) (a n : ℕ) (rest : List Block)
    → size ≤ 2 ^ 32 - 32
    → Allocated size h bs p g a n rest
    → not (g.words (a + n - 4) == kmalloc_canary)
      ≡ (if n == total_size size then false else not (h.words (a + n - 4) == kmalloc_canary))
kmalloc-kfree_canary size h bs p g a n rest small d =
    let total = total_size_lem size small in rw d.canary (ground (arith, total, d.room))

-- The `kfree` of a pointer that `kmalloc` gave out.
kfree-Allocated :
    (fuel size : ℕ) (h : Heap) (bs : List Block) (p : ℕ) (g : Heap) (a n : ℕ) (rest : List Block)
    → size ≤ 2 ^ 32 - 32
    → Allocated size h bs p g a n rest
    → length rest + 1 < fuel
    → (k : Heap) × (cs : List Block) × (kfree fuel p g
        ≡ some (
          k,
          (if n == total_size size then false else not (h.words (a + n - 4) == kmalloc_canary)),
        ))
      × IsValid k cs
      × (free_bytes cs + h.heap_end ≡ free_bytes bs + k.heap_end)
kfree-Allocated fuel size h bs p g a n rest small d fueled =
    let (k, cs, e, r) =
      kfree-Released fuel a n g rest d.valid (Allocated-IsGiven size h bs p g a n rest d) fueled in
    (
      k,
      cs,
      ap (λ x. kfree fuel x g) d.pointer
          ∙ e
          ∙ ap (λ b. some (k, b)) (kmalloc-kfree_canary size h bs p g a n rest small d),
      r.valid,
      omega (arith, r.bytes, r.heap_end, d.bytes),
    )

-- The heap `k` that `kmalloc` and then `kfree` leave, and whether `kfree` reported a mismatch.
pub record Restored (size : ℕ) (h : Heap) (bs : List Block) (a n : ℕ) (k : Heap) (reported : Bool)
    (cs : List Block) : Type 0 where
  pub valid : IsValid k cs
  pub bytes : free_bytes cs + h.heap_end ≡ free_bytes bs + k.heap_end
  pub report :
      reported
      ≡ (if n == total_size size then false else not (h.words (a + n - 4) == kmalloc_canary))

-- A call of `kmalloc` that gave out a block, and the `kfree` of the block for any fuel above the
-- length of the free list.
abbrev pub RoundTrip : ℕ → Heap → List Block → Allocation → Type 0
RoundTrip size h bs fuel_exhausted = ⊥
RoundTrip size h bs (returned p g) =
    (a : ℕ) × (n : ℕ) × (rest : List Block) × (p ≡ a + 16)
    × ((g.headers a).size ≡ n)
    × IsValid g rest
    × ((fuel : ℕ)
        → length rest + 1 < fuel
        → (k : Heap) × (reported : Bool) × (cs : List Block) × (kfree fuel p g ≡ some (k, reported))
          × Restored size h bs a n k reported cs)

Succeeds-RoundTrip :
    (size : ℕ) (h : Heap) (bs : List Block) (r : Allocation)
    → size ≤ 2 ^ 32 - 32
    → Succeeds size h bs r
    → RoundTrip size h bs r
Succeeds-RoundTrip size h bs (returned p g) small (a, n, rest, d) = (
  a,
  n,
  rest,
  d.pointer,
  d.header,
  d.valid,
  λ fuel fueled.
      let (k, cs, e, v, bytes) = kfree-Allocated fuel size h bs p g a n rest small d fueled in
      (k, _, cs, e, record { valid = v; bytes = bytes; report = refl }),
)
Succeeds-RoundTrip size h bs fuel_exhausted small fails = absurd fails

-- Under the conditions of `kmalloc-Succeeds`, `kmalloc` gives out a block whose header holds its
-- size, and `kfree` of its pointer, on fuel above the length of the free list, makes the heap
-- valid again with the free bytes it had and those that an expansion added. A mismatch is reported
-- exactly if the block was not cut to the request and its last word did not hold the canary
-- before.
pub kmalloc-kfree :
    (fuel size : ℕ) (h : Heap) (b : Block) (bs : List Block)
    → IsValid h (b ∷ bs)
    → 0 < size
    → h.heap_end + size + 2 ^ 21 ≤ 2 ^ 32
    → length bs + 3 < fuel
    → RoundTrip size h (b ∷ bs) (kmalloc fuel size h)
kmalloc-kfree fuel size h b bs v asked room fueled =
    Succeeds-RoundTrip size h (b ∷ bs) (kmalloc fuel size h) (omega arith)
      (kmalloc-Succeeds fuel size h b bs v asked room fueled)
