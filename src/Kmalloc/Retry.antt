-- ===== src/Kmalloc/Retry.antt =====
-- The retry of `kmalloc_internal` in src/kernel/mem/manager.c: after one expansion it succeeds.
use lite_core.Prelude.{
  ℕ, suc, ◌+◌, ◌-◌, ◌*◌, ◌/◌, ◌≤◌, ◌<◌, ◌^◌, ◌≡◌, ◌≢◌, inl, inr, List, [], ◌∷◌, none, arith, ◌==◌,
  refl, ap, ◌∙◌, sym, subst, Bool-cases, Option-cases, length, update,
}
use lite_core.Kmalloc.{
  Header, Heap, Allocation, returned, fuel_exhausted, total_size, search, page_up, expand_size,
  kmalloc_internal, kmalloc, kmalloc_canary,
}
use lite_core.Kmalloc.Chain.{Block, Outside, IsValid, free_list-link}
use lite_core.Kmalloc.FirstFit.{first_fit, Served, search-Served}
use lite_core.Kmalloc.Fit.{free_bytes, AllBelow, first_fit-Fitted}
use lite_core.Kmalloc.Expand.{extend, Grown, heap_expand-Expanded}
use lite_core.Kmalloc.Alloc.{total_size_lem, Succeeds, attempt-fits, attempt-grows}

AllBelow-extend :
    (total hi n : ℕ) (bs : List Block) → total ≤ n → AllBelow total (extend hi n bs) → ⊥
unfolding extend
AllBelow-extend total hi n [] enough b = omega arith
AllBelow-extend total hi n ((a, s) ∷ []) enough b = elim (Bool-cases (a + s == hi)) [
  | inl e ↦ ground arith
  | inr e ↦ ground arith
]
AllBelow-extend total hi n ((a, s) ∷ c ∷ bs) enough b =
    AllBelow-extend total hi n (c ∷ bs) enough b.1

extend-cons :
    (hi n : ℕ) (bs : List Block) → (b : Block) × (cs : List Block) × (extend hi n bs ≡ b ∷ cs)
unfolding extend
extend-cons hi n [] = ((hi, n), [], refl)
extend-cons hi n ((a, s) ∷ []) = elim (Bool-cases (a + s == hi)) [
  | inl e ↦ ((a, s + n), [], rw e)
  | inr e ↦ ((a, s), (hi, n) ∷ [], rw e)
]
extend-cons hi n (b ∷ c ∷ bs) = (b, extend hi n (c ∷ bs), refl)

free_bytes-extend : (hi n : ℕ) (bs : List Block) → free_bytes (extend hi n bs) ≡ free_bytes bs + n
unfolding extend
free_bytes-extend hi n [] = omega arith
free_bytes-extend hi n ((a, s) ∷ []) = ground arith
free_bytes-extend hi n ((a, s) ∷ c ∷ bs) = omega (arith, free_bytes-extend hi n (c ∷ bs))

Outside-extend : (x hi n : ℕ) (bs : List Block) → x < hi → Outside x bs → Outside x (extend hi n bs)
unfolding extend
Outside-extend x hi n [] lt out = (inl lt, tt)
Outside-extend x hi n ((a, s) ∷ []) lt out = elim (Bool-cases (a + s == hi)) [
  | inl e ↦ rw e (ground arith)
  | inr e ↦ rw e (ground arith)
]
Outside-extend x hi n ((a, s) ∷ c ∷ bs) lt out = (out.0, Outside-extend x hi n (c ∷ bs) lt out.1)

length-extend : (hi n : ℕ) (bs : List Block) → length (extend hi n bs) ≤ length bs + 1
unfolding extend
length-extend hi n [] = omega arith
length-extend hi n ((a, s) ∷ []) = ground arith
length-extend hi n ((a, s) ∷ c ∷ bs) = omega (arith, length-extend hi n (c ∷ bs))

-- An allocation after the heap has grown, seen from before.
Grown-Succeeds :
    (size n : ℕ) (h g : Heap) (bs : List Block) (r : Allocation)
    → Grown n h bs g
    → Succeeds size g (extend h.heap_end n bs) r
    → Succeeds size h bs r
Grown-Succeeds size n h g bs (returned p k) gr (a, m, rest, d) = (
  a,
  m,
  rest,
  record {
    valid = d.valid;
    pointer = d.pointer;
    above = omega (arith, gr.heap_start, d.above);
    inside = d.inside;
    start = d.start ∙ gr.heap_start;
    room = d.room;
    header = d.header;
    apart = d.apart;
    bytes = omega (arith, d.bytes, gr.heap_end, free_bytes-extend h.heap_end n bs);
    others = λ x pos lt out.
        d.others x pos (omega (arith, gr.heap_end)) (Outside-extend x h.heap_end n bs lt out)
        ∙ ap (λ (hd : Header). hd.size) (gr.outside x pos lt out);
    canary = d.canary ∙ ap (λ w. update w (a + (size + 7) / 8 * 8 + 20) kmalloc_canary) gr.words;
  },
)
Grown-Succeeds size n h g bs fuel_exhausted gr s = s

grown_bytes :
    (size end : ℕ)
    → end + size + 2 ^ 21 ≤ 2 ^ 32
    → let n = page_up (expand_size (total_size size)) in
      (0 < n) × (total_size size ≤ n) × (end + n ≤ 2 ^ 32) × (0 < expand_size (total_size size))
unfolding page_up expand_size
grown_bytes size end room = let t = total_size_lem size (omega arith) in ground (arith, t)

module _ (fuel size : ℕ) (h : Heap) (b : Block) (bs : List Block) where
  walk_Served :
      IsValid h (b ∷ bs)
      → size ≤ 2 ^ 32 - 32
      → length bs + 1 < fuel
      → Served
          (total_size size)
          0
          h.heap_start
          (b ∷ bs)
          h
          (search fuel (total_size size) 0 h.free_list h)
  walk_Served v small fueled =
      let served =
        search-Served fuel (total_size size) 0 h.heap_start h.heap_end (b ∷ bs) h (omega arith)
          (omega (arith, total_size_lem size small)) v.end v.start v.layout v.chain in
      rw (free_list-link h) at served

  -- Where a free block is large enough, `kmalloc` succeeds at this attempt, with no expansion.
  pub fits-Succeeds :
      (retries : ℕ)
      → IsValid h (b ∷ bs)
      → 0 < size
      → size ≤ 2 ^ 32 - 32
      → length bs + 1 < fuel
      → first_fit (total_size size) (b ∷ bs) ≢ none
      → Succeeds size h (b ∷ bs) (kmalloc_internal fuel (suc retries) size h)
  fits-Succeeds retries v asked small fueled =
      attempt-fits size fuel retries h asked small b bs _ v refl (walk_Served v small fueled)

-- After the expansion a block is large enough.
extended-Succeeds :
    (fuel size retries n : ℕ) (g : Heap) (hi : ℕ) (bs : List Block)
    → IsValid g (extend hi n bs)
    → 0 < size
    → size ≤ 2 ^ 32 - 32
    → total_size size ≤ n
    → length bs + 2 < fuel
    → Succeeds size g (extend hi n bs) (kmalloc_internal fuel (suc retries) size g)
extended-Succeeds fuel size retries n g hi bs v asked small enough fueled =
    let (b, cs, e) = extend-cons hi n bs in
    let total = total_size size in
    let long : length (extend hi n bs) ≡ length cs + 1 = ap length e ∙ omega arith in
    let some_fit : first_fit total (extend hi n bs) ≢ none = λ no_fit.
      AllBelow-extend total hi n bs enough (
        rw no_fit at (
          first_fit-Fitted total g.heap_start g.heap_end (extend hi n bs)
            (omega (arith, total_size_lem size small)) v.layout)) in
    subst (λ l. Succeeds size g l (kmalloc_internal fuel (suc retries) size g)) (sym e)
      (fits-Succeeds fuel size g b cs retries (subst (IsValid g) e v) asked small
        (omega (arith, length-extend hi n bs, long))
        (subst (λ l. first_fit total l ≢ none) e some_fit))

-- `kmalloc` of at least one byte, on a valid heap with a free block that can grow by the request
-- and 2 MiB within 4 GiB, on fuel above the length of the free list, ends and gives out a block:
-- it has room for the header, the rounded request and the canary, lies in the heap apart from
-- every free block, holds its size and its canary, and leaves the heap valid.
pub kmalloc-Succeeds :
    (fuel size : ℕ) (h : Heap) (b : Block) (bs : List Block)
    → IsValid h (b ∷ bs)
    → 0 < size
    → h.heap_end + size + 2 ^ 21 ≤ 2 ^ 32
    → length bs + 3 < fuel
    → Succeeds size h (b ∷ bs) (kmalloc fuel size h)
unfolding kmalloc
kmalloc-Succeeds fuel size h b bs v asked room fueled =
    elim (Option-cases (first_fit (total_size size) (b ∷ bs))) [
      | inr (r, fit) ↦ fits-Succeeds fuel size h b bs 3 v asked small (omega arith) (λ no_fit. cc)
      | inl no_fit ↦
          let n = page_up (expand_size (total_size size)) in
          let bytes = grown_bytes size h.heap_end room in
          let expanded =
            heap_expand-Expanded fuel (expand_size (total_size size)) h (b ∷ bs) v bytes.3 bytes.0
              bytes.2 (omega arith) in
          let (g, grown, e) =
            attempt-grows size fuel 3 h asked small b bs _ _ v refl
              (walk_Served fuel size h b bs v small (omega arith)) no_fit refl n expanded in
          rw e (
            Grown-Succeeds size n h g (b ∷ bs) _ grown (
              extended-Succeeds fuel size 2 n g h.heap_end (b ∷ bs) grown.valid asked small bytes.1
                (omega arith)))
    ]
  where
    small : size ≤ 2 ^ 32 - 32
    small = omega arith
