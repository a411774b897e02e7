-- ===== src/Kmalloc/Expand.antt =====
-- `heap_expand` of src/kernel/mem/manager.c, against a new last block on the list of blocks.
use lite_core.Prelude.{
  ℕ, zero, suc, ◌+◌, ◌≤◌, ◌<◌, ◌^◌, ◌≡◌, ◌≢◌, inl, inr, List, [], ◌∷◌, Option, none, some, arith,
  if◌then◌else◌, ◌==◌, refl, ap, ◌∙◌, sym, subst, Bool-cases, length, true, false, add64,
}
use lite_core.Kmalloc.{
  Header, Heap, size_at, next_at, link, place, insertion_point, page_up, heap_expand, fresh_block,
}
use lite_core.Kmalloc.Chain.{
  Block, Chain, Layout, Outside, lo-le-hi, Chain-below, IsValid, link-next, free_list-link,
}

-- A block of `n` bytes at `hi` behind all others, joined to the last one if that ends there.
unfoldable pub extend : (hi n : ℕ) → List Block → List Block
extend hi n [] = (hi, n) ∷ []
extend hi n ((a, s) ∷ []) = if a + s == hi then (a, s + n) ∷ [] else (a, s) ∷ (hi, n) ∷ []
extend hi n (b ∷ c ∷ bs) = b ∷ extend hi n (c ∷ bs)

pub extend-Layout :
    (lo hi n : ℕ) (bs : List Block) → 16 ≤ n → Layout lo hi bs → Layout lo (hi + n) (extend hi n bs)
unfolding extend
extend-Layout lo hi n [] room l = omega arith
extend-Layout lo hi n ((a, s) ∷ []) room l = elim (Bool-cases (a + s == hi)) [
  | inl e ↦ rw e (ground arith)
  | inr e ↦ rw e (omega arith)
]
extend-Layout lo hi n ((a, s) ∷ c ∷ bs) room l =
    (l.0, l.1, extend-Layout (a + s) hi n (c ∷ bs) room l.2)

-- The address of the last block, `a` being that of the first.
abbrev last_from : ℕ → List Block → ℕ
last_from a [] = a
last_from a ((b, m) ∷ bs) = last_from b bs

last_from_bounds :
    (a s hi : ℕ) (bs : List Block)
    → 16 ≤ s
    → Layout (a + s) hi bs
    → (a ≤ last_from a bs) × (last_from a bs < hi)
last_from_bounds a s hi [] room l = omega arith
last_from_bounds a s hi ((b, m) ∷ bs) room l = omega (arith, last_from_bounds b m hi bs l.1 l.2)

-- The walk of `heap_expand` ends at the last block.
insertion_point-last_from :
    (fuel lo hi p a s : ℕ) (bs : List Block) (h : Heap)
    → length bs + 1 < fuel
    → 0 < lo
    → Layout lo hi ((a, s) ∷ bs)
    → Chain h p ((a, s) ∷ bs)
    → insertion_point fuel hi p a h ≡ some (last_from a bs)
unfolding insertion_point
insertion_point-last_from zero lo hi p a s bs h fuel pos l c = absurd (omega arith)
insertion_point-last_from (suc zero) lo hi p a s bs h fuel pos l c = absurd (omega arith)
insertion_point-last_from (suc (suc f)) lo hi p a s [] h fuel pos l c =
    let end : next_at h a ≡ 0 = omega (arith, link-next h a (omega arith)) in rw end (ground arith)
insertion_point-last_from (suc (suc f)) lo hi p a s ((b, m) ∷ bs) h fuel pos l c =
    let after : next_at h a ≡ b = omega (arith, link-next h a (omega arith)) in
    let inside = lo-le-hi (b + m) hi bs l.2.2 in
    ground (
      arith,
      insertion_point-last_from (suc f) (a + s) hi a b m bs h (omega arith) (omega arith) l.2 c.2,
    )

-- `place` writes two headers, and the list's head only if there is no block before.
place-frame :
    (prev new_block : ℕ) (h : Heap)
    → prev ≢ 0
    → ((x : ℕ) → x ≢ prev → x ≢ new_block → (place prev new_block h).headers x ≡ h.headers x)
      × ((place prev new_block h).free_list ≡ h.free_list)
unfolding place
place-frame prev new_block h ne = (λ x p q. ground arith, ground arith)

place-rest :
    (prev new_block : ℕ) (h : Heap)
    → ((place prev new_block h).words ≡ h.words)
      × ((place prev new_block h).heap_start ≡ h.heap_start)
unfolding place
place-rest prev new_block h = (ground arith, ground arith)

ne-last_from :
    (x a s hi : ℕ) (bs : List Block)
    → 16 ≤ s
    → Layout (a + s) hi bs
    → Outside x ((a, s) ∷ bs)
    → x ≢ last_from a bs
ne-last_from x a s hi [] room l out = omega arith
ne-last_from x a s hi ((b, m) ∷ bs) room l out = ne-last_from x b m hi bs l.1 l.2 out.1

module _ (prev hi n s : ℕ) (h : Heap) (pos : 0 < prev) (fits : prev + s ≤ hi) (room : 0 < s)
    (small : hi + n ≤ 2 ^ 32) (size : size_at h prev ≡ s) (end : next_at h prev ≡ 0)
    (new : size_at h hi ≡ n) where
  place-joined :
      prev + s ≡ hi → (link (place prev hi h) prev ≡ 0) × (size_at (place prev hi h) prev ≡ s + n)
  unfolding place link
  place-joined e = ground arith

  place-apart :
      prev + s ≢ hi
      → (link (place prev hi h) prev ≡ hi)
        × (size_at (place prev hi h) prev ≡ s)
        × (link (place prev hi h) hi ≡ 0)
        × (size_at (place prev hi h) hi ≡ n)
  unfolding place link
  place-apart ne = ground arith

-- The insertion behind the last block is `extend`.
place-extend :
    (lo hi n p a s : ℕ) (bs : List Block) (h : Heap)
    → 0 < lo
    → p < lo
    → hi + n ≤ 2 ^ 32
    → Layout lo hi ((a, s) ∷ bs)
    → Chain h p ((a, s) ∷ bs)
    → size_at h hi ≡ n
    → Chain (place (last_from a bs) hi h) p (extend hi n ((a, s) ∷ bs))
unfolding extend link
place-extend lo hi n p a s [] h pos below small l c new =
    let end : next_at h a ≡ 0 = omega (arith, link-next h a (omega arith)) in
    let frame = place-frame a hi h (omega arith) in
    let first : link (place a hi h) p ≡ a = ground (arith, frame.0 p) in
    elim (Bool-cases (a + s == hi)) [
      | inl e ↦
          let r =
            place-joined a hi n s h (omega arith) (omega arith) (omega arith) small c.1 end new
              (ground arith) in
          rw e (first, r.1, r.0)
      | inr e ↦
          let r =
            place-apart a hi n s h (omega arith) (omega arith) (omega arith) small c.1 end new
              (ground arith) in
          rw e (first, r.1, (r.0, r.3, r.2))
    ]
place-extend lo hi n p a s ((b, m) ∷ bs) h pos below small l c new =
    let bounds = last_from_bounds b m hi bs l.2.1 l.2.2 in
    let frame = place-frame (last_from b bs) hi h (omega (arith, bounds)) in
    (
      ground (arith, frame.0 p),
      ap (λ (x : Header). x.size) (frame.0 a (omega (arith, bounds)) (omega (arith, bounds))) ∙ c.1,
      place-extend (a + s) hi n a b m bs h (omega arith) (omega arith) small l.2 c.2 new,
    )

-- What `heap_expand` comes to when it adds `n` bytes.
pub record Grown (n : ℕ) (h : Heap) (bs : List Block) (g : Heap) : Type 0 where
  pub valid : IsValid g (extend h.heap_end n bs)
  pub heap_end : g.heap_end ≡ h.heap_end + n
  pub heap_start : g.heap_start ≡ h.heap_start
  pub outside : (x : ℕ) → 0 < x → x < h.heap_end → Outside x bs → g.headers x ≡ h.headers x
  pub words : g.words ≡ h.words

abbrev pub Expanded : ℕ → Heap → List Block → Option Heap → Type 0
Expanded n h bs none = ⊥
Expanded n h bs (some g) = Grown n h bs g

fresh_block-Chain :
    (n : ℕ) (h : Heap) (bs : List Block) → IsValid h bs → Chain (fresh_block n h) 0 bs
unfolding fresh_block
fresh_block-Chain n h bs v =
    Chain-below h (fresh_block n h) h.heap_start h.heap_end 0 bs
      (free_list-link (fresh_block n h) ∙ sym (free_list-link h)) v.start (λ x pos lt. ground arith)
      v.layout v.chain

module _ (n : ℕ) (h : Heap) (room : 16 ≤ n) (small : h.heap_end + n ≤ 2 ^ 32) where
  Grown-nil :
      IsValid h []
      → Grown n h []
          (record (fresh_block n h) { free_list = h.heap_end; heap_end = add64 h.heap_end n })
  unfolding extend fresh_block link
  Grown-nil v = record {
    valid = record {
      chain = ground arith;
      layout = omega arith;
      start = v.start;
      end = omega arith;
    };
    heap_end = omega arith;
    heap_start = refl;
    outside = λ x pos lt out. ground arith;
    words = refl;
  }

  Grown-cons :
      (a s : ℕ) (bs : List Block)
      → IsValid h ((a, s) ∷ bs)
      → Grown n h ((a, s) ∷ bs) (record (place (last_from a bs) h.heap_end (fresh_block n h)) {
        heap_end = add64 h.heap_end n;
      })
  unfolding fresh_block
  Grown-cons a s bs v =
      let bounds = last_from_bounds a s h.heap_end bs v.layout.1 v.layout.2 in
      let frame =
        place-frame (last_from a bs) h.heap_end (fresh_block n h)
          (omega (arith, bounds, v.layout)) in
      let rest = place-rest (last_from a bs) h.heap_end (fresh_block n h) in
      let placed = place (last_from a bs) h.heap_end (fresh_block n h) in
      let fresh_chain = fresh_block-Chain n h ((a, s) ∷ bs) v in
      let chain =
        place-extend h.heap_start h.heap_end n 0 a s bs (fresh_block n h) v.start v.start small
          v.layout fresh_chain (ground arith) in
      let layout = extend-Layout h.heap_start h.heap_end n ((a, s) ∷ bs) room v.layout in
      record {
        valid = record {
          chain =
              Chain-below placed _ h.heap_start (h.heap_end + n) 0
                (extend h.heap_end n ((a, s) ∷ bs)) (free_list-link _ ∙ sym (free_list-link placed))
                v.start (λ x pos lt. refl) layout chain;
          layout =
              subst (λ st. Layout st (add64 h.heap_end n) (extend h.heap_end n ((a, s) ∷ bs)))
                (sym rest.1)
                (subst (λ e. Layout h.heap_start e (extend h.heap_end n ((a, s) ∷ bs)))
                  (omega arith) layout);
          start = omega (arith, rest.1);
          end = omega arith;
        };
        heap_end = omega arith;
        heap_start = rest.1;
        outside = λ x pos lt out.
            frame.0 x (ne-last_from x a s h.heap_end bs v.layout.1 v.layout.2 out) (omega arith)
            ∙ ground arith;
        words = rest.0;
      }

-- On a valid heap, for a request whose rounding to a page does not wrap and fits below 4 GiB, on
-- fuel above the length of the free list, `heap_expand` ends and adds the rounded request at the
-- end of the heap, merged with a last free block that ends there.
pub heap_expand-Expanded :
    (fuel size : ℕ) (h : Heap) (bs : List Block)
    → IsValid h bs
    → 0 < size
    → 0 < page_up size
    → h.heap_end + page_up size ≤ 2 ^ 32
    → length bs < fuel
    → Expanded (page_up size) h bs (heap_expand fuel size h)
unfolding heap_expand
heap_expand-Expanded fuel size h [] v pos some_bytes small fueled =
    let empty : (h.free_list == 0) ≡ true = ground (arith, v.chain, free_list-link h) in
    let asked : (size == 0) ≡ false = ground arith in
    rw (asked, empty) (Grown-nil (page_up size) h (omega arith) small v)
heap_expand-Expanded fuel size h ((a, s) ∷ bs) v pos some_bytes small fueled =
    let bounds = lo-le-hi (a + s) h.heap_end bs v.layout.2 in
    let first : h.free_list ≡ a = sym (free_list-link h) ∙ v.chain.0 in
    let full : (h.free_list == 0) ≡ false = ground arith in
    let asked : (size == 0) ≡ false = ground arith in
    let n = page_up size in
    let point : insertion_point fuel h.heap_end 0 h.free_list (fresh_block n h)
        ≡ some (last_from a bs) =
      ap (λ x. insertion_point fuel h.heap_end 0 x (fresh_block n h)) first
      ∙ insertion_point-last_from fuel h.heap_start h.heap_end 0 a s bs (fresh_block n h)
          (omega arith) v.start v.layout (fresh_block-Chain n h ((a, s) ∷ bs) v) in
    rw (asked, full, point) (Grown-cons n h (omega arith) small a s bs v)
