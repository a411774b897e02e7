-- ===== src/Kmalloc/FirstFit.antt =====
-- The walk of `kmalloc_internal` over the free list, against first fit on the list of blocks.
use mathlib.Core.Option
use lite_core.Prelude.{
  ℕ, zero, suc, ◌+◌, ◌-◌, ◌≤◌, ◌<◌, ◌^◌, ◌≡◌, ◌≢◌, List, [], ◌∷◌, Option, none, some, arith,
  if◌then◌else◌, ◌==◌, false, leb, le→leb, refl, ap, ◌∙◌, length, Bool-cases, inl, inr,
}
use lite_core.Kmalloc.{
  Header, Heap, size_at, link, carve, search, Search, found, exhausted, out_of_fuel,
}
use lite_core.Kmalloc.Chain.{Block, Chain, Layout, Outside, Chain-same, link-next, lo-le-hi}

-- First fit: the block given out, with its final size, and the blocks that stay free.
unfoldable pub first_fit : ℕ → List Block → Option (ℕ × ℕ × List Block)
first_fit total [] = none
first_fit total ((a, s) ∷ bs) =
    if leb (total + 32) s
    then some (a, total, (a + total, s - total) ∷ bs)
    else if leb total s
    then some (a, s, bs)
    else Option.map (λ (b, n, rest). (b, n, (a, s) ∷ rest)) (first_fit total bs)

-- What a step behind `prev` leaves alone: the headers below `lo` and outside the free blocks (of
-- `prev` all but its link), and everything that is no header.
pub record Framed (prev lo : ℕ) (bs : List Block) (h g : Heap) : Type 0 where
  pub below : (a : ℕ) → a < lo → a ≢ prev → g.headers a ≡ h.headers a
  pub outside : (a : ℕ) → Outside a bs → a ≢ prev → g.headers a ≡ h.headers a
  pub size : size_at g prev ≡ size_at h prev
  pub head : prev ≢ 0 → g.free_list ≡ h.free_list
  pub words : g.words ≡ h.words
  pub heap_start : g.heap_start ≡ h.heap_start
  pub heap_end : g.heap_end ≡ h.heap_end
  pub alloc_seq : g.alloc_seq ≡ h.alloc_seq

-- The outcome that first fit asks for.
abbrev pub Served : (total prev lo : ℕ) → List Block → Heap → Search → Type 0
Served total prev lo bs h (found cur g) =
    (s : ℕ) × (rest : List Block) × (first_fit total bs ≡ some (cur, s, rest))
    × Chain g prev rest
    × (size_at g cur ≡ s)
    × Framed prev lo bs h g
Served total prev lo bs h (exhausted g) = (first_fit total bs ≡ none) × (g ≡ h)
Served total prev lo bs h out_of_fuel = ⊥

module _ (total prev lo hi : ℕ) (h : Heap) (total_pos : 0 < total) (small : hi ≤ 2 ^ 32)
    (prev_below : prev < lo) where
  carve-Framed :
      (a s : ℕ) (bs : List Block)
      → lo ≤ a
      → a + s ≤ hi
      → 16 ≤ s
      → size_at h a ≡ s
      → total ≤ s
      → Framed prev lo ((a, s) ∷ bs) h (carve total prev a h)
  unfolding carve
  carve-Framed a s bs le fits room e enough = record {
    below = ground arith;
    outside = λ x out ne. ground arith;
    size = ground arith;
    head = ground arith;
    words = ground arith;
    heap_start = ground arith;
    heap_end = ground arith;
    alloc_seq = ground arith;
  }

  carve-split :
      (a s : ℕ) (bs : List Block)
      → lo ≤ a
      → size_at h a ≡ s
      → total + 32 ≤ s
      → Layout (a + s) hi bs
      → Chain h a bs
      → Chain (carve total prev a h) prev ((a + total, s - total) ∷ bs)
        × (size_at (carve total prev a h) a ≡ total)
  unfolding carve link
  carve-split a s bs le e big l c =
      let in_range = lo-le-hi (a + s) hi bs l in
      (
        (
          ground arith,
          ground arith,
          Chain-same h (carve total prev a h) (a + s) hi a (a + total) bs (omega arith)
              (ground arith) (λ x from. ground arith) l c,
        ),
        ground arith,
      )

  carve-whole :
      (a s : ℕ) (bs : List Block)
      → lo ≤ a
      → size_at h a ≡ s
      → 16 ≤ s
      → s < total + 32
      → Layout (a + s) hi bs
      → Chain h a bs
      → Chain (carve total prev a h) prev bs × (size_at (carve total prev a h) a ≡ s)
  unfolding carve link
  carve-whole a s bs le e nonzero few l c =
      let in_range = lo-le-hi (a + s) hi bs l in
      (
        Chain-same h (carve total prev a h) (a + s) hi a prev bs (omega arith) (ground arith)
            (λ x from. ground arith) l c,
        ground arith,
      )

-- The walk passes over a block that is too small.
Served-cons :
    (total prev lo a s : ℕ) (bs : List Block) (h : Heap) (r : Search)
    → prev < lo
    → lo ≤ a
    → 16 ≤ s
    → s < total
    → link h prev ≡ a
    → size_at h a ≡ s
    → Served total a (a + s) bs h r
    → Served total prev lo ((a, s) ∷ bs) h r
unfolding first_fit link
Served-cons total prev lo a s bs h (found cur g) pb le room few first e (n, rest, fit, c, size, f) =
    (
      n,
      (a, s) ∷ rest,
      ground arith,
      (ground (arith, f.below prev, f.head), f.size ∙ e, c),
      size,
      record {
        below = λ x lt ne. f.below x (omega arith) (omega arith);
        outside = λ x out ne. f.outside x out.1 (omega arith);
        size = ap (λ (x : Header). x.size) (f.below prev (omega arith) (omega arith));
        head = λ _. f.head (omega arith);
        words = f.words;
        heap_start = f.heap_start;
        heap_end = f.heap_end;
        alloc_seq = f.alloc_seq;
      },
    )
Served-cons total prev lo a s bs h (exhausted g) pb le room few first e (fit, same) =
    (ground arith, same)
Served-cons total prev lo a s bs h out_of_fuel pb le room few first e v = v

carve-Served :
    (total prev lo hi a s : ℕ) (bs : List Block) (h : Heap)
    → 0 < total
    → hi ≤ 2 ^ 32
    → prev < lo
    → Layout lo hi ((a, s) ∷ bs)
    → Chain h prev ((a, s) ∷ bs)
    → total ≤ s
    → Served total prev lo ((a, s) ∷ bs) h (found a (carve total prev a h))
unfolding first_fit
carve-Served total prev lo hi a s bs h pos small pb l c enough =
    elim (Bool-cases (leb (total + 32) s)) [
      | inl big ↦
          let cut =
            carve-split total prev lo hi h pos small pb a s bs l.0 c.1 (ground arith) l.2 c.2 in
          (total, (a + total, s - total) ∷ bs, rw big, cut.0, cut.1, framed)
      | inr few ↦
          let whole =
            carve-whole total prev lo hi h pos small pb a s bs l.0 c.1 l.1 (ground arith) l.2 c.2 in
          (s, bs, rw (few, le→leb total s enough), whole.0, whole.1, framed)
    ]
  where
    framed : Framed prev lo ((a, s) ∷ bs) h (carve total prev a h)
    framed =
        carve-Framed total prev lo hi h pos small pb a s bs l.0 (lo-le-hi (a + s) hi bs l.2) l.1 c.1
          enough

-- Over a well laid out list the walk of `kmalloc_internal` is first fit.
pub search-Served :
    (fuel total prev lo hi : ℕ) (bs : List Block) (h : Heap)
    → length bs < fuel
    → 0 < total
    → hi ≤ 2 ^ 32
    → prev < lo
    → Layout lo hi bs
    → Chain h prev bs
    → Served total prev lo bs h (search fuel total prev (link h prev) h)
unfolding search first_fit
search-Served zero total prev lo hi bs h fuel pos small pb l c = absurd (omega arith)
search-Served (suc f) total prev lo hi [] h fuel pos small pb l c = rw c (refl, refl)
search-Served (suc f) total prev lo hi ((a, s) ∷ bs) h fuel pos small pb l c =
    let nonnull : (a == 0) ≡ false = ground arith in
    let nonzero : (size_at h a == 0) ≡ false = ground arith in
    rw (c.0, nonnull, nonzero)
      (elim (Bool-cases (leb total (size_at h a))) [
        | inl fits ↦
            rw fits (carve-Served total prev lo hi a s bs h pos small pb l c (ground arith))
        | inr few ↦
            let rest =
              search-Served f total a (a + s) hi bs h (omega arith) pos small (omega arith) l.2
                c.2 in
            rw few (
              Served-cons total prev lo a s bs h _ pb l.0 l.1 (ground arith) c.0 c.1
                (rw (link-next h a (omega arith)) at rest))
      ])
