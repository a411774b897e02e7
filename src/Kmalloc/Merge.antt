-- ===== src/Kmalloc/Merge.antt =====
-- The merging loop of `kfree` (src/kernel/mem/manager.c), against `join` on the list of blocks.
use lite_core.Prelude.{
  ℕ, zero, suc, ◌+◌, ◌≤◌, ◌<◌, ◌^◌, ◌≡◌, ◌≢◌, inl, inr, List, [], ◌∷◌, Option, none, some, arith,
  ◌==◌, refl, ap, ◌∙◌, sym, Bool-cases, length, true, false, add64,
}
use lite_core.Kmalloc.{Header, Heap, size_at, next_at, link, absorb_next}
use lite_core.Kmalloc.Kfree.{coalesce}
use lite_core.Kmalloc.Chain.{
  Block, Chain, Layout, Outside, lo-le-hi, Chain-same, link-next, free_list-link,
}
use lite_core.Kmalloc.Fit.{free_bytes}
use lite_core.Kmalloc.Join.{join_from, Layout-touch, join, join_from-Joined, Separate}

-- What the merging leaves alone: the headers below the first block and outside the blocks, and
-- everything that is no header.
pub record Kept (a s : ℕ) (bs : List Block) (h g : Heap) : Type 0 where
  pub below : (x : ℕ) → x < a → g.headers x ≡ h.headers x
  pub outside : (x : ℕ) → Outside x ((a, s) ∷ bs) → g.headers x ≡ h.headers x
  pub head : g.free_list ≡ h.free_list
  pub words : g.words ≡ h.words
  pub heap_start : g.heap_start ≡ h.heap_start
  pub heap_end : g.heap_end ≡ h.heap_end

absorb_next-lem :
    (a s b m : ℕ) (h : Heap)
    → 0 < a
    → a < b
    → s + m < 2 ^ 32
    → size_at h a ≡ s
    → size_at h b ≡ m
    → link h a ≡ b
    → (size_at (absorb_next a h) a ≡ s + m) × (link (absorb_next a h) a ≡ link h b)
unfolding absorb_next link
absorb_next-lem a s b m h pos lt small ea eb e = (ground arith, ground arith)

absorb_next-frame :
    (a : ℕ) (h : Heap)
    → ((x : ℕ) → x ≢ a → (absorb_next a h).headers x ≡ h.headers x)
      × ((absorb_next a h).free_list ≡ h.free_list)
      × ((absorb_next a h).words ≡ h.words)
      × ((absorb_next a h).heap_start ≡ h.heap_start)
      × ((absorb_next a h).heap_end ≡ h.heap_end)
unfolding absorb_next
absorb_next-frame a h = (λ x ne. ground arith, refl, refl, refl, refl)

-- The loop from block `a` on, behind `p`.
abbrev pub Merged : (p a s : ℕ) → List Block → Heap → Option Heap → Type 0
Merged p a s bs h none = ⊥
Merged p a s bs h (some g) = Chain g p (join_from a s bs) × Kept a s bs h g

Merged-absorb :
    (p a s b m : ℕ) (bs : List Block) (h : Heap) (o : Option Heap)
    → (a + s == b) ≡ true
    → 16 ≤ s
    → Merged p a (s + m) bs (absorb_next a h) o
    → Merged p a s ((b, m) ∷ bs) h o
unfolding join_from
Merged-absorb p a s b m bs h none touch room x = x
Merged-absorb p a s b m bs h (some g) touch room (c, k) =
    let f = absorb_next-frame a h in
    (
      rw touch c,
      record {
        below = λ x lt. k.below x lt ∙ f.0 x (omega arith);
        outside = λ x out. k.outside x (ground arith, out.1.1) ∙ f.0 x (omega arith);
        head = k.head ∙ f.1;
        words = k.words ∙ f.2;
        heap_start = k.heap_start ∙ f.3;
        heap_end = k.heap_end ∙ f.4;
      },
    )

Merged-advance :
    (p a s b m : ℕ) (bs : List Block) (h : Heap) (o : Option Heap)
    → (a + s == b) ≡ false
    → p < a
    → a < b
    → link h p ≡ a
    → size_at h a ≡ s
    → Merged a b m bs h o
    → Merged p a s ((b, m) ∷ bs) h o
unfolding join_from link
Merged-advance p a s b m bs h none gap lt lt' first e x = x
Merged-advance p a s b m bs h (some g) gap lt lt' first e (c, k) =
    let links : link g p ≡ a = ground (arith, k.below p, k.head) in
    (
      rw gap (links, ap (λ (hd : Header). hd.size) (k.below a lt') ∙ e, c),
      record {
        below = λ x below. k.below x (omega arith);
        outside = λ x out. k.outside x out.1;
        head = k.head;
        words = k.words;
        heap_start = k.heap_start;
        heap_end = k.heap_end;
      },
    )

absorb_next-Chain :
    (p a s b m lo hi : ℕ) (bs : List Block) (h : Heap)
    → hi ≤ 2 ^ 32
    → p < lo
    → Layout lo hi ((a, s) ∷ (b, m) ∷ bs)
    → Chain h p ((a, s) ∷ (b, m) ∷ bs)
    → Chain (absorb_next a h) p ((a, s + m) ∷ bs)
unfolding link
absorb_next-Chain p a s b m lo hi bs h small lt l c =
    let inside = lo-le-hi (b + m) hi bs l.2.2 in
    let made =
      absorb_next-lem a s b m h (omega arith) (omega arith) (omega arith) c.1 c.2.1 c.2.0 in
    let f = absorb_next-frame a h in
    (
      ground (arith, f.0 p),
      made.0,
      Chain-same h (absorb_next a h) (b + m) hi b a bs (omega arith) made.1
          (λ x from. f.0 x (omega arith)) l.2.2 c.2.2,
    )

-- The loop from a block on is `join` from there on.
pub coalesce-Merged :
    (fuel p a s lo hi : ℕ) (bs : List Block) (h : Heap)
    → length bs < fuel
    → hi ≤ 2 ^ 32
    → p < lo
    → Layout lo hi ((a, s) ∷ bs)
    → Chain h p ((a, s) ∷ bs)
    → Merged p a s bs h (coalesce fuel a h)
unfolding coalesce join_from
coalesce-Merged zero p a s lo hi bs h fueled small lt l c = absurd (omega arith)
coalesce-Merged (suc f) p a s lo hi [] h fueled small lt l c =
    let nonnull : (a == 0) ≡ false = ground arith in
    let end : next_at h a ≡ 0 = sym (link-next h a (omega arith)) ∙ c.2 in
    rw (nonnull, end)
      (
        c,
        record {
          below = λ x _. refl;
          outside = λ x _. refl;
          head = refl;
          words = refl;
          heap_start = refl;
          heap_end = refl;
        },
      )
coalesce-Merged (suc f) p a s lo hi ((b, m) ∷ bs) h fueled small lt l c =
    let inside = lo-le-hi (b + m) hi bs l.2.2 in
    let nonnull : (a == 0) ≡ false = ground arith in
    let after : next_at h a ≡ b = sym (link-next h a (omega arith)) ∙ c.2.0 in
    let more : (b == 0) ≡ false = ground arith in
    let end : add64 a (size_at h a) ≡ a + s = omega arith in
    elim (Bool-cases (a + s == b)) [
      | inl touch ↦
          rw (nonnull, after, more, end, touch)
            (Merged-absorb p a s b m bs h _ touch l.1 (
              coalesce-Merged f p a (s + m) lo hi bs (absorb_next a h) (omega arith) small lt
                (l.0, omega arith, Layout-touch a s b m hi bs (ground arith) l.2.2)
                (absorb_next-Chain p a s b m lo hi bs h small lt l c)))
      | inr gap ↦
          rw (nonnull, after, more, end, gap)
            (Merged-advance p a s b m bs h _ gap (omega arith) (omega arith) c.0 c.1
              (coalesce-Merged f a b m (a + s) hi bs h (omega arith) small (omega arith) l.2 c.2))
    ]

-- The whole loop, from the head of the list on.
pub record AllMerged (lo hi : ℕ) (l : List Block) (h g : Heap) : Type 0 where
  pub chain : Chain g 0 (join l)
  pub layout : Layout lo hi (join l)
  pub bytes : free_bytes (join l) ≡ free_bytes l
  pub separate : Separate (join l)
  pub outside : (x : ℕ) → Outside x l → g.headers x ≡ h.headers x
  pub words : g.words ≡ h.words
  pub heap_start : g.heap_start ≡ h.heap_start
  pub heap_end : g.heap_end ≡ h.heap_end

Merged-AllMerged :
    (lo hi a s : ℕ) (bs : List Block) (h : Heap) (o : Option Heap)
    → Layout lo hi ((a, s) ∷ bs)
    → Merged 0 a s bs h o
    → (g : Heap) × (o ≡ some g) × AllMerged lo hi ((a, s) ∷ bs) h g
unfolding join
Merged-AllMerged lo hi a s bs h none l m = absurd m
Merged-AllMerged lo hi a s bs h (some g) l (c, k) =
    let j = join_from-Joined a s hi bs l.1 l.2 in
    (
      g,
      refl,
      record {
        chain = c;
        layout = j.layout lo l.0;
        bytes = j.bytes;
        separate = j.separate;
        outside = k.outside;
        words = k.words;
        heap_start = k.heap_start;
        heap_end = k.heap_end;
      },
    )

pub coalesce-AllMerged :
    (fuel lo hi : ℕ) (l : List Block) (h : Heap)
    → length l < fuel
    → hi ≤ 2 ^ 32
    → 0 < lo
    → Layout lo hi l
    → Chain h 0 l
    → (g : Heap) × (coalesce fuel h.free_list h ≡ some g) × AllMerged lo hi l h g
unfolding coalesce join
coalesce-AllMerged zero lo hi l h fueled small pos y c = absurd (omega arith)
coalesce-AllMerged (suc f) lo hi [] h fueled small pos y c =
    let empty : (h.free_list == 0) ≡ true = ground (arith, free_list-link h) in
    (
      h,
      rw empty,
      record {
        chain = c;
        layout = y;
        bytes = refl;
        separate = tt;
        outside = λ x out. refl;
        words = refl;
        heap_start = refl;
        heap_end = refl;
      },
    )
coalesce-AllMerged (suc f) lo hi ((a, s) ∷ bs) h fueled small pos y c =
    let first : h.free_list ≡ a = sym (free_list-link h) ∙ c.0 in
    let (g, e, m) =
      Merged-AllMerged lo hi a s bs h (coalesce (suc f) a h) y
        (coalesce-Merged (suc f) 0 a s lo hi bs h (omega arith) small pos y c) in
    (g, ap (λ x. coalesce (suc f) x h) first ∙ e, m)
