-- ===== src/Kmalloc/Chain.antt =====
-- What the free list stands for: its blocks in order, and the layout that they keep.
use lite_core.Prelude.{ℕ, ◌+◌, ◌≤◌, ◌<◌, ◌^◌, ◌≡◌, ◌⊎◌, inl, List, [], ◌∷◌, arith, refl, ◌∙◌, ap}
use lite_core.Kmalloc.{Header, Heap, size_at, next_at, link, sizeof_header}

-- A free block: its address and its size.
abbrev pub Block : Type 0
Block = ℕ × ℕ

-- From `prev` (0 for the head of the list) the links lead through exactly these blocks.
abbrev pub Chain : Heap → ℕ → List Block → Type 0
Chain h prev [] = link h prev ≡ 0
Chain h prev ((a, s) ∷ bs) = (link h prev ≡ a) × (size_at h a ≡ s) × Chain h a bs

-- The blocks lie in `lo .. hi` in address order, apart, and each has room for its header.
abbrev pub Layout : ℕ → ℕ → List Block → Type 0
Layout lo hi [] = lo ≤ hi
Layout lo hi ((a, s) ∷ bs) = (lo ≤ a) × (sizeof_header ≤ s) × Layout (a + s) hi bs

pub lo-le-hi : (lo hi : ℕ) (bs : List Block) → Layout lo hi bs → lo ≤ hi
lo-le-hi lo hi [] l = l
lo-le-hi lo hi ((a, s) ∷ bs) l = omega (arith, lo-le-hi (a + s) hi bs l.2)

-- A bound from below can be lowered.
pub Layout-lower : (lo lo' hi : ℕ) (bs : List Block) → lo' ≤ lo → Layout lo hi bs → Layout lo' hi bs
Layout-lower lo lo' hi [] le l = omega arith
Layout-lower lo lo' hi ((a, s) ∷ bs) le l = (omega arith, l.1, l.2)

-- An address in none of the blocks.
abbrev pub Outside : ℕ → List Block → Type 0
Outside x [] = Unit
Outside x ((a, s) ∷ bs) = ((x < a) ⊎ (a + s ≤ x)) × Outside x bs

pub Outside-below : (x lo hi : ℕ) (bs : List Block) → x < lo → Layout lo hi bs → Outside x bs
Outside-below x lo hi [] lt l = tt
Outside-below x lo hi ((a, s) ∷ bs) lt l =
    (inl (omega arith), Outside-below x (a + s) hi bs (omega arith) l.2)

-- Two heaps agree on the headers from `lo` on.
abbrev pub SameFrom : ℕ → Heap → Heap → Type 0
SameFrom lo h g = (a : ℕ) → lo ≤ a → g.headers a ≡ h.headers a

pub link-next : (h : Heap) (a : ℕ) → 0 < a → link h a ≡ next_at h a
unfolding link
link-next h a pos = ground arith

pub link-same : (h g : Heap) (a : ℕ) → 0 < a → g.headers a ≡ h.headers a → link g a ≡ link h a
unfolding link
link-same h g a pos e = ground arith

-- A chain survives changes below its blocks, also from another first link.
pub Chain-same :
    (h g : Heap) (lo hi : ℕ) (p q : ℕ) (bs : List Block)
    → 0 < lo
    → link g q ≡ link h p
    → SameFrom lo h g
    → Layout lo hi bs
    → Chain h p bs
    → Chain g q bs
Chain-same h g lo hi p q [] pos first same l c = first ∙ c
Chain-same h g lo hi p q ((a, s) ∷ bs) pos first same l c = (
  first ∙ c.0,
  ap (λ (x : Header). x.size) (same a l.0) ∙ c.1,
  Chain-same h g (a + s) hi a a bs (omega arith) (link-same h g a (omega arith) (same a l.0))
      (λ b le. same b (omega arith)) l.2 c.2,
)

-- A chain survives changes from `hi` on.
pub Chain-below :
    (h g : Heap) (lo hi : ℕ) (p : ℕ) (bs : List Block)
    → link g p ≡ link h p
    → 0 < lo
    → ((a : ℕ) → 0 < a → a < hi → g.headers a ≡ h.headers a)
    → Layout lo hi bs
    → Chain h p bs
    → Chain g p bs
Chain-below h g lo hi p [] first pos same l c = first ∙ c
Chain-below h g lo hi p ((a, s) ∷ bs) first pos same l c =
    let inside = lo-le-hi (a + s) hi bs l.2 in
    let e = same a (omega arith) (omega arith) in
    (
      first ∙ c.0,
      ap (λ (x : Header). x.size) e ∙ c.1,
      Chain-below h g (a + s) hi a bs (link-same h g a (omega arith) e) (omega arith) same l.2 c.2,
    )

-- The heap between two calls: the free list stands for `bs`, and the heap lies below 4 GiB.
pub record IsValid (h : Heap) (bs : List Block) : Type 0 where
  pub chain : Chain h 0 bs
  pub layout : Layout h.heap_start h.heap_end bs
  pub start : 0 < h.heap_start
  pub end : h.heap_end ≤ 2 ^ 32

pub free_list-link : (h : Heap) → link h 0 ≡ h.free_list
unfolding link
free_list-link h = refl

-- A chain depends on sizes and links only.
pub Chain-fields :
    (h g : Heap) (p : ℕ) (bs : List Block)
    → ((x : ℕ) → size_at g x ≡ size_at h x)
    → ((x : ℕ) → link g x ≡ link h x)
    → Chain h p bs
    → Chain g p bs
Chain-fields h g p [] sizes links c = links p ∙ c
Chain-fields h g p ((a, s) ∷ bs) sizes links c =
    (links p ∙ c.0, sizes a ∙ c.1, Chain-fields h g a bs sizes links c.2)
