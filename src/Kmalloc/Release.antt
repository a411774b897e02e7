-- ===== src/Kmalloc/Release.antt =====
-- The insertion of `kfree` (src/kernel/mem/manager.c), against insertion in address order.
use lite_core.Prelude.{
  ℕ, zero, suc, ◌+◌, ◌≤◌, ◌<◌, ◌≡◌, ◌≢◌, inl, inr, List, [], ◌∷◌, some, arith, if◌then◌else◌, ltb,
  lt→ltb, ◌==◌, refl, ap, ◌∙◌, sym, Bool-cases, length, true, false,
}
use lite_core.Kmalloc.{Heap, size_at, next_at, link, set_next}
use lite_core.Kmalloc.Kfree.{last_below, insert, insert_after}
use lite_core.Kmalloc.Chain.{
  Block, Chain, Layout, Chain-same, IsValid, link-next, link-same, free_list-link,
}
use lite_core.Kmalloc.Fit.{Apart, free_bytes}

-- The block `(a, n)` among the others, in address order.
unfoldable pub insert_block : (a n : ℕ) → List Block → List Block
insert_block a n [] = (a, n) ∷ []
insert_block a n ((b, m) ∷ bs) =
    if ltb a b then (a, n) ∷ (b, m) ∷ bs else (b, m) ∷ insert_block a n bs

pub insert_block-Layout :
    (a n lo hi : ℕ) (bs : List Block)
    → 16 ≤ n
    → lo ≤ a
    → a + n ≤ hi
    → Apart a n bs
    → Layout lo hi bs
    → Layout lo hi (insert_block a n bs)
unfolding insert_block
insert_block-Layout a n lo hi [] room le fits apart l = omega arith
insert_block-Layout a n lo hi ((b, m) ∷ bs) room le fits apart l = elim (Bool-cases (ltb a b)) [
  | inl before ↦ rw before (ground arith)
  | inr after ↦
      rw after
        (l.0, l.1, insert_block-Layout a n (b + m) hi bs room (ground arith) fits apart.1 l.2)
]

pub free_bytes-insert_block :
    (a n : ℕ) (bs : List Block) → free_bytes (insert_block a n bs) ≡ n + free_bytes bs
unfolding insert_block
free_bytes-insert_block a n [] = omega arith
free_bytes-insert_block a n ((b, m) ∷ bs) = ground (arith, free_bytes-insert_block a n bs)

pub length-insert_block : (a n : ℕ) (bs : List Block) → length (insert_block a n bs) ≡ length bs + 1
unfolding insert_block
length-insert_block a n [] = omega arith
length-insert_block a n ((b, m) ∷ bs) = ground (arith, length-insert_block a n bs)

module _ (p a : ℕ) (h : Heap) (pos : 0 < p) (ne : p ≢ a) where
  insert_after-links :
      (link (insert_after p a h) p ≡ a) × (0 < a → link (insert_after p a h) a ≡ link h p)
  unfolding insert_after link
  insert_after-links = (ground arith, λ pa. ground arith)

insert_after-sizes : (p a x : ℕ) (h : Heap) → size_at (insert_after p a h) x ≡ size_at h x
unfolding insert_after
insert_after-sizes p a x h = ground arith

insert_after-headers :
    (p a x : ℕ) (h : Heap) → x ≢ p → x ≢ a → (insert_after p a h).headers x ≡ h.headers x
unfolding insert_after
insert_after-headers p a x h np na = ground arith

insert_after-rest :
    (p a : ℕ) (h : Heap)
    → ((insert_after p a h).free_list ≡ h.free_list)
      × ((insert_after p a h).words ≡ h.words)
      × ((insert_after p a h).heap_start ≡ h.heap_start)
      × ((insert_after p a h).heap_end ≡ h.heap_end)
unfolding insert_after
insert_after-rest p a h = (refl, refl, refl, refl)

-- The place for the new block behind `p`.
abbrev Placed : (fuel a n p : ℕ) → List Block → Heap → Type 0
Placed fuel a n p bs h =
    (c : ℕ) × (last_below fuel a p h ≡ some c)
    × (p ≤ c)
    × (c < a)
    × Chain (insert_after c a h) p (insert_block a n bs)

last_below-step :
    (f a n p b m : ℕ) (bs : List Block) (h : Heap)
    → 0 < p
    → p < a
    → p < b
    → Chain h p ((b, m) ∷ bs)
    → ltb b a ≡ true
    → Placed f a n b bs h
    → Placed (suc f) a n p ((b, m) ∷ bs) h
unfolding last_below insert_block
last_below-step f a n p b m bs h pos below behind c on (k, walk, ge, lt, chain) =
    let after : next_at h p ≡ b = sym (link-next h p pos) ∙ c.0 in
    let nonnull : (b == 0) ≡ false = ground arith in
    let sorted : ltb a b ≡ false = ground arith in
    let first =
      link-same h (insert_after k a h) p pos
        (insert_after-headers k a p h (omega arith) (omega arith)) in
    (
      k,
      rw (after, nonnull, on) walk,
      omega arith,
      lt,
      rw sorted (first ∙ c.0, insert_after-sizes k a b h ∙ c.1, chain),
    )

-- The walk behind `p` finds the block after which the new one belongs.
last_below-Chain :
    (fuel a n p lo hi : ℕ) (bs : List Block) (h : Heap)
    → length bs < fuel
    → 0 < p
    → p < a
    → p < lo
    → 16 ≤ n
    → size_at h a ≡ n
    → Apart a n bs
    → Layout lo hi bs
    → Chain h p bs
    → Placed fuel a n p bs h
unfolding last_below insert_block
last_below-Chain zero a n p lo hi bs h fuel pos below behind room e apart l c = absurd (omega arith)
last_below-Chain (suc f) a n p lo hi [] h fuel pos below behind room e apart l c =
    let end : next_at h p ≡ 0 = sym (link-next h p pos) ∙ c in
    let links = insert_after-links p a h pos (omega arith) in
    (
      p,
      rw end,
      omega arith,
      below,
      (links.0, insert_after-sizes p a a h ∙ e, links.1 (omega arith) ∙ c),
    )
last_below-Chain (suc f) a n p lo hi ((b, m) ∷ bs) h fuel pos below behind room e apart l c =
    let after : next_at h p ≡ b = sym (link-next h p pos) ∙ c.0 in
    let nonnull : (b == 0) ≡ false = ground arith in
    elim (Bool-cases (ltb b a)) [
      | inl on ↦ last_below-step f a n p b m bs h pos (ground arith) (omega arith) c on (
          last_below-Chain f a n b (b + m) hi bs h (omega arith) (omega arith) (ground arith)
            (omega arith) room e apart.1 l.2 c.2)
      | inr stop ↦
          let sorted : ltb a b ≡ true = ground arith in
          let links = insert_after-links p a h pos (omega arith) in
          let rest =
            Chain-same h (insert_after p a h) b hi p a ((b, m) ∷ bs) (omega arith)
              (links.1 (omega arith))
              (λ x from. insert_after-headers p a x h (omega arith) (ground arith))
              (omega arith, l.1, l.2) c in
          (
            p,
            rw (after, nonnull, stop),
            omega arith,
            below,
            rw sorted (links.0, insert_after-sizes p a a h ∙ e, rest),
          )
    ]

-- What the insertion into the free list comes to.
pub record Inserted (a n : ℕ) (h : Heap) (bs : List Block) (g : Heap) : Type 0 where
  pub chain : Chain g 0 (insert_block a n bs)
  pub sizes : (x : ℕ) → size_at g x ≡ size_at h x
  pub words : g.words ≡ h.words
  pub heap_start : g.heap_start ≡ h.heap_start
  pub heap_end : g.heap_end ≡ h.heap_end

insert-front :
    (a n : ℕ) (h : Heap) (bs : List Block)
    → 0 < a
    → 16 ≤ n
    → size_at h a ≡ n
    → Layout (a + n) h.heap_end bs
    → Chain h 0 bs
    → insert_block a n bs ≡ (a, n) ∷ bs
    → Inserted a n h bs (record (set_next a h.free_list h) { free_list = a })
unfolding set_next link
insert-front a n h bs pos room e l c front = record {
  chain = rw front (
    refl,
    ground arith,
    Chain-same h (record (set_next a h.free_list h) { free_list = a }) (a + n) h.heap_end 0 a bs
        (omega arith) (ground arith) (λ x from. ground arith) l c,
  );
  sizes = λ x. ground arith;
  words = refl;
  heap_start = refl;
  heap_end = refl;
}

insert_block-front :
    (a n b m : ℕ) (bs : List Block) → a < b → insert_block a n ((b, m) ∷ bs) ≡ (a, n) ∷ (b, m) ∷ bs
unfolding insert_block
insert_block-front a n b m bs lt = rw (lt→ltb a b lt)

insert-behind :
    (fuel a n b m : ℕ) (h : Heap) (bs : List Block)
    → b < a
    → h.free_list ≡ b
    → 0 < b
    → Chain h 0 ((b, m) ∷ bs)
    → Placed fuel a n b bs h
    → (g : Heap) × (insert fuel a h ≡ some g) × Inserted a n h ((b, m) ∷ bs) g
unfolding insert insert_block
insert-behind fuel a n b m h bs lt first pos c (k, walk, ge, below, chain) =
    let nonempty : (h.free_list == 0) ≡ false = ground arith in
    let later : ltb a h.free_list ≡ false = ground arith in
    let found : last_below fuel a h.free_list h ≡ some k =
      ap (λ x. last_below fuel a x h) first ∙ walk in
    let sorted : ltb a b ≡ false = ground arith in
    let rest = insert_after-rest k a h in
    let sizes = λ (x : ℕ). insert_after-sizes k a x h in
    (
      insert_after k a h,
      rw (nonempty, later, found),
      record {
        chain = rw sorted (free_list-link _ ∙ rest.0 ∙ first, sizes b ∙ c.1, chain);
        sizes = sizes;
        words = rest.1;
        heap_start = rest.2;
        heap_end = rest.3;
      },
    )

-- `kfree` puts the block into the list in address order.
pub insert-Inserted :
    (fuel a n : ℕ) (h : Heap) (bs : List Block)
    → IsValid h bs
    → 16 ≤ n
    → size_at h a ≡ n
    → h.heap_start ≤ a
    → a + n ≤ h.heap_end
    → Apart a n bs
    → length bs < fuel
    → (g : Heap) × (insert fuel a h ≡ some g) × Inserted a n h bs g
unfolding insert
insert-Inserted fuel a n h [] v room e le fits apart fueled =
    let empty : (h.free_list == 0) ≡ true = ground (arith, free_list-link h, v.chain) in
    (
      record (set_next a h.free_list h) { free_list = a },
      rw empty,
      insert-front a n h [] (omega (arith, v.start)) room e fits v.chain
          (unfold insert_block in refl),
    )
insert-Inserted fuel a n h ((b, m) ∷ bs) v room e le fits apart fueled =
    let first : h.free_list ≡ b = sym (free_list-link h) ∙ v.chain.0 in
    let nonempty : (h.free_list == 0) ≡ false = ground (arith, v.start, v.layout) in
    elim (Bool-cases (ltb a h.free_list)) [
      | inl front ↦ (
        record (set_next a h.free_list h) { free_list = a },
        rw (nonempty, front),
        insert-front a n h ((b, m) ∷ bs) (omega (arith, v.start)) room e (ground (arith, v.layout))
            v.chain (insert_block-front a n b m bs (ground arith)),
      )
      | inr later ↦
          insert-behind fuel a n b m h bs (ground (arith, v.layout)) first
            (omega (arith, v.start, v.layout)) v.chain
            (last_below-Chain fuel a n b (b + m) h.heap_end bs h (omega arith)
              (omega (arith, v.start, v.layout)) (ground (arith, v.layout))
              (omega (arith, v.layout)) room e apart.1 v.layout.2 v.chain.2)
    ]
