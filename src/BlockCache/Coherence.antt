-- ===== src/BlockCache/Coherence.antt =====
-- The block cache of src/kernel/fs/block_cache.c as a store of blocks: what a reader sees is what was
-- written last, whether it is still in an entry or already on the disk.
use lite_core.Prelude.{
  ℕ, ◌*◌, ◌<◌, ◌≡◌, ◌≢◌, inl, inr, ◌⊎◌, true, false, arith, refl, sym, ap, ◌∙◌, ◌==◌, Bool-cases,
  update,
}
use lite_core.BlockCache.{Entry}
use lite_core.BlockCache.Transfer.{block_byte, OnDisk}

-- The store `v` has byte `j` of block `b` at `v b j`. Valid entries hold what it says, at most one
-- for each block, and a block with no dirty entry is on the disk.
pub record Coherent (k : ℕ) (v : ℕ → ℕ → ℕ) (n : ℕ) (es : ℕ → Entry) (sectors : ℕ → ℕ → ℕ)
    : Type 0 where
  pub held :
      (m j : ℕ) → m < n → (es m).valid ≡ true → j < k * 512 → (es m).bytes j ≡ v (es m).block_num j
  pub on_disk : (m : ℕ) → m < n → (es m).valid ≡ true → OnDisk k (es m).block_num
  pub distinct :
      (m m' : ℕ)
      → m < n
      → m' < n
      → (es m).valid ≡ true
      → (es m').valid ≡ true
      → (es m).block_num ≡ (es m').block_num
      → m ≡ m'
  pub stored :
      (b : ℕ)
      → ((m : ℕ) → m < n → (es m).valid ≡ true → (es m).dirty ≡ true → (es m).block_num ≢ b)
      → (j : ℕ) → j < k * 512
      → block_byte sectors k b j ≡ v b j

-- The same without entry `i`, and without what the disk has of block `b0`.
pub record Others (k : ℕ) (v : ℕ → ℕ → ℕ) (n : ℕ) (es : ℕ → Entry) (sectors : ℕ → ℕ → ℕ) (i b0 : ℕ)
    : Type 0 where
  pub held :
      (m j : ℕ)
      → m ≢ i
      → m < n
      → (es m).valid ≡ true
      → j < k * 512
      → (es m).bytes j ≡ v (es m).block_num j
  pub on_disk : (m : ℕ) → m ≢ i → m < n → (es m).valid ≡ true → OnDisk k (es m).block_num
  pub distinct :
      (m m' : ℕ)
      → m ≢ i
      → m' ≢ i
      → m < n
      → m' < n
      → (es m).valid ≡ true
      → (es m').valid ≡ true
      → (es m).block_num ≡ (es m').block_num
      → m ≡ m'
  pub stored :
      (b : ℕ)
      → b ≢ b0
      → ((m : ℕ) → m ≢ i → m < n → (es m).valid ≡ true → (es m).dirty ≡ true → (es m).block_num ≢ b)
      → (j : ℕ) → j < k * 512
      → block_byte sectors k b j ≡ v b j

-- What is asked of an entry `e` for the place `i`, and of the store `v'` that it leads to.
pub record Fits (k : ℕ) (v v' : ℕ → ℕ → ℕ) (n : ℕ) (es : ℕ → Entry) (sectors : ℕ → ℕ → ℕ) (i : ℕ)
    (e : Entry) : Type 0 where
  pub alone : (m : ℕ) → m ≢ i → m < n → (es m).valid ≡ true → (es m).block_num ≢ e.block_num
  pub there : OnDisk k e.block_num
  pub holds : (j : ℕ) → j < k * 512 → e.bytes j ≡ v' e.block_num j
  pub elsewhere : (b j : ℕ) → b ≢ e.block_num → v' b j ≡ v b j
  pub clean :
      (e.dirty ≡ true)
      ⊎ ((j : ℕ) → j < k * 512 → block_byte sectors k e.block_num j ≡ v' e.block_num j)

pub Coherent-Others :
    (k : ℕ) (v : ℕ → ℕ → ℕ) (n : ℕ) (es : ℕ → Entry) (sectors : ℕ → ℕ → ℕ) (i : ℕ)
    → Coherent k v n es sectors
    → Others k v n es sectors i (es i).block_num
Coherent-Others k v n es sectors i h = record {
  held = λ m j ne. h.held m j;
  on_disk = λ m ne. h.on_disk m;
  distinct = λ m m' ne ne'. h.distinct m m';
  stored = λ b ne none_dirty. h.stored b (λ m lt val dir. elim (Bool-cases (m == i)) [
    | inl here ↦ λ same. absurd (ne (sym same ∙ ap (λ x. (es x).block_num) (ground arith)))
    | inr other ↦ none_dirty m (ground arith) lt val dir
  ]);
}

module _ (k : ℕ) (v v' : ℕ → ℕ → ℕ) (n : ℕ) (es : ℕ → Entry) (sectors : ℕ → ℕ → ℕ) (i : ℕ)
    (e : Entry) (o : Others k v n es sectors i e.block_num) (f : Fits k v v' n es sectors i e) where
  new : (m : ℕ) → m ≡ i → update es i e m ≡ e
  new m at = ground arith

  old : (m : ℕ) → m ≢ i → update es i e m ≡ es m
  old m ne = ground arith

  place-held :
      (m j : ℕ)
      → m < n
      → (update es i e m).valid ≡ true
      → j < k * 512
      → (update es i e m).bytes j ≡ v' (update es i e m).block_num j
  place-held m j lt = elim (Bool-cases (m == i)) [
    | inl here ↦ rw (new m (ground arith)) (λ val small. f.holds j small)
    | inr other ↦
        let ne : m ≢ i = ground arith in
        rw (old m ne) (λ val small.
          o.held m j ne lt val small ∙ sym (f.elsewhere (es m).block_num j (f.alone m ne lt val)))
  ]

  place-OnDisk :
      (m : ℕ) → m < n → (update es i e m).valid ≡ true → OnDisk k (update es i e m).block_num
  place-OnDisk m lt = elim (Bool-cases (m == i)) [
    | inl here ↦ rw (new m (ground arith)) (λ val. f.there)
    | inr other ↦ let ne : m ≢ i = ground arith in rw (old m ne) (o.on_disk m ne lt)
  ]

  place-distinct :
      (m m' : ℕ)
      → m < n
      → m' < n
      → (update es i e m).valid ≡ true
      → (update es i e m').valid ≡ true
      → (update es i e m).block_num ≡ (update es i e m').block_num
      → m ≡ m'
  place-distinct m m' lt lt' = elim (Bool-cases (m == i)) [
    | inl here ↦ elim (Bool-cases (m' == i)) [
      | inl here' ↦ λ val val' same. ground arith
      | inr other' ↦
          let ne' : m' ≢ i = ground arith in
          rw (new m (ground arith), old m' ne')
            (λ val val' same. absurd (f.alone m' ne' lt' val' (sym same)))
    ]
    | inr other ↦
        let ne : m ≢ i = ground arith in
        elim (Bool-cases (m' == i)) [
          | inl here' ↦
              rw (old m ne, new m' (ground arith))
                (λ val val' same. absurd (f.alone m ne lt val same))
          | inr other' ↦
              let ne' : m' ≢ i = ground arith in
              rw (old m ne, old m' ne') (o.distinct m m' ne ne' lt lt')
        ]
  ]

  place-stored :
      i < n
      → e.valid ≡ true
      → (b : ℕ)
      → ((m : ℕ)
          → m < n
          → (update es i e m).valid ≡ true
          → (update es i e m).dirty ≡ true
          → (update es i e m).block_num ≢ b)
      → (j : ℕ) → j < k * 512
      → block_byte sectors k b j ≡ v' b j
  place-stored lt val b none_dirty j small = elim (Bool-cases (b == e.block_num)) [
    | inr other ↦
        let ne : b ≢ e.block_num = ground arith in
        o.stored b ne (λ m ne' lt'. rw (old m ne') at (none_dirty m lt')) j small
        ∙ sym (f.elsewhere b j ne)
    | inl here ↦
        let at : b ≡ e.block_num = ground arith in
        elim f.clean [
          | inl dir ↦ absurd (rw (new i refl) at (none_dirty i lt) val dir (sym at))
          | inr disk ↦
              ap (λ x. block_byte sectors k x j) at ∙ disk j small ∙ ap (λ x. v' x j) (sym at)
        ]
  ]

  pub place-Coherent : i < n → e.valid ≡ true → Coherent k v' n (update es i e) sectors
  place-Coherent lt val = record {
    held = place-held;
    on_disk = place-OnDisk;
    distinct = place-distinct;
    stored = place-stored lt val;
  }

-- No other valid entry has the block of a valid one.
pub block-alone :
    (k : ℕ) (v : ℕ → ℕ → ℕ) (n : ℕ) (es : ℕ → Entry) (sectors : ℕ → ℕ → ℕ) (i : ℕ)
    → Coherent k v n es sectors
    → i < n
    → (es i).valid ≡ true
    → (m : ℕ) → m ≢ i
    → m < n
    → (es m).valid ≡ true
    → (es m).block_num ≢ (es i).block_num
block-alone k v n es sectors i h lt val m ne lt' val' same =
    ne (h.distinct m i lt' lt val' val same)

-- A valid entry whose block is not dirty is on the disk.
pub clean-stored :
    (k : ℕ) (v : ℕ → ℕ → ℕ) (n : ℕ) (es : ℕ → Entry) (sectors : ℕ → ℕ → ℕ) (i : ℕ)
    → Coherent k v n es sectors
    → i < n
    → (es i).valid ≡ true
    → (es i).dirty ≡ false
    → (j : ℕ) → j < k * 512
    → block_byte sectors k (es i).block_num j ≡ v (es i).block_num j
clean-stored k v n es sectors i h lt val clean = h.stored (es i).block_num (λ m lt' val' dir same.
    let at : m ≡ i = h.distinct m i lt' lt val' val same in
    absurd (ground (arith, dir, clean, ap (λ x. (es x).dirty) at)))
