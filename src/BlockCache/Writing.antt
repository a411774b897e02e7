-- ===== src/BlockCache/Writing.antt =====
-- `block_cache_write` of src/kernel/fs/block_cache.c against a store of blocks.
use lite_core.Prelude.{
  ℕ, ◌*◌, ◌<◌, ◌≡◌, ◌≢◌, inl, inr, Bool, true, false, Option, none, some, arith, refl,
  if◌then◌else◌, ◌==◌, Bool-cases, update, add32,
}
use lite_core.BlockCache.{
  Entry, Cache, Driver, splice, set_entry, write_back, overwrite, block_cache_write, find_block,
  find_lru_entry,
}
use lite_core.BlockCache.Transfer.{Laws, OnDisk}
use lite_core.BlockCache.Victim.{Hit, find_block-Hit, Victim, find_lru_entry-Victim}
use lite_core.BlockCache.Coherence.{Coherent, Others, Coherent-Others, place-Coherent, block-alone}
use lite_core.BlockCache.WriteBack.{write_back-Stores, write_back-Others}

-- The store after a write of block `b`.
abbrev pub put_block : (ℕ → ℕ → ℕ) → ℕ → (ℕ → ℕ) → ℕ → ℕ → ℕ
put_block v b buffer b' j = if b' == b then buffer j else v b' j

-- A write takes effect in the store, or gives -1 and has none.
abbrev pub Written :
    {D : Type 0} (view : D → ℕ → ℕ → ℕ) (k : ℕ) (v : ℕ → ℕ → ℕ) (b : ℕ) (buffer : ℕ → ℕ)
    → Bool × Cache × D
    → Type 0
Written view k v b buffer (true, c, d) =
    Coherent k (put_block v b buffer) c.num_entries c.entries (view d)
Written view k v b buffer (false, c, d) = Coherent k v c.num_entries c.entries (view d)

module _ {D : Type 0} (ata : Driver D) (view : D → ℕ → ℕ → ℕ) (k : ℕ) (v : ℕ → ℕ → ℕ) (b : ℕ)
    (buffer : ℕ → ℕ) (on : OnDisk k b) (some_sectors : 0 < k) where
  -- A dirty entry for block `b` with the bytes of the buffer, in place of entry `i`.
  dirty-Coherent :
      (n i t len : ℕ) (old : ℕ → ℕ) (es : ℕ → Entry) (sectors : ℕ → ℕ → ℕ)
      → len ≡ k * 512
      → i < n
      → ((m : ℕ) → m ≢ i → m < n → (es m).valid ≡ true → (es m).block_num ≢ b)
      → Others k v n es sectors i b
      → Coherent k
          (put_block v b buffer)
          n
          (update es i (record {
            block_num = b;
            bytes = splice old 0 len buffer;
            last_used = t;
            dirty = true;
            valid = true;
          }))
          sectors
  dirty-Coherent n i t len old es sectors size lt alone o =
      place-Coherent k v (put_block v b buffer) n es sectors i _ o
        (record {
          alone = alone;
          there = on;
          holds = λ j small. ground arith;
          elsewhere = λ b' j ne. ground arith;
          clean = inl refl;
        })
        lt refl

  overwrite-Written :
      (i : ℕ) (c : Cache) (d : D)
      → Laws ata c.drive view
      → c.block_size ≡ k * 512
      → i < c.num_entries
      → Hit c.num_entries 0 b c.entries none
      → Coherent k v c.num_entries c.entries (view d)
      → Written view k v b buffer (overwrite ata i b buffer c d)
  unfolding overwrite
  overwrite-Written i c d laws whole lt missed h = elim (Bool-cases (write_back ata c i d).0) [
    | inr out ↦ rw out (write_back-Stores ata view c k laws some_sectors whole v i d lt h)
    | inl written ↦ rw written (
        dirty-Coherent c.num_entries i c.timestamp c.block_size (c.entries i).bytes c.entries _
          whole lt (λ m ne lt' val. missed m (omega arith) lt' val)
          (write_back-Others ata view c k laws some_sectors whole v i b d lt h written))
  ]

  -- A hit: the entry has the block already.
  hit-Coherent :
      (n i t len : ℕ) (es : ℕ → Entry) (sectors : ℕ → ℕ → ℕ)
      → len ≡ k * 512
      → i < n
      → (es i).valid ≡ true
      → (es i).block_num ≡ b
      → Coherent k v n es sectors
      → Coherent k
          (put_block v b buffer)
          n
          (update es i (record (es i) {
            bytes = splice (es i).bytes 0 len buffer;
            last_used = t;
            dirty = true;
          }))
          sectors
  hit-Coherent n i t len es sectors size lt val same h =
      place-Coherent k v (put_block v b buffer) n es sectors i _
        (Coherent-Others k v n es sectors i h)
        (record {
          alone = block-alone k v n es sectors i h lt val;
          there = h.on_disk i lt val;
          holds = λ j small. ground arith;
          elsewhere = λ b' j ne. ground arith;
          clean = inl refl;
        })
        lt val

  choose-Written :
      (o : Option ℕ) (c : Cache) (d : D)
      → Laws ata c.drive view
      → c.block_size ≡ k * 512
      → Hit c.num_entries 0 b c.entries none
      → Victim c.num_entries c.entries o
      → Coherent k v c.num_entries c.entries (view d)
      → Written view k v b buffer (elim o as (λ _. Bool × Cache × D) [
        | none ↦ (false, c, d)
        | some i ↦ overwrite ata i b buffer c d
      ])
  choose-Written none c d laws whole missed victim h = h
  choose-Written (some i) c d laws whole missed victim h =
      overwrite-Written i c d laws whole victim.0 missed h

  look-Written :
      (o : Option ℕ) (c : Cache) (d : D)
      → Laws ata c.drive view
      → c.block_size ≡ k * 512
      → Hit c.num_entries 0 b c.entries o
      → Coherent k v c.num_entries c.entries (view d)
      → Written view k v b buffer (elim o as (λ _. Bool × Cache × D) [
        | some i ↦ (
          true,
          set_entry c i (record (c.entries i) {
            bytes = splice (c.entries i).bytes 0 c.block_size buffer;
            last_used = c.timestamp;
            dirty = true;
          }),
          d,
        )
        | none ↦ elim (find_lru_entry c) as (λ _. Bool × Cache × D) [
          | none ↦ (false, c, d)
          | some i ↦ overwrite ata i b buffer c d
        ]
      ])
  look-Written none c d laws whole missed h =
      choose-Written (find_lru_entry c) c d laws whole missed (find_lru_entry-Victim c) h
  look-Written (some i) c d laws whole (lt, val, same) h =
      hit-Coherent c.num_entries i c.timestamp c.block_size c.entries (view d) whole lt val same h

  -- On a coherent cache whose block size is `k` sectors, with a driver that keeps to `Laws`,
  -- `block_cache_write` of a block within 2^28 sectors leaves the cache coherent with the store
  -- after the write; if it gives -1, with the store as it was.
  pub block_cache_write-Written :
      (c : Cache) (d : D)
      → Laws ata c.drive view
      → c.block_size ≡ k * 512
      → Coherent k v c.num_entries c.entries (view d)
      → Written view k v b buffer (block_cache_write ata b buffer c d)
  unfolding block_cache_write
  block_cache_write-Written c0 d laws whole h =
      let c : Cache = record c0 { timestamp = add32 c0.timestamp 1 } in
      look-Written (find_block c.num_entries 0 b c.entries) c d laws whole
        (find_block-Hit c.num_entries 0 c.num_entries b c.entries (omega arith)) h
