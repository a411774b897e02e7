-- ===== src/BlockCache/Reading.antt =====
-- `block_cache_read` of src/kernel/fs/block_cache.c against a store of blocks.
use lite_core.Prelude.{
  ℕ, ◌+◌, ◌*◌, ◌<◌, ◌≡◌, ◌≢◌, inl, inr, ◌⊎◌, true, false, ◌&&◌, Option, none, some, arith, refl,
  sym, ap, ◌∙◌, if◌then◌else◌, ◌==◌, Bool-cases, update, add32, fun_ext, subst,
}
use lite_core.BlockCache.{
  Entry, Cache, Driver, Outcome, done, failed, set_entry, write_back, fetch, replace,
  block_cache_read, find_block, find_lru_entry, read_block_from_disk,
}
use lite_core.BlockCache.Transfer.{Laws, block_byte, OnDisk, read_block-keeps, read_block-moves}
use lite_core.BlockCache.Victim.{Hit, find_block-Hit, Victim, find_lru_entry-Victim}
use lite_core.BlockCache.Coherence.{
  Coherent, Others, Coherent-Others, place-Coherent, block-alone, clean-stored,
}
use lite_core.BlockCache.WriteBack.{Others-update, write_back-Stores, write_back-Others}

-- What a read of block `b` gives: its bytes, or -1, and then at most one entry is damaged.
abbrev pub Read :
    {D : Type 0} (view : D → ℕ → ℕ → ℕ) (k : ℕ) (v : ℕ → ℕ → ℕ) (b : ℕ)
    → Outcome × Cache × D
    → Type 0
Read view k v b (done bytes, c, d) =
    ((j : ℕ) → j < k * 512 → bytes j ≡ v b j) × Coherent k v c.num_entries c.entries (view d)
Read view k v b (failed, c, d) =
    Coherent k v c.num_entries c.entries (view d)
    ⊎ ((i : ℕ) × ((b0 : ℕ) → Others k v c.num_entries c.entries (view d) i b0))

module _ {D : Type 0} (ata : Driver D) (view : D → ℕ → ℕ → ℕ) (k : ℕ) (v : ℕ → ℕ → ℕ) (b : ℕ)
    (on : OnDisk k b) (some_sectors : 0 < k) where
  fetch-Read :
      (i : ℕ) (c : Cache) (d : D)
      → Laws ata c.drive view
      → c.block_size ≡ k * 512
      → i < c.num_entries
      → Hit c.num_entries 0 b c.entries none
      → ((b0 : ℕ) → Others k v c.num_entries c.entries (view d) i b0)
      → Read view k v b (fetch ata i b c d)
  unfolding fetch
  fetch-Read i c d laws whole lt missed o =
      let n = c.num_entries in
      let r = read_block_from_disk ata c b (c.entries i).bytes d in
      let same : view r.2 ≡ view d = fun_ext (λ s.
        fun_ext (λ a.
          read_block-keeps ata view c k laws some_sectors whole b (c.entries i).bytes d s a)) in
      let o' : (b0 : ℕ) → Others k v n c.entries (view r.2) i b0 =
        λ b0. subst (λ w. Others k v n c.entries w i b0) (sym same) (o b0) in
      let disk : (j : ℕ) → j < k * 512 → block_byte (view d) k b j ≡ v b j = λ j small.
        (o (b + 1)).stored b (omega arith) (λ m ne lt' val dir. missed m (omega arith) lt' val) j
          small in
      elim (Bool-cases r.0) [
        | inr out ↦ rw out (inr (i, λ b0. Others-update k v n c.entries (view r.2) i b0 _ (o' b0)))
        | inl ok ↦
            let moved : (j : ℕ) → j < k * 512 → r.1 j ≡ v b j = λ j small.
              read_block-moves ata view c k laws some_sectors whole b (c.entries i).bytes d on ok j
                small
              ∙ disk j small in
            rw ok (
              moved,
              place-Coherent k v v n c.entries (view r.2) i _ (o' b)
                  (record {
                    alone = λ m ne lt' val. missed m (omega arith) lt' val;
                    there = on;
                    holds = moved;
                    elsewhere = λ b' j ne. refl;
                    clean = inr (λ j small. ap (λ w. block_byte w k b j) same ∙ disk j small);
                  })
                  lt refl,
            )
      ]

  replace-Read :
      (i : ℕ) (c : Cache) (d : D)
      → Laws ata c.drive view
      → c.block_size ≡ k * 512
      → i < c.num_entries
      → Hit c.num_entries 0 b c.entries none
      → Coherent k v c.num_entries c.entries (view d)
      → Read view k v b (replace ata i b c d)
  unfolding replace
  replace-Read i c d laws whole lt missed h =
      let e = c.entries i in
      let clean : Entry = if e.valid && e.dirty then record e { dirty = false } else e in
      elim (Bool-cases (write_back ata c i d).0) [
        | inr out ↦ rw out (inl (write_back-Stores ata view c k laws some_sectors whole v i d lt h))
        | inl written ↦ rw written (
            fetch-Read i (set_entry c i clean) (write_back ata c i d).1 laws whole lt
              (Hit-clean c i clean lt
                (λ val same. absurd (ground (arith, val, same, missed i (omega arith) lt))) missed)
              (λ b0.
                Others-update k v c.num_entries c.entries _ i b0 clean
                  (write_back-Others ata view c k laws some_sectors whole v i b0 d lt h written)))
      ]
    where
      Hit-clean :
          (c : Cache) (i : ℕ) (e : Entry)
          → i < c.num_entries
          → (e.valid ≡ true → e.block_num ≢ b)
          → Hit c.num_entries 0 b c.entries none
          → Hit c.num_entries 0 b (update c.entries i e) none
      Hit-clean c i e lt mine missed m ge lt' = elim (Bool-cases (m == i)) [
        | inl here ↦ let at : update c.entries i e m ≡ e = ground arith in rw at mine
        | inr other ↦
            let at : update c.entries i e m ≡ c.entries m = ground arith in rw at (missed m ge lt')
      ]

  -- A hit: only the timestamp of the entry changes.
  hit-Coherent :
      (n i t : ℕ) (es : ℕ → Entry) (sectors : ℕ → ℕ → ℕ)
      → i < n
      → (es i).valid ≡ true
      → Coherent k v n es sectors
      → Coherent k v n (update es i (record (es i) { last_used = t })) sectors
  hit-Coherent n i t es sectors lt val h =
      place-Coherent k v v n es sectors i _ (Coherent-Others k v n es sectors i h)
        (record {
          alone = block-alone k v n es sectors i h lt val;
          there = h.on_disk i lt val;
          holds = λ j. h.held i j lt val;
          elsewhere = λ b' j ne. refl;
          clean = elim (Bool-cases (es i).dirty) [
            | inl dir ↦ inl dir
            | inr clean ↦ inr (clean-stored k v n es sectors i h lt val clean)
          ];
        })
        lt val

  choose-Read :
      (o : Option ℕ) (c : Cache) (d : D)
      → Laws ata c.drive view
      → c.block_size ≡ k * 512
      → Hit c.num_entries 0 b c.entries none
      → Victim c.num_entries c.entries o
      → Coherent k v c.num_entries c.entries (view d)
      → Read view k v b (elim o as (λ _. Outcome × Cache × D) [
        | none ↦ (failed, c, d)
        | some i ↦ replace ata i b c d
      ])
  choose-Read none c d laws whole missed victim h = inl h
  choose-Read (some i) c d laws whole missed victim h =
      replace-Read i c d laws whole victim.0 missed h

  look-Read :
      (o : Option ℕ) (c : Cache) (d : D)
      → Laws ata c.drive view
      → c.block_size ≡ k * 512
      → Hit c.num_entries 0 b c.entries o
      → Coherent k v c.num_entries c.entries (view d)
      → Read view k v b (elim o as (λ _. Outcome × Cache × D) [
        | some i ↦ (
          done (c.entries i).bytes,
          set_entry
              (record c { hits = add32 c.hits 1 })
              i
              (record (c.entries i) { last_used = c.timestamp }),
          d,
        )
        | none ↦
            let missed = record c { misses = add32 c.misses 1 } in
            elim (find_lru_entry missed) as (λ _. Outcome × Cache × D) [
              | none ↦ (failed, missed, d)
              | some i ↦ replace ata i b missed d
            ]
      ])
  look-Read none c d laws whole missed h =
      let c' : Cache = record c { misses = add32 c.misses 1 } in
      choose-Read (find_lru_entry c') c' d laws whole missed (find_lru_entry-Victim c') h
  look-Read (some i) c d laws whole (lt, val, same) h = (
    λ j small. h.held i j lt val small ∙ ap (λ x. v x j) same,
    hit-Coherent c.num_entries i c.timestamp c.entries (view d) lt val h,
  )

  -- On a coherent cache whose block size is `k` sectors, with a driver that keeps to `Laws`,
  -- `block_cache_read` of a block within 2^28 sectors gives the bytes that the store has and
  -- leaves the cache coherent. If it gives -1, the cache is coherent, or all is in order but for
  -- one entry.
  pub block_cache_read-Read :
      (c : Cache) (d : D)
      → Laws ata c.drive view
      → c.block_size ≡ k * 512
      → Coherent k v c.num_entries c.entries (view d)
      → Read view k v b (block_cache_read ata b c d)
  unfolding block_cache_read
  block_cache_read-Read c0 d laws whole h =
      let c : Cache = record c0 { timestamp = add32 c0.timestamp 1 } in
      look-Read (find_block c.num_entries 0 b c.entries) c d laws whole
        (find_block-Hit c.num_entries 0 c.num_entries b c.entries (omega arith)) h
