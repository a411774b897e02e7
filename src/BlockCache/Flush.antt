-- ===== src/BlockCache/Flush.antt =====
-- `block_cache_flush` and `block_cache_init` of src/kernel/fs/block_cache.c.
use lite_core.Prelude.{
  ℕ, zero, suc, ◌+◌, ◌*◌, ◌<◌, ◌≡◌, inl, inr, Bool, true, false, ◌&&◌, Option, none, some, arith,
  refl, ap, ◌==◌, Bool-cases, update,
}
use lite_core.BlockCache.{
  Entry, Cache, Driver, set_entry, write_back, flush_from, block_cache_flush, block_cache_init,
}
use lite_core.BlockCache.Transfer.{Laws, block_byte}
use lite_core.BlockCache.Coherence.{Coherent, Coherent-Others, place-Coherent, block-alone}
use lite_core.BlockCache.WriteBack.{write_back-Stores, write_back-written}

-- The valid entries below `i` are clean.
abbrev CleanBelow : ℕ → (ℕ → Entry) → Type 0
CleanBelow i es = (m : ℕ) → m < i → (es m).valid ≡ true → (es m).dirty ≡ false

-- After a flush that gives 0 the disk has the whole store; the cache is coherent in any case.
abbrev pub Flushed :
    {D : Type 0} (view : D → ℕ → ℕ → ℕ) (k : ℕ) (v : ℕ → ℕ → ℕ) → Bool × Cache × D → Type 0
Flushed view k v (true, c, d) =
    Coherent k v c.num_entries c.entries (view d)
    × ((b j : ℕ) → j < k * 512 → block_byte (view d) k b j ≡ v b j)
Flushed view k v (false, c, d) = Coherent k v c.num_entries c.entries (view d)

module _ {D : Type 0} (ata : Driver D) (view : D → ℕ → ℕ → ℕ) (k : ℕ) (v : ℕ → ℕ → ℕ)
    (some_sectors : 0 < k) where
  -- The entry that was written back, marked clean.
  clean-Coherent :
      (i : ℕ) (c : Cache) (d : D)
      → Laws ata c.drive view
      → c.block_size ≡ k * 512
      → i < c.num_entries
      → (c.entries i).valid && (c.entries i).dirty ≡ true
      → Coherent k v c.num_entries c.entries (view d)
      → (write_back ata c i d).0 ≡ true
      → Coherent k v c.num_entries
          (update c.entries i (record (c.entries i) { dirty = false }))
          (view (write_back ata c i d).1)
  clean-Coherent i c d laws whole lt dir h written =
      let val : (c.entries i).valid ≡ true = ground arith in
      let d' = (write_back ata c i d).1 in
      let h' = write_back-Stores ata view c k laws some_sectors whole v i d lt h in
      place-Coherent k v v c.num_entries c.entries (view d') i _
        (Coherent-Others k v c.num_entries c.entries (view d') i h')
        (record {
          alone = block-alone k v c.num_entries c.entries (view d') i h' lt val;
          there = h.on_disk i lt val;
          holds = λ j. h.held i j lt val;
          elsewhere = λ b j ne. refl;
          clean =
              inr (write_back-written ata view c k laws some_sectors whole v i d lt h dir written);
        })
        lt val

  flush_from-Flushed :
      (n i : ℕ) (c : Cache) (d : D)
      → Laws ata c.drive view
      → c.block_size ≡ k * 512
      → i + n ≡ c.num_entries
      → CleanBelow i c.entries
      → Coherent k v c.num_entries c.entries (view d)
      → Flushed view k v (flush_from ata n i c d)
  unfolding flush_from
  flush_from-Flushed zero i c d laws whole e clean h = (
    h,
    λ b j small.
        h.stored b (λ m lt val dir. absurd (ground (arith, clean m (omega arith) val, dir))) j
          small,
  )
  flush_from-Flushed (suc n) i c d laws whole e clean h =
      elim (Bool-cases (write_back ata c i d).0) [
        | inr out ↦
            rw out (write_back-Stores ata view c k laws some_sectors whole v i d (omega arith) h)
        | inl written ↦ elim (Bool-cases ((c.entries i).valid && (c.entries i).dirty)) [
          | inl dir ↦
              rw (written, dir)
                (flush_from-Flushed n (i + 1)
                  (set_entry c i (record (c.entries i) { dirty = false })) (write_back ata c i d).1
                  laws whole (omega arith)
                  (λ m lt. elim (Bool-cases (m == i)) [
                    | inl here ↦ λ val. ground arith
                    | inr other ↦
                        let at : update c.entries i (record (c.entries i) { dirty = false }) m
                            ≡ c.entries m =
                          ground arith in
                        rw at (clean m (ground arith))
                  ])
                  (clean-Coherent i c d laws whole (omega arith) dir h written))
          | inr keeps ↦
              rw (written, keeps)
                (flush_from-Flushed n (i + 1) c (write_back ata c i d).1 laws whole (omega arith)
                  (λ m lt val. elim (Bool-cases (m == i)) [
                    | inl here ↦
                        let at : m ≡ i = ground arith in
                        ground (
                          arith,
                          val,
                          keeps,
                          ap (λ x. (c.entries x).valid) at,
                          ap (λ x. (c.entries x).dirty) at,
                        )
                    | inr other ↦ clean m (ground arith) val
                  ])
                  (write_back-Stores ata view c k laws some_sectors whole v i d (omega arith) h))
        ]
      ]

  -- On a coherent cache whose block size is `k` sectors, with a driver that keeps to `Laws`, a
  -- flush that gives 0 brings every block of the store to the disk, and the cache stays coherent
  -- in any case.
  pub block_cache_flush-Flushed :
      (c : Cache) (d : D)
      → Laws ata c.drive view
      → c.block_size ≡ k * 512
      → Coherent k v c.num_entries c.entries (view d)
      → Flushed view k v (block_cache_flush ata c d)
  unfolding block_cache_flush
  block_cache_flush-Flushed c d laws whole h =
      flush_from-Flushed c.num_entries 0 c d laws whole (omega arith) (λ m lt. absurd (omega arith))
        h

-- A new cache stands for what the disk has.
abbrev pub Initial : (k : ℕ) (sectors : ℕ → ℕ → ℕ) → Option Cache → Type 0
Initial k sectors none = Unit {0}
Initial k sectors (some c) = Coherent k (block_byte sectors k) c.num_entries c.entries sectors

-- A cache that `block_cache_init` makes is coherent with the store of what the disk has.
pub block_cache_init-Initial :
    (memory : Bool) (garbage : ℕ → ℕ → ℕ) (drive block_size n k : ℕ) (sectors : ℕ → ℕ → ℕ)
    → Initial k sectors (block_cache_init memory garbage drive block_size n)
unfolding block_cache_init
block_cache_init-Initial false garbage drive block_size n k sectors = tt
block_cache_init-Initial true garbage drive block_size n k sectors = record {
  held = λ m j lt val. cc;
  on_disk = λ m lt val. cc;
  distinct = λ m m' lt lt' val. cc;
  stored = λ b none_dirty j small. refl;
}
