-- ===== src/BlockCache/Damage.antt =====
-- What a failed read does to the entry that it was to replace (src/kernel/fs/block_cache.c).
use lite_core.Prelude.{
  ℕ, ◌<◌, ◌≡◌, inl, inr, true, false, Option, none, some, arith, refl, ap, ◌∙◌, ◌==◌, Bool-cases,
  update,
}
use lite_core.BlockCache.{
  Entry, Cache, Driver, done, failed, set_entry, fetch, block_cache_read, find_block,
  read_block_from_disk,
}
use lite_core.BlockCache.Victim.{Hit, find_block-Hit}

Hit-unique :
    (n b i : ℕ) (es : ℕ → Entry) (o : Option ℕ)
    → Hit n 0 b es o
    → i < n
    → (es i).valid ≡ true
    → (es i).block_num ≡ b
    → ((m : ℕ) → m < n → (es m).valid ≡ true → (es m).block_num ≡ b → m ≡ i)
    → o ≡ some i
Hit-unique n b i es none h lt val same only = absurd (h i (omega arith) lt val same)
Hit-unique n b i es (some m) (lt', val', same') lt val same only = ap some (only m lt' val' same')

hit-bytes :
    {D : Type 0} (ata : Driver D) (b i : ℕ) (c : Cache) (d : D)
    → find_block c.num_entries 0 b c.entries ≡ some i
    → (block_cache_read ata b c d).0 ≡ done (c.entries i).bytes
unfolding block_cache_read
hit-bytes ata b i c d e = rw (e, block_cache_read) refl

module _ {D : Type 0} (ata : Driver D) (i b : ℕ) (c : Cache) (d : D) (lt : i < c.num_entries)
    (val : (c.entries i).valid ≡ true)
    (only : (m : ℕ)
      → m < c.num_entries
      → (c.entries m).valid ≡ true
      → (c.entries m).block_num ≡ (c.entries i).block_num
      → m ≡ i) where
  abbrev damaged : Entry
  damaged = record (c.entries i) { bytes = (read_block_from_disk ata c b (c.entries i).bytes d).1 }

  damaged-found :
      find_block c.num_entries 0 (c.entries i).block_num (update c.entries i damaged) ≡ some i
  damaged-found =
      Hit-unique c.num_entries (c.entries i).block_num i (update c.entries i damaged) _
        (find_block-Hit c.num_entries 0 c.num_entries (c.entries i).block_num
          (update c.entries i damaged) (omega arith))
        lt (ground (arith, val)) (ground arith)
        (λ m lt'. elim (Bool-cases (m == i)) [
          | inl here ↦ λ val' same. ground arith
          | inr other ↦
              let at : update c.entries i damaged m ≡ c.entries m = ground arith in
              rw at (only m lt')
        ])

  -- When the disk read of block `b` into the valid entry `i` fails, `fetch` gives -1, but the
  -- entry keeps its old block number: the next read of the old block is a hit that gives what the
  -- failed transfer left in the buffer, if no other valid entry has the old block.
  pub fetch_damage :
      (d' : D)
      → (read_block_from_disk ata c b (c.entries i).bytes d).0 ≡ false
      → ((fetch ata i b c d).0 ≡ failed)
        × ((block_cache_read ata (c.entries i).block_num (fetch ata i b c d).1 d').0
            ≡ done (read_block_from_disk ata c b (c.entries i).bytes d).1)
  unfolding fetch
  fetch_damage d' bad =
      let here : update c.entries i damaged i ≡ damaged = ground arith in
      rw bad (
        refl,
        hit-bytes ata (c.entries i).block_num i (set_entry c i damaged) d' damaged-found
            ∙ ap (λ e. done e.bytes) here,
      )
