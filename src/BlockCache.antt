-- ===== src/BlockCache.antt =====
-- The block cache of src/kernel/fs/block_cache.c: entries with a write-back bit, replaced least
-- recently used first. The disk driver of src/kernel/driver/ata.c is the parameter `Driver`, over
-- a state `D` of the disk. A buffer is a byte at every offset; a NULL cache or buffer is left out.
pub mod Transfer
pub mod Victim
pub mod Coherence
pub mod WriteBack
pub mod Reading
pub mod Writing
pub mod Flush
pub mod Damage
mod Tests
use lite_core.Prelude.{
  ℕ, zero, suc, ◌+◌, ◌-◌, ◌*◌, ◌/◌, Bool, true, false, ◌&&◌, not, Option, none, some, if◌then◌else◌,
  ltb, leb, ◌==◌, update, add32, mul32,
}

-- `struct block_cache_entry`; `bytes` is its `data`.
pub record Entry : Type 0 where
  pub block_num : ℕ
  pub bytes : ℕ → ℕ
  pub last_used : ℕ
  pub dirty : Bool
  pub valid : Bool

-- `struct block_cache`
pub record Cache : Type 0 where
  pub drive : ℕ
  pub block_size : ℕ
  pub num_entries : ℕ
  pub entries : ℕ → Entry
  pub timestamp : ℕ
  pub hits : ℕ
  pub misses : ℕ

-- `ata_read_sectors` and `ata_write_sectors`: whether they returned 0, what the buffer holds after
-- a read, and the disk.
pub record Driver (D : Type 0) : Type 0 where
  pub read : (drive lba count : ℕ) → (ℕ → ℕ) → D → Bool × (ℕ → ℕ) × D
  pub write : (drive lba count : ℕ) → (ℕ → ℕ) → D → Bool × D

abbrev pub sector_size : ℕ
sector_size = 512

-- The scan of `find_lru_entry` over `n` entries from `i` on.
unfoldable pub find_lru_from : ℕ → (i oldest : ℕ) → Option ℕ → (ℕ → Entry) → Option ℕ
find_lru_from zero i oldest lru es = lru
find_lru_from (suc n) i oldest lru es =
    let older = find_lru_from n (i + 1) (es i).last_used (some i) es in
    let rest = find_lru_from n (i + 1) oldest lru es in
    if not (es i).valid then some i else if ltb (es i).last_used oldest then older else rest

unfoldable pub find_lru_entry : Cache → Option ℕ
find_lru_entry c = find_lru_from c.num_entries 0 0xFFFFFFFF none c.entries

-- The search for a hit, over `n` entries from `i` on.
unfoldable pub find_block : ℕ → (i block : ℕ) → (ℕ → Entry) → Option ℕ
find_block zero i block es = none
find_block (suc n) i block es =
    let rest = find_block n (i + 1) block es in
    if (es i).valid && ((es i).block_num == block) then some i else rest

-- `(uint8_t *)buffer + offset`, and the bytes written through such a pointer to `len` bytes.
abbrev pub behind : (ℕ → ℕ) → ℕ → ℕ → ℕ
behind buffer offset j = buffer (offset + j)

abbrev pub splice : (buffer : ℕ → ℕ) (offset len : ℕ) → (ℕ → ℕ) → ℕ → ℕ
splice buffer offset len part j =
    if leb offset j && ltb j (offset + len) then part (j - offset) else buffer j

-- At most 255 sectors in one transfer.
abbrev pub round_count : (sectors total : ℕ) → ℕ
round_count sectors total = if ltb 255 (sectors - total) then 255 else sectors - total

module _ {D : Type 0} (ata : Driver D) where
  -- The loop of `read_block_from_disk` behind `total` sectors. A round moves at least one sector, so
  -- the number of sectors is fuel enough.
  unfoldable pub read_rounds :
      ℕ → (drive start sectors total : ℕ) → (ℕ → ℕ) → D → Bool × (ℕ → ℕ) × D
  read_rounds zero drive start sectors total buffer d = (true, buffer, d)
  read_rounds (suc fuel) drive start sectors total buffer d =
      let count = round_count sectors total in
      let (ok, part, d') =
        ata.read drive (add32 start total) count (behind buffer (total * sector_size)) d in
      let filled = splice buffer (total * sector_size) (count * sector_size) part in
      let rest = read_rounds fuel drive start sectors (total + count) filled d' in
      if ltb total sectors then (if ok then rest else (false, filled, d')) else (true, buffer, d)

  unfoldable pub read_block_from_disk : Cache → ℕ → (ℕ → ℕ) → D → Bool × (ℕ → ℕ) × D
  read_block_from_disk c block_num buffer d =
      let sectors = c.block_size / sector_size in
      read_rounds sectors c.drive (mul32 block_num sectors) sectors 0 buffer d

  unfoldable pub write_rounds : ℕ → (drive start sectors total : ℕ) → (ℕ → ℕ) → D → Bool × D
  write_rounds zero drive start sectors total buffer d = (true, d)
  write_rounds (suc fuel) drive start sectors total buffer d =
      let count = round_count sectors total in
      let (ok, d') =
        ata.write drive (add32 start total) count (behind buffer (total * sector_size)) d in
      let rest = write_rounds fuel drive start sectors (total + count) buffer d' in
      if ltb total sectors then (if ok then rest else (false, d')) else (true, d)

  unfoldable pub write_block_to_disk : Cache → ℕ → (ℕ → ℕ) → D → Bool × D
  write_block_to_disk c block_num buffer d =
      let sectors = c.block_size / sector_size in
      write_rounds sectors c.drive (mul32 block_num sectors) sectors 0 buffer d

  -- The write-back of entry `i`, if it is dirty: whether it succeeded, and the disk.
  unfoldable pub write_back : Cache → ℕ → D → Bool × D
  write_back c i d =
      if (c.entries i).valid && (c.entries i).dirty
      then write_block_to_disk c (c.entries i).block_num (c.entries i).bytes d
      else (true, d)

abbrev pub set_entry : Cache → ℕ → Entry → Cache
set_entry c i e = record c { entries = update c.entries i e }

-- What a read comes to: 0 with the bytes for the caller, or -1.
pub data Outcome : Type 0 where
  done : (ℕ → ℕ) → Outcome
  failed : Outcome

module _ {D : Type 0} (ata : Driver D) where
  -- The read into entry `i`, whose old block is written back.
  unfoldable pub fetch : (i block_num : ℕ) → Cache → D → Outcome × Cache × D
  fetch i block_num c d =
      let (read, bytes, d') = read_block_from_disk ata c block_num (c.entries i).bytes d in
      if read
      then (
        done bytes,
        set_entry c i (record {
          block_num = block_num;
          bytes = bytes;
          last_used = c.timestamp;
          dirty = false;
          valid = true;
        }),
        d',
      )
      else (failed, set_entry c i (record (c.entries i) { bytes = bytes }), d')

  -- A miss that replaces entry `i`.
  unfoldable pub replace : (i block_num : ℕ) → Cache → D → Outcome × Cache × D
  replace i block_num c d =
      let (written, d') = write_back ata c i d in
      let e = c.entries i in
      let clean = if e.valid && e.dirty then record e { dirty = false } else e in
      if written then fetch i block_num (set_entry c i clean) d' else (failed, c, d')

  unfoldable pub block_cache_read : (block_num : ℕ) → Cache → D → Outcome × Cache × D
  block_cache_read block_num c0 d =
      let c = record c0 { timestamp = add32 c0.timestamp 1 } in
      elim (find_block c.num_entries 0 block_num c.entries) [
        | some i ↦ (
          done (c.entries i).bytes,
          set_entry (record c { hits = add32 c.hits 1 }) i
              (record (c.entries i) { last_used = c.timestamp }),
          d,
        )
        | none ↦
            let missed = record c { misses = add32 c.misses 1 } in
            elim (find_lru_entry missed) [
              | none ↦ (failed, missed, d)
              | some i ↦ replace i block_num missed d
            ]
      ]

  -- A miss of `block_cache_write` that replaces entry `i`.
  unfoldable pub overwrite : (i block_num : ℕ) (buffer : ℕ → ℕ) → Cache → D → Bool × Cache × D
  overwrite i block_num buffer c d =
      let (written, d') = write_back ata c i d in
      if written
      then (
        true,
        set_entry c i (record {
          block_num = block_num;
          bytes = splice (c.entries i).bytes 0 c.block_size buffer;
          last_used = c.timestamp;
          dirty = true;
          valid = true;
        }),
        d',
      )
      else (false, c, d')

  -- The result `true` is 0 in the source, `false` is -1.
  unfoldable pub block_cache_write : (block_num : ℕ) (buffer : ℕ → ℕ) → Cache → D → Bool × Cache × D
  block_cache_write block_num buffer c0 d =
      let c = record c0 { timestamp = add32 c0.timestamp 1 } in
      elim (find_block c.num_entries 0 block_num c.entries) [
        | some i ↦ (
          true,
          set_entry c i (record (c.entries i) {
            bytes = splice (c.entries i).bytes 0 c.block_size buffer;
            last_used = c.timestamp;
            dirty = true;
          }),
          d,
        )
        | none ↦ elim (find_lru_entry c) [
          | none ↦ (false, c, d)
          | some i ↦ overwrite i block_num buffer c d
        ]
      ]

  -- The loop of `block_cache_flush` over `n` entries from `i` on.
  unfoldable pub flush_from : ℕ → (i : ℕ) → Cache → D → Bool × Cache × D
  flush_from zero i c d = (true, c, d)
  flush_from (suc n) i c d =
      let (written, d') = write_back ata c i d in
      let e = c.entries i in
      let clean = if e.valid && e.dirty then set_entry c i (record e { dirty = false }) else c in
      let rest = flush_from n (i + 1) clean d' in if written then rest else (false, c, d')

  unfoldable pub block_cache_flush : Cache → D → Bool × Cache × D
  block_cache_flush c d = flush_from c.num_entries 0 c d

-- `block_cache_init`, with what the new entries' memory holds; `memory` says whether all of
-- its `kmalloc` calls succeed.
unfoldable pub block_cache_init :
    (memory : Bool) (garbage : ℕ → ℕ → ℕ) (drive block_size num_entries : ℕ) → Option Cache
block_cache_init memory garbage drive block_size num_entries =
    if memory
    then some (record {
      drive = drive;
      block_size = block_size;
      num_entries = num_entries;
      entries = λ i. record {
        block_num = 0;
        bytes = garbage i;
        last_used = 0;
        dirty = false;
        valid = false;
      };
      timestamp = 0;
      hits = 0;
      misses = 0;
    })
    else none
