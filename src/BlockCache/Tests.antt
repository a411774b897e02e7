-- ===== src/BlockCache/Tests.antt =====
-- A cache of two entries over a disk that always works, and the theorems there.
use lite_core.Prelude.{
  ℕ, ◌+◌, ◌-◌, ◌*◌, ◌/◌, ◌%◌, ◌≡◌, refl, true, false, ◌&&◌, some, arith, if◌then◌else◌, ltb, leb,
  ◌==◌, ap,
}
use lite_core.BlockCache.{
  Cache, Driver, done, failed, block_cache_read, fetch, read_block_from_disk, read_rounds,
  find_lru_entry, find_lru_from,
}
use lite_core.BlockCache.Transfer.{Laws}
use lite_core.BlockCache.Damage.{fetch_damage}

-- A disk is its sectors; drive 0 has them all.
abbrev Disk : Type 0
Disk = ℕ → ℕ → ℕ

abbrev disk_driver : Driver Disk
disk_driver = record {
  read = λ drive lba n buf d.
      (true, λ j. if ltb j (n * 512) then d (lba + j / 512) (j % 512) else buf j, d);
  write = λ drive lba n buf d. (
    true,
    λ s o. if leb lba s && ltb s (lba + n) && ltb o 512 then buf ((s - lba) * 512 + o) else d s o,
  );
}

abbrev contents : Disk → ℕ → ℕ → ℕ
contents d = d

disk_driver-Laws : Laws disk_driver 0 contents
disk_driver-Laws = record {
  read_keeps = λ lba n buf d s o. refl;
  read_moves = λ lba n buf d s o ok room few lt small.
      let sector : d (lba + (s * 512 + o) / 512) ((s * 512 + o) % 512)
          ≡ d (lba + s) ((s * 512 + o) % 512) =
        ap (λ t. d t ((s * 512 + o) % 512)) (omega arith) in
      let offset : d (lba + s) ((s * 512 + o) % 512) ≡ d (lba + s) o =
        ap (d (lba + s)) (omega arith) in
      ground (arith, sector, offset);
  write_moves = λ lba n buf d s o ok room few lt small.
      let at : buf ((lba + s - lba) * 512 + o) ≡ buf (s * 512 + o) = ap buf (omega arith) in
      ground (arith, at);
  write_keeps = λ lba n buf d s o room few out. ground arith;
}

-- Sector `s` holds the byte `s` throughout.
abbrev numbered : Disk
numbered s o = s

-- Entry 0 holds block 3, dirty, with the byte 7 throughout; entry 1 is free.
abbrev two_entries : Cache
two_entries = record {
  drive = 0;
  block_size = 512;
  num_entries = 2;
  entries =
      λ i. record { block_num = 3; bytes = λ j. 7; last_used = 4; dirty = true; valid = i == 0 };
  timestamp = 4;
  hits = 0;
  misses = 1;
}

first_victim : find_lru_entry two_entries ≡ some 1
unfolding find_lru_entry find_lru_from
first_victim = refl

-- A driver whose reads fail after the first byte.
abbrev broken_driver : Driver Disk
broken_driver = record disk_driver {
  read = λ drive lba n buf d. (false, λ j. if j == 0 then 99 else buf j, d);
}

broken_read : (read_block_from_disk broken_driver two_entries 8 (λ j. 7) numbered).0 ≡ false
unfolding read_block_from_disk read_rounds
broken_read = refl

fetch_damage_example :
    ((fetch broken_driver 0 8 two_entries numbered).0 ≡ failed)
    × ((block_cache_read broken_driver 3
          (fetch broken_driver 0 8 two_entries numbered).1
          numbered).0
        ≡ done (read_block_from_disk broken_driver two_entries 8 (λ j. 7) numbered).1)
fetch_damage_example =
    fetch_damage broken_driver 0 8 two_entries numbered (omega arith) refl
      (λ m lt val same. ground arith) numbered broken_read
