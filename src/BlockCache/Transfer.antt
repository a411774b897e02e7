-- ===== src/BlockCache/Transfer.antt =====
-- The transfers of src/kernel/fs/block_cache.c, in rounds of at most 255 sectors, against the sectors
-- that the driver shows.
use lite_core.Prelude.{
  ℕ, zero, suc, ◌+◌, ◌-◌, ◌*◌, ◌/◌, ◌%◌, ◌^◌, ◌≤◌, ◌<◌, ◌≡◌, ◌≢◌, inl, inr, ◌⊎◌, true, ◌&&◌, arith,
  refl, sym, ap, ◌∙◌, if◌then◌else◌, ltb, leb, Bool-cases, add32, mul32,
}
use native.Mathlib.Nat.{mul-le-mul_right}
use lite_core.BlockCache.{
  Driver, Cache, behind, splice, round_count, read_rounds, write_rounds, read_block_from_disk,
  write_block_to_disk,
}

-- What the cache relies on in the driver of one drive: `view d s o` is byte `o` of sector `s`. A
-- read leaves the disk alone; a transfer that returns 0 has moved the bytes of its sectors; a write,
-- also one that fails, leaves the other sectors alone. The driver has 28-bit sector numbers and
-- transfers of at most 255 sectors.
pub record Laws {D : Type 0} (ata : Driver D) (drive : ℕ) (view : D → ℕ → ℕ → ℕ) : Type 0 where
  pub read_keeps :
      (lba n : ℕ) (buf : ℕ → ℕ) (d : D) (s o : ℕ)
      → view (ata.read drive lba n buf d).2 s o ≡ view d s o
  pub read_moves :
      (lba n : ℕ) (buf : ℕ → ℕ) (d : D) (s o : ℕ)
      → (ata.read drive lba n buf d).0 ≡ true
      → lba + n ≤ 2 ^ 28
      → n < 256
      → s < n
      → o < 512
      → (ata.read drive lba n buf d).1 (s * 512 + o) ≡ view d (lba + s) o
  pub write_moves :
      (lba n : ℕ) (buf : ℕ → ℕ) (d : D) (s o : ℕ)
      → (ata.write drive lba n buf d).0 ≡ true
      → lba + n ≤ 2 ^ 28
      → n < 256
      → s < n
      → o < 512
      → view (ata.write drive lba n buf d).1 (lba + s) o ≡ buf (s * 512 + o)
  pub write_keeps :
      (lba n : ℕ) (buf : ℕ → ℕ) (d : D) (s o : ℕ)
      → lba + n ≤ 2 ^ 28
      → n < 256
      → (s < lba) ⊎ (lba + n ≤ s)
      → view (ata.write drive lba n buf d).1 s o ≡ view d s o

-- A byte of a buffer into which whole sectors were copied.
splice_sector :
    (buf part : ℕ → ℕ) (t n s o : ℕ)
    → o < 512
    → splice buf (t * 512) (n * 512) part (s * 512 + o)
      ≡ (if leb t s && ltb s (t + n) then part ((s - t) * 512 + o) else buf (s * 512 + o))
splice_sector buf part t n s o lt =
    let at : t ≤ s → part (s * 512 + o - t * 512) ≡ part ((s - t) * 512 + o) =
      λ le. ap part (omega arith) in
    ground (arith, at)

round_bounds :
    (sectors total : ℕ)
    → total < sectors
    → (0 < round_count sectors total)
      × (total + round_count sectors total ≤ sectors)
      × (round_count sectors total < 256)
round_bounds sectors total lt = ground arith

module _ {D : Type 0} (ata : Driver D) (drive : ℕ) (view : D → ℕ → ℕ → ℕ)
    (laws : Laws ata drive view) where
  read_rounds-keeps :
      (fuel start sectors total : ℕ) (buf : ℕ → ℕ) (d : D) (s o : ℕ)
      → view (read_rounds ata fuel drive start sectors total buf d).2 s o ≡ view d s o
  unfolding read_rounds
  read_rounds-keeps zero start sectors total buf d s o = refl
  read_rounds-keeps (suc fuel) start sectors total buf d s o =
      elim (Bool-cases (ltb total sectors)) [
        | inr done ↦ rw done refl
        | inl more ↦
            elim (Bool-cases
              (ata.read drive (add32 start total) (round_count sectors total)
                (behind buf (total * 512)) d).0) [
                  | inr out ↦ rw (more, out) (laws.read_keeps _ _ _ d s o)
                  | inl moved ↦
                      rw (more, moved)
                        (read_rounds-keeps fuel start sectors _ _ _ s o
                          ∙ laws.read_keeps _ _ _ d s o)
                ]
      ]

  -- The sectors behind `total` that one round reads.
  read_round :
      (start sectors total : ℕ) (buf : ℕ → ℕ) (d : D)
      → total < sectors
      → start + sectors ≤ 2 ^ 28
      → ((s o : ℕ) → s < total → o < 512 → buf (s * 512 + o) ≡ view d (start + s) o)
      → let n = round_count sectors total in
        let r = ata.read drive (add32 start total) n (behind buf (total * 512)) d in
        r.0 ≡ true
        → (s o : ℕ) → s < total + n
        → o < 512
        → splice buf (total * 512) (n * 512) r.1 (s * 512 + o) ≡ view r.2 (start + s) o
  read_round start sectors total buf d lt room before moved s o in_sectors small =
      let bounds = round_bounds sectors total lt in
      let n = round_count sectors total in
      let r = ata.read drive (add32 start total) n (behind buf (total * 512)) d in
      let at : add32 start total ≡ start + total = omega arith in
      splice_sector buf r.1 total n s o small
      ∙ elim (Bool-cases (leb total s && ltb s (total + n))) [
        | inl new ↦ rw new (
            laws.read_moves _ _ _ _ (s - total) o moved (omega (arith, room, bounds)) bounds.2
              (ground arith) small
            ∙ ap (λ k. view d k o) (ground arith)
            ∙ sym (laws.read_keeps _ _ _ _ _ _))
        | inr old ↦ rw old (before s o (ground arith) small ∙ sym (laws.read_keeps _ _ _ _ _ _))
      ]

  read_rounds-moves :
      (fuel start sectors total : ℕ) (buf : ℕ → ℕ) (d : D)
      → sectors ≤ total + fuel
      → start + sectors ≤ 2 ^ 28
      → ((s o : ℕ) → s < total → o < 512 → buf (s * 512 + o) ≡ view d (start + s) o)
      → (read_rounds ata fuel drive start sectors total buf d).0 ≡ true
      → (s o : ℕ) → s < sectors
      → o < 512
      → (read_rounds ata fuel drive start sectors total buf d).1 (s * 512 + o)
        ≡ view d (start + s) o
  unfolding read_rounds
  read_rounds-moves zero start sectors total buf d fueled room before =
      λ ok s o lt small. before s o (omega arith) small
  read_rounds-moves (suc fuel) start sectors total buf d fueled room before =
      elim (Bool-cases (ltb total sectors)) [
        | inr done ↦ rw done (λ ok s o lt small. before s o (ground arith) small)
        | inl more ↦
            elim (Bool-cases
              (ata.read drive (add32 start total) (round_count sectors total)
                (behind buf (total * 512)) d).0) [
                  | inr out ↦ rw (more, out) (λ ok. absurd (ground (arith, ok)))
                  | inl moved ↦
                      rw (more, moved)
                        (λ ok s o lt small.
                          read_rounds-moves fuel start sectors _ _ _
                            (omega (arith, round_bounds sectors total (ground arith))) room
                            (read_round start sectors total buf d (ground arith) room before moved)
                            ok s o lt small
                          ∙ laws.read_keeps _ _ _ _ _ _)
                ]
      ]

  write_rounds-keeps :
      (fuel start sectors total : ℕ) (buf : ℕ → ℕ) (d : D) (s o : ℕ)
      → start + sectors ≤ 2 ^ 28
      → (s < start) ⊎ (start + sectors ≤ s)
      → view (write_rounds ata fuel drive start sectors total buf d).1 s o ≡ view d s o
  unfolding write_rounds
  write_rounds-keeps zero start sectors total buf d s o room out = refl
  write_rounds-keeps (suc fuel) start sectors total buf d s o room out =
      elim (Bool-cases (ltb total sectors)) [
        | inr done ↦ rw done refl
        | inl more ↦
            let bounds = round_bounds sectors total (ground arith) in
            let at : add32 start total ≡ start + total = omega (arith, room, bounds) in
            let apart : (s < add32 start total)
                ⊎ (add32 start total + round_count sectors total ≤ s) =
              ground (arith, round_bounds sectors total) in
            elim (Bool-cases
              (ata.write drive (add32 start total) (round_count sectors total)
                (behind buf (total * 512)) d).0) [
                  | inr bad ↦
                      rw (more, bad)
                        (laws.write_keeps _ _ _ d s o (omega (arith, room, bounds, at)) bounds.2
                          apart)
                  | inl moved ↦
                      rw (more, moved)
                        (write_rounds-keeps fuel start sectors _ _ _ s o room out
                          ∙ laws.write_keeps _ _ _ d s o (omega (arith, room, bounds, at)) bounds.2
                              apart)
                ]
      ]

  -- The sectors behind `total` that one round writes.
  write_round :
      (start sectors total : ℕ) (buf : ℕ → ℕ) (d : D)
      → total < sectors
      → start + sectors ≤ 2 ^ 28
      → ((s o : ℕ) → s < total → o < 512 → view d (start + s) o ≡ buf (s * 512 + o))
      → let n = round_count sectors total in
        let r = ata.write drive (add32 start total) n (behind buf (total * 512)) d in
        r.0 ≡ true
        → (s o : ℕ) → s < total + n
        → o < 512
        → view r.1 (start + s) o ≡ buf (s * 512 + o)
  write_round start sectors total buf d lt room before moved s o in_sectors small =
      let bounds = round_bounds sectors total lt in
      let at : add32 start total ≡ start + total = omega arith in
      elim (Bool-cases (leb total s)) [
        | inl new ↦
            let r =
              ata.write drive (add32 start total) (round_count sectors total)
                (behind buf (total * 512)) d in
            ap (λ k. view r.1 k o) (ground arith)
            ∙ laws.write_moves _ _ _ _ (s - total) o moved (omega (arith, room, bounds)) bounds.2
                (ground arith) small
            ∙ ap buf (ground arith)
        | inr old ↦
            laws.write_keeps _ _ _ d _ o (omega (arith, room, bounds)) bounds.2 (inl (ground arith))
            ∙ before s o (ground arith) small
      ]

  write_rounds-moves :
      (fuel start sectors total : ℕ) (buf : ℕ → ℕ) (d : D)
      → sectors ≤ total + fuel
      → start + sectors ≤ 2 ^ 28
      → ((s o : ℕ) → s < total → o < 512 → view d (start + s) o ≡ buf (s * 512 + o))
      → (write_rounds ata fuel drive start sectors total buf d).0 ≡ true
      → (s o : ℕ) → s < sectors
      → o < 512
      → view (write_rounds ata fuel drive start sectors total buf d).1 (start + s) o
        ≡ buf (s * 512 + o)
  unfolding write_rounds
  write_rounds-moves zero start sectors total buf d fueled room before =
      λ ok s o lt small. before s o (omega arith) small
  write_rounds-moves (suc fuel) start sectors total buf d fueled room before =
      elim (Bool-cases (ltb total sectors)) [
        | inr done ↦ rw done (λ ok s o lt small. before s o (ground arith) small)
        | inl more ↦
            elim (Bool-cases
              (ata.write drive (add32 start total) (round_count sectors total)
                (behind buf (total * 512)) d).0) [
                  | inr out ↦ rw (more, out) (λ ok. absurd (ground (arith, ok)))
                  | inl moved ↦
                      rw (more, moved)
                        (write_rounds-moves fuel start sectors _ _ _
                          (omega (arith, round_bounds sectors total (ground arith))) room
                          (write_round start sectors total buf d (ground arith) room before moved))
                ]
      ]

-- Byte `j` of block `b` on a disk with `k` sectors to a block.
abbrev pub block_byte : (ℕ → ℕ → ℕ) → (k b j : ℕ) → ℕ
block_byte sectors k b j = sectors (b * k + j / 512) (j % 512)

-- The sectors of the block have 28-bit numbers.
abbrev pub OnDisk : (k b : ℕ) → Type 0
OnDisk k b = b * k + k ≤ 2 ^ 28

sector_in : (k j : ℕ) → j < k * 512 → j / 512 < k
sector_in k j lt = omega arith

-- Sectors of different blocks are different.
blocks_apart : (k b b' s : ℕ) → b ≢ b' → s < k → (b' * k + s < b * k) ⊎ (b * k + k ≤ b' * k + s)
blocks_apart k b b' s ne lt = elim (Bool-cases (ltb b b')) [
  | inl above ↦
      let far : (b + 1) * k ≤ b' * k = mul-le-mul_right k (ground arith) in inr (omega (arith, far))
  | inr below ↦
      let far : (b' + 1) * k ≤ b * k = mul-le-mul_right k (ground (arith, ne)) in
      inl (omega (arith, far))
]

module _ {D : Type 0} (ata : Driver D) (view : D → ℕ → ℕ → ℕ) (c : Cache) (k : ℕ)
    (laws : Laws ata c.drive view) (some_sectors : 0 < k) (whole : c.block_size ≡ k * 512) where
  pub read_block-keeps :
      (b : ℕ) (buf : ℕ → ℕ) (d : D) (s o : ℕ)
      → view (read_block_from_disk ata c b buf d).2 s o ≡ view d s o
  unfolding read_block_from_disk
  read_block-keeps b buf d s o = read_rounds-keeps ata c.drive view laws _ _ _ 0 buf d s o

  pub read_block-moves :
      (b : ℕ) (buf : ℕ → ℕ) (d : D)
      → OnDisk k b
      → (read_block_from_disk ata c b buf d).0 ≡ true
      → (j : ℕ) → j < k * 512
      → (read_block_from_disk ata c b buf d).1 j ≡ block_byte (view d) k b j
  unfolding read_block_from_disk
  read_block-moves b buf d on =
      let count : c.block_size / 512 ≡ k = omega (arith, whole) in
      let at : mul32 b k ≡ b * k = omega (arith, on, some_sectors) in
      rw (count, at)
        (λ ok j lt.
          ap (read_rounds ata k c.drive (b * k) k 0 buf d).1 (omega arith)
          ∙ read_rounds-moves ata c.drive view laws k (b * k) k 0 buf d (omega arith) on
              (λ s o none_yet. absurd (omega arith)) ok (j / 512) (j % 512) (sector_in k j lt)
              (omega arith))

  pub write_block-moves :
      (b : ℕ) (buf : ℕ → ℕ) (d : D)
      → OnDisk k b
      → (write_block_to_disk ata c b buf d).0 ≡ true
      → (j : ℕ) → j < k * 512
      → block_byte (view (write_block_to_disk ata c b buf d).1) k b j ≡ buf j
  unfolding write_block_to_disk
  write_block-moves b buf d on =
      let count : c.block_size / 512 ≡ k = omega (arith, whole) in
      let at : mul32 b k ≡ b * k = omega (arith, on, some_sectors) in
      rw (count, at)
        (λ ok j lt.
          write_rounds-moves ata c.drive view laws k (b * k) k 0 buf d (omega arith) on
            (λ s o none_yet. absurd (omega arith)) ok (j / 512) (j % 512) (sector_in k j lt)
            (omega arith)
          ∙ ap buf (omega arith))

  -- A write of block `b`, also one that fails, leaves the other blocks alone.
  pub write_block-keeps :
      (b b' : ℕ) (buf : ℕ → ℕ) (d : D)
      → OnDisk k b
      → b ≢ b'
      → (j : ℕ) → j < k * 512
      → block_byte (view (write_block_to_disk ata c b buf d).1) k b' j ≡ block_byte (view d) k b' j
  unfolding write_block_to_disk
  write_block-keeps b b' buf d on ne j lt =
      let count : c.block_size / 512 ≡ k = omega (arith, whole) in
      let at : mul32 b k ≡ b * k = omega (arith, on, some_sectors) in
      rw (count, at)
        (write_rounds-keeps ata c.drive view laws k (b * k) k 0 buf d (b' * k + j / 512) (j % 512)
          on (blocks_apart k b b' (j / 512) ne (sector_in k j lt)))
