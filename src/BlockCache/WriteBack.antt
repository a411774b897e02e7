-- ===== src/BlockCache/WriteBack.antt =====
-- The write-back of a dirty entry in src/kernel/fs/block_cache.c: nothing is lost with an entry that was
-- written back.
use lite_core.Prelude.{
  ℕ, ◌*◌, ◌<◌, ◌≡◌, ◌≢◌, inl, inr, true, ◌&&◌, arith, ap, ◌∙◌, ◌==◌, Bool-cases, update,
}
use lite_core.BlockCache.{Entry, Cache, Driver, write_back}
use lite_core.BlockCache.Transfer.{Laws, block_byte, write_block-moves, write_block-keeps}
use lite_core.BlockCache.Coherence.{Coherent, Others}

pub Others-update :
    (k : ℕ) (v : ℕ → ℕ → ℕ) (n : ℕ) (es : ℕ → Entry) (sectors : ℕ → ℕ → ℕ) (i b0 : ℕ) (e : Entry)
    → Others k v n es sectors i b0
    → Others k v n (update es i e) sectors i b0
Others-update k v n es sectors i b0 e o = record {
  held = λ m j ne. rw (old m ne) (o.held m j ne);
  on_disk = λ m ne. rw (old m ne) (o.on_disk m ne);
  distinct = λ m m' ne ne'. rw (old m ne, old m' ne') (o.distinct m m' ne ne');
  stored = λ b other none_dirty. o.stored b other (λ m ne. rw (old m ne) at (none_dirty m ne));
}
  where
    old : (m : ℕ) → m ≢ i → update es i e m ≡ es m
    old m ne = ground arith

-- The disk may change where the store has it in a dirty entry.
Coherent-disk :
    (k : ℕ) (v : ℕ → ℕ → ℕ) (n : ℕ) (es : ℕ → Entry) (sectors sectors' : ℕ → ℕ → ℕ)
    → ((b j : ℕ)
        → ((m : ℕ) → m < n → (es m).valid ≡ true → (es m).dirty ≡ true → (es m).block_num ≢ b)
        → j < k * 512
        → block_byte sectors' k b j ≡ block_byte sectors k b j)
    → Coherent k v n es sectors
    → Coherent k v n es sectors'
Coherent-disk k v n es sectors sectors' same h = record {
  held = h.held;
  on_disk = h.on_disk;
  distinct = h.distinct;
  stored = λ b none_dirty j lt. same b j none_dirty lt ∙ h.stored b none_dirty j lt;
}

module _ {D : Type 0} (ata : Driver D) (view : D → ℕ → ℕ → ℕ) (c : Cache) (k : ℕ)
    (laws : Laws ata c.drive view) (some_sectors : 0 < k) (whole : c.block_size ≡ k * 512)
    (v : ℕ → ℕ → ℕ) where
  abbrev pub Stores : Cache → D → Type 0
  Stores g d = Coherent k v g.num_entries g.entries (view d)

  pub write_back-Stores :
      (i : ℕ) (d : D) → i < c.num_entries → Stores c d → Stores c (write_back ata c i d).1
  unfolding write_back
  write_back-Stores i d lt h = elim (Bool-cases ((c.entries i).valid && (c.entries i).dirty)) [
    | inr clean ↦ rw clean h
    | inl dir ↦
        let val : (c.entries i).valid ≡ true = ground arith in
        rw dir (
          Coherent-disk k v c.num_entries c.entries (view d) _
            (λ b j none_dirty small.
              write_block-keeps ata view c k laws some_sectors whole (c.entries i).block_num b
                (c.entries i).bytes d (h.on_disk i lt val) (none_dirty i lt val (ground arith)) j
                small)
            h)
  ]

  pub write_back-written :
      (i : ℕ) (d : D)
      → i < c.num_entries
      → Stores c d
      → (c.entries i).valid && (c.entries i).dirty ≡ true
      → (write_back ata c i d).0 ≡ true
      → (j : ℕ) → j < k * 512
      → block_byte (view (write_back ata c i d).1) k (c.entries i).block_num j
        ≡ v (c.entries i).block_num j
  unfolding write_back
  write_back-written i d lt h dir =
      let val : (c.entries i).valid ≡ true = ground arith in
      rw dir (λ written j small.
        write_block-moves ata view c k laws some_sectors whole (c.entries i).block_num
          (c.entries i).bytes d (h.on_disk i lt val) written j small
        ∙ h.held i j lt val small)

  -- After the write-back of entry `i` nothing is lost with it.
  pub write_back-Others :
      (i b0 : ℕ) (d : D)
      → i < c.num_entries
      → Stores c d
      → (write_back ata c i d).0 ≡ true
      → Others k v c.num_entries c.entries (view (write_back ata c i d).1) i b0
  write_back-Others i b0 d lt h written =
      let h' = write_back-Stores i d lt h in
      let e = c.entries i in
      record {
        held = λ m j ne. h'.held m j;
        on_disk = λ m ne. h'.on_disk m;
        distinct = λ m m' ne ne'. h'.distinct m m';
        stored = λ b other none_dirty j small.
            elim (Bool-cases (e.valid && e.dirty && (e.block_num == b))) [
              | inl mine ↦
                  let at : e.block_num ≡ b = ground arith in
                  rw (← at) (write_back-written i d lt h (ground arith) written j small)
              | inr not_mine ↦
                  h'.stored b
                    (λ m lt' val dir. elim (Bool-cases (m == i)) [
                      | inr others ↦ none_dirty m (ground arith) lt' val dir
                      | inl here ↦
                          let is_i : m ≡ i = ground arith in
                          λ same. absurd (
                            ground (
                              arith,
                              val,
                              dir,
                              same,
                              ap (λ x. (c.entries x).valid) is_i,
                              ap (λ x. (c.entries x).dirty) is_i,
                              ap (λ x. (c.entries x).block_num) is_i,
                            ))
                    ])
                    j small
            ];
      }
