-- ===== src/Ata/Transfers.antt =====
-- The transfers of src/kernel/driver/ata.c against the sectors of the drive.
use lite_core.Prelude.{
  ℕ, zero, suc, ◌+◌, ◌-◌, ◌*◌, ◌/◌, ◌%◌, ◌^◌, ◌≤◌, ◌<◌, ◌≡◌, ◌≢◌, inl, inr, ◌⊎◌, Bool, true, false,
  arith, refl, ap, ◌∙◌, if-elim, ◌==◌,
}
use lite_core.BlockCache.{splice}
use lite_core.BlockCache.Transfer.{Laws}
use lite_core.Ata.{
  Ports, cmd_read_pio, cmd_write_pio, wait_rounds, ata_get_base, ata_wait_ready, ata_wait_drq,
  delay, start_transfer, read_sectors_from, write_sectors_from, ata_read_sectors, ata_write_sectors,
  ata_driver,
}

-- What a drive is about to do: nothing, or to move the sectors from `next` on, `left` of them.
pub data Stage : Type 0 where
  idle : Stage
  sending taking : (next left : ℕ) → Stage

-- What a drive on the bus `base` with selection `sel` does, as its standard has it: `view d s o` is byte `o` of sector `s`.
-- Only words that it takes while it waits for data change a sector.
pub record Drive {D : Type 0} (ports : Ports D) (base sel : ℕ) (view : D → ℕ → ℕ → ℕ) : Type 0 where
  pub stage : D → Stage
  pub status_keeps : (d : D) (s o : ℕ) → view (ports.status base d).1 s o ≡ view d s o
  pub status_stage : (d : D) → stage (ports.status base d).1 ≡ stage d
  pub quiet_keeps : (d : D) (s o : ℕ) → view (ports.no_interrupts base d) s o ≡ view d s o
  pub command_keeps :
      (reg n low mid high cmd : ℕ) (d : D) (s o : ℕ)
      → view (ports.command base reg n low mid high cmd d) s o ≡ view d s o
  pub command_read :
      (top n low mid high : ℕ) (d : D)
      → 0 < n
      → n < 256
      → top < 16
      → low < 256
      → mid < 256
      → high < 256
      → stage (ports.command base (sel + top) n low mid high cmd_read_pio d)
        ≡ sending (top * 2 ^ 24 + high * 2 ^ 16 + mid * 2 ^ 8 + low) n
  pub command_write :
      (top n low mid high : ℕ) (d : D)
      → 0 < n
      → n < 256
      → top < 16
      → low < 256
      → mid < 256
      → high < 256
      → stage (ports.command base (sel + top) n low mid high cmd_write_pio d)
        ≡ taking (top * 2 ^ 24 + high * 2 ^ 16 + mid * 2 ^ 8 + low) n
  pub in_keeps : (d : D) (s o : ℕ) → view (ports.words_in base d).1 s o ≡ view d s o
  pub in_sends :
      (next left : ℕ) (d : D)
      → stage d ≡ sending next (suc left)
      → (stage (ports.words_in base d).1 ≡ sending (next + 1) left)
        × ((o : ℕ) → o < 512 → (ports.words_in base d).0 o ≡ view d next o)
  pub out_takes :
      (next left : ℕ) (buf : ℕ → ℕ) (d : D)
      → stage d ≡ taking next (suc left)
      → (stage (ports.words_out base buf d) ≡ taking (next + 1) left)
        × ((o : ℕ) → o < 512 → view (ports.words_out base buf d) next o ≡ buf o)
        × ((s o : ℕ) → s ≢ next → view (ports.words_out base buf d) s o ≡ view d s o)

-- The two states show the same sectors and the drive is at the same stage.
pub record Waited {D : Type 0} (view : D → ℕ → ℕ → ℕ) (stage : D → Stage) (d d' : D) : Type 0 where
  pub keeps : (s o : ℕ) → view d' s o ≡ view d s o
  pub same : stage d' ≡ stage d

apart_later :
    (t next n : ℕ)
    → (t < next) ⊎ (next + suc n ≤ t)
    → ((t < next + 1) ⊎ (next + 1 + n ≤ t)) × (t ≢ next)
apart_later t next n (inl lt) = (inl (omega arith), λ e. omega (arith, e))
apart_later t next n (inr le) = (inr (omega arith), λ e. omega (arith, e))

positive : (n : ℕ) → (n == 0) ≡ false → 0 < n
positive n e = ground arith

no_true : false ≡ true → ⊥
no_true e = ground arith

first_or_later :
    (t : ℕ) (f g : ℕ → ℕ → ℕ) (o : ℕ)
    → f 0 o ≡ g 0 o
    → ((u : ℕ) → t ≡ suc u → f (suc u) o ≡ g (suc u) o)
    → f t o ≡ g t o
first_or_later zero f g o first step = first
first_or_later (suc u) f g o first step = step u refl

splice-below :
    (buf words : ℕ → ℕ) (s j : ℕ) → j < s * 512 → splice buf (s * 512) 512 words j ≡ buf j
splice-below buf words s j lt = ground arith

splice-inside :
    (buf words : ℕ → ℕ) (s o : ℕ)
    → o < 512
    → splice buf (s * 512) 512 words ((s + 0) * 512 + o) ≡ words o
splice-inside buf words s o lt =
    let at_o : words ((s + 0) * 512 + o - s * 512) ≡ words o = ap words (omega arith) in
    ground (arith, at_o)

module _ {D : Type 0} (ports : Ports D) (base sel : ℕ) (view : D → ℕ → ℕ → ℕ)
    (drive : Drive ports base sel view) where
  Waited-same : (d : D) → Waited view drive.stage d d
  Waited-same d = record { keeps = λ s o. refl; same = refl }

  Waited-status :
      (d d' : D) → Waited view drive.stage (ports.status base d).1 d' → Waited view drive.stage d d'
  Waited-status d d' w = record {
    keeps = λ s o. w.keeps s o ∙ drive.status_keeps d s o;
    same = w.same ∙ drive.status_stage d;
  }

  ata_wait_ready-Waited :
      (n : ℕ) (d : D) → Waited view drive.stage d (ata_wait_ready ports n base d).1
  unfolding ata_wait_ready
  ata_wait_ready-Waited zero d = Waited-same d
  ata_wait_ready-Waited (suc n) d = Waited-status d _ (
      if-elim (λ (r : Bool × D). Waited view drive.stage (ports.status base d).1 r.1)
        ((ports.status base d).0 / 2 ^ 7 % 2 == 0) _ _ (λ e. Waited-same (ports.status base d).1)
        (λ e. ata_wait_ready-Waited n (ports.status base d).1))

  ata_wait_drq-Waited : (n : ℕ) (d : D) → Waited view drive.stage d (ata_wait_drq ports n base d).1
  unfolding ata_wait_drq
  ata_wait_drq-Waited zero d = Waited-same d
  ata_wait_drq-Waited (suc n) d =
      let d1 = (ports.status base d).1 in
      let P : Bool × D → Type 0 = λ r. Waited view drive.stage d1 r.1 in
      Waited-status d _ (
        if-elim P ((ports.status base d).0 % 2 == 1) _ _ (λ e. Waited-same d1)
          (λ e.
            if-elim P ((ports.status base d).0 / 2 ^ 3 % 2 == 1) _ _ (λ e. Waited-same d1)
              (λ e. ata_wait_drq-Waited n d1)))

  delay-Waited : (n : ℕ) (d : D) → Waited view drive.stage d (delay ports n base d)
  unfolding delay
  delay-Waited zero d = Waited-same d
  delay-Waited (suc n) d = Waited-status d _ (delay-Waited n (ports.status base d).1)

  -- What is read from the sector `next` on.
  abbrev Sent : (n s next : ℕ) (buf : ℕ → ℕ) (d : D) → Bool × (ℕ → ℕ) × D → Type 0
  Sent n s next buf d (ok, buf', d') =
      ((t o : ℕ) → view d' t o ≡ view d t o)
      × (ok ≡ true
          → drive.stage d ≡ sending next n
          → ((j : ℕ) → j < s * 512 → buf' j ≡ buf j)
            × ((t o : ℕ) → t < n → o < 512 → buf' ((s + t) * 512 + o) ≡ view d (next + t) o))

  read_sectors_from-Sent :
      (n s next : ℕ) (buf : ℕ → ℕ) (d : D)
      → Sent n s next buf d (read_sectors_from ports n s base buf d)
  unfolding read_sectors_from
  read_sectors_from-Sent zero s next buf d =
      (λ t o. refl, λ ok at. (λ j lt. refl, λ t o lt small. absurd (omega arith)))
  read_sectors_from-Sent (suc n) s next buf d =
      let r = ata_wait_drq ports wait_rounds base d in
      let w : Waited view drive.stage d r.1 = ata_wait_drq-Waited wait_rounds d in
      let i = ports.words_in base r.1 in
      let buf1 = splice buf (s * 512) 512 i.0 in
      let d2 = delay ports 4 base i.1 in
      let w2 : Waited view drive.stage i.1 d2 = delay-Waited 4 i.1 in
      let view2 : (t o : ℕ) → view d2 t o ≡ view d t o =
        λ t o. w2.keeps t o ∙ drive.in_keeps r.1 t o ∙ w.keeps t o in
      let rest : Sent n (s + 1) (next + 1) buf1 d2
          (read_sectors_from ports n (s + 1) base buf1 d2) =
        read_sectors_from-Sent n (s + 1) (next + 1) buf1 d2 in
      if-elim (Sent (suc n) s next buf d) r.0 (read_sectors_from ports n (s + 1) base buf1 d2)
        (false, buf, r.1)
        (λ moved. (
          λ t o. rest.0 t o ∙ view2 t o,
          λ ok at.
              let sent = drive.in_sends next n r.1 (w.same ∙ at) in
              let later = rest.1 ok (w2.same ∙ sent.0) in
              (
                λ j lt. later.0 j (omega arith) ∙ splice-below buf i.0 s j lt,
                λ t o lt small.
                    first_or_later t
                      (λ t o.
                        (read_sectors_from ports n (s + 1) base buf1 d2).1 ((s + t) * 512 + o))
                      (λ t o. view d (next + t) o) o
                      (later.0 ((s + 0) * 512 + o) (omega arith)
                        ∙ splice-inside buf i.0 s o small
                        ∙ sent.1 o small
                        ∙ w.keeps next o
                        ∙ ap (λ k. view d k o) (omega arith))
                      (λ u is.
                        ap (λ k. (read_sectors_from ports n (s + 1) base buf1 d2).1 (k * 512 + o))
                          (omega arith)
                        ∙ later.1 u o (omega (arith, is, lt)) small
                        ∙ view2 (next + 1 + u) o
                        ∙ ap (λ k. view d k o) (omega arith)),
              ),
        ))
        (λ out. (w.keeps, λ ok. absurd (no_true ok)))

  -- What is written from the sector `next` on.
  abbrev Taken : (n s next : ℕ) (buf : ℕ → ℕ) (d : D) → Bool × D → Type 0
  Taken n s next buf d (ok, d') =
      ((t o : ℕ) → (t < next) ⊎ (next + n ≤ t) → view d' t o ≡ view d t o)
      × (ok ≡ true → (t o : ℕ) → t < n → o < 512 → view d' (next + t) o ≡ buf ((s + t) * 512 + o))

  write_sectors_from-Taken :
      (n s next : ℕ) (buf : ℕ → ℕ) (d : D)
      → drive.stage d ≡ taking next n
      → Taken n s next buf d (write_sectors_from ports n s base buf d)
  unfolding write_sectors_from
  write_sectors_from-Taken zero s next buf d at =
      (λ t o out. refl, λ ok t o lt. absurd (omega arith))
  write_sectors_from-Taken (suc n) s next buf d at =
      let r = ata_wait_drq ports wait_rounds base d in
      let w : Waited view drive.stage d r.1 = ata_wait_drq-Waited wait_rounds d in
      let d1 = ports.words_out base (λ j. buf (s * 512 + j)) r.1 in
      let taken = drive.out_takes next n (λ j. buf (s * 512 + j)) r.1 (w.same ∙ at) in
      let d2 = (ata_wait_ready ports wait_rounds base d1).1 in
      let d3 = delay ports 4 base d2 in
      let w2 : Waited view drive.stage d1 d2 = ata_wait_ready-Waited wait_rounds d1 in
      let w3 : Waited view drive.stage d2 d3 = delay-Waited 4 d2 in
      let rest : Taken n (s + 1) (next + 1) buf d3
          (write_sectors_from ports n (s + 1) base buf d3) =
        write_sectors_from-Taken n (s + 1) (next + 1) buf d3 (w3.same ∙ w2.same ∙ taken.0) in
      if-elim (Taken (suc n) s next buf d) r.0 (write_sectors_from ports n (s + 1) base buf d3)
        (false, r.1)
        (λ moved. (
          λ t o out.
              rest.0 t o (apart_later t next n out).0
              ∙ w3.keeps t o
              ∙ w2.keeps t o
              ∙ taken.2 t o (apart_later t next n out).1
              ∙ w.keeps t o,
          λ ok t o lt small.
              first_or_later t
                (λ t o. view (write_sectors_from ports n (s + 1) base buf d3).1 (next + t) o)
                (λ t o. buf ((s + t) * 512 + o)) o
                (rest.0 (next + 0) o (inl (omega arith))
                  ∙ w3.keeps (next + 0) o
                  ∙ w2.keeps (next + 0) o
                  ∙ ap (λ k. view d1 k o) (omega arith)
                  ∙ taken.1 o small
                  ∙ ap buf (omega arith))
                (λ u is.
                  ap (λ k. view (write_sectors_from ports n (s + 1) base buf d3).1 k o)
                    (omega arith)
                  ∙ rest.1 ok u o (omega (arith, is, lt)) small
                  ∙ ap (λ k. buf (k * 512 + o)) (omega arith)),
        ))
        (λ out. (λ t o far. w.keeps t o, λ ok. absurd (no_true ok)))

module _ {D : Type 0} (ports : Ports D) (n : ℕ) (view : D → ℕ → ℕ → ℕ)
    (drive : Drive ports (ata_get_base n).0 (ata_get_base n).1 view) where
  -- The state in which a transfer starts, if the drive is ready.
  abbrev ready_state : D → Bool × D
  ready_state d =
      ata_wait_ready ports wait_rounds (ata_get_base n).0 (ports.no_interrupts (ata_get_base n).0 d)

  abbrev started : (cmd lba count : ℕ) → D → D
  started cmd lba count d =
      start_transfer ports cmd (ata_get_base n).0 (ata_get_base n).1 lba count (ready_state d).1

  ready-keeps : (d : D) (s o : ℕ) → view (ready_state d).1 s o ≡ view d s o
  ready-keeps d s o =
      (ata_wait_ready-Waited ports (ata_get_base n).0 (ata_get_base n).1 view drive wait_rounds
          (ports.no_interrupts (ata_get_base n).0 d)).keeps
        s o
      ∙ drive.quiet_keeps d s o

  started-keeps :
      (cmd lba count : ℕ) (d : D) (s o : ℕ) → view (started cmd lba count d) s o ≡ view d s o
  unfolding start_transfer
  started-keeps cmd lba count d s o = drive.command_keeps _ _ _ _ _ _ _ s o ∙ ready-keeps d s o

  split_lba :
      (lba : ℕ)
      → lba < 2 ^ 28
      → lba / 2 ^ 24 % 16 * 2 ^ 24
          + lba / 2 ^ 16 % 256 * 2 ^ 16
          + lba / 2 ^ 8 % 256 * 2 ^ 8
          + lba % 256
        ≡ lba
  split_lba lba lt = omega arith

  -- A read, ended by 0 sectors, by a drive that is not ready, or not.
  read-Sent :
      (lba count : ℕ) (buf : ℕ → ℕ) (d : D)
      → ((s o : ℕ) → view (ata_read_sectors ports n lba count buf d).2 s o ≡ view d s o)
        × ((ata_read_sectors ports n lba count buf d).0 ≡ true
            → lba + count ≤ 2 ^ 28
            → count < 256
            → (s o : ℕ) → s < count
            → o < 512
            → (ata_read_sectors ports n lba count buf d).1 (s * 512 + o) ≡ view d (lba + s) o)
  unfolding ata_read_sectors start_transfer
  read-Sent lba count buf d =
      let d1 = started cmd_read_pio lba count d in
      let base = (ata_get_base n).0 in
      let sent =
        read_sectors_from-Sent ports base (ata_get_base n).1 view drive count 0 lba buf d1 in
      let P : Bool × (ℕ → ℕ) × D → Type 0 = λ r.
        ((s o : ℕ) → view r.2 s o ≡ view d s o)
        × (r.0 ≡ true
            → lba + count ≤ 2 ^ 28
            → count < 256
            → (s o : ℕ) → s < count
            → o < 512
            → r.1 (s * 512 + o) ≡ view d (lba + s) o) in
      if-elim P (count == 0) (false, buf, d) _ (λ e. (λ s o. refl, λ ok. absurd (no_true ok)))
        (λ some_sectors.
          if-elim P (ready_state d).0 (read_sectors_from ports count 0 base buf d1)
            (false, buf, (ready_state d).1)
            (λ e. (
              λ s o. sent.0 s o ∙ started-keeps cmd_read_pio lba count d s o,
              λ ok room few s o lt small.
                  let at : drive.stage d1 ≡ sending lba count =
                    drive.command_read _ count _ _ _ (ready_state d).1 (omega (arith, lt)) few
                      (omega arith) (omega arith) (omega arith) (omega arith)
                    ∙ ap (λ k. sending k count) (split_lba lba (omega (arith, room, lt))) in
                  ap (λ k. (read_sectors_from ports count 0 base buf d1).1 (k * 512 + o))
                    (omega arith)
                  ∙ (sent.1 ok at).1 s o lt small
                  ∙ started-keeps cmd_read_pio lba count d (lba + s) o,
            ))
            (λ e. (ready-keeps d, λ ok. absurd (no_true ok))))

  write-Taken :
      (lba count : ℕ) (buf : ℕ → ℕ) (d : D)
      → lba + count ≤ 2 ^ 28
      → count < 256
      → ((s o : ℕ)
          → (s < lba) ⊎ (lba + count ≤ s)
          → view (ata_write_sectors ports n lba count buf d).1 s o ≡ view d s o)
        × ((ata_write_sectors ports n lba count buf d).0 ≡ true
            → (s o : ℕ) → s < count
            → o < 512
            → view (ata_write_sectors ports n lba count buf d).1 (lba + s) o ≡ buf (s * 512 + o))
  unfolding ata_write_sectors start_transfer
  write-Taken lba count buf d room few =
      let d1 = started cmd_write_pio lba count d in
      let base = (ata_get_base n).0 in
      let P : Bool × D → Type 0 = λ r.
        ((s o : ℕ) → (s < lba) ⊎ (lba + count ≤ s) → view r.1 s o ≡ view d s o)
        × (r.0 ≡ true
            → (s o : ℕ) → s < count
            → o < 512
            → view r.1 (lba + s) o ≡ buf (s * 512 + o)) in
      if-elim P (count == 0) (false, d) _ (λ e. (λ s o out. refl, λ ok. absurd (no_true ok)))
        (λ e.
          if-elim P (ready_state d).0 (write_sectors_from ports count 0 base buf d1)
            (false, (ready_state d).1)
            (λ ready.
              let some_sectors : 0 < count = positive count e in
              let at : drive.stage d1 ≡ taking lba count =
                drive.command_write _ count _ _ _ (ready_state d).1 some_sectors few (omega arith)
                  (omega arith) (omega arith) (omega arith)
                ∙ ap (λ k. taking k count) (split_lba lba (omega (arith, room, some_sectors))) in
              let taken =
                write_sectors_from-Taken ports base (ata_get_base n).1 view drive count 0 lba buf d1
                  at in
              (
                λ s o out. taken.0 s o out ∙ started-keeps cmd_write_pio lba count d s o,
                λ ok s o lt small.
                    taken.1 ok s o lt small ∙ ap (λ k. buf (k * 512 + o)) (omega arith),
              ))
            (λ e. (λ s o out. ready-keeps d s o, λ ok. absurd (no_true ok))))

  -- The driver keeps to the laws that the block cache relies on.
  pub ata_driver-Laws : Laws (ata_driver ports) n view
  ata_driver-Laws = record {
    read_keeps = λ lba count buf d. (read-Sent lba count buf d).0;
    read_moves = λ lba count buf d s o ok room few. (read-Sent lba count buf d).1 ok room few s o;
    write_moves =
        λ lba count buf d s o ok room few. (write-Taken lba count buf d room few).1 ok s o;
    write_keeps = λ lba count buf d s o room few. (write-Taken lba count buf d room few).0 s o;
  }
