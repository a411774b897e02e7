-- ===== src/Ata.antt =====
-- The transfers of the ATA driver, src/kernel/driver/ata.c, over the ports of the controller, which are the
-- parameter `Ports` on a state `D`. The interrupt events that a wait dispatches, and the messages,
-- are left out.
pub mod Transfers
pub mod Caching
mod Tests
use lite_core.Prelude.{
  ℕ, zero, suc, ◌+◌, ◌*◌, ◌/◌, ◌%◌, ◌^◌, Bool, true, false, not, ◌||◌, if◌then◌else◌, ltb, ◌==◌,
}
use lite_core.BlockCache.{Driver, splice}

-- What goes over the ports of the bus at `base`: the status register is read; nIEN is set; the
-- registers behind `base + 1` are written, the command last; 256 words are read or written.
pub record Ports (D : Type 0) : Type 0 where
  pub status : (base : ℕ) → D → ℕ × D
  pub no_interrupts : (base : ℕ) → D → D
  pub command : (base drive_reg count low mid high cmd : ℕ) → D → D
  pub words_in : (base : ℕ) → D → (ℕ → ℕ) × D
  pub words_out : (base : ℕ) → (ℕ → ℕ) → D → D

abbrev pub cmd_read_pio : ℕ
cmd_read_pio = 0x20

abbrev pub cmd_write_pio : ℕ
cmd_write_pio = 0x30

abbrev pub wait_rounds : ℕ
wait_rounds = 100000

-- The base and the drive selection.
unfoldable pub ata_get_base : ℕ → ℕ × ℕ
ata_get_base drive =
    if ltb drive 2
    then (0x1F0, if drive == 0 then 0xE0 else 0xF0)
    else (0x170, if drive == 2 then 0xE0 else 0xF0)

module _ {D : Type 0} (ports : Ports D) where
  -- Until BSY, bit 7, is clear.
  unfoldable pub ata_wait_ready : (rounds base : ℕ) → D → Bool × D
  ata_wait_ready zero base d = (false, d)
  ata_wait_ready (suc n) base d =
      let (status, d') = ports.status base d in
      let rest = ata_wait_ready n base d' in if status / 2 ^ 7 % 2 == 0 then (true, d') else rest

  -- Until DRQ, bit 3, is set; ERR, bit 0, ends the wait.
  unfoldable pub ata_wait_drq : (rounds base : ℕ) → D → Bool × D
  ata_wait_drq zero base d = (false, d)
  ata_wait_drq (suc n) base d =
      let (status, d') = ports.status base d in
      let rest = ata_wait_drq n base d' in
      if status % 2 == 1 then (false, d') else if status / 2 ^ 3 % 2 == 1 then (true, d') else rest

  -- The status is read `n` times.
  unfoldable pub delay : (n base : ℕ) → D → D
  delay zero base d = d
  delay (suc n) base d = delay n base (ports.status base d).1

  -- The registers of a transfer of `count` sectors from `lba` on; the number of a sector has 28 bits.
  unfoldable pub start_transfer : (cmd base drive_sel lba count : ℕ) → D → D
  start_transfer cmd base drive_sel lba count d =
      ports.command base (drive_sel + lba / 2 ^ 24 % 16) count (lba % 256) (lba / 2 ^ 8 % 256)
        (lba / 2 ^ 16 % 256) cmd d

  -- The loop over `n` sectors from `s` on.
  unfoldable pub read_sectors_from : (n s base : ℕ) → (ℕ → ℕ) → D → Bool × (ℕ → ℕ) × D
  unfolding ata_wait_drq delay
  read_sectors_from zero s base buf d = (true, buf, d)
  read_sectors_from (suc n) s base buf d =
      let (ok, d') = ata_wait_drq wait_rounds base d in
      let (words, d'') = ports.words_in base d' in
      let rest =
        read_sectors_from n (s + 1) base (splice buf (s * 512) 512 words) (delay 4 base d'') in
      if ok then rest else (false, buf, d')

  -- The result of the wait behind a sector is not looked at.
  unfoldable pub write_sectors_from : (n s base : ℕ) → (ℕ → ℕ) → D → Bool × D
  unfolding ata_wait_drq ata_wait_ready delay
  write_sectors_from zero s base buf d = (true, d)
  write_sectors_from (suc n) s base buf d =
      let (ok, d') = ata_wait_drq wait_rounds base d in
      let stored = ports.words_out base (λ j. buf (s * 512 + j)) d' in
      let rest =
        write_sectors_from n (s + 1) base buf
          (delay 4 base (ata_wait_ready wait_rounds base stored).1) in
      if ok then rest else (false, d')

  unfoldable pub ata_read_sectors : (drive lba sectors : ℕ) → (ℕ → ℕ) → D → Bool × (ℕ → ℕ) × D
  unfolding ata_get_base ata_wait_ready start_transfer read_sectors_from
  ata_read_sectors drive lba sectors buf d =
      let (base, drive_sel) = ata_get_base drive in
      let (ready, d') = ata_wait_ready wait_rounds base (ports.no_interrupts base d) in
      if sectors == 0
      then (false, buf, d)
      else if ready
      then read_sectors_from sectors 0 base buf
          (start_transfer cmd_read_pio base drive_sel lba sectors d')
      else (false, buf, d')

  unfoldable pub ata_write_sectors : (drive lba sectors : ℕ) → (ℕ → ℕ) → D → Bool × D
  unfolding ata_get_base ata_wait_ready start_transfer write_sectors_from
  ata_write_sectors drive lba sectors buf d =
      let (base, drive_sel) = ata_get_base drive in
      let (ready, d') = ata_wait_ready wait_rounds base (ports.no_interrupts base d) in
      if sectors == 0
      then (false, d)
      else if ready
      then write_sectors_from sectors 0 base buf
          (start_transfer cmd_write_pio base drive_sel lba sectors d')
      else (false, d')

  -- The driver that the block cache uses.
  abbrev pub ata_driver : Driver D
  ata_driver = record { read = ata_read_sectors; write = ata_write_sectors }
