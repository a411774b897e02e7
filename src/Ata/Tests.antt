-- ===== src/Ata/Tests.antt =====
-- A controller that always works, a cache of two entries over its drive 0, and the theorems there.
use lite_core.Prelude.{ℕ, suc, ◌+◌, ◌*◌, ◌%◌, ◌^◌, true, if◌then◌else◌, ltb, ◌==◌, ◌&&◌}
use lite_core.BlockCache.{Cache}
use lite_core.Ata.{Ports}
use lite_core.Ata.Transfers.{Stage, idle, sending, taking}

-- The sectors, and what the drive is about to do.
abbrev Disk : Type 0
Disk = (ℕ → ℕ → ℕ) × Stage

abbrev contents : Disk → ℕ → ℕ → ℕ
contents (sectors, stage) = sectors

abbrev stage_of : Disk → Stage
stage_of (sectors, stage) = stage

-- Drive and number of the sector from the registers.
abbrev staged : (lba count cmd : ℕ) → Stage
staged lba count cmd =
    if cmd == 0x20 then sending lba count else if cmd == 0x30 then taking lba count else idle

abbrev sent : (ℕ → ℕ → ℕ) → Stage → (ℕ → ℕ) × Disk
sent sectors (sending next (suc left)) = (sectors next, (sectors, sending (next + 1) left))
sent sectors stage = ((λ o. 0), (sectors, stage))

abbrev taken : (ℕ → ℕ → ℕ) → (ℕ → ℕ) → Stage → Disk
taken sectors buf (taking next (suc left)) =
    ((λ s o. if (s == next) && ltb o 512 then buf o else sectors s o), taking (next + 1) left)
taken sectors buf stage = (sectors, stage)

abbrev controller : Ports Disk
controller = record {
  status = λ base d. (0x08, d);
  no_interrupts = λ base d. d;
  command = λ base reg count low mid high cmd d.
      (contents d, staged (reg % 16 * 2 ^ 24 + high * 2 ^ 16 + mid * 2 ^ 8 + low) count cmd);
  words_in = λ base d. sent (contents d) (stage_of d);
  words_out = λ base buf d. taken (contents d) buf (stage_of d);
}

-- Sector `s` holds the byte `s` throughout.
abbrev numbered : Disk
numbered = ((λ s o. s), idle)

-- Entry 0 holds block 3, dirty, with the byte 7 throughout; entry 1 is free.
abbrev two_entries : Cache
two_entries = record {
  drive = 0;
  block_size = 512;
  num_entries = 2;
  entries =
      λ i. record { block_num = 3; bytes = λ j. 7; last_used = 4; dirty = true; valid = i == 0 };
  timestamp = 4;
  hits = 0;
  misses = 1;
}

abbrev store : ℕ → ℕ → ℕ
store b j = if b == 3 then 7 else b
