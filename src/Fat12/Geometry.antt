-- ===== src/Fat12/Geometry.antt =====
-- What `fat12_mount` (src/kernel/fs/fat/fat12.c) makes of a boot sector.
use lite_core.Prelude.{
  ℕ, ◌+◌, ◌*◌, ◌^◌, ◌≤◌, ◌<◌, ◌≡◌, ◌≢◌, ◌⊎◌, Bool, false, Option, none, some, arith,
}
use lite_core.Fat12.{Super, Reply, fails, done, le16, root_sectors}
use lite_core.Fat12.Listing.{Sound}

-- Why an image is refused.
abbrev pub Refusal : Bool → Option (ℕ → ℕ) → ℕ → ℕ → Type 0
Refusal memory none size code = code ≡ 1
Refusal memory (some img) size code =
    ((code ≡ 1) × (size < 512))
    ⊎ (((code ≡ 2) × (512 ≤ size) × (le16 img 11 ≢ 512))
        ⊎ ((code ≡ 3) × (512 ≤ size) × (memory ≡ false)))

-- The root directory ends where the data starts, and the fields are those of the boot sector.
pub record Geometry (img : ℕ → ℕ) (size : ℕ) (sb : Super) : Type 0 where
  pub sector_size : sb.bytes_per_sector ≡ 512
  pub whole : 512 ≤ size
  pub same_image : sb.image ≡ img
  pub same_size : sb.image_size ≡ size
  pub data_start : sb.first_data_sector ≡ sb.root_dir_sector + root_sectors sb
  pub root_start : sb.root_dir_sector ≡ sb.reserved_sectors + sb.num_fats * sb.fat_size_sectors

abbrev pub Mounted : Bool → Option (ℕ → ℕ) → ℕ → Reply Super → Type 0
Mounted memory image size (fails code) = Refusal memory image size code
Mounted memory none size (done sb) = ⊥
Mounted memory (some img) size (done sb) = Geometry img size sb

-- An image of at most 4 GiB that holds its root directory.
pub Geometry-Sound :
    (img : ℕ → ℕ) (size : ℕ) (sb : Super)
    → Geometry img size sb
    → sb.first_data_sector * 512 ≤ size
    → size ≤ 2 ^ 32
    → Sound sb
Geometry-Sound img size sb g inside le = record {
  sector_size = g.sector_size;
  in_space = omega (arith, g.data_start, inside, le);
}
