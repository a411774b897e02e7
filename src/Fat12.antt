-- ===== src/Fat12.antt =====
-- The reader of FAT12 images of src/kernel/fs/fat/fat12.c. An image is a byte at every address; a
-- name is the list of its characters, without the final NUL.
pub mod Scan
pub mod Names
pub mod Directory
pub mod Listing
pub mod Reading
pub mod Geometry
mod Tests
use lite_core.Prelude.{
  ℕ, zero, suc, ◌+◌, ◌-◌, ◌*◌, ◌/◌, ◌%◌, ◌^◌, Bool, true, false, not, ◌&&◌, ◌||◌, Option, none,
  some, List, [], ◌∷◌, ◌++◌, length, replicate, if◌then◌else◌, ltb, leb, ◌==◌, u32, min,
}

-- `struct fat12_super`
pub record Super : Type 0 where
  pub bytes_per_sector : ℕ
  pub sectors_per_cluster : ℕ
  pub reserved_sectors : ℕ
  pub num_fats : ℕ
  pub max_root_entries : ℕ
  pub total_sectors : ℕ
  pub fat_size_sectors : ℕ
  pub first_data_sector : ℕ
  pub root_dir_sector : ℕ
  pub image : ℕ → ℕ
  pub image_size : ℕ

-- What a call gives: a negative code, here its absolute value, or a result.
pub data Reply {ℓ} (A : Type ℓ) : Type ℓ where
  fails : ℕ → Reply A
  done : A → Reply A

unfoldable pub le16 : (ℕ → ℕ) → ℕ → ℕ
le16 img p = img p + img (p + 1) * 2 ^ 8

unfoldable pub le32 : (ℕ → ℕ) → ℕ → ℕ
le32 img p = img p + img (p + 1) * 2 ^ 8 + img (p + 2) * 2 ^ 16 + img (p + 3) * 2 ^ 24

-- The fields of the boot sector.
unfoldable pub mounted_super : (img : ℕ → ℕ) (size : ℕ) → Super
unfolding le16 le32
mounted_super img size =
    let total_short = le16 img 19 in
    let fat_short = le16 img 22 in
    let fat_size = if fat_short == 0 then le32 img 36 % 2 ^ 16 else fat_short in
    let root_sector = le16 img 14 + img 16 * fat_size in
    record {
      bytes_per_sector = le16 img 11;
      sectors_per_cluster = img 13;
      reserved_sectors = le16 img 14;
      num_fats = img 16;
      max_root_entries = le16 img 17;
      total_sectors = if total_short == 0 then le32 img 32 else total_short;
      fat_size_sectors = fat_size;
      first_data_sector = root_sector + (le16 img 17 * 32 + (le16 img 11 - 1)) / le16 img 11;
      root_dir_sector = root_sector;
      image = img;
      image_size = size;
    }

-- `memory` says whether `kmalloc` succeeds; a missing image is the pointer NULL.
unfoldable pub fat12_mount : (memory : Bool) (image : Option (ℕ → ℕ)) (size : ℕ) → Reply Super
unfolding le16 mounted_super
fat12_mount memory none size = fails 1
fat12_mount memory (some img) size =
    if ltb size 512
    then fails 1
    else if not (le16 img 11 == 512)
    then fails 2
    else if memory
    then done (mounted_super img size)
    else fails 3

-- What the loops over the directory do at an entry.
pub data EntryKind : Type 0 where
  last skipped file : EntryKind

unfoldable pub entry_at : (ℕ → ℕ) → ℕ → EntryKind
entry_at img ent =
    if img ent == 0x00
    then last
    else if img ent == 0xE5
    then skipped
    else if img (ent + 11) / 2 ^ 3 % 2 == 1
    then skipped
    else file

abbrev pub entries_per_sector : Super → ℕ
entries_per_sector sb = sb.bytes_per_sector / 32

abbrev pub root_sectors : Super → ℕ
root_sectors sb = (sb.max_root_entries + entries_per_sector sb - 1) / entries_per_sector sb

-- The address of sector `s` of the root directory, in 32 bits.
abbrev pub sector_at : Super → ℕ → ℕ
sector_at sb s = u32 (u32 (sb.root_dir_sector + s) * sb.bytes_per_sector)

-- At most `n` characters, up to a space.
unfoldable pub until_space : (ℕ → ℕ) → (p n : ℕ) → List ℕ
until_space img p zero = []
until_space img p (suc n) = if img p == 32 then [] else img p ∷ until_space img (p + 1) n

-- What `printk` prints of a string.
unfoldable pub until_nul : List ℕ → List ℕ
until_nul [] = []
until_nul (c ∷ cs) = let rest = until_nul cs in if c == 0 then [] else c ∷ rest

unfoldable pub display_name : (ℕ → ℕ) → ℕ → List ℕ
unfolding until_space until_nul
display_name img ent = until_nul (
    until_space img ent 8 ++ (if img (ent + 8) == 32 then [] else 46 ∷ until_space img (ent + 8) 3))

-- What is printed for a file: its name and its size.
unfoldable pub file_line : (ℕ → ℕ) → ℕ → List ℕ × ℕ
unfolding display_name le32
file_line img ent = (display_name img ent, le32 img (ent + 28))

-- The loop over `n` entries from the address `ent` on: whether the last one was met, and the lines.
unfoldable pub list_sector : (ℕ → ℕ) → (ent n : ℕ) → Bool × List (List ℕ × ℕ)
unfolding entry_at file_line
list_sector img ent zero = (false, [])
list_sector img ent (suc n) =
    let (ended, lines) = list_sector img (ent + 32) n in
    elim (entry_at img ent) [
      | last ↦ (true, [])
      | skipped ↦ (ended, lines)
      | file ↦ (ended, file_line img ent ∷ lines)
    ]

-- The loop over `n` sectors from `s` on.
unfoldable pub list_sectors : Super → (s n : ℕ) → List (List ℕ × ℕ)
unfolding list_sector
list_sectors sb s zero = []
list_sectors sb s (suc n) =
    let (ended, lines) = list_sector sb.image (sector_at sb s) (entries_per_sector sb) in
    let later = list_sectors sb (s + 1) n in if ended then lines else lines ++ later

-- The lines printed.
unfoldable pub fat12_list_root : Super → List (List ℕ × ℕ)
unfolding list_sectors
fat12_list_root sb = list_sectors sb 0 (root_sectors sb)

unfoldable pub to_upper : ℕ → ℕ
to_upper c = if leb 97 c && leb c 122 then c - 97 + 65 else c

-- The part of a name before the dot, at most `n` characters, and the rest.
unfoldable pub base_part : List ℕ → (n : ℕ) → List ℕ × List ℕ
unfolding to_upper
base_part [] n = ([], [])
base_part (c ∷ cs) zero = ([], c ∷ cs)
base_part (c ∷ cs) (suc n) =
    let (base, rest) = base_part cs n in if c == 46 then ([], c ∷ cs) else (to_upper c ∷ base, rest)

unfoldable pub skip_dot : List ℕ → List ℕ
skip_dot [] = []
skip_dot (c ∷ cs) = if c == 46 then cs else c ∷ cs

unfoldable pub extension : List ℕ → (n : ℕ) → List ℕ
unfolding to_upper
extension [] n = []
extension (c ∷ cs) zero = []
extension (c ∷ cs) (suc n) = to_upper c ∷ extension cs n

-- The rest of the `n` characters are spaces.
abbrev pub padded : (n : ℕ) → List ℕ → List ℕ
padded n cs = cs ++ replicate (n - length cs) 32

-- The eleven characters that are looked for.
unfoldable pub short_name : List ℕ → List ℕ
unfolding base_part skip_dot extension
short_name name =
    let (base, rest) = base_part name 8 in padded 8 base ++ padded 3 (extension (skip_dot rest) 3)

-- Whether the characters from `p` on are those of the list.
unfoldable pub matches : (ℕ → ℕ) → (p : ℕ) → List ℕ → Bool
matches img p [] = true
matches img p (c ∷ cs) = (img p == c) && matches img (p + 1) cs

-- Where a search ends: at the last entry, at no entry, at the file at an address.
pub data Lookup : Type 0 where
  at_last unseen : Lookup
  found : ℕ → Lookup

unfoldable pub search_sector : (ℕ → ℕ) → List ℕ → (ent n : ℕ) → Lookup
unfolding entry_at matches
search_sector img short ent zero = unseen
search_sector img short ent (suc n) =
    let later = search_sector img short (ent + 32) n in
    elim (entry_at img ent) [
      | last ↦ at_last
      | skipped ↦ later
      | file ↦ if matches img ent short then found ent else later
    ]

unfoldable pub search_sectors : Super → List ℕ → (s n : ℕ) → Lookup
unfolding search_sector
search_sectors sb short s zero = unseen
search_sectors sb short s (suc n) =
    let later = search_sectors sb short (s + 1) n in
    elim (search_sector sb.image short (sector_at sb s) (entries_per_sector sb)) [
      | at_last ↦ at_last
      | unseen ↦ later
      | found ent ↦ found ent
    ]

-- The address of the data and the number of bytes copied for the entry at `ent`.
unfoldable pub file_data : Super → (ent len : ℕ) → ℕ × ℕ
unfolding le16 le32
file_data sb ent len =
    let cluster = u32 (le16 sb.image (ent + 26) + (2 ^ 32 - 2)) in
    let sector = u32 (sb.first_data_sector + u32 (cluster * sb.sectors_per_cluster)) in
    let bytes_to_read = min (le32 sb.image (ent + 28)) len in
    (u32 (sector * sb.bytes_per_sector), min bytes_to_read sb.bytes_per_sector)

unfoldable pub bytes : (ℕ → ℕ) → (p n : ℕ) → List ℕ
bytes img p zero = []
bytes img p (suc n) = img p ∷ bytes img (p + 1) n

unfoldable pub copy_found : Super → (len : ℕ) → Lookup → Reply (List ℕ)
unfolding file_data bytes
copy_found sb len at_last = fails 2
copy_found sb len unseen = fails 3
copy_found sb len (found ent) =
    let (data_at, copy) = file_data sb ent len in done (bytes sb.image data_at copy)

-- The bytes copied to the buffer of length `len`.
unfoldable pub fat12_read_file : Super → (name : List ℕ) (len : ℕ) → Reply (List ℕ)
unfolding short_name search_sectors copy_found
fat12_read_file sb name len =
    copy_found sb len (search_sectors sb (short_name name) 0 (root_sectors sb))
