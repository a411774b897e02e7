-- ===== src/Fat12/Tests.antt =====
-- An image with the file A.TXT, and the theorems there.
use lite_core.Prelude.{
  ℕ, ◌≡◌, inl, inr, true, ◌&&◌, ◌||◌, [], ◌∷◌, map, refl, sym, subst, arith, if◌then◌else◌, ltb,
  leb, ◌==◌, min,
}
use lite_core.Fat12.{
  Super, entry_at, display_name, until_space, until_nul, to_upper, bytes, done, short_name,
  fat12_list_root, fat12_read_file,
}
use lite_core.Fat12.Scan.{files}
use lite_core.Fat12.Names.{WellNamed}
use lite_core.Fat12.Listing.{Sound, root_files}
use lite_core.Fat12.Directory.{files_in, has_last, name_of, size_of, data_address, Placed}
use lite_core.Fat12.Reading.{
  Listed, FileRead, root_entries, fat12_list_root-files_in, fat12_read_file-FileRead,
  fat12_read_file-name_of,
}

-- The boot sector, a FAT of one sector, the root directory from 1024 on, the data from 1536 on.
abbrev img : ℕ → ℕ
img a =
    if a == 12
    then 2
    else if (a == 13) || (a == 14) || (a == 16) || (a == 22)
    then 1
    else if a == 17
    then 16
    else if a == 1024
    then 65
    else if (a == 1032) || (a == 1034)
    then 84
    else if a == 1033
    then 88
    else if leb 1025 a && ltb a 1035
    then 32
    else if a == 1050
    then 2
    else if a == 1052
    then 5
    else if leb 1536 a && ltb a 1541
    then 72
    else 0

abbrev sb : Super
sb = record {
  bytes_per_sector = 512;
  sectors_per_cluster = 1;
  reserved_sectors = 1;
  num_fats = 1;
  max_root_entries = 16;
  total_sectors = 0;
  fat_size_sectors = 1;
  first_data_sector = 3;
  root_dir_sector = 2;
  image = img;
  image_size = 2048;
}

sb-Sound : Sound sb
sb-Sound = record { sector_size = refl; in_space = omega arith }

the_files : root_files sb ≡ (true, 1024 ∷ [])
unfolding files entry_at
the_files = refl

the_name : display_name img 1024 ≡ 65 ∷ 46 ∷ 84 ∷ 88 ∷ 84 ∷ []
unfolding display_name until_space until_nul
the_name = refl

the_file_named : WellNamed img 1024
unfolding to_upper
the_file_named = record {
  capitals = λ i lt. ground arith;
  no_dot = λ i lt. ground arith;
  no_nul = λ i lt. ground arith;
  base_padded = λ i lt e. ground arith;
  extension_padded = λ i lt e. ground arith;
}

the_entries : files_in img (root_entries sb) ≡ 1024 ∷ []
the_entries = refl

alone : (g : ℕ) → Listed g (1024 ∷ []) → g ≡ 1024
alone g (inl e) = e
alone g (inr x') = elim x' [ ]

alone_there : (g : ℕ) → Listed g (files_in img (root_entries sb)) → g ≡ 1024
alone_there g is_in = alone g (subst (Listed g) the_entries is_in)

the_file-Listed : Listed 1024 (files_in img (root_entries sb))
the_file-Listed = subst (Listed 1024) (sym the_entries) (inl refl)

the_file-Placed : Placed sb 1024
the_file-Placed = record { first = omega arith; word = omega arith; below = omega arith }

fat12_list_root-files_in_example :
    fat12_list_root sb ≡ map (λ a. (name_of img a, size_of img a)) (files_in img (root_entries sb))
fat12_list_root-files_in_example = fat12_list_root-files_in sb sb-Sound

fat12_read_file-FileRead_example :
    FileRead sb
      (short_name (97 ∷ 46 ∷ []))
      100
      (has_last img (root_entries sb))
      (files_in img (root_entries sb))
      (fat12_read_file sb (97 ∷ 46 ∷ []) 100)
fat12_read_file-FileRead_example =
    fat12_read_file-FileRead sb (97 ∷ 46 ∷ []) 100 sb-Sound
      (λ g is_in. subst (Placed sb) (sym (alone_there g is_in)) the_file-Placed)

fat12_read_file-name_of_example :
    fat12_read_file sb (name_of img 1024) 100
    ≡ done (bytes img (data_address sb 1024) (min (min (size_of img 1024) 100) 512))
fat12_read_file-name_of_example =
    fat12_read_file-name_of sb 1024 100 sb-Sound the_file-Listed the_file-Placed the_file_named
      (λ g is_in same. alone_there g is_in)
