-- ===== src/Fat12/Listing.antt =====
-- `fat12_list_root` and the search of `fat12_read_file` (src/kernel/fs/fat/fat12.c) on the root
-- directory as one row of entries.
use lite_core.Prelude.{
  ℕ, zero, suc, ◌+◌, ◌*◌, ◌/◌, ◌^◌, ◌≤◌, ◌<◌, ◌≡◌, Bool, List, ◌++◌, map, if◌then◌else◌, arith,
  refl, sym, ap, ap₂, ◌∙◌, u32,
}
use lite_core.Fat12.{
  Super, file_line, list_sector, list_sectors, fat12_list_root, Lookup, at_last, unseen, found,
  search_sector, search_sectors, sector_at, entries_per_sector, root_sectors,
}
use lite_core.Fat12.Scan.{
  files, first_match, joined, lines_of, continued, list_sector-files, search_sector-files,
  files-add, lines-joined, first_match-joined,
}

-- Sectors of 512 bytes, and a root directory that ends below 4 GiB.
pub record Sound (sb : Super) : Type 0 where
  pub sector_size : sb.bytes_per_sector ≡ 512
  pub in_space : (sb.root_dir_sector + root_sectors sb) * 512 ≤ 2 ^ 32

-- The files of the `n` sectors from `s` on.
abbrev pub sector_files : Super → (s n : ℕ) → Bool × List ℕ
sector_files sb s n = files sb.image ((sb.root_dir_sector + s) * 512) (n * 16)

-- The files of the root directory.
abbrev pub root_files : Super → Bool × List ℕ
root_files sb = sector_files sb 0 (root_sectors sb)

first_sector :
    (sb : Super) (s : ℕ)
    → sb.bytes_per_sector ≡ 512
    → (sb.root_dir_sector + s) * 512 < 2 ^ 32
    → files sb.image (sector_at sb s) (entries_per_sector sb)
      ≡ files sb.image ((sb.root_dir_sector + s) * 512) 16
first_sector sb s size lt =
    ap₂ (files sb.image) (ap (λ b. u32 (u32 (sb.root_dir_sector + s) * b)) size ∙ omega (arith, lt))
      (ap (λ b. b / 32) size)

sector_files-suc :
    (sb : Super) (s n : ℕ)
    → sector_files sb s (suc n)
      ≡ joined (files sb.image ((sb.root_dir_sector + s) * 512) 16) (sector_files sb (s + 1) n)
sector_files-suc sb s n =
    let more : suc n * 16 ≡ 16 + n * 16 = omega arith in
    let there : (sb.root_dir_sector + s) * 512 + 16 * 32 ≡ (sb.root_dir_sector + (s + 1)) * 512 =
      omega arith in
    ap (files sb.image ((sb.root_dir_sector + s) * 512)) more
    ∙ files-add sb.image ((sb.root_dir_sector + s) * 512) 16 (n * 16)
    ∙ ap
        (λ a.
          joined (files sb.image ((sb.root_dir_sector + s) * 512) 16) (files sb.image a (n * 16)))
        there

list_sectors-files :
    (sb : Super) (s n : ℕ)
    → sb.bytes_per_sector ≡ 512
    → (sb.root_dir_sector + s + n) * 512 ≤ 2 ^ 32
    → list_sectors sb s n ≡ (lines_of sb.image (sector_files sb s n)).1
unfolding list_sectors files
list_sectors-files sb s zero size le = refl
list_sectors-files sb s (suc n) size le =
    let here = files sb.image ((sb.root_dir_sector + s) * 512) 16 in
    let sector : list_sector sb.image (sector_at sb s) (entries_per_sector sb)
        ≡ lines_of sb.image here =
      list_sector-files sb.image (sector_at sb s) (entries_per_sector sb)
      ∙ ap (lines_of sb.image) (first_sector sb s size (omega (arith, le))) in
    ap₂ (λ (r : Bool × List (List ℕ × ℕ)) later. if r.0 then r.1 else r.1 ++ later) sector
      (list_sectors-files sb (s + 1) n size (omega (arith, le)))
    ∙ lines-joined sb.image here (sector_files sb (s + 1) n)
    ∙ ap (λ r. (lines_of sb.image r).1) (sym (sector_files-suc sb s n))

search_sectors-files :
    (sb : Super) (short : List ℕ) (s n : ℕ)
    → sb.bytes_per_sector ≡ 512
    → (sb.root_dir_sector + s + n) * 512 ≤ 2 ^ 32
    → search_sectors sb short s n ≡ first_match sb.image short (sector_files sb s n)
unfolding search_sectors files first_match continued
search_sectors-files sb short s zero size le = refl
search_sectors-files sb short s (suc n) size le =
    let here = files sb.image ((sb.root_dir_sector + s) * 512) 16 in
    let sector : search_sector sb.image short (sector_at sb s) (entries_per_sector sb)
        ≡ first_match sb.image short here =
      search_sector-files sb.image short (sector_at sb s) (entries_per_sector sb)
      ∙ ap (first_match sb.image short) (first_sector sb s size (omega (arith, le))) in
    goes_on (search_sector sb.image short (sector_at sb s) (entries_per_sector sb))
      (search_sectors sb short (s + 1) n)
    ∙ ap₂ continued sector (search_sectors-files sb short (s + 1) n size (omega (arith, le)))
    ∙ first_match-joined sb.image short here (sector_files sb (s + 1) n)
    ∙ ap (first_match sb.image short) (sym (sector_files-suc sb s n))
  where
    goes_on :
        (a b : Lookup)
        → (elim a as (λ x. Lookup) [ at_last ↦ at_last | unseen ↦ b | found ent ↦ found ent ])
          ≡ continued a b
    goes_on at_last b = refl
    goes_on unseen b = refl
    goes_on (found ent) b = refl

pub fat12_list_root-files :
    (sb : Super) → Sound sb → fat12_list_root sb ≡ map (file_line sb.image) (root_files sb).1
unfolding fat12_list_root
fat12_list_root-files sb sound =
    list_sectors-files sb 0 (root_sectors sb) sound.sector_size (omega (arith, sound.in_space))

pub search-files :
    (sb : Super) (short : List ℕ)
    → Sound sb
    → search_sectors sb short 0 (root_sectors sb) ≡ first_match sb.image short (root_files sb)
search-files sb short sound =
    search_sectors-files sb short 0 (root_sectors sb) sound.sector_size
      (omega (arith, sound.in_space))
