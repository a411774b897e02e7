-- ===== src/Fat12/Reading.antt =====
-- `fat12_read_file` and `fat12_list_root` (src/kernel/fs/fat/fat12.c) together.
use lite_core.Prelude.{
  ℕ, zero, suc, ◌+◌, ◌-◌, ◌*◌, ◌≤◌, ◌≡◌, ◌≢◌, inl, inr, ◌⊎◌, Bool, true, false, ◌&&◌, List, [], ◌∷◌,
  ◌++◌, map, if◌then◌else◌, if-elim, ◌==◌, arith, refl, sym, ap, ap₂, ◌∙◌, subst, length, replicate,
  length-append, length-replicate, min,
}
use lite_core.Fat12.{
  Super, found, short_name, bytes, matches, Reply, done, fails, copy_found, Lookup, at_last, unseen,
  base_part, skip_dot, extension, padded, root_sectors, fat12_list_root, fat12_read_file,
}
use lite_core.Fat12.Scan.{first_match, files}
use lite_core.Fat12.Names.{WellNamed, short_name-display_name, matches-bytes}
use lite_core.Fat12.Listing.{Sound, root_files, fat12_list_root-files, search-files}
use lite_core.Fat12.Directory.{
  row, files_in, has_last, name_of, size_of, data_address, Placed, files-files_in,
  display_name-name_of, file_line-name_of, file_data-data_address,
}

abbrev pub Listed : ℕ → List ℕ → Type 0
Listed f [] = ⊥
Listed f (x ∷ xs) = (f ≡ x) ⊎ Listed f xs

-- No other of the files has the eleven characters of `f`.
abbrev pub OnlyName : (ℕ → ℕ) → ℕ → List ℕ → Type 0
OnlyName img f fs = (g : ℕ) → Listed g fs → bytes img g 11 ≡ bytes img f 11 → g ≡ f

bytes-matches :
    (img : ℕ → ℕ) (g f n : ℕ) → matches img g (bytes img f n) ≡ true → bytes img g n ≡ bytes img f n
unfolding matches bytes
bytes-matches img g f zero e = refl
bytes-matches img g f (suc n) e =
    let split : (a b : Bool) → (a && b) ≡ true → (a ≡ true) × (b ≡ true) =
      λ a b h. and_split a b h in
    let both = split (img g == img f) (matches img (g + 1) (bytes img (f + 1) n)) e in
    let same : img g ≡ img f = equal (img g) (img f) both.0 in
    ap₂ ◌∷◌ same (bytes-matches img (g + 1) (f + 1) n both.1)
  where
    and_split : (a b : Bool) → (a && b) ≡ true → (a ≡ true) × (b ≡ true)
    and_split true b h = (refl, h)
    and_split false b h = absurd (false_true h)
      where
        false_true : false ≡ true → ⊥
        false_true h = ground arith

    equal : (a b : ℕ) → (a == b) ≡ true → a ≡ b
    equal a b h = ground arith

first_match-cons :
    (img : ℕ → ℕ) (short : List ℕ) (ended : Bool) (x : ℕ) (fs : List ℕ)
    → first_match img short (ended, x ∷ fs)
      ≡ (if matches img x short then found x else first_match img short (ended, fs))
unfolding first_match
first_match-cons img short true x fs = refl
first_match-cons img short false x fs = refl

no_match : {b : Bool} → b ≡ true → b ≡ false → ⊥
no_match h h' = ground arith

first_match-Listed :
    (img : ℕ → ℕ) (short : List ℕ) (f : ℕ) (ended : Bool) (fs : List ℕ)
    → matches img f short ≡ true
    → Listed f fs
    → ((g : ℕ) → Listed g fs → matches img g short ≡ true → g ≡ f)
    → first_match img short (ended, fs) ≡ found f
unfolding first_match
first_match-Listed img short f ended [] own is_in only = absurd is_in
first_match-Listed img short f ended (x ∷ fs) own is_in only =
    first_match-cons img short ended x fs
    ∙ if-elim (λ r. r ≡ found f) (matches img x short) (found x) (first_match img short (ended, fs))
        (λ e. ap found (only x (inl refl) e))
        (λ e. elim is_in [
          | inl is_x ↦ absurd (no_match (subst (λ y. matches img y short ≡ true) is_x own) e)
          | inr later ↦ first_match-Listed img short f ended fs own later (λ g h. only g (inr h))
        ])

matches-bytes_eq :
    (img : ℕ → ℕ) (p : ℕ) (cs : List ℕ) → matches img p cs ≡ true → bytes img p (length cs) ≡ cs
unfolding matches bytes
matches-bytes_eq img p [] e = refl
matches-bytes_eq img p (c ∷ cs) e = go (img p == c) refl e (matches-bytes_eq img (p + 1) cs)
  where
    go :
        (b : Bool)
        → (img p == c) ≡ b
        → (b && matches img (p + 1) cs) ≡ true
        → (matches img (p + 1) cs ≡ true → bytes img (p + 1) (length cs) ≡ cs)
        → img p ∷ bytes img (p + 1) (length cs) ≡ c ∷ cs
    go true is_c e step = ap₂ ◌∷◌ (ground arith) (step e)
    go false is_c e step = absurd (no_match e refl)

length-padded : (n : ℕ) (cs : List ℕ) → length cs ≤ n → length (padded n cs) ≡ n
length-padded n cs le =
    length-append cs (replicate (n - length cs) 32)
    ∙ ap (λ k. length cs + k) (length-replicate (n - length cs) 32)
    ∙ omega arith

length-base_part : (cs : List ℕ) (n : ℕ) → length (base_part cs n).0 ≤ n
unfolding base_part
length-base_part [] n = omega arith
length-base_part (c ∷ cs) zero = omega arith
length-base_part (c ∷ cs) (suc n) =
    let le = length-base_part cs n in
    if-elim (λ (r : List ℕ × List ℕ). length r.0 ≤ suc n) (c == 46) _ _ (λ e. omega arith)
      (λ e. omega (arith, le))

length-extension : (cs : List ℕ) (n : ℕ) → length (extension cs n) ≤ n
unfolding extension
length-extension [] n = omega arith
length-extension (c ∷ cs) zero = omega arith
length-extension (c ∷ cs) (suc n) = omega (arith, length-extension cs n)

length-short_name : (name : List ℕ) → length (short_name name) ≡ 11
unfolding short_name
length-short_name name =
    let base = base_part name 8 in
    let ext = extension (skip_dot base.1) 3 in
    length-append (padded 8 base.0) (padded 3 ext)
    ∙ ap₂ ◌+◌ (length-padded 8 base.0 (length-base_part name 8))
        (length-padded 3 ext (length-extension (skip_dot base.1) 3))

-- None of the files has the eleven characters.
abbrev pub Unnamed : (ℕ → ℕ) → List ℕ → List ℕ → Type 0
Unnamed img short fs = (g : ℕ) → Listed g fs → bytes img g 11 ≢ short

-- The first of the files that has them is `f`.
abbrev pub FirstNamed : (ℕ → ℕ) → List ℕ → List ℕ → ℕ → Type 0
FirstNamed img short fs f =
    (before : List ℕ) × (after : List ℕ) × (fs ≡ before ++ (f ∷ after))
    × Unnamed img short before
    × (bytes img f 11 ≡ short)

Looked : (ℕ → ℕ) → List ℕ → Bool → List ℕ → Lookup → Type 0
Looked img short ended fs at_last = (ended ≡ true) × Unnamed img short fs
Looked img short ended fs unseen = (ended ≡ false) × Unnamed img short fs
Looked img short ended fs (found f) = FirstNamed img short fs f

Unnamed-cons :
    (img : ℕ → ℕ) (short : List ℕ) (x : ℕ) (fs : List ℕ)
    → bytes img x 11 ≢ short
    → Unnamed img short fs
    → Unnamed img short (x ∷ fs)
Unnamed-cons img short x fs ne none g (inl e) = λ e'. ne (ap (λ a. bytes img a 11) (sym e) ∙ e')
Unnamed-cons img short x fs ne none g (inr later) = none g later

Looked-cons :
    (img : ℕ → ℕ) (short : List ℕ) (ended : Bool) (x : ℕ) (fs : List ℕ) (r : Lookup)
    → bytes img x 11 ≢ short
    → Looked img short ended fs r
    → Looked img short ended (x ∷ fs) r
unfolding Looked
Looked-cons img short ended x fs at_last ne w = (w.0, Unnamed-cons img short x fs ne w.1)
Looked-cons img short ended x fs unseen ne w = (w.0, Unnamed-cons img short x fs ne w.1)
Looked-cons img short ended x fs (found f) ne (before, after, e, none, named) =
    (x ∷ before, after, ap (λ l. x ∷ l) e, Unnamed-cons img short x before ne none, named)

first_match-Looked :
    (img : ℕ → ℕ) (short : List ℕ) (ended : Bool) (fs : List ℕ)
    → length short ≡ 11
    → Looked img short ended fs (first_match img short (ended, fs))
unfolding first_match Looked
first_match-Looked img short true [] eleven = (refl, λ g is_in. absurd is_in)
first_match-Looked img short false [] eleven = (refl, λ g is_in. absurd is_in)
first_match-Looked img short ended (x ∷ fs) eleven =
    subst (Looked img short ended (x ∷ fs)) (sym (first_match-cons img short ended x fs)) (
      if-elim (Looked img short ended (x ∷ fs)) (matches img x short) (found x)
        (first_match img short (ended, fs))
        (λ e. (
          [],
          fs,
          refl,
          (λ g is_in. absurd is_in),
          ap (bytes img x) (sym eleven) ∙ matches-bytes_eq img x short e,
        ))
        (λ e.
          Looked-cons img short ended x fs (first_match img short (ended, fs))
            (λ e'. no_match (ap (matches img x) (sym e') ∙ matches-bytes img x 11) e)
            (first_match-Looked img short ended fs eleven)))

-- What a read of `len` bytes gives, by the files of the directory.
abbrev pub FileRead : Super → List ℕ → (len : ℕ) → Bool → List ℕ → Reply (List ℕ) → Type 0
FileRead sb short len ended fs (fails code) =
    (code ≡ (if ended then 2 else 3)) × Unnamed sb.image short fs
FileRead sb short len ended fs (done bs) =
    (f : ℕ) × FirstNamed sb.image short fs f
    × (bs ≡ bytes sb.image (data_address sb f) (min (min (size_of sb.image f) len) 512))

Listed-middle :
    (before after : List ℕ) (f : ℕ) (fs : List ℕ) → fs ≡ before ++ (f ∷ after) → Listed f fs
Listed-middle before after f fs e = subst (Listed f) (sym e) (here before)
  where
    here : (xs : List ℕ) → Listed f (xs ++ (f ∷ after))
    here [] = inl refl
    here (x ∷ xs) = inr (here xs)

copy_found-FileRead :
    (sb : Super) (short : List ℕ) (len : ℕ) (ended : Bool) (fs : List ℕ) (r : Lookup)
    → sb.bytes_per_sector ≡ 512
    → ((g : ℕ) → Listed g fs → Placed sb g)
    → Looked sb.image short ended fs r
    → FileRead sb short len ended fs (copy_found sb len r)
unfolding copy_found Looked
copy_found-FileRead sb short len ended fs at_last sector placed w =
    (ap (λ b. if b then 2 else 3) (sym w.0), w.1)
copy_found-FileRead sb short len ended fs unseen sector placed w =
    (ap (λ b. if b then 2 else 3) (sym w.0), w.1)
copy_found-FileRead sb short len ended fs (found f) sector placed w = (
  f,
  w,
  ap (λ (p : ℕ × ℕ). bytes sb.image p.0 p.1)
      (file_data-data_address sb f len sector (placed f (Listed-middle w.0 w.1 f fs w.2))),
)

-- The entries of the root directory.
abbrev pub root_entries : Super → List ℕ
root_entries sb = row (sb.root_dir_sector * 512) (root_sectors sb * 16)

root_files-files_in :
    (sb : Super)
    → root_files sb ≡ (has_last sb.image (root_entries sb), files_in sb.image (root_entries sb))
root_files-files_in sb =
    let start : sb.root_dir_sector + 0 ≡ sb.root_dir_sector = omega arith in
    ap (λ s. files sb.image (s * 512) (root_sectors sb * 16)) start
    ∙ files-files_in sb.image (sb.root_dir_sector * 512) (root_sectors sb * 16)

-- With sectors of 512 bytes and a root directory that ends below 4 GiB, `fat12_list_root` prints,
-- in their order, the name and the size of every file of the root directory: of the entries before
-- the first that starts with 0, those that neither start with 0xE5 nor have the attribute bit 3.
pub fat12_list_root-files_in :
    (sb : Super)
    → Sound sb
    → fat12_list_root sb
      ≡ map (λ a. (name_of sb.image a, size_of sb.image a)) (files_in sb.image (root_entries sb))
fat12_list_root-files_in sb sound =
    fat12_list_root-files sb sound
    ∙ ap₂ map (file_line-name_of sb.image) (ap (λ r. r.1) (root_files-files_in sb))

-- With sectors of 512 bytes, a root directory that ends below 4 GiB, and files that all have a
-- cluster and data below 4 GiB, `fat12_read_file` reads the first file of the directory that has
-- the eleven characters of the short name: from the address of its cluster, as many bytes as the
-- file has and `len` asks for, at most one sector. When no file has them, it gives -2 if the
-- directory has an entry that starts with 0, and -3 if not.
pub fat12_read_file-FileRead :
    (sb : Super) (name : List ℕ) (len : ℕ)
    → Sound sb
    → ((g : ℕ) → Listed g (files_in sb.image (root_entries sb)) → Placed sb g)
    → FileRead sb
        (short_name name)
        len
        (has_last sb.image (root_entries sb))
        (files_in sb.image (root_entries sb))
        (fat12_read_file sb name len)
unfolding fat12_read_file
fat12_read_file-FileRead sb name len sound placed =
    let short = short_name name in
    let es = root_entries sb in
    subst
      (λ r.
        FileRead sb short len (has_last sb.image es) (files_in sb.image es) (copy_found sb len r))
      (sym (search-files sb short sound ∙ ap (first_match sb.image short) (root_files-files_in sb)))
      (copy_found-FileRead sb short len (has_last sb.image es) (files_in sb.image es) _
        sound.sector_size placed
        (first_match-Looked sb.image short (has_last sb.image es) (files_in sb.image es)
          (length-short_name name)))

-- With sectors of 512 bytes and a root directory that ends below 4 GiB, `fat12_read_file` with the
-- printed name of a file, which has a cluster and data below 4 GiB, reads that file from the
-- address of its cluster, at most one sector of it, if its name is stored as FAT demands and no
-- other file of the directory has its eleven characters.
pub fat12_read_file-name_of :
    (sb : Super) (f len : ℕ)
    → Sound sb
    → Listed f (files_in sb.image (root_entries sb))
    → Placed sb f
    → WellNamed sb.image f
    → OnlyName sb.image f (files_in sb.image (root_entries sb))
    → fat12_read_file sb (name_of sb.image f) len
      ≡ done (bytes sb.image (data_address sb f) (min (min (size_of sb.image f) len) 512))
unfolding copy_found fat12_read_file
fat12_read_file-name_of sb f len sound is_in placed named only =
    let short = short_name (name_of sb.image f) in
    let es = root_entries sb in
    let eleven : short ≡ bytes sb.image f 11 =
      ap short_name (sym (display_name-name_of sb.image f))
      ∙ short_name-display_name sb.image f named in
    ap (copy_found sb len) (
      search-files sb short sound
      ∙ ap (first_match sb.image short) (root_files-files_in sb)
      ∙ first_match-Listed sb.image short f (has_last sb.image es) (files_in sb.image es)
          (ap (matches sb.image f) eleven ∙ matches-bytes sb.image f 11) is_in
          (λ g h e.
            only g h (bytes-matches sb.image g f 11 (ap (matches sb.image g) (sym eleven) ∙ e))))
    ∙ ap (λ (p : ℕ × ℕ). done (bytes sb.image p.0 p.1))
        (file_data-data_address sb f len sound.sector_size placed)
