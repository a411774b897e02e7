-- ===== src/Fat12/Directory.antt =====
-- The root directory and the files of a FAT12 image as the format has them, apart from the loops of
-- src/kernel/fs/fat/fat12.c, and what the row of entries in Scan comes to.
use lite_core.Prelude.{
  ℕ, zero, suc, ◌+◌, ◌-◌, ◌*◌, ◌/◌, ◌%◌, ◌^◌, ◌≤◌, ◌<◌, ◌≡◌, Bool, true, false, not, ◌&&◌, ◌||◌,
  List, [], ◌∷◌, ◌++◌, if◌then◌else◌, ◌==◌, arith, refl, sym, ap, ap₂, ◌∙◌, fun_ext, min, u32,
}
use lite_core.Fat12.{
  Super, EntryKind, last, skipped, file, entry_at, until_space, until_nul, display_name, file_line,
  file_data, le16, le32, bytes,
}
use lite_core.Fat12.Scan.{files}

-- The elements up to the first that fails a test, and those that pass one.
module _ {ℓ} {A : Type ℓ} where
  abbrev pub take_while : (A → Bool) → List A → List A
  take_while p [] = []
  take_while p (x ∷ xs) = if p x then x ∷ take_while p xs else []

  abbrev pub keep : (A → Bool) → List A → List A
  keep p [] = []
  keep p (x ∷ xs) = if p x then x ∷ keep p xs else keep p xs

  keep-if :
      (p : A → Bool) (b : Bool) (x : A) (xs : List A)
      → keep p (if b then x ∷ xs else [])
        ≡ (if b then (if p x then x ∷ keep p xs else keep p xs) else [])
  keep-if p true x xs = refl
  keep-if p false x xs = refl

-- `n` entries of 32 bytes.
abbrev pub row : (ent n : ℕ) → List ℕ
row ent zero = []
row ent (suc n) = ent ∷ row (ent + 32) n

-- An entry that was not deleted and is no volume label.
abbrev pub is_file : (ℕ → ℕ) → ℕ → Bool
is_file img a = not (img a == 0xE5) && not (img (a + 11) / 8 % 2 == 1)

-- The files before the first entry that starts with 0.
abbrev pub files_in : (ℕ → ℕ) → List ℕ → List ℕ
files_in img es = keep (is_file img) (take_while (λ a. not (img a == 0)) es)

abbrev pub has_last : (ℕ → ℕ) → List ℕ → Bool
has_last img [] = false
has_last img (a ∷ es) = (img a == 0) || has_last img es

abbrev pub trimmed : (ℕ → ℕ) → (p n : ℕ) → List ℕ
unfolding bytes
trimmed img p n = take_while (λ c. not (c == 32)) (bytes img p n)

abbrev pub dotted : List ℕ → List ℕ
dotted [] = []
dotted (c ∷ cs) = 46 ∷ c ∷ cs

-- The name and the size of the file at an entry.
abbrev pub name_of : (ℕ → ℕ) → ℕ → List ℕ
name_of img a = take_while (λ c. not (c == 0)) (trimmed img a 8 ++ dotted (trimmed img (a + 8) 3))

abbrev pub size_of : (ℕ → ℕ) → ℕ → ℕ
size_of img a = img (a + 28) + img (a + 29) * 2 ^ 8 + img (a + 30) * 2 ^ 16 + img (a + 31) * 2 ^ 24

abbrev pub cluster_of : (ℕ → ℕ) → ℕ → ℕ
cluster_of img a = img (a + 26) + img (a + 27) * 2 ^ 8

-- The data of the file at an entry: cluster 2 is the first behind the root directory.
abbrev pub data_address : Super → ℕ → ℕ
data_address sb a =
    (sb.first_data_sector + (cluster_of sb.image a - 2) * sb.sectors_per_cluster) * 512

-- The file has a cluster, and its data start below 4 GiB.
pub record Placed (sb : Super) (a : ℕ) : Type 0 where
  pub first : 2 ≤ cluster_of sb.image a
  pub word : cluster_of sb.image a < 2 ^ 16
  pub below : data_address sb a < 2 ^ 32

step : EntryKind → ℕ → Bool × List ℕ → Bool × List ℕ
step k a (ended, fs) = elim k [ last ↦ (true, []) | skipped ↦ (ended, fs) | file ↦ (ended, a ∷ fs) ]

kinds :
    (z d l : Bool) (a : ℕ) (r : Bool × List ℕ)
    → step (if z then last else if d then skipped else if l then skipped else file) a r
      ≡ ((z || r.0), (if not z then (if not d && not l then a ∷ r.1 else r.1) else []))
unfolding step
kinds true d l a (ended, fs) = refl
kinds false true l a (ended, fs) = refl
kinds false false true a (ended, fs) = refl
kinds false false false a (ended, fs) = refl

pub files-files_in :
    (img : ℕ → ℕ) (ent n : ℕ)
    → files img ent n ≡ (has_last img (row ent n), files_in img (row ent n))
unfolding files entry_at step
files-files_in img ent zero = refl
files-files_in img ent (suc n) =
    ap (step (entry_at img ent) ent) (files-files_in img (ent + 32) n)
    ∙ kinds (img ent == 0) (img ent == 0xE5) (img (ent + 11) / 8 % 2 == 1) ent _
    ∙ ap (λ fs. (has_last img (row ent (suc n)), fs))
        (sym (
          keep-if (is_file img) (not (img ent == 0)) ent
            (take_while (λ a. not (img a == 0)) (row (ent + 32) n))))

until_space-trimmed : (img : ℕ → ℕ) (p n : ℕ) → until_space img p n ≡ trimmed img p n
unfolding until_space bytes
until_space-trimmed img p zero = refl
until_space-trimmed img p (suc n) = go (img p == 32) (until_space-trimmed img (p + 1) n)
  where
    go :
        (b : Bool)
        → until_space img (p + 1) n ≡ trimmed img (p + 1) n
        → (if b then [] else img p ∷ until_space img (p + 1) n)
          ≡ (if not b then img p ∷ trimmed img (p + 1) n else [])
    go true e = refl
    go false e = ap (λ cs. img p ∷ cs) e

until_nul-take_while : (cs : List ℕ) → until_nul cs ≡ take_while (λ c. not (c == 0)) cs
unfolding until_nul
until_nul-take_while [] = refl
until_nul-take_while (c ∷ cs) = go (c == 0) (until_nul-take_while cs)
  where
    go :
        (b : Bool)
        → until_nul cs ≡ take_while (λ c. not (c == 0)) cs
        → (if b then [] else c ∷ until_nul cs)
          ≡ (if not b then c ∷ take_while (λ c. not (c == 0)) cs else [])
    go true e = refl
    go false e = ap (λ xs. c ∷ xs) e

dot-dotted :
    (img : ℕ → ℕ) (p : ℕ)
    → (if img p == 32 then [] else 46 ∷ trimmed img p 3) ≡ dotted (trimmed img p 3)
unfolding bytes
dot-dotted img p = go (img p == 32) (trimmed img (p + 1) 2)
  where
    go :
        (b : Bool) (cs : List ℕ)
        → (if b then [] else 46 ∷ (if not b then img p ∷ cs else []))
          ≡ dotted (if not b then img p ∷ cs else [])
    go true cs = refl
    go false cs = refl

pub display_name-name_of : (img : ℕ → ℕ) (a : ℕ) → display_name img a ≡ name_of img a
unfolding display_name
display_name-name_of img a =
    until_nul-take_while
      (until_space img a 8 ++ (if img (a + 8) == 32 then [] else 46 ∷ until_space img (a + 8) 3))
    ∙ ap (take_while (λ c. not (c == 0))) (
        ap₂ ◌++◌ (until_space-trimmed img a 8) (
          ap (λ cs. if img (a + 8) == 32 then [] else 46 ∷ cs) (until_space-trimmed img (a + 8) 3)
          ∙ dot-dotted img (a + 8)))

le16-cluster_of : (img : ℕ → ℕ) (a : ℕ) → le16 img (a + 26) ≡ cluster_of img a
unfolding le16
le16-cluster_of img a =
    let at : a + 26 + 1 ≡ a + 27 = omega arith in ap (λ k. img (a + 26) + img k * 2 ^ 8) at

le32-size_of : (img : ℕ → ℕ) (a : ℕ) → le32 img (a + 28) ≡ size_of img a
unfolding le32
le32-size_of img a =
    let at_1 : a + 28 + 1 ≡ a + 29 = omega arith in
    let at_2 : a + 28 + 2 ≡ a + 30 = omega arith in
    let at_3 : a + 28 + 3 ≡ a + 31 = omega arith in
    ap (λ k. img (a + 28) + img k * 2 ^ 8 + img (a + 28 + 2) * 2 ^ 16 + img (a + 28 + 3) * 2 ^ 24)
      at_1
    ∙ ap (λ k. img (a + 28) + img (a + 29) * 2 ^ 8 + img k * 2 ^ 16 + img (a + 28 + 3) * 2 ^ 24)
        at_2
    ∙ ap (λ k. img (a + 28) + img (a + 29) * 2 ^ 8 + img (a + 30) * 2 ^ 16 + img k * 2 ^ 24) at_3

pub file_line-name_of : (img : ℕ → ℕ) → file_line img ≡ (λ a. (name_of img a, size_of img a))
unfolding file_line
file_line-name_of img =
    fun_ext (λ a. ap₂ (λ cs n. (cs, n)) (display_name-name_of img a) (le32-size_of img a))

-- The bytes that a read copies, at most one sector.
pub file_data-data_address :
    (sb : Super) (a len : ℕ)
    → sb.bytes_per_sector ≡ 512
    → Placed sb a
    → file_data sb a len ≡ (data_address sb a, min (min (size_of sb.image a) len) 512)
unfolding file_data
file_data-data_address sb a len sector placed =
    let cluster = cluster_of sb.image a in
    let back : u32 (cluster + (2 ^ 32 - 2)) ≡ cluster - 2 =
      omega (arith, placed.first, placed.word) in
    let below : (sb.first_data_sector + (cluster - 2) * sb.sectors_per_cluster) * 512 < 2 ^ 32 =
      placed.below in
    let at : ℕ → ℕ → ℕ → ℕ × ℕ = λ c n b. (
      u32 (u32 (sb.first_data_sector + u32 (c * sb.sectors_per_cluster)) * b),
      min (min n len) b,
    ) in
    ap₂ (λ c n. at (u32 (c + (2 ^ 32 - 2))) n sb.bytes_per_sector) (le16-cluster_of sb.image a)
      (le32-size_of sb.image a)
    ∙ ap₂ (λ c b. at c (size_of sb.image a) b) back sector
    ∙ ap (λ k. (k, min (min (size_of sb.image a) len) 512)) (omega (arith, below))
