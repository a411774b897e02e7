-- ===== src/Fat12/Scan.antt =====
-- The root directory of src/kernel/fs/fat/fat12.c as one row of entries, and the loops over its
-- sectors.
use mathlib.Core.List.{map-append}
use lite_core.Prelude.{
  ℕ, zero, suc, ◌+◌, ◌*◌, ◌≡◌, Bool, true, false, List, [], ◌∷◌, ◌++◌, map, if◌then◌else◌, arith,
  refl, sym, ap, ◌∙◌,
}
use lite_core.Fat12.{
  EntryKind, last, skipped, file, entry_at, file_line, list_sector, Lookup, at_last, unseen, found,
  matches, search_sector,
}

-- Whether the last entry is met in the `n` entries from `ent` on, and the files before it.
unfoldable pub files : (ℕ → ℕ) → (ent n : ℕ) → Bool × List ℕ
unfolding entry_at
files img ent zero = (false, [])
files img ent (suc n) =
    let (ended, fs) = files img (ent + 32) n in
    elim (entry_at img ent) [ last ↦ (true, []) | skipped ↦ (ended, fs) | file ↦ (ended, ent ∷ fs) ]

-- The first of the files with the short name.
unfoldable pub first_match : (ℕ → ℕ) → List ℕ → Bool × List ℕ → Lookup
unfolding matches
first_match img short (true, []) = at_last
first_match img short (false, []) = unseen
first_match img short (ended, f ∷ fs) =
    if matches img f short then found f else first_match img short (ended, fs)

-- The files of two rows.
unfoldable pub joined : Bool × List ℕ → Bool × List ℕ → Bool × List ℕ
joined (true, xs) later = (true, xs)
joined (false, xs) (ended, ys) = (ended, xs ++ ys)

abbrev pub lines_of : (ℕ → ℕ) → Bool × List ℕ → Bool × List (List ℕ × ℕ)
lines_of img (ended, fs) = (ended, map (file_line img) fs)

pub list_sector-files :
    (img : ℕ → ℕ) (ent n : ℕ) → list_sector img ent n ≡ lines_of img (files img ent n)
unfolding list_sector files
list_sector-files img ent zero = refl
list_sector-files img ent (suc n) = go (entry_at img ent) (list_sector-files img (ent + 32) n)
  where
    go :
        (e : EntryKind)
        → list_sector img (ent + 32) n ≡ lines_of img (files img (ent + 32) n)
        → (elim e as (λ x. Bool × List (List ℕ × ℕ)) [
          | last ↦ (true, [])
          | skipped ↦ list_sector img (ent + 32) n
          | file ↦ (
            (list_sector img (ent + 32) n).0,
            file_line img ent ∷ (list_sector img (ent + 32) n).1,
          )
        ])
          ≡ lines_of img (elim e as (λ x. Bool × List ℕ) [
            | last ↦ (true, [])
            | skipped ↦ files img (ent + 32) n
            | file ↦ ((files img (ent + 32) n).0, ent ∷ (files img (ent + 32) n).1)
          ])
    go last h = refl
    go skipped h = h
    go file h = ap (λ r. (r.0, file_line img ent ∷ r.1)) h

pub search_sector-files :
    (img : ℕ → ℕ) (short : List ℕ) (ent n : ℕ)
    → search_sector img short ent n ≡ first_match img short (files img ent n)
unfolding search_sector files first_match
search_sector-files img short ent zero = refl
search_sector-files img short ent (suc n) =
    go (entry_at img ent) (search_sector-files img short (ent + 32) n)
  where
    go :
        (e : EntryKind)
        → search_sector img short (ent + 32) n ≡ first_match img short (files img (ent + 32) n)
        → (elim e as (λ x. Lookup) [
          | last ↦ at_last
          | skipped ↦ search_sector img short (ent + 32) n
          | file ↦ if matches img ent short then found ent else search_sector img short (ent + 32) n
        ])
          ≡ first_match img short (elim e as (λ x. Bool × List ℕ) [
            | last ↦ (true, [])
            | skipped ↦ files img (ent + 32) n
            | file ↦ ((files img (ent + 32) n).0, ent ∷ (files img (ent + 32) n).1)
          ])
    go last h = refl
    go skipped h = h
    go file h = ap (λ r. if matches img ent short then found ent else r) h

pub files-add :
    (img : ℕ → ℕ) (ent n m : ℕ)
    → files img ent (n + m) ≡ joined (files img ent n) (files img (ent + n * 32) m)
unfolding files joined
files-add img ent zero m =
    let none_before : 0 + m ≡ m = omega arith in
    let here : ent ≡ ent + 0 * 32 = omega arith in
    ap (files img ent) none_before ∙ ap (λ a. files img a m) here
files-add img ent (suc n) m =
    let one_more : suc n + m ≡ suc (n + m) = omega arith in
    let there : ent + 32 + n * 32 ≡ ent + suc n * 32 = omega arith in
    ap (files img ent) one_more
    ∙ go (entry_at img ent) (files img (ent + 32) n) (
        files-add img (ent + 32) n m
        ∙ ap (λ a. joined (files img (ent + 32) n) (files img a m)) there)
  where
    step : EntryKind → Bool × List ℕ → Bool × List ℕ
    step k r = elim k as (λ x. Bool × List ℕ) [
      | last ↦ (true, [])
      | skipped ↦ r
      | file ↦ (r.0, ent ∷ r.1)
    ]

    go :
        (k : EntryKind) (r : Bool × List ℕ)
        → files img (ent + 32) (n + m) ≡ joined r (files img (ent + suc n * 32) m)
        → step k (files img (ent + 32) (n + m)) ≡ joined (step k r) (files img (ent + suc n * 32) m)
    go last r h = refl
    go skipped r h = h
    go file (true, xs) h = ap (λ q. (q.0, ent ∷ q.1)) h
    go file (false, xs) h = ap (λ q. (q.0, ent ∷ q.1)) h

pub lines-joined :
    (img : ℕ → ℕ) (a b : Bool × List ℕ)
    → (if (lines_of img a).0 then (lines_of img a).1 else (lines_of img a).1 ++ (lines_of img b).1)
      ≡ (lines_of img (joined a b)).1
unfolding joined
lines-joined img (true, xs) b = refl
lines-joined img (false, xs) (ended, ys) = sym (map-append (file_line img) xs ys)

unfoldable pub continued : Lookup → Lookup → Lookup
continued at_last later = at_last
continued unseen later = later
continued (found ent) later = found ent

pub first_match-joined :
    (img : ℕ → ℕ) (short : List ℕ) (a b : Bool × List ℕ)
    → continued (first_match img short a) (first_match img short b)
      ≡ first_match img short (joined a b)
unfolding first_match joined continued
first_match-joined img short (true, []) b = refl
first_match-joined img short (false, []) (ended, ys) = refl
first_match-joined img short (true, f ∷ xs) b =
    go (matches img f short) (first_match-joined img short (true, xs) b)
  where
    go :
        (c : Bool)
        → continued (first_match img short (true, xs)) (first_match img short b)
          ≡ first_match img short (true, xs)
        → continued
            (if c then found f else first_match img short (true, xs))
            (first_match img short b)
          ≡ (if c then found f else first_match img short (true, xs))
    go true h = refl
    go false h = h
first_match-joined img short (false, f ∷ xs) (ended, ys) =
    go (matches img f short) (first_match-joined img short (false, xs) (ended, ys))
  where
    go :
        (c : Bool)
        → continued (first_match img short (false, xs)) (first_match img short (ended, ys))
          ≡ first_match img short (ended, xs ++ ys)
        → continued
            (if c then found f else first_match img short (false, xs))
            (first_match img short (ended, ys))
          ≡ (if c then found f else first_match img short (ended, xs ++ ys))
    go true h = refl
    go false h = h
