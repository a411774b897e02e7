-- ===== src/Fat12/Names.antt =====
-- The 8.3 names of src/kernel/fs/fat/fat12.c, printed and looked for.
use lite_core.Prelude.{
  ℕ, zero, suc, ◌+◌, ◌-◌, ◌<◌, ◌≡◌, ◌≢◌, inl, inr, ◌⊎◌, true, false, ◌&&◌, List, [], ◌∷◌, ◌++◌,
  length, replicate, if◌then◌else◌, if-elim, if-false, ◌==◌, arith, refl, sym, ap, ap₂, ◌∙◌, subst,
}
use lite_core.Fat12.{
  until_space, until_nul, display_name, to_upper, base_part, skip_dot, extension, padded,
  short_name, bytes, matches,
}

differ : (a b : ℕ) → a ≢ b → (a == b) ≡ false
differ a b ne = ground arith

-- After a space a field of `n` characters has only spaces.
abbrev pub SpacesLast : (ℕ → ℕ) → (p n : ℕ) → Type 0
SpacesLast img p n = (i : ℕ) → i + 1 < n → img (p + i) ≡ 32 → img (p + (i + 1)) ≡ 32

-- An entry whose name is stored as FAT demands: no small letters, no dot in the first field, spaces
-- at the ends, no NUL.
pub record WellNamed (img : ℕ → ℕ) (ent : ℕ) : Type 0 where
  pub capitals : (i : ℕ) → i < 11 → to_upper (img (ent + i)) ≡ img (ent + i)
  pub no_dot : (i : ℕ) → i < 8 → img (ent + i) ≢ 46
  pub no_nul : (i : ℕ) → i < 11 → img (ent + i) ≢ 0
  pub base_padded : SpacesLast img ent 8
  pub extension_padded : SpacesLast img (ent + 8) 3

shift : (p i : ℕ) → p + 1 + i ≡ p + (i + 1)
shift p i = omega arith

spaces :
    (img : ℕ → ℕ) (p n : ℕ)
    → img p ≡ 32
    → SpacesLast img p (suc n)
    → replicate (suc n) 32 ≡ bytes img p (suc n)
unfolding bytes
spaces img p zero space pad = ap (λ c. c ∷ []) (sym space)
spaces img p (suc n) space pad =
    let next : img (p + 1) ≡ 32 = pad 0 (omega arith) (ap img (omega arith) ∙ space) in
    ap₂ ◌∷◌ (sym space) (
      spaces img (p + 1) n next (λ i lt e.
        ap img (shift p (i + 1)) ∙ pad (i + 1) (omega (arith, lt)) (ap img (sym (shift p i)) ∙ e)))

padded-until_space :
    (img : ℕ → ℕ) (p n : ℕ) → SpacesLast img p n → padded n (until_space img p n) ≡ bytes img p n
unfolding until_space bytes
padded-until_space img p zero pad = refl
padded-until_space img p (suc n) pad =
    let all : suc n - 0 ≡ suc n = omega arith in
    if-elim (λ cs. padded (suc n) cs ≡ bytes img p (suc n)) (img p == 32) []
      (img p ∷ until_space img (p + 1) n)
      (λ e.
        let space : img p ≡ 32 = ground arith in
        ap (λ k. replicate k 32) all ∙ spaces img p n space pad)
      (λ e.
        let same : suc n - suc (length (until_space img (p + 1) n))
            ≡ n - length (until_space img (p + 1) n) =
          omega arith in
        ap (λ k. img p ∷ (until_space img (p + 1) n ++ replicate k 32)) same
        ∙ ap (λ cs. img p ∷ cs)
            (padded-until_space img (p + 1) n (λ i lt e.
              ap img (shift p (i + 1))
              ∙ pad (i + 1) (omega (arith, lt)) (ap img (sym (shift p i)) ∙ e))))

extension-until_space :
    (img : ℕ → ℕ) (p n : ℕ)
    → ((i : ℕ) → i < n → to_upper (img (p + i)) ≡ img (p + i))
    → extension (until_space img p n) n ≡ until_space img p n
unfolding until_space extension
extension-until_space img p zero capitals = refl
extension-until_space img p (suc n) capitals =
    let first : to_upper (img p) ≡ img p =
      ap (λ a. to_upper (img a)) (omega arith) ∙ capitals 0 (omega arith) ∙ ap img (omega arith) in
    if-elim (λ cs. extension cs (suc n) ≡ cs) (img p == 32) [] (img p ∷ until_space img (p + 1) n)
      (λ e. refl)
      (λ e. ap₂ ◌∷◌ first (
        extension-until_space img (p + 1) n (λ i lt.
          ap (λ a. to_upper (img a)) (shift p i)
          ∙ capitals (i + 1) (omega (arith, lt))
          ∙ ap img (sym (shift p i)))))

-- What follows the first part of a name: nothing, or a dot.
abbrev Tail : List ℕ → Type 0
Tail tail = (tail ≡ []) ⊎ ((cs : List ℕ) × (tail ≡ 46 ∷ cs))

base_part-dot : (cs : List ℕ) (n : ℕ) → base_part (46 ∷ cs) n ≡ ([], 46 ∷ cs)
unfolding base_part
base_part-dot cs zero = refl
base_part-dot cs (suc n) = refl

base_part-Tail : (tail : List ℕ) (n : ℕ) → Tail tail → base_part tail n ≡ ([], tail)
unfolding base_part
base_part-Tail tail n (inl e) = subst (λ cs. base_part cs n ≡ ([], cs)) (sym e) refl
base_part-Tail tail n (inr (cs, e)) =
    subst (λ cs. base_part cs n ≡ ([], cs)) (sym e) (base_part-dot cs n)

base_part-until_space :
    (img : ℕ → ℕ) (p n : ℕ) (tail : List ℕ)
    → Tail tail
    → ((i : ℕ) → i < n → to_upper (img (p + i)) ≡ img (p + i))
    → ((i : ℕ) → i < n → img (p + i) ≢ 46)
    → base_part (until_space img p n ++ tail) n ≡ (until_space img p n, tail)
unfolding until_space base_part
base_part-until_space img p zero tail t capitals no_dot = base_part-Tail tail 0 t
base_part-until_space img p (suc n) tail t capitals no_dot =
    let first : to_upper (img p) ≡ img p =
      ap (λ a. to_upper (img a)) (omega arith) ∙ capitals 0 (omega arith) ∙ ap img (omega arith) in
    let here : p + 0 ≡ p = omega arith in
    let other : img p ≢ 46 = subst (λ a. img a ≢ 46) here (no_dot 0 (omega arith)) in
    if-elim (λ cs. base_part (cs ++ tail) (suc n) ≡ (cs, tail)) (img p == 32) []
      (img p ∷ until_space img (p + 1) n) (λ e. base_part-Tail tail (suc n) t)
      (λ e.
        if-false (img p == 46) _ _ (ground arith)
        ∙ ap₂ (λ c (r : List ℕ × List ℕ). (c ∷ r.0, r.1)) first
            (base_part-until_space img (p + 1) n tail t
              (λ i lt.
                ap (λ a. to_upper (img a)) (shift p i)
                ∙ capitals (i + 1) (omega (arith, lt))
                ∙ ap img (sym (shift p i)))
              (λ i lt e'. no_dot (i + 1) (omega (arith, lt)) (ap img (sym (shift p i)) ∙ e'))))

bytes-add : (img : ℕ → ℕ) (p n m : ℕ) → bytes img p n ++ bytes img (p + n) m ≡ bytes img p (n + m)
unfolding bytes
bytes-add img p zero m =
    let here : p + 0 ≡ p = omega arith in
    let none_before : m ≡ 0 + m = omega arith in
    ap (λ a. bytes img a m) here ∙ ap (bytes img p) none_before
bytes-add img p (suc n) m =
    let one_more : suc (n + m) ≡ suc n + m = omega arith in
    let there : p + suc n ≡ p + 1 + n = omega arith in
    ap (λ a. img p ∷ (bytes img (p + 1) n ++ bytes img a m)) there
    ∙ ap (λ cs. img p ∷ cs) (bytes-add img (p + 1) n m)
    ∙ ap (bytes img p) one_more

pub matches-bytes : (img : ℕ → ℕ) (p n : ℕ) → matches img p (bytes img p n) ≡ true
unfolding matches bytes
matches-bytes img p zero = refl
matches-bytes img p (suc n) = ap₂ ◌&&◌ (self (img p)) (matches-bytes img (p + 1) n)
  where
    self : (c : ℕ) → (c == c) ≡ true
    self c = ground arith

shown : (img : ℕ → ℕ) (ent : ℕ) (tail : List ℕ) → List ℕ
shown img ent tail =
    let (base, rest) = base_part (until_space img ent 8 ++ tail) 8 in
    padded 8 base ++ padded 3 (extension (skip_dot rest) 3)

NoNul : List ℕ → Type 0
NoNul [] = Unit {0}
NoNul (c ∷ cs) = (c ≢ 0) × NoNul cs

until_nul-NoNul : (cs : List ℕ) → NoNul cs → until_nul cs ≡ cs
unfolding until_nul NoNul
until_nul-NoNul [] w = refl
until_nul-NoNul (c ∷ cs) w =
    if-false (c == 0) [] (c ∷ until_nul cs) (differ c 0 w.0)
    ∙ ap (λ xs. c ∷ xs) (until_nul-NoNul cs w.1)

NoNul-append : (xs ys : List ℕ) → NoNul xs → NoNul ys → NoNul (xs ++ ys)
unfolding NoNul
NoNul-append [] ys w w' = w'
NoNul-append (x ∷ xs) ys w w' = (w.0, NoNul-append xs ys w.1 w')

until_space-NoNul :
    (img : ℕ → ℕ) (p n : ℕ) → ((i : ℕ) → i < n → img (p + i) ≢ 0) → NoNul (until_space img p n)
unfolding until_space NoNul
until_space-NoNul img p zero w = tt
until_space-NoNul img p (suc n) w =
    let here : p + 0 ≡ p = omega arith in
    if-elim NoNul (img p == 32) [] (img p ∷ until_space img (p + 1) n) (λ e. tt)
      (λ e. (
        subst (λ a. img a ≢ 0) here (w 0 (omega arith)),
        until_space-NoNul img (p + 1) n
            (λ i lt e'. w (i + 1) (omega (arith, lt)) (ap img (sym (shift p i)) ∙ e')),
      ))

-- The printed name of an entry stands for the eleven characters of the entry.
pub short_name-display_name :
    (img : ℕ → ℕ) (ent : ℕ)
    → WellNamed img ent
    → short_name (display_name img ent) ≡ bytes img ent 11
unfolding short_name display_name skip_dot extension until_space shown NoNul
short_name-display_name img ent w =
    let capitals : (i : ℕ) → i < 3 → to_upper (img (ent + 8 + i)) ≡ img (ent + 8 + i) = λ i lt.
      ap (λ a. to_upper (img a)) (eight i)
      ∙ w.capitals (8 + i) (omega (arith, lt))
      ∙ ap img (sym (eight i)) in
    let fields : (tail : List ℕ)
        → Tail tail
        → shown img ent tail ≡ bytes img ent 8 ++ padded 3 (extension (skip_dot tail) 3) =
      λ tail t.
        ap (λ (r : List ℕ × List ℕ). padded 8 r.0 ++ padded 3 (extension (skip_dot r.1) 3))
          (base_part-until_space img ent 8 tail t (λ i lt. w.capitals i (omega (arith, lt)))
            w.no_dot)
        ∙ ap (λ cs. cs ++ padded 3 (extension (skip_dot tail) 3))
            (padded-until_space img ent 8 w.base_padded) in
    let no_nul : NoNul (
        until_space img ent 8
        ++ (if img (ent + 8) == 32 then [] else 46 ∷ until_space img (ent + 8) 3)) =
      NoNul-append (until_space img ent 8) _
        (until_space-NoNul img ent 8 (λ i lt. w.no_nul i (omega (arith, lt))))
        (if-elim NoNul (img (ent + 8) == 32) [] (46 ∷ until_space img (ent + 8) 3) (λ e. tt)
          (λ e. (
            (λ e'. omega (arith, e')),
            until_space-NoNul img (ent + 8) 3
                (λ i lt e'. w.no_nul (8 + i) (omega (arith, lt)) (ap img (sym (eight i)) ∙ e')),
          ))) in
    ap short_name (until_nul-NoNul _ no_nul)
    ∙ if-elim (λ tail. shown img ent tail ≡ bytes img ent 11) (img (ent + 8) == 32) []
        (46 ∷ until_space img (ent + 8) 3)
        (λ e.
          let space : img (ent + 8) ≡ 32 = ground arith in
          fields [] (inl refl)
          ∙ ap (λ cs. bytes img ent 8 ++ cs) (spaces img (ent + 8) 2 space w.extension_padded)
          ∙ bytes-add img ent 8 3)
        (λ e.
          fields (46 ∷ until_space img (ent + 8) 3) (inr (until_space img (ent + 8) 3, refl))
          ∙ ap (λ cs. bytes img ent 8 ++ padded 3 cs)
              (extension-until_space img (ent + 8) 3 capitals)
          ∙ ap (λ cs. bytes img ent 8 ++ cs) (padded-until_space img (ent + 8) 3 w.extension_padded)
          ∙ bytes-add img ent 8 3)
  where
    eight : (i : ℕ) → ent + 8 + i ≡ ent + (8 + i)
    eight i = omega arith
