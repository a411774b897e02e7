-- ===== src/Kmalloc/Join.antt =====
-- The joining of neighbours on the list of free blocks.
use lite_core.Prelude.{
  ℕ, ◌+◌, ◌≤◌, ◌<◌, ◌≡◌, inl, inr, List, [], ◌∷◌, arith, if◌then◌else◌, ◌==◌, refl, subst,
  Bool-cases,
}
use lite_core.Kmalloc.Chain.{Block, Layout}
use lite_core.Kmalloc.Fit.{free_bytes}

-- Neighbours that touch become one block; `(a, s)` is the first.
unfoldable pub join_from : (a s : ℕ) → List Block → List Block
join_from a s [] = (a, s) ∷ []
join_from a s ((b, m) ∷ bs) =
    let joined = join_from a (s + m) bs in
    let kept = (a, s) ∷ join_from b m bs in if a + s == b then joined else kept

unfoldable pub join : List Block → List Block
unfolding join_from
join [] = []
join ((a, s) ∷ bs) = join_from a s bs

-- No block ends where another begins.
abbrev pub Separate : List Block → Type 0
Separate [] = Unit
Separate ((a, s) ∷ []) = Unit
Separate ((a, s) ∷ (b, m) ∷ bs) = (a + s < b) × Separate ((b, m) ∷ bs)

-- Joining loses no byte, keeps the layout, and leaves no two neighbours that touch.
pub record Joined (a s hi : ℕ) (bs out : List Block) : Type 0 where
  pub first : (t : ℕ) × (rest : List Block) × (out ≡ (a, t) ∷ rest)
  pub bytes : free_bytes out ≡ s + free_bytes bs
  pub layout : (lo : ℕ) → lo ≤ a → Layout lo hi out
  pub separate : Separate out

Separate-cons :
    (a s b t : ℕ) (out rest : List Block)
    → a + s < b
    → out ≡ (b, t) ∷ rest
    → Separate out
    → Separate ((a, s) ∷ out)
Separate-cons a s b t [] rest lt e sep = tt
Separate-cons a s b t ((c, u) ∷ out) rest lt e sep = (ground arith, sep)

pub Layout-touch :
    (a s b m hi : ℕ) (bs : List Block)
    → a + s ≡ b
    → Layout (b + m) hi bs
    → Layout (a + (s + m)) hi bs
Layout-touch a s b m hi bs e = subst (λ lo. Layout lo hi bs) (omega arith)

pub join_from-Joined :
    (a s hi : ℕ) (bs : List Block)
    → 16 ≤ s
    → Layout (a + s) hi bs
    → Joined a s hi bs (join_from a s bs)
unfolding join_from
join_from-Joined a s hi [] room l = record {
  first = (s, [], refl);
  bytes = omega arith;
  layout = λ lo le. (le, room, l);
  separate = tt;
}
join_from-Joined a s hi ((b, m) ∷ bs) room l = elim (Bool-cases (a + s == b)) [
  | inl touch ↦
      let j =
        join_from-Joined a (s + m) hi bs (omega arith)
          (Layout-touch a s b m hi bs (ground arith) l.2) in
      rw touch (record {
        first = j.first;
        bytes = omega (arith, j.bytes);
        layout = j.layout;
        separate = j.separate;
      })
  | inr gap ↦
      let j = join_from-Joined b m hi bs l.1 l.2 in
      rw gap (record {
        first = (s, join_from b m bs, refl);
        bytes = omega (arith, j.bytes);
        layout = λ lo le. (le, room, j.layout (a + s) l.0);
        separate =
            Separate-cons a s b j.first.0 (join_from b m bs) j.first.1 (ground arith) j.first.2
              j.separate;
      })
]
