-- ===== src/Kmalloc/Fit.antt =====
-- First fit on the list of free blocks: no byte is lost, and the block given out lies apart.
use mathlib.Core.Option
use lite_core.Prelude.{
  ℕ, ◌+◌, ◌≤◌, ◌<◌, ◌≡◌, ◌⊎◌, inl, inr, List, [], ◌∷◌, Option, none, some, arith, leb, Bool-cases,
}
use lite_core.Kmalloc.Chain.{Block, Layout, Layout-lower, lo-le-hi}
use lite_core.Kmalloc.FirstFit.{first_fit}

-- The bytes of the free blocks, headers included.
abbrev pub free_bytes : List Block → ℕ
free_bytes [] = 0
free_bytes ((a, s) ∷ bs) = s + free_bytes bs

-- `[a, a + n)` meets none of the blocks.
abbrev pub Apart : ℕ → ℕ → List Block → Type 0
Apart a n [] = Unit
Apart a n ((b, m) ∷ bs) = ((b + m ≤ a) ⊎ (a + n ≤ b)) × Apart a n bs

-- Every free block is smaller than `total`.
abbrev pub AllBelow : ℕ → List Block → Type 0
AllBelow total [] = Unit
AllBelow total ((a, s) ∷ bs) = (s < total) × AllBelow total bs

pub Apart-below : (a n lo hi : ℕ) (bs : List Block) → a + n ≤ lo → Layout lo hi bs → Apart a n bs
Apart-below a n lo hi [] le l = tt
Apart-below a n lo hi ((b, m) ∷ bs) le l =
    (inr (omega arith), Apart-below a n (b + m) hi bs (omega arith) l.2)

-- What first fit promises of a block `[a, a + n)` taken from `bs`, leaving `rest`.
pub record Granted (total lo hi : ℕ) (bs : List Block) (a n : ℕ) (rest : List Block) : Type 0 where
  pub enough : total ≤ n
  pub tight : n < total + 32
  pub above : lo ≤ a
  pub inside : a + n ≤ hi
  pub layout : Layout lo hi rest
  pub bytes : free_bytes bs ≡ n + free_bytes rest
  pub apart : Apart a n rest

Granted-cons :
    (total lo hi a s b n : ℕ) (bs rest : List Block)
    → Layout lo hi ((a, s) ∷ bs)
    → Granted total (a + s) hi bs b n rest
    → Granted total lo hi ((a, s) ∷ bs) b n ((a, s) ∷ rest)
Granted-cons total lo hi a s b n bs rest l g = record {
  enough = g.enough;
  tight = g.tight;
  above = omega arith;
  inside = g.inside;
  layout = (l.0, l.1, g.layout);
  bytes = omega arith;
  apart = (inl g.above, g.apart);
}

abbrev pub Fitted : (total lo hi : ℕ) → List Block → Option (ℕ × ℕ × List Block) → Type 0
Fitted total lo hi bs none = AllBelow total bs
Fitted total lo hi bs (some (a, n, rest)) = Granted total lo hi bs a n rest

Fitted-cons :
    (total lo hi a s : ℕ) (bs : List Block) (o : Option (ℕ × ℕ × List Block))
    → Layout lo hi ((a, s) ∷ bs)
    → s < total
    → Fitted total (a + s) hi bs o
    → Fitted total lo hi ((a, s) ∷ bs) (Option.map (λ (b, n, rest). (b, n, (a, s) ∷ rest)) o)
Fitted-cons total lo hi a s bs none l few f = (few, f)
Fitted-cons total lo hi a s bs (some (b, n, rest)) l few f =
    Granted-cons total lo hi a s b n bs rest l f

-- The block given out is large enough and lies in the heap, apart from what stays free, and the
-- free bytes fall by its size; first fit fails only where every block is too small.
pub first_fit-Fitted :
    (total lo hi : ℕ) (bs : List Block)
    → 16 ≤ total
    → Layout lo hi bs
    → Fitted total lo hi bs (first_fit total bs)
unfolding first_fit
first_fit-Fitted total lo hi [] pos l = tt
first_fit-Fitted total lo hi ((a, s) ∷ bs) pos l = elim (Bool-cases (leb (total + 32) s)) [
  | inl big ↦
      let fits : total + 32 ≤ s = ground arith in
      let inside = lo-le-hi (a + s) hi bs l.2 in
      rw big (record {
        enough = omega arith;
        tight = omega arith;
        above = l.0;
        inside = omega arith;
        layout = (omega arith, omega arith, Layout-lower (a + s) _ hi bs (omega arith) l.2);
        bytes = omega arith;
        apart = (inr (omega arith), Apart-below a total (a + s) hi bs (omega arith) l.2);
      })
  | inr few ↦ elim (Bool-cases (leb total s)) [
    | inl enough ↦
        rw (few, enough)
          (record {
            enough = ground arith;
            tight = ground arith;
            above = l.0;
            inside = lo-le-hi (a + s) hi bs l.2;
            layout = Layout-lower (a + s) lo hi bs (omega arith) l.2;
            bytes = omega arith;
            apart = Apart-below a s (a + s) hi bs (omega arith) l.2;
          })
    | inr short ↦
        rw (few, short)
          (Fitted-cons total lo hi a s bs (first_fit total bs) l (ground arith)
            (first_fit-Fitted total (a + s) hi bs pos l.2))
  ]
]
