-- ===== src/Prelude/Ring.antt =====
-- A ring of slots in a total map: what a window of it holds, and a write just past the window.
use Prim.Native.Nat.{ℕ, zero, suc, ◌+◌, ◌%◌, ◌<◌}
use mathlib.Core.Path.{◌≡◌, refl, ap, ap₂, ◌∙◌, sym}
use native.Mathlib.Nat.{mod-add-mod}
use mathlib.Core.Logic.{◌≢◌}
use mathlib.Core.List.{List, [], ◌∷◌, ◌++◌}
use native.Mathlib.Omega.{arith}
use lite_core.Prelude.Lists.{length, update}

module _ {A : Type 0} (buf : ℕ → A) (size : ℕ) where
  -- The `len` slots from `first` on, going round at `size`.
  abbrev pub window : ℕ → ℕ → List A
  window first zero = []
  window first (suc len) = buf (first % size) ∷ window (first + 1) len

  pub length-window : (first len : ℕ) → length (window first len) ≡ len
  length-window first zero = refl
  length-window first (suc len) = ap suc (length-window (first + 1) len)

  pub window_snoc :
      (first len : ℕ)
      → window first (suc len) ≡ window first len ++ (buf ((first + len) % size) ∷ [])
  window_snoc first zero = ap (λ k. buf (k % size) ∷ []) (omega arith)
  window_snoc first (suc len) =
      ap (λ l. buf (first % size) ∷ l)
        (window_snoc (first + 1) len
          ∙ ap (λ k. window (first + 1) len ++ (buf (k % size) ∷ [])) (omega arith))

module _ {A : Type 0} (buf : ℕ → A) (size j : ℕ) (v : A) where
  -- A write outside the window does not show.
  pub window-update :
      (first len : ℕ)
      → ((i : ℕ) → i < len → (first + i) % size ≢ j)
      → window (update buf j v) size first len ≡ window buf size first len
  window-update first zero apart = refl
  window-update first (suc len) apart = ap₂ ◌∷◌ (untouched (apart 0 (omega arith))) (
      window-update (first + 1) len
        (λ i lt e. apart (suc i) (omega arith) (ap (λ k. k % size) (omega arith) ∙ e)))
    where
      untouched : (first + 0) % size ≢ j → update buf j v (first % size) ≡ buf (first % size)
      untouched ne =
          let e : (first + 0) % size ≡ first % size = ap (λ k. k % size) (omega arith) in
          ground arith

-- Only the start modulo `size` counts.
pub window-mod :
    {A : Type 0} (buf : ℕ → A) (size first k len : ℕ)
    → first % size ≡ k % size
    → window buf size first len ≡ window buf size k len
window-mod buf size first k zero e = refl
window-mod buf size first k (suc len) e = ap₂ ◌∷◌ (ap buf e) (
    window-mod buf size (first + 1) (k + 1) len
      (sym (mod-add-mod first size 1) ∙ ap (λ x. (x + 1) % size) e ∙ mod-add-mod k size 1))
