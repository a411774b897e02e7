-- ===== src/Usercopy/Copy.antt =====
-- The copies of src/kernel/mem/usercopy.c, chunk by chunk, against a copy byte by byte.
use lite_core.Prelude.{
  ℕ, zero, suc, ◌+◌, ◌-◌, ◌≤◌, ◌<◌, ◌^◌, ◌≡◌, ◌≢◌, inl, inr, ◌⊎◌, Bool, true, false, ◌||◌, ◌&&◌,
  Option, none, some, arith, if◌then◌else◌, ltb, leb, ◌==◌, add64, refl, ap, ap₂, ◌∙◌, sym,
  Bool-cases, update,
}
use lite_core.Usercopy.{
  copy_bytes, chunk, copy_to_pages, copy_from_pages, checked, copy_to_user, copy_from_user,
  validate_user_range,
}
use lite_core.Usercopy.Range.{Checked, validate_user_range-Checked}

copy_at :
    (n : ℕ) {d d' s s' : ℕ} (mem : ℕ → ℕ)
    → d ≡ d'
    → s ≡ s'
    → copy_bytes n d s mem ≡ copy_bytes n d' s' mem
copy_at n mem = ap₂ (λ d s. copy_bytes n d s mem)

copy_bytes-zero : (dst src : ℕ) (mem : ℕ → ℕ) → copy_bytes zero dst src mem ≡ mem
unfolding copy_bytes
copy_bytes-zero dst src mem = refl

copy_bytes_step :
    (n dst src : ℕ) (mem : ℕ → ℕ)
    → dst + 1 < 2 ^ 64
    → src + 1 < 2 ^ 64
    → copy_bytes (suc n) dst src mem ≡ copy_bytes n (dst + 1) (src + 1) (update mem dst (mem src))
unfolding copy_bytes
copy_bytes_step n dst src mem to from =
    copy_at n (update mem dst (mem src)) (omega arith) (omega arith)

-- A copy in two parts.
copy_bytes-add :
    (m n dst src : ℕ) (mem : ℕ → ℕ)
    → dst + m + n < 2 ^ 64
    → src + m + n < 2 ^ 64
    → copy_bytes n (dst + m) (src + m) (copy_bytes m dst src mem) ≡ copy_bytes (m + n) dst src mem
copy_bytes-add zero n dst src mem to from =
    copy_at n _ (omega arith) (omega arith)
    ∙ ap (copy_bytes n dst src) (copy_bytes-zero dst src mem)
    ∙ ap (λ k. copy_bytes k dst src mem) (omega arith)
copy_bytes-add (suc m) n dst src mem to from =
    let mem1 : ℕ → ℕ = update mem dst (mem src) in
    copy_at n _ (omega arith) (omega arith)
    ∙ ap (copy_bytes n (dst + 1 + m) (src + 1 + m))
        (copy_bytes_step m dst src mem (omega arith) (omega arith))
    ∙ copy_bytes-add m n (dst + 1) (src + 1) mem1 (omega arith) (omega arith)
    ∙ sym (copy_bytes_step (m + n) dst src mem (omega arith) (omega arith))
    ∙ ap (λ k. copy_bytes k dst src mem) (omega arith)

-- A chunk is not empty, and not longer than what remains.
chunk_lem :
    (user remaining : ℕ)
    → remaining ≢ 0
    → user + remaining + 4096 ≤ 2 ^ 64
    → (chunk user remaining ≢ 0) × (chunk user remaining ≤ remaining)
unfolding chunk
chunk_lem user remaining ne small = ground arith

-- One chunk and the rest.
chunk_step :
    (n remaining dst src : ℕ) (mem : ℕ → ℕ) (o : Option (ℕ → ℕ))
    → n ≤ remaining
    → dst + remaining < 2 ^ 64
    → src + remaining < 2 ^ 64
    → o ≡ some (copy_bytes (remaining - n) (add64 dst n) (add64 src n) (copy_bytes n dst src mem))
    → o ≡ some (copy_bytes remaining dst src mem)
chunk_step n remaining dst src mem o le to from e =
    e
    ∙ ap some (
        copy_at (remaining - n) _ (omega arith) (omega arith)
        ∙ copy_bytes-add n (remaining - n) dst src mem (omega arith) (omega arith)
        ∙ ap (λ k. copy_bytes k dst src mem) (omega arith))

none_left : (n dst src : ℕ) (mem : ℕ → ℕ) → n ≡ 0 → some mem ≡ some (copy_bytes n dst src mem)
none_left n dst src mem e =
    ap some (sym (copy_bytes-zero dst src mem)) ∙ ap (λ k. some (copy_bytes k dst src mem)) (sym e)

copy_to_pages-copy_bytes :
    (fuel dst src n : ℕ) (mem : ℕ → ℕ)
    → dst + n + 4096 ≤ 2 ^ 64
    → src + n + 4096 ≤ 2 ^ 64
    → n < fuel
    → copy_to_pages fuel dst src n mem ≡ some (copy_bytes n dst src mem)
unfolding copy_to_pages
copy_to_pages-copy_bytes zero dst src n mem to from fueled = absurd (omega arith)
copy_to_pages-copy_bytes (suc fuel) dst src n mem to from fueled = elim (Bool-cases (n == 0)) [
  | inl done ↦ rw done (none_left n dst src mem (ground arith))
  | inr more ↦
      let (some_bytes, le) = chunk_lem dst n (ground arith) to in
      rw more (
        chunk_step (chunk dst n) n dst src mem _ le (omega arith) (omega arith) (
          copy_to_pages-copy_bytes fuel (add64 dst (chunk dst n)) (add64 src (chunk dst n))
            (n - chunk dst n) (copy_bytes (chunk dst n) dst src mem) (omega arith) (omega arith)
            (omega arith)))
]

copy_from_pages-copy_bytes :
    (fuel dst src n : ℕ) (mem : ℕ → ℕ)
    → dst + n + 4096 ≤ 2 ^ 64
    → src + n + 4096 ≤ 2 ^ 64
    → n < fuel
    → copy_from_pages fuel dst src n mem ≡ some (copy_bytes n dst src mem)
unfolding copy_from_pages
copy_from_pages-copy_bytes zero dst src n mem to from fueled = absurd (omega arith)
copy_from_pages-copy_bytes (suc fuel) dst src n mem to from fueled = elim (Bool-cases (n == 0)) [
  | inl done ↦ rw done (none_left n dst src mem (ground arith))
  | inr more ↦
      let (some_bytes, le) = chunk_lem src n (ground arith) from in
      rw more (
        chunk_step (chunk src n) n dst src mem _ le (omega arith) (omega arith) (
          copy_from_pages-copy_bytes fuel (add64 dst (chunk src n)) (add64 src (chunk src n))
            (n - chunk src n) (copy_bytes (chunk src n) dst src mem) (omega arith) (omega arith)
            (omega arith)))
]

-- A copy between ranges that do not overlap moves the bytes and leaves the others alone.
copy_bytes-apart :
    (n dst src : ℕ) (mem : ℕ → ℕ) (x : ℕ)
    → dst + n < 2 ^ 64
    → src + n < 2 ^ 64
    → (src + n ≤ dst) ⊎ (dst + n ≤ src)
    → copy_bytes n dst src mem x
      ≡ (if leb dst x && ltb x (dst + n) then mem (src + (x - dst)) else mem x)
copy_bytes-apart zero dst src mem x to from apart =
    ap (λ f. f x) (copy_bytes-zero dst src mem) ∙ ground arith
copy_bytes-apart (suc n) dst src mem x to from apart =
    let behind : dst + 1 ≤ x → mem (src + 1 + (x - (dst + 1))) ≡ mem (src + (x - dst)) =
      λ le. ap mem (omega arith) in
    let first : x ≡ dst → mem src ≡ mem (src + (x - dst)) = λ e. ap mem (omega arith) in
    ap (λ f. f x) (copy_bytes_step n dst src mem (omega arith) (omega arith))
    ∙ copy_bytes-apart n (dst + 1) (src + 1) (update mem dst (mem src)) x (omega arith)
        (omega arith) (ground arith)
    ∙ ground (arith, behind, first)

-- The outcome of a copy: a range with an unmapped page is refused and nothing is written; else
-- the `n` bytes are copied, as a copy byte by byte does it.
abbrev pub Copied : (ℕ → ℕ) → (user dst src n : ℕ) → (ℕ → ℕ) → Option (Bool × (ℕ → ℕ)) → Type 0
Copied virt user dst src n mem none = ⊥
Copied virt user dst src n mem (some (false, g)) =
    Checked virt user (user + n) (some false) × (g ≡ mem)
Copied virt user dst src n mem (some (true, g)) =
    Checked virt user (user + n) (some true)
    × ((x : ℕ) → g x ≡ (if leb dst x && ltb x (dst + n) then mem (src + (x - dst)) else mem x))

decided-Copied :
    (virt : ℕ → ℕ) (user dst src n : ℕ) (mem : ℕ → ℕ) (r : Option Bool)
    → ((x : ℕ)
        → copy_bytes n dst src mem x
          ≡ (if leb dst x && ltb x (dst + n) then mem (src + (x - dst)) else mem x))
    → Checked virt user (user + n) r
    → Copied virt user dst src n mem (elim r [
      | none ↦ none
      | some false ↦ some (false, mem)
      | some true ↦ some (true, copy_bytes n dst src mem)
    ])
decided-Copied virt user dst src n mem none moved c = c
decided-Copied virt user dst src n mem (some false) moved c = (c, refl)
decided-Copied virt user dst src n mem (some true) moved c = (c, moved)

checked-Copied :
    (virt : ℕ → ℕ) (fuel user dst src n : ℕ) (mem : ℕ → ℕ)
    → dst ≢ 0
    → src ≢ 0
    → dst + n + 4096 ≤ 2 ^ 64
    → src + n + 4096 ≤ 2 ^ 64
    → (src + n ≤ dst) ⊎ (dst + n ≤ src)
    → Checked virt user (user + n) (validate_user_range virt fuel user n)
    → Copied virt user dst src n mem
        (checked virt fuel dst src user n mem (some (copy_bytes n dst src mem)))
unfolding checked
checked-Copied virt fuel user dst src n mem to_ne from_ne to from apart range =
    let given : ((dst == 0) || (src == 0)) ≡ false = ground arith in
    rw given (
      decided-Copied virt user dst src n mem (validate_user_range virt fuel user n)
        (λ x. copy_bytes-apart n dst src mem x (omega arith) (omega arith) apart) range)

-- For addresses other than 0, ranges that do not overlap and end a page before the end of the
-- address space, and fuel of the length and three, `copy_to_user` ends: it refuses a user range
-- with an unmapped page and writes nothing then, and else copies exactly the range.
pub copy_to_user-Copied :
    (virt : ℕ → ℕ) (fuel dst src n : ℕ) (mem : ℕ → ℕ)
    → dst ≢ 0
    → src ≢ 0
    → dst + n + 4096 ≤ 2 ^ 64
    → src + n + 4096 ≤ 2 ^ 64
    → (src + n ≤ dst) ⊎ (dst + n ≤ src)
    → n + 3 ≤ fuel
    → Copied virt dst dst src n mem (copy_to_user virt fuel dst src n mem)
unfolding copy_to_user
copy_to_user-Copied virt fuel dst src n mem to_ne from_ne to from apart fueled =
    rw (copy_to_pages-copy_bytes fuel dst src n mem to from (omega arith)) (
      checked-Copied virt fuel dst dst src n mem to_ne from_ne to from apart
        (validate_user_range-Checked virt fuel dst n to_ne to (omega arith)))

-- For addresses other than 0, ranges that do not overlap and end a page before the end of the
-- address space, and fuel of the length and three, `copy_from_user` ends: it refuses a user range
-- with an unmapped page and writes nothing then, and else copies exactly the range.
pub copy_from_user-Copied :
    (virt : ℕ → ℕ) (fuel dst src n : ℕ) (mem : ℕ → ℕ)
    → dst ≢ 0
    → src ≢ 0
    → dst + n + 4096 ≤ 2 ^ 64
    → src + n + 4096 ≤ 2 ^ 64
    → (src + n ≤ dst) ⊎ (dst + n ≤ src)
    → n + 3 ≤ fuel
    → Copied virt src dst src n mem (copy_from_user virt fuel dst src n mem)
unfolding copy_from_user
copy_from_user-Copied virt fuel dst src n mem to_ne from_ne to from apart fueled =
    rw (copy_from_pages-copy_bytes fuel dst src n mem to from (omega arith)) (
      checked-Copied virt fuel src dst src n mem to_ne from_ne to from apart
        (validate_user_range-Checked virt fuel src n from_ne from (omega arith)))

-- For addresses other than 0, ranges that do not overlap and end a page before the end of the
-- address space, and fuel of the length and three, `copy_to_user` and `copy_from_user` end: each
-- refuses a user range with an unmapped page and writes nothing then, and else copies exactly the
-- range.
pub user_copies_checked :
    (virt : ℕ → ℕ) (fuel dst src n : ℕ) (mem : ℕ → ℕ)
    → dst ≢ 0
    → src ≢ 0
    → dst + n + 4096 ≤ 2 ^ 64
    → src + n + 4096 ≤ 2 ^ 64
    → (src + n ≤ dst) ⊎ (dst + n ≤ src)
    → n + 3 ≤ fuel
    → Copied virt dst dst src n mem (copy_to_user virt fuel dst src n mem)
      × Copied virt src dst src n mem (copy_from_user virt fuel dst src n mem)
user_copies_checked virt fuel dst src n mem to_ne from_ne to from apart fueled = (
  copy_to_user-Copied virt fuel dst src n mem to_ne from_ne to from apart fueled,
  copy_from_user-Copied virt fuel dst src n mem to_ne from_ne to from apart fueled,
)
