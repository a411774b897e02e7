-- ===== src/BlockCache/Victim.antt =====
-- The two scans over the entries of src/kernel/fs/block_cache.c: the search for a block and the
-- choice of the entry to replace.
use lite_core.Prelude.{
  ℕ, zero, suc, ◌+◌, ◌≤◌, ◌<◌, ◌≡◌, ◌≢◌, inl, inr, ◌⊎◌, true, false, ◌&&◌, Option, none, some,
  arith, refl, ap, ◌∙◌, ltb, ◌==◌, Bool-cases,
}
use lite_core.BlockCache.{Entry, Cache, find_block, find_lru_from, find_lru_entry}

-- A valid entry with the block, or no valid entry from `i` below `total` has it.
abbrev pub Hit : (total i block : ℕ) → (ℕ → Entry) → Option ℕ → Type 0
Hit total i block es none =
    (m : ℕ) → i ≤ m → m < total → (es m).valid ≡ true → (es m).block_num ≢ block
Hit total i block es (some m) = (m < total) × ((es m).valid ≡ true) × ((es m).block_num ≡ block)

Hit-step :
    (total i block : ℕ) (es : ℕ → Entry) (r : Option ℕ)
    → (es i).valid && ((es i).block_num == block) ≡ false
    → Hit total (i + 1) block es r
    → Hit total i block es r
Hit-step total i block es none miss h = λ m ge lt v. elim (Bool-cases (m == i)) [
  | inl here ↦
      let at : m ≡ i = ground arith in
      λ same. absurd (ground (arith, ap (λ x. (es x).valid) at, ap (λ x. (es x).block_num) at))
  | inr later ↦ h m (ground arith) lt v
]
Hit-step total i block es (some m) miss h = h

pub find_block-Hit :
    (n i total block : ℕ) (es : ℕ → Entry)
    → i + n ≡ total
    → Hit total i block es (find_block n i block es)
unfolding find_block
find_block-Hit zero i total block es e = λ m ge lt v. absurd (omega arith)
find_block-Hit (suc n) i total block es e =
    elim (Bool-cases ((es i).valid && ((es i).block_num == block))) [
      | inl hit ↦ rw hit (omega arith, ground arith, ground arith)
      | inr miss ↦
          rw miss (
            Hit-step total i block es _ miss
              (find_block-Hit n (i + 1) total block es (omega arith)))
    ]

-- All entries below `n` are valid and were last used at `t` or later.
abbrev pub UsedSince : (n t : ℕ) → (ℕ → Entry) → Type 0
UsedSince n t es = (m : ℕ) → m < n → ((es m).valid ≡ true) × (t ≤ (es m).last_used)

-- The choice: an invalid entry, or the least recently used one of valid entries. There is none
-- only if all carry the last timestamp.
abbrev pub Victim : (total : ℕ) → (ℕ → Entry) → Option ℕ → Type 0
Victim total es none = UsedSince total 0xFFFFFFFF es
Victim total es (some m) =
    (m < total) × (((es m).valid ≡ false) ⊎ UsedSince total (es m).last_used es)

-- What the scan knows of the entries below `i`.
abbrev Scanned : (i oldest : ℕ) → Option ℕ → (ℕ → Entry) → Type 0
Scanned i oldest none es = (oldest ≡ 0xFFFFFFFF) × UsedSince i oldest es
Scanned i oldest (some m) es = (m < i) × ((es m).last_used ≡ oldest) × UsedSince i oldest es

UsedSince-Scanned :
    (i oldest : ℕ) (lru : Option ℕ) (es : ℕ → Entry)
    → Scanned i oldest lru es
    → UsedSince i oldest es
UsedSince-Scanned i oldest none es s = s.1
UsedSince-Scanned i oldest (some m) es s = s.2

UsedSince-suc :
    (i t t' : ℕ) (es : ℕ → Entry)
    → UsedSince i t es
    → t' ≤ t
    → (es i).valid ≡ true
    → t' ≤ (es i).last_used
    → UsedSince (i + 1) t' es
UsedSince-suc i t t' es u le v late m lt = elim (Bool-cases (m == i)) [
  | inl here ↦
      let e : m ≡ i = ground arith in
      (ap (λ x. (es x).valid) e ∙ v, omega (arith, late, ap (λ x. (es x).last_used) e))
  | inr before ↦ let k = u m (ground arith) in (k.0, omega (arith, k.1))
]

Scanned-newer :
    (i oldest : ℕ) (lru : Option ℕ) (es : ℕ → Entry)
    → Scanned i oldest lru es
    → (es i).valid ≡ true
    → oldest ≤ (es i).last_used
    → Scanned (i + 1) oldest lru es
Scanned-newer i oldest none es s v at =
    (s.0, UsedSince-suc i oldest oldest es s.1 (omega arith) v at)
Scanned-newer i oldest (some m) es s v at =
    (omega (arith, s.0), s.1, UsedSince-suc i oldest oldest es s.2 (omega arith) v at)

Scanned-Victim :
    (i oldest : ℕ) (lru : Option ℕ) (es : ℕ → Entry) → Scanned i oldest lru es → Victim i es lru
Scanned-Victim i oldest none es s = λ m lt. let k = s.1 m lt in (k.0, omega (arith, k.1, s.0))
Scanned-Victim i oldest (some m) es s =
    (s.0, inr (λ j lt. let k = s.2 j lt in (k.0, omega (arith, k.1, s.1))))

find_lru_from-Victim :
    (n i oldest total : ℕ) (lru : Option ℕ) (es : ℕ → Entry)
    → i + n ≡ total
    → Scanned i oldest lru es
    → Victim total es (find_lru_from n i oldest lru es)
unfolding find_lru_from
find_lru_from-Victim zero i oldest total lru es e s =
    let at : i ≡ total = omega arith in rw (← at) (Scanned-Victim i oldest lru es s)
find_lru_from-Victim (suc n) i oldest total lru es e s = elim (Bool-cases (es i).valid) [
  | inr free ↦ rw free (omega arith, inl free)
  | inl full ↦ elim (Bool-cases (ltb (es i).last_used oldest)) [
    | inl older ↦
        rw (full, older)
          (find_lru_from-Victim n (i + 1) (es i).last_used total (some i) es (omega arith) (
            omega arith,
            refl,
            UsedSince-suc i oldest (es i).last_used es (UsedSince-Scanned i oldest lru es s)
                (ground arith) full (omega arith),
          ))
    | inr newer ↦
        rw (full, newer)
          (find_lru_from-Victim n (i + 1) oldest total lru es (omega arith)
            (Scanned-newer i oldest lru es s full (ground arith)))
  ]
]

-- `find_lru_entry` chooses an invalid entry if it meets one, and else an entry that was used no
-- later than any other. It chooses none only if no entry is invalid and none was used before the
-- last timestamp.
pub find_lru_entry-Victim : (c : Cache) → Victim c.num_entries c.entries (find_lru_entry c)
unfolding find_lru_entry
find_lru_entry-Victim c =
    find_lru_from-Victim c.num_entries 0 0xFFFFFFFF c.num_entries none c.entries (omega arith)
      (refl, λ m lt. absurd (omega arith))
