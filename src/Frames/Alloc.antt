-- ===== src/Frames/Alloc.antt =====
-- What `alloc_frame` (src/kernel/mem/map.c) does to the managed range.
use lite_core.Prelude.{
  ℕ, zero, suc, ◌+◌, ◌*◌, ◌/◌, ◌%◌, ◌^◌, ◌≤◌, ◌<◌, ◌≡◌, Bool, true, false, Option, none, some, List,
  ◌∷◌, arith, refl, ap, ◌∙◌, sym, if◌then◌else◌, ltb, leb, ◌==◌, Bool-cases, inl, inr, ◌⊎◌, add64,
  sub64,
}
use lite_core.Frames.{
  Chunk, Memmap, find_chunk, change_chunk, create_chunk, obtain, chunk_test, chunk_set, chunk_clear,
  take_frame, alloc_from, alloc_frame, scan_words, chunk_word_count, bit,
}
use lite_core.Frames.Used.{used, marked, used-chunk_set, used-chunk_clear}
use lite_core.Frames.Scan.{FirstFree, scan_words-FirstFree}

-- Memory for the chunks is always there.
abbrev pub AlwaysGiven : (ℕ → Bool) → Type 0
AlwaysGiven heap = (chi : ℕ) → heap chi ≡ true

-- The range lies below 2^64 bytes.
abbrev pub InSpace : Memmap → Type 0
InSpace m = m.start_frame + m.frames ≤ 2 ^ 52

-- No frame is given: nothing is marked anew.
pub record Refused (heap : ℕ → Bool) (m : Memmap) (r : ℕ × Memmap) : Type 0 where
  pub null : r.0 ≡ 0
  pub same : (j : ℕ) → used r.1.chunks j ≡ used m.chunks j
  pub full : AlwaysGiven heap → (j : ℕ) → j < m.frames → used m.chunks j ≡ true

-- The frame `i` of the range is given.
pub record Given (heap : ℕ → Bool) (m : Memmap) (r : ℕ × Memmap) (i : ℕ) : Type 0 where
  pub in_range : i < m.frames
  pub address : r.0 ≡ (m.start_frame + i) * 4096
  pub free : used m.chunks i ≡ false
  pub taken : (j : ℕ) → used r.1.chunks j ≡ (if j == i then true else used m.chunks j)
  pub lowest : AlwaysGiven heap → (j : ℕ) → j < i → used m.chunks j ≡ true

abbrev pub Allocated : (ℕ → Bool) → Memmap → ℕ × Memmap → Type 0
Allocated heap m r = Refused heap m r ⊎ ((i : ℕ) × Given heap m r i)

-- What `obtain` gives: the chunk is in the new list, and no mark has changed.
abbrev pub Obtained : (ℕ → Bool) → ℕ → List Chunk → Option (Chunk × List Chunk) → Type 0
Obtained heap chi cs none = heap chi ≡ false
Obtained heap chi cs (some (c, cs')) =
    (find_chunk chi cs' ≡ some c) × ((j : ℕ) → used cs' j ≡ used cs j)

empty_word : (b : ℕ) → bit 0 b ≡ 0
unfolding bit
empty_word zero = refl
empty_word (suc b) = empty_word b

used-create :
    (chi : ℕ) (cs : List Chunk) (j : ℕ)
    → find_chunk chi cs ≡ none
    → used (record { idx = chi; words = λ w. 0 } ∷ cs) j ≡ used cs j
unfolding used find_chunk chunk_test
used-create chi cs j missing = elim (Bool-cases (chi == j / 256)) [
  | inl same ↦
      let at : find_chunk (j / 256) cs ≡ none =
        ap (λ x. find_chunk x cs) (ground arith) ∙ missing in
      rw (same, at, empty_word (j % 256 % 32)) refl
  | inr other ↦ rw other refl
]

find_head :
    (chi : ℕ) (cs : List Chunk)
    → find_chunk chi (record { idx = chi; words = λ w. 0 } ∷ cs)
      ≡ some (record { idx = chi; words = λ w. 0 })
unfolding find_chunk
find_head chi cs = let self : (chi == chi) ≡ true = ground arith in rw self refl

obtain-cases :
    (heap : ℕ → Bool) (chi : ℕ) (cs : List Chunk) (o : Option Chunk)
    → find_chunk chi cs ≡ o
    → Obtained heap chi cs (obtain heap chi cs)
unfolding obtain create_chunk
obtain-cases heap chi cs (some c) found = rw (obtain, found) (found, λ j. refl)
obtain-cases heap chi cs none missing = elim (Bool-cases (heap chi)) [
  | inl given ↦
      rw (obtain, missing, create_chunk, given)
        (find_head chi cs, λ j. used-create chi cs j missing)
  | inr out ↦ rw (obtain, missing, create_chunk, out) out
]

pub obtain-Obtained :
    (heap : ℕ → Bool) (chi : ℕ) (cs : List Chunk) → Obtained heap chi cs (obtain heap chi cs)
obtain-Obtained heap chi cs = obtain-cases heap chi cs (find_chunk chi cs) refl

-- What is allocated with the chunk list `cs` is allocated with one that marks the same frames.
Allocated-same :
    (heap : ℕ → Bool) (m : Memmap) (cs : List Chunk) (r : ℕ × Memmap)
    → ((j : ℕ) → used cs j ≡ used m.chunks j)
    → Allocated heap (record m { chunks = cs }) r
    → Allocated heap m r
Allocated-same heap m cs r same (inl refused) = inl (record {
  null = refused.null;
  same = λ j. refused.same j ∙ same j;
  full = λ always j lt. sym (same j) ∙ refused.full always j lt;
})
Allocated-same heap m cs r same (inr (i, given)) = inr (
  i,
  record {
    in_range = given.in_range;
    address = given.address;
    free = sym (same i) ∙ given.free;
    taken = λ j. given.taken j ∙ ap (λ x. if j == i then true else x) (same j);
    lowest = λ always j lt. sym (same j) ∙ given.lowest always j lt;
  },
)

-- The mark of a frame of a chunk that is there.
used-found :
    (cs : List Chunk) (chi j : ℕ) (c : Chunk)
    → find_chunk chi cs ≡ some c
    → j / 256 ≡ chi
    → used cs j ≡ chunk_test c (j % 256)
unfolding used
used-found cs chi j c found here =
    ap (λ x. marked (j % 256) (find_chunk x cs)) here ∙ ap (marked (j % 256)) found

-- A free frame that is marked and freed again.
used-put_back :
    (chi i : ℕ) (c : Chunk) (cs : List Chunk) (j : ℕ)
    → i < 256
    → find_chunk chi cs ≡ some c
    → used cs (chi * 256 + i) ≡ false
    → used (change_chunk chi (chunk_clear i) (change_chunk chi (chunk_set i) cs)) j ≡ used cs j
used-put_back chi i c cs j lt found free =
    used-chunk_clear chi i (change_chunk chi (chunk_set i) cs) j lt
    ∙ elim (Bool-cases (j == chi * 256 + i)) [
      | inl here ↦ rw here (sym free ∙ ap (used cs) (ground arith))
      | inr other ↦
          rw other
            (used-chunk_set chi i c cs j lt found ∙ ap (λ x. if x then true else used cs j) other)
    ]

-- The first free frame of a chunk is the one given, or it lies behind the range and is freed again.
take_frame-Allocated :
    (heap : ℕ → Bool) (chi i : ℕ) (m : Memmap) (c : Chunk)
    → InSpace m
    → chi * 256 ≤ m.frames + 255
    → find_chunk chi m.chunks ≡ some c
    → FirstFree c 0 256 (some i)
    → (AlwaysGiven heap → (k : ℕ) → k < chi * 256 → used m.chunks k ≡ true)
    → Allocated heap m (take_frame chi i m)
unfolding take_frame
take_frame-Allocated heap chi i m c space start found (in_chunk, free, ge, below) before =
    elim (Bool-cases
      (leb (add64 m.start_frame m.frames) (add64 (add64 m.start_frame (chi * 256)) i))) [
        | inl out ↦ rw out (
            inl (record {
              null = refl;
              same = λ j. used-put_back chi i c m.chunks j in_chunk found is_free;
              full = λ always j lt. all_marked always j (ground arith);
            }))
        | inr inside ↦ rw inside (
            inr (
              chi * 256 + i,
              record {
                in_range = ground arith;
                address = ground arith;
                free = is_free;
                taken = λ j. used-chunk_set chi i c m.chunks j in_chunk found;
                lowest = all_marked;
              },
            ))
      ]
  where
    is_free : used m.chunks (chi * 256 + i) ≡ false
    is_free =
        used-found m.chunks chi (chi * 256 + i) c found (omega arith)
        ∙ ap (chunk_test c) (omega arith)
        ∙ free

    all_marked : AlwaysGiven heap → (j : ℕ) → j < chi * 256 + i → used m.chunks j ≡ true
    all_marked always j lt = elim (Bool-cases (ltb j (chi * 256))) [
      | inl early ↦ before always j (ground arith)
      | inr here ↦
          used-found m.chunks chi j c found (ground arith)
          ∙ below (j % 256) (omega arith) (ground arith)
    ]

-- A chunk without a free frame.
chunk_full :
    (chi : ℕ) (c : Chunk) (cs : List Chunk)
    → find_chunk chi cs ≡ some c
    → FirstFree c 0 256 none
    → (j : ℕ) → chi * 256 ≤ j
    → j < (chi + 1) * 256
    → used cs j ≡ true
chunk_full chi c cs found marked j ge lt =
    used-found cs chi j c found (omega arith)
    ∙ marked (j % 256) (omega arith) (omega arith) (omega arith)

-- The chunk gives its first free frame, or the loop goes on behind it.
scan_step :
    (heap : ℕ → Bool) (n chi : ℕ) (m : Memmap) (c : Chunk) (o : Option ℕ)
    → InSpace m
    → chi * 256 ≤ m.frames + 255
    → find_chunk chi m.chunks ≡ some c
    → (AlwaysGiven heap → (k : ℕ) → k < chi * 256 → used m.chunks k ≡ true)
    → FirstFree c 0 256 o
    → ((AlwaysGiven heap → (k : ℕ) → k < (chi + 1) * 256 → used m.chunks k ≡ true)
        → Allocated heap m (alloc_from heap n (chi + 1) m))
    → Allocated heap m
        (elim o [ none ↦ alloc_from heap n (chi + 1) m | some i ↦ take_frame chi i m ])
scan_step heap n chi m c none space start found before full rest = rest (λ always k lt.
    elim (Bool-cases (ltb k (chi * 256))) [
      | inl early ↦ before always k (ground arith)
      | inr here ↦ chunk_full chi c m.chunks found full k (ground arith) lt
    ])
scan_step heap n chi m c (some i) space start found before free rest =
    take_frame-Allocated heap chi i m c space start found free before

-- One chunk of the loop, when the loop over the chunks behind it is right.
alloc_step :
    (heap : ℕ → Bool) (n chi : ℕ) (m : Memmap) (o : Option (Chunk × List Chunk))
    → InSpace m
    → (chi + suc n) * 256 ≤ m.frames + 255
    → m.frames ≤ (chi + suc n) * 256
    → (AlwaysGiven heap → (k : ℕ) → k < chi * 256 → used m.chunks k ≡ true)
    → Obtained heap chi m.chunks o
    → ((m' : Memmap)
        → InSpace m'
        → (chi + 1 + n) * 256 ≤ m'.frames + 255
        → m'.frames ≤ (chi + 1 + n) * 256
        → (AlwaysGiven heap → (k : ℕ) → k < (chi + 1) * 256 → used m'.chunks k ≡ true)
        → Allocated heap m' (alloc_from heap n (chi + 1) m'))
    → Allocated heap m (elim o [
      | none ↦ alloc_from heap n (chi + 1) m
      | some (c, cs) ↦ elim (scan_words chunk_word_count 0 c) [
        | none ↦ alloc_from heap n (chi + 1) (record m { chunks = cs })
        | some i ↦ take_frame chi i (record m { chunks = cs })
      ]
    ])
alloc_step heap n chi m none space tight enough before out rest =
    rest m space (omega arith) (omega arith) (λ always. absurd (ground (arith, out, always chi)))
alloc_step heap n chi m (some (c, cs)) space tight enough before (found, same) rest =
    Allocated-same heap m cs _ same (
      scan_step heap n chi (record m { chunks = cs }) c (scan_words chunk_word_count 0 c) space
        (omega arith) found (λ always k lt. same k ∙ before always k lt)
        (scan_words-FirstFree chunk_word_count 0 c)
        (λ all_before.
          rest (record m { chunks = cs }) space (omega arith) (omega arith) all_before))

-- The loop behind chunk `chi`, when the frames of the chunks before it are taken.
pub alloc_from-Allocated :
    (heap : ℕ → Bool) (n chi : ℕ) (m : Memmap)
    → InSpace m
    → (chi + n) * 256 ≤ m.frames + 255
    → m.frames ≤ (chi + n) * 256
    → (AlwaysGiven heap → (k : ℕ) → k < chi * 256 → used m.chunks k ≡ true)
    → Allocated heap m (alloc_from heap n chi m)
unfolding alloc_from
alloc_from-Allocated heap zero chi m space tight enough before =
    inl (record {
      null = refl;
      same = λ j. refl;
      full = λ always j lt. before always j (omega arith);
    })
alloc_from-Allocated heap (suc n) chi m space tight enough before =
    alloc_step heap n chi m (obtain heap chi m.chunks) space tight enough before
      (obtain-Obtained heap chi m.chunks) (alloc_from-Allocated heap n (chi + 1))

pub alloc_frame-Allocated :
    (heap : ℕ → Bool) (m : Memmap) → InSpace m → Allocated heap m (alloc_frame heap m)
unfolding alloc_frame
alloc_frame-Allocated heap m space = elim (Bool-cases (m.frames == 0)) [
  | inl empty ↦
      rw empty (
        inl (record { null = refl; same = λ j. refl; full = λ always j lt. absurd (ground arith) }))
  | inr some_frames ↦ rw some_frames (
      alloc_from-Allocated heap (sub64 (add64 m.frames 256) 1 / 256) 0 m space (ground arith)
        (ground arith) (λ always k lt. absurd (omega arith)))
]
