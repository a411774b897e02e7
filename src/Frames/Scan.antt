-- ===== src/Frames/Scan.antt =====
-- The scans of `alloc_frame` (src/kernel/mem/map.c): they find the lowest free frame of a chunk.
use lite_core.Prelude.{
  ℕ, zero, suc, ◌+◌, ◌*◌, ◌/◌, ◌%◌, ◌≤◌, ◌<◌, ◌≡◌, true, false, Option, none, some, arith, ap, ◌∙◌,
  ltb, leb, ◌==◌, Bool-cases, inl, inr,
}
use lite_core.Frames.{Chunk, chunk_test, scan_bits, scan_words, bit}

-- The frame found is the first free one from `from` on; if none is, all up to `to` are marked.
abbrev pub FirstFree : Chunk → (from to : ℕ) → Option ℕ → Type 0
FirstFree c from to none = (k : ℕ) → from ≤ k → k < to → k < 256 → chunk_test c k ≡ true
FirstFree c from to (some i) =
    (i < 256)
    × (chunk_test c i ≡ false)
    × (from ≤ i)
    × ((k : ℕ) → from ≤ k → k < i → chunk_test c k ≡ true)

FirstFree-marked :
    (c : Chunk) (from mid to to' : ℕ) (o : Option ℕ)
    → from ≤ mid
    → to ≤ to'
    → ((k : ℕ) → from ≤ k → k < mid → k < 256 → chunk_test c k ≡ true)
    → FirstFree c mid to' o
    → FirstFree c from to o
FirstFree-marked c from mid to to' none le end_le marked rest = λ k ge lt in_chunk.
    elim (Bool-cases (ltb k mid)) [
      | inl low ↦ marked k ge (ground arith) in_chunk
      | inr high ↦ rest k (ground arith) (omega arith) in_chunk
    ]
FirstFree-marked c from mid to to' (some i) le end_le marked (in_chunk, free, ge, below) = (
  in_chunk,
  free,
  omega arith,
  λ k from_k lt. elim (Bool-cases (ltb k mid)) [
    | inl low ↦ marked k from_k (ground arith) (omega arith)
    | inr high ↦ below k (ground arith) lt
  ],
)

-- A marked frame is passed over.
scan_bits-taken :
    (n w b : ℕ) (c : Chunk)
    → chunk_test c (w * 32 + b) ≡ true
    → FirstFree c (w * 32 + (b + 1)) (w * 32 + (b + 1) + n) (scan_bits n w (b + 1) c)
    → FirstFree c (w * 32 + b) (w * 32 + b + suc n) (scan_bits n w (b + 1) c)
scan_bits-taken n w b c taken rest =
    FirstFree-marked c (w * 32 + b) (w * 32 + (b + 1)) (w * 32 + b + suc n) (w * 32 + (b + 1) + n)
      (scan_bits n w (b + 1) c) (omega arith) (omega arith)
      (λ k ge lt in_chunk.
        let same : k ≡ w * 32 + b = omega arith in ap (chunk_test c) same ∙ taken)
      rest

scan_bits-FirstFree :
    (n w b : ℕ) (c : Chunk) → FirstFree c (w * 32 + b) (w * 32 + b + n) (scan_bits n w b c)
unfolding scan_bits
scan_bits-FirstFree zero w b c = λ k ge lt in_chunk. absurd (omega arith)
scan_bits-FirstFree (suc n) w b c = elim (Bool-cases (leb 256 (w * 32 + b))) [
  | inl out ↦ rw out (λ k ge lt in_chunk. absurd (ground arith))
  | inr inside ↦ elim (Bool-cases (chunk_test c (w * 32 + b))) [
    | inl taken ↦
        rw (inside, taken) (scan_bits-taken n w b c taken (scan_bits-FirstFree n w (b + 1) c))
    | inr free ↦
        rw (inside, free) (ground arith, free, omega arith, λ k ge lt. absurd (omega arith))
  ]
]

-- The word of `n` marked frames.
abbrev ones : ℕ → ℕ
ones zero = 0
ones (suc n) = ones n * 2 + 1

bit-ones : (n b : ℕ) → b < n → bit (ones n) b ≡ 1
unfolding bit
bit-ones zero b lt = absurd (omega arith)
bit-ones (suc n) zero lt = omega arith
bit-ones (suc n) (suc b) lt = ap (λ word. bit word b) (omega arith) ∙ bit-ones n b (omega arith)

-- In a full word every frame is marked.
full_word :
    (c : Chunk) (w k : ℕ)
    → c.words w ≡ 0xFFFFFFFF
    → w * 32 ≤ k
    → k < w * 32 + 32
    → chunk_test c k ≡ true
unfolding chunk_test
full_word c w k full ge lt =
    let word : k / 32 ≡ w = omega arith in
    let marked : bit 0xFFFFFFFF (k % 32) ≡ 1 = bit-ones 32 (k % 32) (omega arith) in
    rw (word, full, marked)

-- A word whose frames are all marked is passed over.
scan_words-marked :
    (n w : ℕ) (c : Chunk) (o : Option ℕ)
    → ((k : ℕ) → w * 32 ≤ k → k < w * 32 + 32 → k < 256 → chunk_test c k ≡ true)
    → FirstFree c ((w + 1) * 32) ((w + 1 + n) * 32) o
    → FirstFree c (w * 32) ((w + suc n) * 32) o
scan_words-marked n w c o marked rest =
    FirstFree-marked c (w * 32) ((w + 1) * 32) ((w + suc n) * 32) ((w + 1 + n) * 32) o (omega arith)
      (omega arith) (λ k ge lt in_chunk. marked k ge (omega arith) in_chunk) rest

-- One word and, if it has no free frame, the words behind it.
scan_word-FirstFree :
    (n w : ℕ) (c : Chunk) (first rest : Option ℕ)
    → FirstFree c (w * 32 + 0) (w * 32 + 0 + 32) first
    → FirstFree c ((w + 1) * 32) ((w + 1 + n) * 32) rest
    → FirstFree c (w * 32) ((w + suc n) * 32) (elim first [ none ↦ rest | some i ↦ some i ])
scan_word-FirstFree n w c none rest marked behind =
    scan_words-marked n w c rest (λ k ge lt in_chunk. marked k (omega arith) (omega arith) in_chunk)
      behind
scan_word-FirstFree n w c (some i) rest (in_chunk, free, ge, below) behind =
    (in_chunk, free, omega arith, λ k from_k lt. below k (omega arith) lt)

pub scan_words-FirstFree :
    (n w : ℕ) (c : Chunk) → FirstFree c (w * 32) ((w + n) * 32) (scan_words n w c)
unfolding scan_words
scan_words-FirstFree zero w c = λ k ge lt in_chunk. absurd (omega arith)
scan_words-FirstFree (suc n) w c = elim (Bool-cases (c.words w == 0xFFFFFFFF)) [
  | inl full ↦ rw full (
      scan_words-marked n w c (scan_words n (w + 1) c)
        (λ k ge lt in_chunk. full_word c w k (ground arith) ge lt)
        (scan_words-FirstFree n (w + 1) c))
  | inr some_free ↦ rw some_free (
      scan_word-FirstFree n w c (scan_bits 32 w 0 c) (scan_words n (w + 1) c)
        (scan_bits-FirstFree 32 w 0 c) (scan_words-FirstFree n (w + 1) c))
]
