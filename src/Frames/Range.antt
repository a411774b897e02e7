-- ===== src/Frames/Range.antt =====
-- What `alloc_frame` (src/kernel/mem/map.c) leaves alone: the managed range.
use lite_core.Prelude.{
  ℕ, zero, suc, ◌+◌, ◌*◌, ◌≡◌, Bool, none, some, refl, if-elim, leb, ◌==◌, add64,
}
use lite_core.Frames.{
  Memmap, obtain, scan_words, chunk_word_count, take_frame, alloc_from, alloc_frame,
  frames_per_chunk,
}

abbrev pub SameRange : Memmap → Memmap → Type 0
SameRange m m' = (m'.start_frame ≡ m.start_frame) × (m'.frames ≡ m.frames)

take_frame-SameRange : (chi i : ℕ) (m : Memmap) → SameRange m (take_frame chi i m).1
unfolding take_frame
take_frame-SameRange chi i m =
    if-elim (λ (r : ℕ × Memmap). SameRange m r.1)
      (leb (add64 m.start_frame m.frames) (add64 (add64 m.start_frame (chi * frames_per_chunk)) i))
      _ _ (λ e. (refl, refl)) (λ e. (refl, refl))

alloc_from-SameRange :
    (heap : ℕ → Bool) (n chi : ℕ) (m : Memmap) → SameRange m (alloc_from heap n chi m).1
unfolding alloc_from
alloc_from-SameRange heap zero chi m = (refl, refl)
alloc_from-SameRange heap (suc n) chi m =
    elim (obtain heap chi m.chunks)
      as (λ o.
        SameRange m
          (elim o as (λ x. ℕ × Memmap) [
            | none ↦ alloc_from heap n (chi + 1) m
            | some (c, cs) ↦ elim (scan_words chunk_word_count 0 c) as (λ x. ℕ × Memmap) [
              | none ↦ alloc_from heap n (chi + 1) (record m { chunks = cs })
              | some i ↦ take_frame chi i (record m { chunks = cs })
            ]
          ]).1) [
            | none ↦ alloc_from-SameRange heap n (chi + 1) m
            | some (c, cs) ↦
                elim (scan_words chunk_word_count 0 c)
                  as (λ o.
                    SameRange m
                      (elim o as (λ x. ℕ × Memmap) [
                        | none ↦ alloc_from heap n (chi + 1) (record m { chunks = cs })
                        | some i ↦ take_frame chi i (record m { chunks = cs })
                      ]).1) [
                        | none ↦ alloc_from-SameRange heap n (chi + 1) (record m { chunks = cs })
                        | some i ↦ take_frame-SameRange chi i (record m { chunks = cs })
                      ]
          ]

pub alloc_frame-SameRange : (heap : ℕ → Bool) (m : Memmap) → SameRange m (alloc_frame heap m).1
unfolding alloc_frame
alloc_frame-SameRange heap m =
    if-elim (λ (r : ℕ × Memmap). SameRange m r.1) (m.frames == 0) (0, m) _ (λ e. (refl, refl))
      (λ e. alloc_from-SameRange heap _ 0 m)
