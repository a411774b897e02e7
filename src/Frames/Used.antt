-- ===== src/Frames/Used.antt =====
-- Which frames the chunk list of src/kernel/mem/map.c marks, and what its operations do to them.
use mathlib.Core.Option
use lite_core.Prelude.{
  ℕ, ◌+◌, ◌-◌, ◌*◌, ◌/◌, ◌%◌, ◌<◌, ◌≡◌, Bool, true, false, Option, none, some, List, [], ◌∷◌, arith,
  refl, ap, ◌∙◌, if◌then◌else◌, ltb, leb, ◌==◌, Bool-cases, inl, inr, ◌&&◌, not,
}
use lite_core.Frames.{
  Chunk, Memmap, find_chunk, change_chunk, chunk_test, chunk_set, chunk_clear, free_frame,
}
use lite_core.Frames.Bits.{chunk_test-chunk_set, chunk_test-chunk_clear}

-- The mark of the frame `i` of the managed range: a missing chunk marks nothing.
abbrev pub marked : ℕ → Option Chunk → Bool
marked local none = false
marked local (some c) = chunk_test c local

unfoldable pub used : List Chunk → ℕ → Bool
used cs i = marked (i % 256) (find_chunk (i / 256) cs)

-- A change that keeps the index of its chunk.
find_chunk-change_chunk :
    (k j : ℕ) (f : Chunk → Chunk) (cs : List Chunk)
    → ((c : Chunk) → (f c).idx ≡ c.idx)
    → find_chunk j (change_chunk k f cs)
      ≡ (if j == k then Option.map f (find_chunk j cs) else find_chunk j cs)
unfolding find_chunk change_chunk
find_chunk-change_chunk k j f [] keep = ground arith
find_chunk-change_chunk k j f (c ∷ cs) keep =
    ground (arith, keep c, find_chunk-change_chunk k j f cs keep)

chunk_set-idx : (i : ℕ) (c : Chunk) → (chunk_set i c).idx ≡ c.idx
unfolding chunk_set
chunk_set-idx i c = refl

chunk_clear-idx : (i : ℕ) (c : Chunk) → (chunk_clear i c).idx ≡ c.idx
unfolding chunk_clear
chunk_clear-idx i c = refl

-- After a change of chunk `k`, frame `j` is marked by the changed chunk or as before.
used-change_chunk :
    (k j : ℕ) (f : Chunk → Chunk) (cs : List Chunk)
    → ((c : Chunk) → (f c).idx ≡ c.idx)
    → used (change_chunk k f cs) j ≡ (
        if j / 256 == k
        then marked (j % 256) (Option.map f (find_chunk (j / 256) cs))
        else used cs j)
unfolding used
used-change_chunk k j f cs keep =
    ap (marked (j % 256)) (find_chunk-change_chunk k (j / 256) f cs keep) ∙ ground arith

-- Marking a frame of a chunk that is there.
pub used-chunk_set :
    (chi local : ℕ) (c : Chunk) (cs : List Chunk) (j : ℕ)
    → local < 256
    → find_chunk chi cs ≡ some c
    → used (change_chunk chi (chunk_set local) cs) j
      ≡ (if j == chi * 256 + local then true else used cs j)
used-chunk_set chi local c cs j lt found =
    used-change_chunk chi j (chunk_set local) cs (chunk_set-idx local)
    ∙ elim (Bool-cases (j / 256 == chi)) [
      | inl same ↦
          let at : find_chunk (j / 256) cs ≡ some c =
            ap (λ x. find_chunk x cs) (ground arith) ∙ found in
          rw (same, at)
            (chunk_test-chunk_set c local (j % 256)
              ∙ unfold used in ground (arith, ap (marked (j % 256)) at))
      | inr other ↦ let ne : (j == chi * 256 + local) ≡ false = ground arith in rw (other, ne)
    ]

cleared :
    (local l : ℕ) (o : Option Chunk)
    → marked l (Option.map (chunk_clear local) o) ≡ (if l == local then false else marked l o)
cleared local l none = ground arith
cleared local l (some c) = chunk_test-chunk_clear c local l

-- Freeing a frame, whether its chunk is there or not.
pub used-chunk_clear :
    (chi local : ℕ) (cs : List Chunk) (j : ℕ)
    → local < 256
    → used (change_chunk chi (chunk_clear local) cs) j
      ≡ (if j == chi * 256 + local then false else used cs j)
used-chunk_clear chi local cs j lt =
    used-change_chunk chi j (chunk_clear local) cs (chunk_clear-idx local)
    ∙ elim (Bool-cases (j / 256 == chi)) [
      | inl same ↦
          rw same (cleared local (j % 256) (find_chunk (j / 256) cs) ∙ unfold used in ground arith)
      | inr other ↦ let ne : (j == chi * 256 + local) ≡ false = ground arith in rw (other, ne)
    ]

-- `free_frame` frees the frame of its address and no other; an address that is 0, unaligned or out
-- of range changes no mark.
pub free_frame-used :
    (addr : ℕ) (m : Memmap) (j : ℕ)
    → used (free_frame addr m).chunks j ≡ (
        if not (addr == 0)
          && (addr % 4096 == 0)
          && leb m.start_frame (addr / 4096)
          && ltb (addr / 4096) (m.start_frame + m.frames)
          && (m.start_frame + j == addr / 4096)
        then false
        else used m.chunks j)
unfolding free_frame
free_frame-used addr m j = ground (
  arith,
  used-chunk_clear ((addr / 4096 - m.start_frame) / 256) ((addr / 4096 - m.start_frame) % 256)
      m.chunks j,
)
