-- ===== src/Frames.antt =====
-- The physical frame allocator of src/kernel/mem/map.c: a list of chunks, each a bitmap of 256
-- frames in eight 32-bit words. Each function runs under its lock, so it is one step. Whether the
-- two `kmalloc` calls of `create_chunk` succeed for a chunk is the argument `heap` of the functions
-- that create chunks.
pub mod Bits
pub mod Used
pub mod Scan
pub mod Alloc
pub mod Reserve
pub mod Range
mod Tests
use lite_core.Prelude.{
  ℕ, zero, suc, ◌+◌, ◌-◌, ◌*◌, ◌/◌, ◌%◌, ◌^◌, Bool, true, false, ◌||◌, not, List, [], ◌∷◌, Option,
  none, some, if◌then◌else◌, ltb, leb, ◌==◌, update, add64, sub64,
}

abbrev pub frame_size : ℕ
frame_size = 4096

-- `frames_per_chunk` and `chunk_word_count`
abbrev pub frames_per_chunk : ℕ
frames_per_chunk = 2 ^ 20 / frame_size

abbrev pub chunk_word_count : ℕ
chunk_word_count = (frames_per_chunk + 31) / 32

-- `chunk_t`, less the link to the next one
pub record Chunk : Type 0 where
  pub idx : ℕ
  pub words : ℕ → ℕ

-- `memmap_t`, less the unused bitmap, and the list of chunks
pub record Memmap : Type 0 where
  pub start_addr : ℕ
  pub end_addr : ℕ
  pub start_frame : ℕ
  pub frames : ℕ
  pub max_frames : ℕ
  pub chunks : List Chunk

-- `(x >> b) & 1`, `x | (1 << b)` and `x & ~(1 << b)`, one binary digit at a time.
unfoldable pub bit : ℕ → ℕ → ℕ
bit x zero = x % 2
bit x (suc b) = bit (x / 2) b

unfoldable pub set_bit : ℕ → ℕ → ℕ
set_bit x zero = x / 2 * 2 + 1
set_bit x (suc b) = set_bit (x / 2) b * 2 + x % 2

unfoldable pub clear_bit : ℕ → ℕ → ℕ
clear_bit x zero = x / 2 * 2
clear_bit x (suc b) = clear_bit (x / 2) b * 2 + x % 2

unfoldable pub find_chunk : ℕ → List Chunk → Option Chunk
find_chunk idx [] = none
find_chunk idx (c ∷ cs) = if c.idx == idx then some c else find_chunk idx cs

-- A write through the pointer that `find_chunk` returns.
unfoldable pub change_chunk : ℕ → (Chunk → Chunk) → List Chunk → List Chunk
change_chunk idx f [] = []
change_chunk idx f (c ∷ cs) = if c.idx == idx then f c ∷ cs else c ∷ change_chunk idx f cs

unfoldable pub create_chunk : (ℕ → Bool) → ℕ → List Chunk → Option (List Chunk)
create_chunk heap idx cs =
    if heap idx then some (record { idx = idx; words = λ w. 0 } ∷ cs) else none

unfoldable pub chunk_test : Chunk → ℕ → Bool
chunk_test c local = bit (c.words (local / 32)) (local % 32) == 1

unfoldable pub chunk_set : ℕ → Chunk → Chunk
chunk_set local c = record c {
  words = update c.words (local / 32) (set_bit (c.words (local / 32)) (local % 32));
}

unfoldable pub chunk_clear : ℕ → Chunk → Chunk
chunk_clear local c = record c {
  words = update c.words (local / 32) (clear_bit (c.words (local / 32)) (local % 32));
}

-- `memmap_init`: an empty range changes nothing; else the chunks are dropped.
unfoldable pub memmap_init : (start end : ℕ) → Memmap → Memmap
memmap_init start end m =
    let start_frame = start / frame_size in
    let count = sub64 (add64 end 4095 / frame_size) start_frame in
    if leb end start then m else record {
      start_addr = start;
      end_addr = end;
      start_frame = start_frame;
      frames = count;
      max_frames = count;
      chunks = [];
    }

-- The chunk of an index, created if it is not there.
unfoldable pub obtain : (ℕ → Bool) → ℕ → List Chunk → Option (Chunk × List Chunk)
obtain heap idx cs = elim (find_chunk idx cs) [
  | some c ↦ some (c, cs)
  | none ↦ elim (create_chunk heap idx cs) [
    | none ↦ none
    | some cs' ↦ some (record { idx = idx; words = λ w. 0 }, cs')
  ]
]

-- The scan of one word from bit `b` on, for `n` bits: the first free frame of the chunk.
unfoldable pub scan_bits : ℕ → (w b : ℕ) → Chunk → Option ℕ
scan_bits zero w b c = none
scan_bits (suc n) w b c =
    let rest = scan_bits n w (b + 1) c in
    if leb frames_per_chunk (w * 32 + b)
    then none
    else if chunk_test c (w * 32 + b)
    then rest
    else some (w * 32 + b)

-- The scan of the words from `w` on, for `n` words.
unfoldable pub scan_words : ℕ → (w : ℕ) → Chunk → Option ℕ
scan_words zero w c = none
scan_words (suc n) w c =
    let rest = scan_words n (w + 1) c in
    if c.words w == 0xFFFFFFFF
    then rest
    else elim (scan_bits 32 w 0 c) [ none ↦ rest | some i ↦ some i ]

-- A free frame of chunk `chi` is taken, unless it lies behind the managed range.
unfoldable pub take_frame : (chi bit_idx : ℕ) → Memmap → ℕ × Memmap
take_frame chi bit_idx m =
    let taken = change_chunk chi (chunk_set bit_idx) m.chunks in
    let frame_no = add64 (add64 m.start_frame (chi * frames_per_chunk)) bit_idx in
    if leb (add64 m.start_frame m.frames) frame_no
    then (0, record m { chunks = change_chunk chi (chunk_clear bit_idx) taken })
    else (frame_no * frame_size % 2 ^ 64, record m { chunks = taken })

-- The loop over the chunks from `chi` on, for `n` chunks.
unfoldable pub alloc_from : (ℕ → Bool) → ℕ → (chi : ℕ) → Memmap → ℕ × Memmap
alloc_from heap zero chi m = (0, m)
alloc_from heap (suc n) chi m = elim (obtain heap chi m.chunks) [
  | none ↦ alloc_from heap n (chi + 1) m
  | some (c, cs) ↦ elim (scan_words chunk_word_count 0 c) [
    | none ↦ alloc_from heap n (chi + 1) (record m { chunks = cs })
    | some i ↦ take_frame chi i (record m { chunks = cs })
  ]
]

-- `alloc_frame`: the address of the frame, or 0.
unfoldable pub alloc_frame : (ℕ → Bool) → Memmap → ℕ × Memmap
alloc_frame heap m =
    if m.frames == 0
    then (0, m)
    else alloc_from heap (sub64 (add64 m.frames frames_per_chunk) 1 / frames_per_chunk) 0 m

unfoldable pub free_frame : ℕ → Memmap → Memmap
free_frame addr m =
    let frame_no = addr / frame_size in
    let idx = frame_no - m.start_frame in
    if (addr == 0) || not (addr % frame_size == 0)
    then m
    else if ltb frame_no m.start_frame || leb m.frames idx
    then m
    else record m {
      chunks =
          change_chunk (idx / frames_per_chunk) (chunk_clear (idx % frames_per_chunk)) m.chunks;
    }

abbrev pub frame_count : Memmap → ℕ
frame_count m = m.frames

-- The loop of `memmap_reserve` from `idx` on, for `n` frames.
unfoldable pub reserve_from : (ℕ → Bool) → ℕ → (idx : ℕ) → Memmap → Memmap
reserve_from heap zero idx m = m
reserve_from heap (suc n) idx m =
    let chi = idx / frames_per_chunk in
    reserve_from heap n (idx + 1) (elim (obtain heap chi m.chunks) [
      | none ↦ m
      | some (c, cs) ↦ record m {
        chunks = change_chunk chi (chunk_set (idx % frames_per_chunk)) cs;
      }
    ])

unfoldable pub memmap_reserve : (ℕ → Bool) → (start end : ℕ) → Memmap → Memmap
memmap_reserve heap start end m =
    let start_frame = start / frame_size in
    let end_frame = add64 end 4095 / frame_size in
    let top = add64 m.start_frame m.frames in
    let s = if ltb start_frame m.start_frame then 0 else start_frame - m.start_frame in
    let e = if ltb top end_frame then m.frames else end_frame - m.start_frame in
    if m.frames == 0
    then m
    else if leb end_frame m.start_frame || leb top start_frame
    then m
    else reserve_from heap (e - s) s m
