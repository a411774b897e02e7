-- ===== src/Frames/Tests.antt =====
-- Runs of the frame allocator, and its theorems at a small range.
use lite_core.Prelude.{ℕ, ◌≡◌, refl, [], ◌∷◌, Bool, true, false, if◌then◌else◌, ◌==◌}
use lite_core.Frames.{
  alloc_from, obtain, find_chunk, scan_words, scan_bits, chunk_test, bit, take_frame, Memmap,
  memmap_init, alloc_frame, free_frame,
}
use lite_core.Frames.Used.{used, free_frame-used}

abbrev nothing : Memmap
nothing = record {
  start_addr = 0;
  end_addr = 0;
  start_frame = 0;
  frames = 0;
  max_frames = 0;
  chunks = [];
}

-- 300 frames from 1 MiB on, the first two of them taken.
abbrev two_taken : Memmap
two_taken = record {
  start_addr = 0x100000;
  end_addr = 0x22C000;
  start_frame = 256;
  frames = 300;
  max_frames = 300;
  chunks = record { idx = 0; words = λ w. if w == 0 then 3 else 0 } ∷ [];
}

abbrev memory : ℕ → Bool
memory chi = true

init_frames : (memmap_init 0x100000 0x22C000 nothing).frames ≡ 300
unfolding memmap_init
init_frames = refl

third_frame : (alloc_frame memory two_taken).0 ≡ 0x102000
unfolding alloc_frame alloc_from obtain find_chunk scan_words scan_bits chunk_test bit take_frame
third_frame = refl

no_frames : (alloc_frame memory nothing).0 ≡ 0
unfolding alloc_frame alloc_from obtain find_chunk scan_words scan_bits chunk_test bit take_frame
no_frames = refl

free_frame-used_example : used (free_frame 0x101000 two_taken).chunks 1 ≡ false
free_frame-used_example = free_frame-used 0x101000 two_taken 1
