-- ===== src/Frames/Reserve.antt =====
-- What `memmap_reserve` (src/kernel/mem/map.c) marks.
