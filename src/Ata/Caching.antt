-- ===== src/Ata/Caching.antt =====
-- The block cache of src/kernel/fs/block_cache.c over the driver of src/kernel/driver/ata.c.
