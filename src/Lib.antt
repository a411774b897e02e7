-- ===== src/Lib.antt =====
-- liteCore, a small x86-64 kernel in C: its memory management, its interrupt events, its keyboard,
-- its user copies, its block cache, its open files, its scheduler, its page tables, its spin lock,
-- its FAT12 reader and the growth of a task's heap.
--
-- The parts and their files:
-- * Kmalloc models `src/kernel/mem/manager.c`, the kernel heap. A `Heap` holds what the allocator
--   reads and writes: a header at every address, a 32-bit word at every address for the canaries,
--   `free_list`, `heap_start_addr`, `heap_end_addr` and `alloc_seq`. The functions have the
--   source's names (`mem_init`, `kmalloc`, `kmalloc_internal`, `heap_expand`, and in Kmalloc/Kfree
--   `kfree`, `stack_alloc`, `stack_free`, `heap_free_bytes`, `heap_largest_free_block`;
--   `heap_has_space` is the heap branch of `mem_has_space`). Kmalloc/Chain says when the free list
--   is a chain of blocks in address order; FirstFit, Fit, Expand, Alloc and Retry follow
--   `kmalloc`; Release, Join, Merge and Balance follow `kfree`; Statistics is about the counters,
--   Limits about the start of the heap.
-- * Frames models `src/kernel/mem/map.c`, the physical frames: a list of chunks, each a bitmap of
--   256 frames in eight words. `alloc_frame`, `free_frame`, `memmap_init` and `memmap_reserve`
--   have the source's names; a chunk is created by the heap, whose answer for a chunk is the
--   parameter `heap`. Frames/Bits is about the bit operations, Used about the marks, Scan about
--   the search for a free bit, Alloc and Reserve about the two functions that mark frames, Range
--   about the bounds that `alloc_frame` keeps.
-- * Interrupt models `src/kernel/interrupt/interrupt.c`: the ring of 64 events, the table of four
--   handlers for each vector, and the dispatcher. Handlers are a parameter that acts on the tables
--   and the rest of the machine.
-- * Keyboard models `src/kernel/device/keyboard.c`: the ring of 255 characters (Keyboard/Buffer),
--   the scan codes and the modifier keys (Keyboard/Typing), and the blocking read
--   (Keyboard/Reading). The ports and the serial line are arguments: an `Input` is what one poll
--   finds.
-- * Usercopy models `src/kernel/mem/usercopy.c`: the check of a user range (Usercopy/Range) and
--   the copies page by page (Usercopy/Copy). The page walk `vmem_virt_to_phys64` is an argument.
-- * BlockCache models `src/kernel/fs/block_cache.c`, the write-back cache of disk blocks, over an
--   interface to the driver (BlockCache/Transfer has the laws that the cache relies on).
--   BlockCache/Coherence says when a cache and a disk together stand for a store of blocks; Victim
--   is about the choice of an entry, WriteBack about the write of a dirty one, and Reading,
--   Writing and Flush about the operations; Damage shows what a failed disk read leaves behind.
-- * Ata models the transfers of `src/kernel/driver/ata.c`, `ata_read_sectors` and
--   `ata_write_sectors` with their waits, over the ports of the controller, which are a parameter.
--   Ata/Transfers says what a drive does with what comes over the ports and derives the laws that
--   the block cache relies on, within the 2^28 sectors that the driver can name; Ata/Caching joins
--   the cache and the driver.
-- * Tasks models `src/kernel/task/multi_task.c`: the task table, the ready queue, the choice of
--   the next task (`task_schedule`, which `task_yield` calls and whose choice
--   `task_schedule_from_irq` repeats), `task_exit` and `task_create`. Tasks/Queue reads the linked
--   queue as a list, Switch and Schedule follow a schedule, Ready the tasks that join, Rounds the
--   turns, Slots and Create a new task. The frames come from Frames; the address of virtual memory
--   and the new page table are the parameter `Machine`.
-- * Vfs models `src/kernel/fs/vfs.c`: the registered backends and the mount
--   (`vfs_register_backend`, `vfs_mount_with_cache`), the table of open files, and `vfs_open`,
--   `vfs_read`, `vfs_write`, `vfs_lseek` and `vfs_close`. The file systems are parameters, records
--   of functions as in the source. Vfs/Mounting has the backends, Vfs/Writing the seek and the
--   write. Vfs/Lookup is about the searches for a free handle and a free descriptor, Reading about
--   one read against the contents of a file, Opening about an open, and Sessions about what a task
--   sees: an open, a read, a close.
-- * Syscall models `sys_sbrk` of `src/kernel/syscall.c` over the interface `Pager` to the page
--   tables, which Syscall/PageTables fills with `map_page_pd` and `unmap_page_pd` of
--   `src/kernel/mem/paging.c` and the frames of Frames; Syscall/Sbrk is about the break.
-- * Spinlock models `src/kernel/sync/spinlock.c` with `irq_save` and `irq_restore` of
--   `src/kernel/interrupt/irq.c`: any number of processors, each somewhere between
--   `spin_lock_irqsave` and `spin_unlock_irqrestore`, take steps in any order. Spinlock/Safety has
--   the invariant of the states that they reach.
-- * Vmem models `src/kernel/mem/vmem.c`: the three modes of the translation
--   (`vmem_phys_to_virt64`, `vmem_virt_to_phys64`) and the walk through the four levels of page
--   tables. Memory is a 64-bit word at every address; `vmem_virt_to_phys`, the walk through 32-bit
--   tables, reads 32-bit words. Vmem/Unchecked joins it with the check of Usercopy.
-- * Paging models `src/kernel/mem/paging64.c` and `alloc_page_table` of `src/kernel/mem/paging.c`,
--   over the words of Vmem and the frames of Frames: `map_page_64`, `paging64_create_user_pml4`,
--   and in Paging/Boot `paging64_init_kernel_pml4`. The code that `map_page_64` repeats for the
--   two upper levels is one function, `ensure_table`. Paging/Entries is about the bits of an
--   entry, Allocate about a new table, Walk about the tables that are there, Levels and Ensure
--   about one level, Mapping about the four, Sharing about a new address space, Directories and
--   Identity about the kernel's.
-- * Fat12 models `src/kernel/fs/fat/fat12.c`, a reader of images in memory: `fat12_mount`,
--   `fat12_list_root`, `fat12_read_file`. Fat12/Scan reads the sectors of the directory as one row
--   of entries, Names is about the 8.3 names, Directory says what the files of a directory are,
--   independently of the code, Listing and Reading are about the two calls, Geometry about the
--   mount.
-- * Prelude holds the Boolean tests, the machine words, the list lemmas and the lemmas on windows
--   of a ring (Prelude/Ring) that the parts share.
--
-- How they interact: an open file is found through the descriptors of the current task of Tasks;
-- the frame allocator takes its chunks from the heap, and the main loop dispatches the events that
-- interrupt entry code raised; the keyboard raises and registers through the interrupt part; the
-- page tables take their frames from the frame allocator and their addresses from the translations
-- of Vmem, which are also what the check of user ranges asks. A call of the heap, the frames, the
-- interrupt part or the scheduler holds a lock or has interrupts off, so it is one step of the
-- model; the other parts have no lock in the source, and one call of them at a time is modelled.
--
-- Numbers are natural numbers with the wrap-around written out: sizes have 32 bits, pointers 64.
--
-- Fuel: the walks over the free list and the loop of the dispatcher run on fuel.
-- `keyboard_getchar` takes a list of inputs, one for each poll. The theorems say how much fuel is
-- enough: for the heap a little more than the length of the free list, for the dispatcher more
-- than the number of queued events, for a copy the number of bytes and three. A transfer of the
-- block cache has a round of fuel for each sector, and moves at least one in a round.
-- `kmalloc_internal` has at most four attempts, as in the source.
--
-- Not modelled: the frame branch of `mem_has_space` and `memory_init`; the kernel's own 32-bit
-- page directory (`map_page`, `unmap_page`, `paging_init_identity`), the TLB, the descriptor
-- tables and the assembly stubs; the set-up of the ATA drives and the other device drivers; the
-- switch of the registers in `task_schedule`, which is assembly; the report and the release of a
-- block cache; the standard descriptors in `vfs_read` and `vfs_write`, `vfs_fstat`,
-- `vfs_read_file_all` and the listings of directories; FAT16 and Ext2, the ELF loader, the other
-- system calls, which call the parts above, the console and the shell. The headers of the heap are
-- records at their addresses, so two headers that overlap do not disturb each other: the blocks of
-- a valid heap do not overlap, and requests whose rounding wraps, the only ones that cut a block
-- smaller than a header, are outside the theorems. The walk of `kmalloc` over the free list behind
-- a hit, which only counts for a message, is left out. What `printk` prints is left out, except
-- that `kfree` says whether it reported a mismatch.
pub mod Prelude
pub mod Kmalloc
pub mod Frames
pub mod Interrupt
pub mod Keyboard
pub mod Usercopy
pub mod BlockCache
pub mod Ata
pub mod Tasks
pub mod Vfs
pub mod Syscall
pub mod Spinlock
pub mod Vmem
pub mod Paging
pub mod Fat12
