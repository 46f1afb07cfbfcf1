-- ===== src/Lib.antt =====
-- A verification of the Mars memory allocator, an allocator for memory that suffers bit flips.
--
-- The program is one arena of spans, each tiled by blocks. A block carries a control word, under
-- two of the three profiles a checksum and a trailing canary, and under one of them a copy of its
-- header at its tail. Allocation takes free blocks from size-classed lists whose links lie in the
-- blocks; every operation re-checks what it is about to trust, and gives up the memory that it
-- cannot. The parts and the files that model them:
--   * Layout, Layout.Word, Block: src/mm_layout.h and mm_size_for of src/mm_core.c. Layout holds
--     the sizes of each profile, Layout.Word the control word as a number, Block the same fields
--     of a block in memory, its links, its tag and the values its checksum and canary must have.
--   * Memory: bytes by address, with little-endian loads and stores, as the source's memcpy and
--     its typed accesses behave on the machines it is built for.
--   * Bitmap, Bins: the bitmap over the bins (src/mm_freelist.c) and the map from a size to its bin
--     (src/mm_freelist.h).
--   * Crc: src/mm_crc32.c. Crc.Reference is the bit-by-bit definition, Crc.Hardware the SSE4.2 path,
--     whose two instructions are parameters with their documented behaviour as hypotheses.
--   * State: the arena of src/mm_internal.h with the thread's status, in a build with one arena.
--   * Span: the registry of src/mm_arena.c that finds the span of an address. mm_span_of asks a
--     one-entry cache first; the model asks the registry.
--   * Counters: the counters of src/mm_stats.c; Counters.Merge: their sum and reset over all arenas.
--   * Check: the validation and the sealing of one block, src/mm_integrity.c.
--   * FreeList: the free lists of src/mm_freelist.c.
--   * Recovery: publishing, quarantine, rescue and recovery, src/mm_integrity.c.
--   * Locate, Access: from a pointer to a block, and mm_read and mm_write of src/mm_access.c.
--   * HeapCheck: mm_verify and mm_check_heap. Scrub: the patrol scrubber.
--   * Coalesce: merging, splitting, releasing and stamping blocks, the helpers of src/mm_core.c.
--   * Platform: the calls of the operating system that src/mm_arena.c and mm_draw_secret make, as a
--     record of functions that the operations take.
--   * Registry: the unit index with its rehash, the span descriptors and the registering of a
--     span. Arena: spans mapped, adopted and released, and mm_init. Both are src/mm_arena.c.
--   * Alloc, Resize: mm_malloc, mm_free, mm_realloc and mm_memalign of src/mm_core.c.
--   * Remote: the queue of remote frees of src/mm_lock.c, as a step relation over its threads.
--     Drain: mm_remote_drain of src/mm_core.c.
--   * Pool: which thread works in which arena, src/mm_lock.c, as a step relation.
--   * Mode: mm_set_mode and mm_get_mode of src/mm_integrity.c.
--   * Confine: what it means that a step writes only inside the spans, and its modules the parts of
--     the program that keep to it, from the lists (Confine.Lists) to mm_free (Confine.Free),
--     mm_malloc (Confine.Malloc) and mm_realloc (Confine.Realloc).
--   * Shim: shim/mm_shim.c. Shim holds the bootstrap pool and the start-up, Shim.Family the malloc
--     family, Shim.Number the printing of numbers, Shim.Pool the steps of a whole start-up. What
--     the loader, the environment and the system's own allocator answer is a record that the
--     definitions take.
--   * Histogram: the latency histogram of bench/bench_timer.c.
--   * Examples: a small arena and the theorems at concrete inputs.
--
-- A pointer is its address and NULL is 0. A C function that returns a value and changes the arena
-- is a function from the state to the pair of both. Sums of size_t are written with their
-- wrap-around where the source can wrap. Loops run on the budgets that the source gives them: the
-- number of blocks a span can hold, MM_BIN_SCAN_CAP, MM_RECOVERY_STEPS, the patrol's guard. The
-- loops without one run on a bound that they cannot exceed: the probe of the unit index on the size
-- of the table, the walk over the spans on their number, the loop that leaves room in front of an
-- aligned block on MM_MIN_BLOCK rounds, and the bit searches and the doubling of a table on 64.
--
-- In the queue of remote frees every load, store and compare-exchange of a push is a step of its
-- own, in one order for all threads; the weaker memory orders of C are not modelled. A pop is one
-- step, since no push reads what it writes before its last store. The compare-exchange compares the
-- head alone, so the run records, beside the program's state, how many positions were claimed
-- between the load of a sequence number and the compare-exchange that relied on it, and the theorems
-- name the bound on that number (Remote.Prompt) under which a wrap of the head cannot be mistaken.
--
-- What the platform promises of new pages (Platform.map_at) reaches calloc through mm_malloc_fresh.
-- The theorem that calloc clears its block leaves out the spans that the arena maps itself, unless
-- MARS_SHIM_NOFRESH is set.
--
-- Not modelled: the locks, and work in an arena that another thread owns (the rest of
-- src/mm_lock.c, and the branches of src/mm_core.c that hand a pointer to another arena), the build
-- option that clears freed memory, the statistics that the preload library prints, its file of
-- reports and its pthread_create, the workloads, clocks and reports of the benchmarks, the floating
-- point of a quantile, the fault injector and the tests.
pub mod Base
pub mod Layout
pub mod Bitmap
pub mod Bins
pub mod Crc
pub mod Memory
pub mod State
pub mod Block
pub mod Span
pub mod Counters
pub mod Check
pub mod FreeList
pub mod Recovery
pub mod Confine
pub mod Locate
pub mod Access
pub mod Coalesce
pub mod HeapCheck
pub mod Scrub
pub mod Examples
pub mod Platform
pub mod Registry
pub mod Arena
pub mod Alloc
pub mod Resize
pub mod Remote
pub mod Drain
pub mod Pool
pub mod Mode
pub mod Shim
pub mod Histogram
