-- ===== src/Counters/Merge.antt =====
-- mm_stats_get and mm_stats_reset of src/mm_stats.c, over the counters of every arena, in the
-- order in which mm_arena_first and mm_arena_next give the arenas.
use mars_memory_allocator.Base.{◌≡◌, refl, List, [], ◌∷◌, ◌^◌, ◌<◌, arith}
use mars_memory_allocator.State.{Stats, add64}
use mars_memory_allocator.Counters.Laws.{SameLive}

-- the counters as memset leaves them
abbrev pub cleared : Stats
cleared = record {
  alloc_calls = 0;
  alloc_failures = 0;
  free_calls = 0;
  realloc_calls = 0;
  live_blocks = 0;
  live_payload_bytes = 0;
  live_block_bytes = 0;
  peak_block_bytes = 0;
  peak_payload_bytes = 0;
  peak_blocks = 0;
  quarantined_blocks = 0;
  quarantined_bytes = 0;
  repaired_blocks = 0;
  repaired_bytes = 0;
  scrub_passes = 0;
  scrub_blocks = 0;
  scrub_detections = 0;
}

-- the body of mm_stats_get's loop
unfoldable pub stats_plus : Stats → Stats → Stats
stats_plus out s = record {
  alloc_calls = add64 out.alloc_calls s.alloc_calls;
  alloc_failures = add64 out.alloc_failures s.alloc_failures;
  free_calls = add64 out.free_calls s.free_calls;
  realloc_calls = add64 out.realloc_calls s.realloc_calls;
  live_blocks = add64 out.live_blocks s.live_blocks;
  live_payload_bytes = add64 out.live_payload_bytes s.live_payload_bytes;
  live_block_bytes = add64 out.live_block_bytes s.live_block_bytes;
  peak_block_bytes = add64 out.peak_block_bytes s.peak_block_bytes;
  peak_payload_bytes = add64 out.peak_payload_bytes s.peak_payload_bytes;
  peak_blocks = add64 out.peak_blocks s.peak_blocks;
  quarantined_blocks = add64 out.quarantined_blocks s.quarantined_blocks;
  quarantined_bytes = add64 out.quarantined_bytes s.quarantined_bytes;
  repaired_blocks = add64 out.repaired_blocks s.repaired_blocks;
  repaired_bytes = add64 out.repaired_bytes s.repaired_bytes;
  scrub_passes = add64 out.scrub_passes s.scrub_passes;
  scrub_blocks = add64 out.scrub_blocks s.scrub_blocks;
  scrub_detections = add64 out.scrub_detections s.scrub_detections;
}

-- the rest of that loop
unfoldable sum_from : Stats → List Stats → Stats
sum_from out [] = out
sum_from out (s ∷ rest) = sum_from (stats_plus out s) rest

-- mm_stats_get
unfoldable stats_get : List Stats → Stats
stats_get arenas = sum_from cleared arenas

-- mm_stats_reset
unfoldable stats_reset : List Stats → List Stats
stats_reset [] = []
stats_reset (s ∷ rest) = cleared ∷ stats_reset rest

-- After a reset every counter reads as zero, however many arenas there are.
stats_get-stats_reset : (arenas : List Stats) → stats_get (stats_reset arenas) ≡ cleared
unfolding stats_get stats_reset sum_from stats_plus
stats_get-stats_reset [] = refl
stats_get-stats_reset (s ∷ rest) = stats_get-stats_reset rest

-- With one arena the live figures are that arena's, while each is a 64-bit value.
stats_get-one :
    (s : Stats)
    → s.live_blocks < 2 ^ 64
    → s.live_payload_bytes < 2 ^ 64
    → s.live_block_bytes < 2 ^ 64
    → SameLive (stats_get (s ∷ [])) s
unfolding stats_get sum_from stats_plus
stats_get-one s a b c = (omega arith, omega arith, omega arith)
