-- ===== src/Counters.antt =====
-- The allocation counters, src/mm_stats.c, in a build with MM_STATS.
pub mod Laws
pub mod Merge
use mars_memory_allocator.Base.{
  ℕ, zero, suc, ◌+◌, ◌-◌, ◌*◌, ◌/◌, ◌%◌, ◌^◌, ◌≤◌, ◌<◌, ◌≡◌, refl, sym, ap, ◌∙◌, ◌≢◌, ◌↔◌, ◌⊎◌, inl,
  inr, Bool, true, false, not, ◌&&◌, ◌||◌, Option, none, some, List, [], ◌∷◌, ◌++◌, arith, ltb, leb,
  ◌==◌, if◌then◌else◌, ltb→lt, lt→ltb, leb→le, le→leb, eq→==, ==_iff, Bool-cases, Option-cases,
  length, get_or, length-append,
}
use mars_memory_allocator.Layout.{Profile}
use mars_memory_allocator.State.{State, Stats, add64, sub64}
use mars_memory_allocator.Block.{block_size, requested_size}

-- mm_stats_event_t
pub data Event : Type 0 where
  alloc alloc_failed free realloc quarantine repair scrub scrub_hit : Event

-- mm_stats_block_added
unfoldable pub block_added : Stats → ℕ → ℕ → Stats
block_added s block payload =
    let s' = record s {
      live_blocks = add64 s.live_blocks 1;
      live_payload_bytes = add64 s.live_payload_bytes payload;
      live_block_bytes = add64 s.live_block_bytes block;
    } in
    if ltb s'.peak_block_bytes s'.live_block_bytes
    then record s' {
      peak_block_bytes = s'.live_block_bytes;
      peak_payload_bytes = s'.live_payload_bytes;
      peak_blocks = s'.live_blocks;
    }
    else s'

-- mm_stats_block_removed
unfoldable pub block_removed : Stats → ℕ → ℕ → Stats
block_removed s block payload = record s {
  live_blocks = if ltb 0 s.live_blocks then s.live_blocks - 1 else s.live_blocks;
  live_payload_bytes =
      if leb payload s.live_payload_bytes then s.live_payload_bytes - payload else 0;
  live_block_bytes = if leb block s.live_block_bytes then s.live_block_bytes - block else 0;
}

-- mm_stats_note
unfoldable pub note : Stats → Event → ℕ → Stats
note s alloc n = record s { alloc_calls = add64 s.alloc_calls 1 }
note s alloc_failed n = record s { alloc_failures = add64 s.alloc_failures 1 }
note s free n = record s { free_calls = add64 s.free_calls 1 }
note s realloc n = record s { realloc_calls = add64 s.realloc_calls 1 }
note s quarantine n = record s {
  quarantined_blocks = add64 s.quarantined_blocks 1;
  quarantined_bytes = add64 s.quarantined_bytes n;
}
note s repair n = record s {
  repaired_blocks = add64 s.repaired_blocks 1;
  repaired_bytes = add64 s.repaired_bytes n;
}
note s scrub n = record s {
  scrub_passes = add64 s.scrub_passes 1;
  scrub_blocks = add64 s.scrub_blocks n;
}
note s scrub_hit n = record s { scrub_detections = add64 s.scrub_detections n }

-- MM_STAT_NOTE, MM_STAT_ADD and MM_STAT_SUB
abbrev pub stat_note : Event → ℕ → State → State
stat_note e n st = record st { stats = note st.stats e n }

abbrev pub stat_add : Profile → ℕ → State → State
stat_add p b st = record st {
  stats = block_added st.stats (block_size st.mem b) (requested_size p st.mem b);
}

abbrev pub stat_sub : Profile → ℕ → State → State
stat_sub p b st = record st {
  stats = block_removed st.stats (block_size st.mem b) (requested_size p st.mem b);
}
