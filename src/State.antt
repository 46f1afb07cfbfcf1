-- ===== src/State.antt =====
-- The allocator's state in a build with one arena (MARS_LOCK none or global): mm_arena and mm_span
-- of src/mm_internal.h, the registry of src/mm_arena.c, and the status of the calling thread.
-- Descriptors live outside the arena, in a store of their own, `desc`; 0 is NULL.
use mars_memory_allocator.Base.{ℕ, ◌+◌, ◌-◌, ◌%◌, ◌^◌, Bool, true, false, not, List, ◌==◌}
use mars_memory_allocator.Bitmap.{Bitmap}
use mars_memory_allocator.Memory.{Mem}

-- mm_status_t
pub data Status : Type 0 where
  ok not_initialized bad_arena invalid_ptr oob corrupt_header corrupt_canary : Status
  corrupt_payload corrupt_links double_free nomem quarantined degraded : Status

abbrev pub is_ok : Status → Bool
is_ok ok = true
is_ok _ = false

pub data Mode : Type 0 where
  managed libc : Mode

abbrev pub is_libc : Mode → Bool
is_libc managed = false
is_libc libc = true

pub data SpanKind : Type 0 where
  user_span chunk_span large_span : SpanKind

abbrev pub is_user : SpanKind → Bool
is_user user_span = true
is_user _ = false

abbrev pub is_large : SpanKind → Bool
is_large large_span = true
is_large _ = false

-- mm_span
pub record Span : Type 0 where
  pub magic : ℕ
  pub lo : ℕ
  pub hi : ℕ
  pub next : ℕ
  pub index_base : ℕ
  pub map_base : ℕ
  pub map_size : ℕ
  pub kind : SpanKind
  pub fresh : Bool
  pub trim_after : ℕ

-- mm_index: the units and the descriptors of the slots, by slot number
pub record Index : Type 0 where
  pub cap : ℕ
  pub unit : ℕ → ℕ
  pub span : ℕ → ℕ

-- mm_stats_t
pub record Stats : Type 0 where
  pub alloc_calls : ℕ
  pub alloc_failures : ℕ
  pub free_calls : ℕ
  pub realloc_calls : ℕ
  pub live_blocks : ℕ
  pub live_payload_bytes : ℕ
  pub live_block_bytes : ℕ
  pub peak_block_bytes : ℕ
  pub peak_payload_bytes : ℕ
  pub peak_blocks : ℕ
  pub quarantined_blocks : ℕ
  pub quarantined_bytes : ℕ
  pub repaired_blocks : ℕ
  pub repaired_bytes : ℕ
  pub scrub_passes : ℕ
  pub scrub_blocks : ℕ
  pub scrub_detections : ℕ

pub record State : Type 0 where
  pub mem : Mem
  pub desc : ℕ → Span
  -- mm_arena
  pub spans : ℕ
  pub span_count : ℕ
  pub total_bytes : ℕ
  pub next_index_base : ℕ
  pub bins : ℕ → ℕ
  pub bin_bitmap : Bitmap
  pub secret : ℕ
  pub lost_bytes : ℕ
  pub scrub_span : ℕ
  pub scrub_at : ℕ
  pub growable : Bool
  pub fresh_spans : ℕ
  pub ops : ℕ
  pub mode : Mode
  pub stats : Stats
  pub ops_since_scrub : ℕ
  -- g_scrub_interval and g_scrub_budget
  pub scrub_interval : ℕ
  pub scrub_budget : ℕ
  -- g_user and g_index
  pub user : ℕ
  pub index : Index
  -- g_index_used and g_index_live
  pub index_used : ℕ
  pub index_live : ℕ
  -- g_span_pool, g_span_slab and g_span_slab_left
  pub pool : ℕ
  pub slab : ℕ
  pub slab_left : ℕ
  -- what was asked of the platform: how many mappings, and which ranges were given back
  pub maps : ℕ
  pub unmapped : List (ℕ × ℕ)
  -- g_pinned_secret
  pub pinned : ℕ
  -- g_last_error
  pub last_error : Status

-- size_t and uint64_t sums and differences wrap.
abbrev pub add64 : ℕ → ℕ → ℕ
add64 a b = (a + b) % 2 ^ 64

abbrev pub sub64 : ℕ → ℕ → ℕ
sub64 a b = (a + 2 ^ 64 - b) % 2 ^ 64

-- mm_fail, without the status that it passes on
abbrev pub fail : Status → State → State
fail e st = record st { last_error = e }

abbrev pub clear_error : State → State
clear_error st = record st { last_error = ok }

-- the arena holds memory
abbrev pub arena_live : State → Bool
arena_live st = not (st.spans == 0)

abbrev pub with_mem : State → Mem → State
with_mem st m = record st { mem = m }
