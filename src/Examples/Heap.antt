-- ===== src/Examples/Heap.antt =====
-- Three blocks that tile a span of 160 bytes: one in use, one free, one in use.
use mars_memory_allocator.Base.{ℕ, ◌≡◌, refl, true, false, [], ◌==◌, if◌then◌else◌}
use mars_memory_allocator.Layout.{fast}
use mars_memory_allocator.Layout.Word
use mars_memory_allocator.Memory.{Mem, store, load}
use mars_memory_allocator.State.{Span, State, Stats, managed, user_span, ok}
use mars_memory_allocator.Check.{header_ok, block_ok_in, start_ok_in}
use mars_memory_allocator.Span.{span_of, index_find, find_from}

abbrev pub first : ℕ
first = 4104

abbrev pub middle : ℕ
middle = 4168

abbrev pub last : ℕ
last = 4232

abbrev pub heap_span : Span
heap_span = record {
  magic = 0;
  lo = 4104;
  hi = 4264;
  next = 0;
  index_base = 7;
  map_base = 0;
  map_size = 0;
  kind = user_span;
  fresh = false;
  trim_after = 0;
}

abbrev pub no_stats : Stats
no_stats = record {
  alloc_calls = 0;
  alloc_failures = 0;
  free_calls = 0;
  realloc_calls = 0;
  live_blocks = 0;
  live_payload_bytes = 0;
  live_block_bytes = 0;
  peak_block_bytes = 0;
  peak_payload_bytes = 0;
  peak_blocks = 0;
  quarantined_blocks = 0;
  quarantined_bytes = 0;
  repaired_blocks = 0;
  repaired_bytes = 0;
  scrub_passes = 0;
  scrub_blocks = 0;
  scrub_detections = 0;
}

-- 64 bytes with a payload of 40, 64 free bytes, and 32 bytes with a payload of 20
abbrev pub heap_mem : Mem
heap_mem =
    let m1 = store 8 (λ _. 0) 4104 (Word.set_prev_in_use (Word.set_word 0 64 16 true false) true) in
    let m2 = store 8 m1 4168 (Word.set_prev_in_use (Word.set_word 0 64 0 false false) true) in
    let m3 = store 8 (store 8 m2 4176 5) 4184 5 in
    let m4 = store 8 m3 4224 64 in
    store 8 m4 4232 (Word.set_prev_in_use (Word.set_word 0 32 4 true false) false)

abbrev pub heap : State
heap = record {
  mem = heap_mem;
  desc = λ _. heap_span;
  spans = 1;
  span_count = 1;
  total_bytes = 160;
  next_index_base = 20;
  bins = λ i. if i == 2 then 4168 else 0;
  bin_bitmap = λ w. if w == 0 then 4 else 0;
  secret = 5;
  lost_bytes = 0;
  scrub_span = 0;
  scrub_at = 0;
  growable = false;
  fresh_spans = 0;
  ops = 0;
  mode = managed;
  stats = no_stats;
  ops_since_scrub = 0;
  scrub_interval = 0;
  scrub_budget = 16;
  user = 1;
  index = record { cap = 0; unit = λ _. 0; span = λ _. 0 };
  index_used = 0;
  index_live = 0;
  pool = 0;
  slab = 0;
  slab_left = 0;
  maps = 0;
  unmapped = [];
  pinned = 7;
  last_error = ok;
}

pub first_ok : header_ok fast heap first ≡ true
unfolding header_ok block_ok_in start_ok_in span_of index_find find_from load store Word.size_of
    Word.set_word Word.set_prev_in_use
first_ok = refl
