-- ===== src/Alloc.antt =====
-- The allocation calls of src/mm_core.c, in a build with one arena: allocation, release, resizing
-- and aligned allocation. 0 is NULL. The build option that clears freed payloads is off.
pub mod Refuse
use mars_memory_allocator.Base.{
  ℕ, ◌+◌, ◌-◌, ◌/◌, true, false, not, ◌&&◌, ◌||◌, ltb, leb, ◌==◌, if◌then◌else◌,
}
use mars_memory_allocator.Platform.{Platform, release_pages}
use mars_memory_allocator.Span.{chunk_size, large_threshold, span_of}
use mars_memory_allocator.Layout.{Profile, size_for, size_max}
use mars_memory_allocator.State.{
  State, clear_error, with_mem, arena_live, fail, is_user, not_initialized, double_free, is_large,
  nomem, corrupt_links, add64,
}
use mars_memory_allocator.Coalesce.{
  absorb_neighbours, release_block, split_block, finish_allocation,
}
use mars_memory_allocator.Block.{
  block_size, block_end, set_word, payload_of, is_used, requested_size, set_payload_crc,
}
use mars_memory_allocator.Locate.{live_block, size_of_live}
use mars_memory_allocator.Check.{seal, header_ok, unchanged, canary_ok}
use mars_memory_allocator.FreeList.{bin_find, bin_remove}
use mars_memory_allocator.Arena.{map_large, arena_grow, take_fresh, release_span}
use mars_memory_allocator.Counters.{stat_sub, stat_note, free, alloc_failed, stat_add, alloc}
use mars_memory_allocator.Scrub.{scrub_tick}
use mars_memory_allocator.Recovery.{quarantine_block}
use mars_memory_allocator.Registry.{set_desc}

-- MM_DONTNEED_MIN and MM_TRIM_INTERVAL
abbrev pub dontneed_min : ℕ
dontneed_min = chunk_size / 2

abbrev pub trim_interval : ℕ
trim_interval = 1024

module _ (os : Platform) (p : Profile) where
  -- grow_for
  unfoldable pub grow_for : State → ℕ → ℕ × State
  grow_for st need =
      let (s, st1) =
        if ltb large_threshold need then map_large os p st need else arena_grow os p st need in
      let b = (st1.desc s).lo in
      if not st.growable
      then (0, st)
      else if s == 0
      then (0, st1)
      else if not (header_ok p st1 b) || is_used st1.mem b || ltb (block_size st1.mem b) need
      then (0, st1)
      else (b, st1)

  -- malloc_unlocked, the choice of a block
  unfoldable pub find_block : State → ℕ → ℕ × State
  unfolding grow_for
  find_block st need =
      let dedicated = st.growable && ltb large_threshold need in
      let (b0, st0) = if dedicated then (0, st) else bin_find p st need in
      let (b1, st1) = if b0 == 0 then grow_for st0 need else (b0, st0) in
      if b1 == 0 && dedicated then bin_find p st1 need else (b1, st1)

  -- malloc_unlocked, from the block marked in use on: the pointer and the state
  unfoldable pub hand_out : State → (b found need size : ℕ) → ℕ × State
  hand_out st b found need size =
      let st1 = seal p (with_mem st (set_word st.mem b found 0 true false)) b in
      let st2 = split_block p st1 b need in
      let (published, st3) =
        finish_allocation p (with_mem st2 (set_payload_crc p st2.mem b 0)) b size in
      let st4 = stat_add p b (stat_note alloc size st3) in
      if not published then (0, scrub_tick p st3) else (payload_of p b, scrub_tick p st4)

  -- malloc_unlocked, once a block is found: the pointer, the dirty prefix and the state
  unfoldable pub carve : State → (b need size : ℕ) → ℕ × ℕ × State
  unfolding hand_out
  carve st b need size =
      let found = block_size st.mem b in
      let st1 = bin_remove p st b in
      let (dirty, st2) = if st1.fresh_spans == 0 then (size_max, st1) else take_fresh st1 b in
      let (ptr, st3) = hand_out st2 b found need size in
      if not (unchanged p st1 b found false)
      then (0, size_max, scrub_tick p (fail corrupt_links (quarantine_block p st1 b)))
      else (ptr, dirty, st3)

  -- malloc_unlocked
  unfoldable pub malloc_fresh : State → ℕ → ℕ × ℕ × State
  unfolding find_block carve
  malloc_fresh st size =
      let st0 = clear_error st in
      let need = size_for p size in
      let (b, st1) = find_block st0 need in
      if not (arena_live st0)
      then (0, size_max, fail not_initialized st0)
      else if size == 0
      then (0, size_max, fail nomem st0)
      else if need == 0
      then (0, size_max, fail nomem st0)
      else if b == 0
      then (0, size_max, scrub_tick p (fail nomem (stat_note alloc_failed 0 st1)))
      else carve st1 b need size

  -- mm_malloc
  unfoldable pub malloc : State → ℕ → ℕ × State
  unfolding malloc_fresh
  malloc st size = let (ptr, dirty, st1) = malloc_fresh st size in (ptr, st1)

  -- mm_usable_size, under the guard
  unfoldable pub usable_size : State → ℕ → ℕ × State
  usable_size st ptr = size_of_live p (clear_error st) ptr

  -- reclaim
  unfoldable pub reclaim : State → ℕ → State
  reclaim st b =
      let s = span_of st b in
      let sp = st.desc s in
      let end = block_end st.mem b in
      let st1 = release_pages os st (payload_of p b + 16) (end - 8) in
      if s == 0 || is_user sp.kind
      then st
      else if is_used st.mem b
      then st
      else if is_large sp.kind && b == sp.lo && end == sp.hi
      then release_span os (bin_remove p st b) s
      else if leb dontneed_min (block_size st.mem b) && leb sp.trim_after st.ops
      then set_desc st1 s (record sp { trim_after = add64 st.ops trim_interval })
      else st

  -- `run = absorb_neighbours(b); if (run != NULL) { release_block(run); reclaim(run); }`
  unfoldable pub release_run : State → ℕ → State
  unfolding reclaim
  release_run st b =
      let (run, st1) = absorb_neighbours p st b in
      if run == 0 then st1 else reclaim (release_block p st1 run) run

  -- free_unlocked
  unfoldable pub free_unlocked : State → ℕ → State
  unfolding release_run
  free_unlocked st ptr =
      let (b, st1) = live_block p (clear_error st) ptr in
      let st2 = stat_sub p b (stat_note free (requested_size p st1.mem b) st1) in
      if b == 0
      then st1
      else if not (is_used st1.mem b)
      then fail double_free st1
      else if not (canary_ok p st1 b)
      then quarantine_block p st1 b
      else scrub_tick p (release_run st2 b)

  -- mm_free
  unfoldable pub free_block : State → ℕ → State
  unfolding free_unlocked
  free_block st ptr = if ptr == 0 then clear_error st else free_unlocked st ptr
