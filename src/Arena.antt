-- ===== src/Arena.antt =====
-- Spans made and given back, src/mm_arena.c, in a build with one arena; and mm_init and
-- mm_arena_init_growable, which start one.
pub mod First
pub mod Open
pub mod Init
use mars_memory_allocator.Base.{
  ℕ, zero, suc, ◌+◌, ◌-◌, ◌*◌, ◌/◌, ◌%◌, ◌^◌, ◌≤◌, ◌<◌, ◌≡◌, refl, sym, ap, ◌∙◌, ◌≢◌, ◌↔◌, ◌⊎◌, inl,
  inr, Bool, true, false, not, ◌&&◌, ◌||◌, Option, none, some, List, [], ◌∷◌, ◌++◌, arith, ltb, leb,
  ◌==◌, if◌then◌else◌, ltb→lt, lt→ltb, leb→le, le→leb, eq→==, ==_iff, Bool-cases, Option-cases,
  length, get_or, length-append,
}
use mars_memory_allocator.Platform.{Platform, draw_secret, sys_unmap, sys_map, zeroed}
use mars_memory_allocator.Layout.{Profile, block_offset, alignment, min_block, round_up, size_max}
use mars_memory_allocator.State.{
  SpanKind, State, Span, add64, clear_error, large_span, sub64, chunk_span, is_user, managed,
  with_mem, user_span, fail, bad_arena,
}
use mars_memory_allocator.FreeList.{bins_reset, bin_insert}
use mars_memory_allocator.Span.{large_threshold, span_of, chunk_size, magic_for}
use mars_memory_allocator.Registry.{
  set_desc, span_desc_free, span_register, span_unregister, span_desc_alloc,
}
use mars_memory_allocator.Block.{set_payload_crc, set_prev_in_use, set_word}
use mars_memory_allocator.Scrub.{scrub_leave}
use mars_memory_allocator.Memory.{store}
use mars_memory_allocator.Recovery.{publish}

abbrev pub min_arena : Profile → ℕ
min_arena p = block_offset p + min_block p

-- the fields of a span that are set before it is adopted
abbrev pub new_span : (magic lo hi index_base map_base map_size : ℕ) → SpanKind → Bool → Span
new_span magic lo hi index_base map_base map_size kind fresh = record {
  magic = magic;
  lo = lo;
  hi = hi;
  next = 0;
  index_base = index_base;
  map_base = map_base;
  map_size = map_size;
  kind = kind;
  fresh = fresh;
  trim_after = 0;
}

-- mm_span_take_fresh: SIZE_MAX promises nothing.
abbrev pub fresh_dirty_prefix : ℕ
fresh_dirty_prefix = 16

unfoldable pub take_fresh : State → ℕ → ℕ × State
take_fresh st b =
    let s = span_of st b in
    let sp = st.desc s in
    let st1 = record (set_desc st s (record sp { fresh = false })) {
      fresh_spans = sub64 st.fresh_spans 1;
    } in
    if s == 0 || not sp.fresh
    then (size_max, st)
    else if b == sp.lo
    then (fresh_dirty_prefix, st1)
    else (size_max, st1)

-- the list of spans without `s`, which stands behind `from`, for `n` spans at most
unfoldable pub unlink_from : ℕ → State → ℕ → ℕ → State
unlink_from zero st from s = st
unlink_from (suc n) st from s =
    let next = (st.desc from).next in
    let rest = unlink_from n st next s in
    if next == 0
    then st
    else if next == s
    then set_desc st from (record (st.desc from) { next = (st.desc s).next })
    else rest

-- the loop of mm_arena_release_span over the links
unfoldable pub unlink_span : State → ℕ → State
unfolding unlink_from
unlink_span st s =
    if st.spans == 0
    then st
    else if st.spans == s
    then record st { spans = (st.desc s).next }
    else unlink_from st.span_count st st.spans s

-- `s->lo = NULL; s->hi = NULL; s->magic = 0;`
abbrev pub disown : State → ℕ → State
disown st s = set_desc st s (record (st.desc s) { lo = 0; hi = 0; magic = 0 })

module _ (os : Platform) where
  -- `s->lo = NULL; ... sys_unmap(base, bytes); span_desc_free(s);`
  unfoldable pub give_back : State → ℕ → State
  give_back st s =
      let sp = st.desc s in span_desc_free os (sys_unmap os (disown st s) sp.map_base sp.map_size) s

  -- mm_arena_release_span
  unfoldable pub release_span : State → ℕ → State
  unfolding give_back unlink_span
  release_span st s =
      let sp = st.desc s in
      let st1 = if sp.fresh then record st { fresh_spans = sub64 st.fresh_spans 1 } else st in
      let st2 = unlink_span (span_unregister os (scrub_leave st1 s) s) s in
      let st3 = record st2 {
        span_count = sub64 st2.span_count 1;
        total_bytes = sub64 st2.total_bytes (sp.hi - sp.lo);
      } in
      if s == 0 || is_user sp.kind then st else give_back st3 s

  -- the loop of mm_arena_reset from the span `s` on
  unfoldable pub reset_spans : ℕ → State → ℕ → State
  unfolding give_back
  reset_spans zero st s = st
  reset_spans (suc n) st s =
      let next = (st.desc s).next in
      let st1 = span_unregister os st s in
      let st2 = if is_user (st.desc s).kind then st1 else give_back st1 s in
      let rest = reset_spans n st2 next in if s == 0 then st else rest

  -- map_chunk_aligned; 0 is NULL
  unfoldable pub map_chunk_aligned : State → ℕ → ℕ × State
  map_chunk_aligned st bytes =
      let over = add64 bytes chunk_size in
      let (raw, st1) = sys_map os st over in
      let aligned = round_up raw chunk_size in
      let front = aligned - raw in
      let st2 = if front == 0 then st1 else sys_unmap os st1 raw front in
      let back = over - front - bytes in
      let st3 = if back == 0 then st2 else sys_unmap os st2 (aligned + bytes) back in
      if ltb over bytes then (0, st) else if raw == 0 then (0, st1) else (aligned, st3)

module _ (os : Platform) (p : Profile) where
  -- mm_arena_reset
  unfoldable pub arena_reset : State → State
  unfolding reset_spans
  arena_reset st =
      let st1 = reset_spans os st.span_count st st.spans in
      bins_reset p (record st1 {
        spans = 0;
        span_count = 0;
        fresh_spans = 0;
        total_bytes = 0;
        scrub_span = 0;
        scrub_at = 0;
        growable = false;
        lost_bytes = 0;
        next_index_base = 0;
      })

  -- the first block of a span that is adopted: all of its space, free
  unfoldable pub stamp_first : State → ℕ → ℕ → State
  stamp_first st first usable =
      let m1 = set_payload_crc p (store 8 st.mem first 0) first 0 in
      with_mem st (set_prev_in_use (set_word m1 first usable 0 false false) first true)

  -- span_adopt, after the registry has taken the span
  unfoldable pub adopt_registered : State → ℕ → State
  unfolding stamp_first
  adopt_registered st s =
      let sp = st.desc s in
      let usable = sp.hi - sp.lo in
      let st1 = record (set_desc st s (record sp { next = st.spans })) {
        spans = s;
        span_count = st.span_count + 1;
        total_bytes = add64 st.total_bytes usable;
        next_index_base = add64 st.next_index_base (usable / alignment);
      } in
      let st2 = (publish p (stamp_first st1 sp.lo usable) sp.lo).1 in
      let st3 = bin_insert p st2 sp.lo in
      if st3.scrub_span == 0 then record st3 { scrub_span = s; scrub_at = sp.lo } else st3

  -- span_adopt
  unfoldable pub span_adopt : State → ℕ → Bool × State
  unfolding adopt_registered
  span_adopt st s =
      let (taken, st1) = span_register os st s in
      if taken then (true, adopt_registered st1 s) else (false, st1)

  -- mm_arena_install_user
  unfoldable pub install_user : State → ℕ → ℕ → ℕ × State
  unfolding span_adopt
  install_user st heap heap_size =
      let rest = heap_size - block_offset p in
      let usable = rest - rest % alignment in
      let lo = heap + block_offset p in
      let user = os.user_desc in
      let sp = new_span (magic_for user) lo (lo + usable) st.next_index_base 0 0 user_span false in
      let (taken, st1) = span_adopt (set_desc st user sp) user in
      if taken then (user, st1) else (0, st1)

  -- map_span, once the descriptor `s` and the chunk at `base` are had
  unfoldable pub adopt_mapped : State → (s base bytes : ℕ) → SpanKind → ℕ × State
  unfolding span_adopt
  adopt_mapped st s base bytes kind =
      let lo = base + block_offset p in
      let room = base + bytes - lo in
      let usable = room - room % alignment in
      let sp = new_span (magic_for s) lo (lo + usable) st.next_index_base base bytes kind true in
      let (taken, st1) = span_adopt (set_desc st s sp) s in
      if taken
      then (s, record st1 { fresh_spans = st1.fresh_spans + 1 })
      else (0, span_desc_free os (sys_unmap os st1 base bytes) s)

  -- map_span; 0 is NULL
  unfoldable pub map_span : State → ℕ → SpanKind → ℕ × State
  unfolding adopt_mapped
  map_span st size kind =
      let want = add64 (block_offset p) size in
      let bytes = round_up want chunk_size in
      let (s, st1) = span_desc_alloc os st in
      let (base, st2) = map_chunk_aligned os st1 bytes in
      if not os.can_grow || not st.growable
      then (0, st)
      else if ltb want size || ltb bytes want
      then (0, st)
      else if s == 0
      then (0, st1)
      else if base == 0
      then (0, span_desc_free os st2 s)
      else adopt_mapped st2 s base bytes kind

  -- mm_arena_grow
  unfoldable pub arena_grow : State → ℕ → ℕ × State
  unfolding map_span
  arena_grow st size = if ltb large_threshold size then (0, st) else map_span st size chunk_span

  -- mm_arena_map_large
  unfoldable pub map_large : State → ℕ → ℕ × State
  unfolding map_span
  map_large st size = map_span st size large_span

  -- mm_arena_init_growable; whether it succeeded
  unfoldable pub init_growable : State → Bool × State
  unfolding arena_reset map_span
  init_growable st =
      let st0 = arena_reset st in
      let st1 = record st0 { secret = draw_secret os st0; mode = managed; growable = true } in
      let (s, st2) = map_span st1 (min_block p) chunk_span in
      if not os.can_grow
      then (false, st)
      else if s == 0
      then (false, record st2 { growable = false })
      else (true, st2)

  -- mm_init; whether it succeeded
  unfoldable pub init : State → ℕ → ℕ → Bool × State
  unfolding arena_reset install_user
  init st heap heap_size =
      let st0 = clear_error st in
      let st1 = arena_reset st0 in
      let st2 = record st1 { secret = draw_secret os st1; mode = managed } in
      let (s, st3) = install_user (with_mem st2 (zeroed st2.mem heap heap_size)) heap heap_size in
      if heap == 0 || ltb heap_size (min_arena p)
      then (false, fail bad_arena st0)
      else if not (heap % alignment == 0)
      then (false, fail bad_arena st0)
      else if s == 0
      then (false, fail bad_arena st3)
      else (true, st3)
