-- ===== src/Scrub.antt =====
-- The patrol scrubber of src/mm_integrity.c.
pub mod Budget
use mars_memory_allocator.Base.{ℕ, zero, suc, ◌+◌, not, ◌&&◌, ◌||◌, ltb, leb, ◌==◌, if◌then◌else◌}
use mars_memory_allocator.Layout.{Profile, has_crc}
use mars_memory_allocator.State.{
  State, Status, add64, clear_error, corrupt_header, is_ok, arena_live, ok, corrupt_canary,
  not_initialized, fail, corrupt_links, with_mem, corrupt_payload,
}
use mars_memory_allocator.Block.{block_size, is_used, own_footer, write_free_footer, payload_crc}
use mars_memory_allocator.Span.{in_span, max_blocks}
use mars_memory_allocator.Counters.{stat_note, scrub, scrub_hit, repair}
use mars_memory_allocator.Check.{canary_ok, is_block, header_ok}
use mars_memory_allocator.Recovery.{rescue, quarantine_block}
use mars_memory_allocator.Access.{payload_sum}

abbrev pub scrub_budget_default : ℕ
scrub_budget_default = 16

-- mm_set_scrub_interval
unfoldable pub set_scrub_interval : State → ℕ → ℕ → State
set_scrub_interval st calls budget = record st {
  scrub_interval = calls;
  scrub_budget = if budget == 0 then scrub_budget_default else budget;
  ops_since_scrub = 0;
}

-- mm_scrub_leave
unfoldable pub scrub_leave : State → ℕ → State
scrub_leave st s = if st.scrub_span == s then record st { scrub_span = 0; scrub_at = 0 } else st

-- `if (found == MM_OK) found = e;`
abbrev pub first_of : Status → Status → Status
first_of found e = if is_ok found then e else found

-- the patrol's cursor and its tallies
pub record Patrol : Type 0 where
  pub span : ℕ
  pub at : ℕ
  pub found : Status
  pub visited : ℕ
  pub hits : ℕ

module _ (p : Profile) where
  -- scrub_block
  unfoldable pub scrub_block : State → ℕ → Status × State
  scrub_block st b =
      let n = block_size st.mem b in
      if not (canary_ok p st b)
      then (corrupt_canary, quarantine_block p st b)
      else if not (is_used st.mem b)
      then (if own_footer st.mem b == n
          then (ok, st)
          else if has_crc p
          then (corrupt_links, stat_note repair n (with_mem st (write_free_footer st.mem b)))
          else (corrupt_links, st))
      else if has_crc p
          && not (payload_crc st.mem b == 0)
          && not (payload_sum p st.mem b == payload_crc st.mem b)
      then (corrupt_payload, st)
      else (ok, st)

  -- `if (p >= s->hi) { s = s->next != NULL ? s->next : g_arena.spans; p = s->lo; }`
  unfoldable pub next_lap : State → Patrol → Patrol
  next_lap st pt =
      let s = if (st.desc pt.span).next == 0 then st.spans else (st.desc pt.span).next in
      if leb (st.desc pt.span).hi pt.at then record pt { span = s; at = (st.desc s).lo } else pt

  -- the end of the loop's body: the block at the cursor is checked and stepped over
  unfoldable pub visit : State → Patrol → Patrol × State
  unfolding scrub_block
  visit st pt =
      let (e, st1) = scrub_block st pt.at in
      (
        record pt {
          found = first_of pt.found e;
          hits = if is_ok e then pt.hits else pt.hits + 1;
          visited = pt.visited + 1;
          at = pt.at + block_size st1.mem pt.at;
        },
        st1,
      )

  -- one pass of the loop's body
  unfoldable pub patrol_step : State → Patrol → Patrol × State
  unfolding next_lap visit
  patrol_step st pt0 =
      let pt = next_lap st pt0 in
      let hit = record pt { found = first_of pt.found corrupt_header; hits = pt.hits + 1 } in
      let st1 = if is_block p st pt.at then (rescue p st pt.at).1 else st in
      if header_ok p st pt.at
      then visit st pt
      else if header_ok p st1 pt.at
      then visit st1 hit
      else (record hit { at = (st1.desc pt.span).lo }, st1)

  unfoldable pub patrol : ℕ → ℕ → State → Patrol → Patrol × State
  unfolding patrol_step
  patrol zero budget st pt = (pt, st)
  patrol (suc guard) budget st pt =
      let (pt1, st1) = patrol_step st pt in
      let rest = patrol guard budget st1 pt1 in if ltb pt.visited budget then rest else (pt, st)

  -- where the patrol takes up its lap
  unfoldable pub patrol_start : State → Patrol
  patrol_start st =
      let s = if st.scrub_span == 0 then st.spans else st.scrub_span in
      let at =
        if in_span (st.desc s) st.scrub_at && not (st.scrub_at == 0)
        then st.scrub_at
        else (st.desc s).lo in
      record { span = s; at = at; found = ok; visited = 0; hits = 0 }

  -- the end of scrub_run: the cursor and the tallies are kept
  unfoldable pub patrol_end : State → Patrol → Status × State
  patrol_end st pt =
      let st1 = stat_note scrub pt.visited (record st { scrub_span = pt.span; scrub_at = pt.at }) in
      let st2 = if ltb 0 pt.hits then stat_note scrub_hit pt.hits st1 else st1 in
      (pt.found, if is_ok pt.found then st2 else fail pt.found st2)

  -- scrub_run
  unfoldable pub scrub_run : State → ℕ → Status × State
  unfolding patrol patrol_start patrol_end
  scrub_run st budget =
      let pt0 = patrol_start st in
      let (pt, st1) = patrol (max_blocks p st + st.span_count) budget st pt0 in
      if budget == 0 || pt0.span == 0 then (ok, st) else patrol_end st1 pt

  -- mm_scrub_tick
  unfoldable pub scrub_tick : State → State
  unfolding scrub_run
  scrub_tick st =
      let st1 = record st { ops = add64 st.ops 1 } in
      let st2 = record st1 { ops_since_scrub = add64 st.ops_since_scrub 1 } in
      if st.scrub_interval == 0 || not (arena_live st)
      then st1
      else if ltb st2.ops_since_scrub st.scrub_interval
      then st2
      else (scrub_run (record st2 { ops_since_scrub = 0 }) st.scrub_budget).1

  -- mm_scrub
  unfoldable pub scrub_now : State → ℕ → Status × State
  unfolding scrub_run
  scrub_now st budget =
      let st1 = clear_error st in
      if arena_live st then scrub_run st1 budget else (not_initialized, fail not_initialized st1)
