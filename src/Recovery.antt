-- ===== src/Recovery.antt =====
-- Publishing, quarantine, rescue and recovery, src/mm_integrity.c.
use mars_memory_allocator.Base.{
  ℕ, zero, suc, ◌+◌, ◌-◌, ◌%◌, Bool, true, false, not, ◌&&◌, ◌||◌, ltb, leb, ◌==◌, if◌then◌else◌,
}
use mars_memory_allocator.Layout.{Profile, has_mirror, alignment, min_block, hdr_size, mirror_size}
use mars_memory_allocator.Memory.{copy}
use mars_memory_allocator.State.{
  Span, State, corrupt_header, corrupt_links, quarantined, fail, with_mem, add64,
}
use mars_memory_allocator.Span.{span_of, index_in}
use mars_memory_allocator.Counters.{stat_note, quarantine, repair}
use mars_memory_allocator.Block.{
  block_size, is_used, prev_in_use, is_quarantined, hdr_crc, hdr_crc_of, block_end, set_word,
  set_prev_in_use, set_payload_crc, write_free_footer,
}
use mars_memory_allocator.Memory.{store}
use mars_memory_allocator.Check.{
  header_ok, is_block, is_block_start, extent_corroborated, unchanged, seal, same_bool,
}
use mars_memory_allocator.FreeList.{bin_remove}

-- MM_RECOVERY_STEPS
abbrev pub recovery_steps : ℕ
recovery_steps = 65536

-- mm_scrub_forget
unfoldable pub scrub_forget : ℕ → ℕ → State → State
scrub_forget from to st =
    if ltb from st.scrub_at && ltb st.scrub_at to then record st { scrub_at = from } else st

-- `if (mm_prev_in_use(n) != used) { mm_set_prev_in_use(n, used); mm_seal(n); }`
unfoldable pub relink : Profile → State → ℕ → Bool → State
relink p st n used =
    if same_bool (prev_in_use st.mem n) used
    then st
    else seal p (with_mem st (set_prev_in_use st.mem n used)) n

module _ (p : Profile) where
  -- `if (!mm_is_used(b)) mm_write_free_footer(b); mm_seal(b);`
  unfoldable pub tag_and_seal : State → ℕ → State
  tag_and_seal st b =
      seal p (if is_used st.mem b then st else with_mem st (write_free_footer st.mem b)) b

  unfoldable pub seal_and_link : State → ℕ → State
  unfolding tag_and_seal relink
  seal_and_link st b =
      let st1 = tag_and_seal st b in
      let s = span_of st1 b in
      let end = block_end st1.mem b in
      if s == 0 || leb (st1.desc s).hi end
      then st1
      else if not (header_ok p st1 end)
      then st1
      else relink p st1 end (is_used st1.mem b)

  -- Both ends of the comparison lie in the span, so the difference does not wrap.
  unfoldable pub tiling_agrees : State → Span → ℕ → Bool
  tiling_agrees st s b =
      let end = block_end st.mem b in
      if end == s.hi
      then true
      else if ltb (s.hi - end) (min_block p)
      then false
      else extent_corroborated p st end

  -- the loop of scan_resync with `steps` candidates left; 0 is NULL
  unfoldable pub resync_from : ℕ → State → Span → ℕ → ℕ
  unfolding tiling_agrees
  resync_from zero st s q = 0
  resync_from (suc steps) st s q =
      let rest = resync_from steps st s (q + alignment) in
      if not (ltb q s.hi && leb (min_block p) (s.hi - q))
      then 0
      else if extent_corroborated p st q && tiling_agrees st s q
      then q
      else rest

  unfoldable pub scan_resync : State → Span → ℕ → ℕ
  unfolding resync_from
  scan_resync st s start = resync_from recovery_steps st s (start + min_block p)

  -- the control word that abandon writes at the start of a span of bytes that is given up
  unfoldable pub stamp_abandoned : State → ℕ → ℕ → Bool → State
  stamp_abandoned st start size prev_used =
      let m1 = set_payload_crc p (store 8 st.mem start 0) start 0 in
      let m2 = set_word m1 start size 0 true true in
      with_mem st (set_prev_in_use m2 start prev_used)

  unfoldable pub abandon : State → ℕ → ℕ → Bool → ℕ × State
  unfolding stamp_abandoned scrub_forget
  abandon st start size prev_used =
      let st1 = scrub_forget start (start + size) (stamp_abandoned st start size prev_used) in
      let st2 = seal_and_link st1 start in
      let st3 = record st2 { lost_bytes = add64 st2.lost_bytes size } in
      if ltb size (min_block p)
      then (0, fail corrupt_links st)
      else (start, fail corrupt_links (stat_note quarantine size st3))

  -- mirror_says: the start of the block whose mirror ends at `resync`, or 0 where it does not stand
  -- up. The mirror is read in place, where the source copies it to a local first.
  unfoldable pub mirror_says : State → Span → ℕ → ℕ → ℕ
  mirror_says st s lo_bound resync =
      let out = resync - mirror_size p in
      let n = block_size st.mem out in
      let start = resync - n in
      if ltb n (min_block p) || ltb (resync - lo_bound) n || not (is_used st.mem out)
      then 0
      else if not ((start - s.lo) % alignment == 0)
      then 0
      else if not (hdr_crc st.mem out == hdr_crc_of st.mem out (index_in s start) st.secret)
      then 0
      else start

  -- `memcpy(b, &rebuilt, MM_HDR_SIZE); mm_set_prev_in_use(b, used); seal_and_link(b);`
  unfoldable pub restore : State → ℕ → ℕ → Bool → State
  restore st b resync used =
      let m1 = copy (hdr_size p) st.mem b (resync - mirror_size p) in
      let st1 = seal_and_link (with_mem st (set_prev_in_use m1 b used)) b in
      stat_note repair (block_size st1.mem b) st1

  -- how far the bytes from `start` on are given up: to the resynchronisation point or the span's end
  abbrev pub lost_run : Span → ℕ → ℕ → ℕ
  lost_run s start resync = if resync == 0 then s.hi - start else resync - start

  -- mm_rescue: whether the header now stands up, and the state
  unfoldable pub rescue : State → ℕ → Bool × State
  unfolding restore mirror_says
  rescue st b =
      let s = st.desc (span_of st b) in
      let resync = scan_resync st s b in
      let prev_used = prev_in_use st.mem b in
      if header_ok p st b
      then (true, st)
      else if not (is_block_start p st b)
      then (false, st)
      else if has_mirror p && not (resync == 0) && mirror_says st s b resync == b
      then (true, fail corrupt_header (restore st b resync prev_used))
      else (false, (abandon st b (lost_run s b resync) prev_used).1)

  -- mm_recover_next; 0 is NULL
  unfoldable pub recover_next : State → ℕ → ℕ × State
  unfolding restore mirror_says
  recover_next st owner =
      let sp = span_of st owner in
      let s = st.desc sp in
      let start = block_end st.mem owner in
      let resync = scan_resync st s start in
      let used = is_used st.mem owner in
      let at = mirror_says st s start resync in
      if sp == 0 || leb s.hi start || ltb (s.hi - start) (min_block p)
      then (0, st)
      else if header_ok p st start
      then (start, st)
      else if has_mirror p && not (resync == 0) && not (at == 0) && at == start
      then (start, fail corrupt_header (restore st start resync used))
      else if has_mirror p && not (resync == 0) && not (at == 0) && leb (min_block p) (at - start)
      then abandon (restore st at resync true) start (at - start) used
      else abandon st start (lost_run s start resync) used

  -- mm_publish
  unfoldable pub publish : State → ℕ → Bool × State
  unfolding tag_and_seal relink
  publish st b =
      let st1 = tag_and_seal st b in
      let (n, st2) = recover_next st1 b in
      if not (is_block p st b)
      then (false, (rescue (fail corrupt_header st) b).1)
      else if n == 0
      then (true, st2)
      else (true, relink p st2 n (is_used st2.mem b))

  -- the end of mm_quarantine, on a block that is in no bin
  unfoldable pub give_up : State → ℕ → ℕ → State
  give_up st b n =
      let m1 = set_payload_crc p (set_word st.mem b n 0 true true) b 0 in
      let (published, st1) = publish (with_mem st m1) b in
      let st2 = record st1 { lost_bytes = add64 st1.lost_bytes n } in
      if not published then st1 else fail quarantined (stat_note quarantine n st2)

  -- mm_quarantine
  unfoldable pub quarantine_block : State → ℕ → State
  unfolding give_up
  quarantine_block st b =
      let n = block_size st.mem b in
      let st1 = bin_remove p st b in
      if not (is_block_start p st b)
      then st
      else if not (header_ok p st b)
      then (rescue st b).1
      else if is_quarantined st.mem b
      then fail quarantined st
      else if is_used st.mem b
      then give_up st b n
      else if not (unchanged p st1 b n false)
      then (rescue (fail corrupt_links st1) b).1
      else give_up st1 b n
