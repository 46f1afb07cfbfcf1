-- ===== src/Resize.antt =====
-- Resizing and aligned allocation, src/mm_core.c, in a build with one arena. 0 is NULL.
pub mod Align
use mars_memory_allocator.Base.{
  ℕ, zero, suc, ◌+◌, ◌-◌, ◌*◌, ◌%◌, ◌^◌, true, false, not, ◌&&◌, ◌||◌, ltb, leb, ◌==◌,
  if◌then◌else◌,
}
use mars_memory_allocator.Counters
use mars_memory_allocator.Platform.{Platform}
use mars_memory_allocator.Layout.{
  Profile, min_block, has_crc, round_up, hdr_size, size_for, alignment, size_max,
}
use mars_memory_allocator.Memory.{Mem, copy}
use mars_memory_allocator.State.{
  State, clear_error, with_mem, fail, corrupt_header, double_free, nomem, add64, sub64,
}
use mars_memory_allocator.Block.{
  block_size, payload_of, requested_size, payload_crc, payload_crc_value, block_end, set_block_size,
  set_payload_crc, is_used,
}
use mars_memory_allocator.Alloc.{malloc, free_unlocked, release_run}
use mars_memory_allocator.Access.{payload_crc_live}
use mars_memory_allocator.Check.{seal, header_ok, unchanged, canary_ok}
use mars_memory_allocator.Coalesce.{split_block, finish_allocation, cut_tail, take_next}
use mars_memory_allocator.FreeList.{bin_remove}
use mars_memory_allocator.Locate.{block_of, live_block}
use mars_memory_allocator.Span.{span_of}
use mars_memory_allocator.Scrub.{scrub_tick}
use mars_memory_allocator.Counters.{stat_sub, stat_add, stat_note}
use mars_memory_allocator.Recovery.{quarantine_block}

-- `while (want - raw < MM_MIN_BLOCK) want += align;`, for at most MM_MIN_BLOCK rounds
unfoldable pub room_in_front : Profile → ℕ → (raw want align : ℕ) → ℕ
room_in_front p zero raw want align = want
room_in_front p (suc rounds) raw want align =
    let rest = room_in_front p rounds raw (add64 want align) align in
    if ltb (sub64 want raw) (min_block p) then rest else want

-- the aligned address that mm_memalign cuts at
unfoldable pub aligned_at : Profile → ℕ → ℕ → ℕ
unfolding room_in_front
aligned_at p raw align = room_in_front p (min_block p) raw (round_up raw align) align

-- payload_crc_of
abbrev pub payload_crc_of : Profile → Mem → ℕ → ℕ
payload_crc_of p m b = if has_crc p then payload_crc m b else 0

-- carry_payload_crc
unfoldable pub carry_payload_crc : Profile → State → (b old_size old_sum new_size : ℕ) → State
carry_payload_crc p st b old_size old_sum new_size =
    let keep = payload_crc_live p st && not (old_sum == 0) && leb new_size old_size in
    let sum = payload_crc_value st.mem (payload_of p b) new_size in
    with_mem st (set_payload_crc p st.mem b (if keep then sum else 0))

module _ (os : Platform) (p : Profile) where
  -- the end of both ways to resize in place: trim, carry the checksum and stamp
  unfoldable pub settle : State → (b need old_size old_sum new_size : ℕ) → ℕ × State
  settle st b need old_size old_sum new_size =
      let st1 = carry_payload_crc p (split_block p st b need) b old_size old_sum new_size in
      let (published, st2) = finish_allocation p st1 b new_size in
      if published then (payload_of p b, scrub_tick p (stat_add p b st2)) else (0, scrub_tick p st2)

  -- realloc_unlocked, taking in the free block `n` behind `b`
  unfoldable pub take_and_settle : State → (b n need old_size old_sum new_size : ℕ) → ℕ × State
  unfolding settle
  take_and_settle st b n need old_size old_sum new_size =
      let own = block_size st.mem b in
      let theirs = block_size st.mem n in
      let st1 = bin_remove p (stat_sub p b st) n in
      if not (unchanged p st1 b own true)
      then (0, fail corrupt_header (quarantine_block p st1 b))
      else if not (unchanged p st1 n theirs false)
      then (0, fail corrupt_header (quarantine_block p (stat_add p b st1) n))
      else settle (take_next p st1 b (own + theirs)) b need old_size old_sum new_size

  -- realloc_unlocked, the fallback: allocate, copy, release
  unfoldable pub move_block : State → (ptr b old_size old_sum new_size : ℕ) → ℕ × State
  move_block st ptr b old_size old_sum new_size =
      let (fresh, st1) = malloc os p st new_size in
      let carry = if ltb old_size new_size then old_size else new_size in
      let st2 = with_mem st1 (copy carry st1.mem fresh (payload_of p b)) in
      let (fresh_block, st3) = block_of p st2 fresh in
      let st4 = seal p (carry_payload_crc p st3 fresh_block carry old_sum new_size) fresh_block in
      let st5 = if fresh_block == 0 then st3 else st4 in
      if fresh == 0 then (0, st1) else (fresh, free_unlocked os p st5 ptr)

  -- realloc_unlocked, on a live block that a request of `need` bytes is for
  unfoldable pub resize : State → (ptr b need new_size : ℕ) → ℕ × State
  unfolding settle take_and_settle move_block
  resize st ptr b need new_size =
      let old_size = requested_size p st.mem b in
      let old_sum = payload_crc_of p st.mem b in
      let s = span_of st b in
      let n = block_end st.mem b in
      let near = not (s == 0) && ltb n (st.desc s).hi in
      let mergeable = header_ok p st n && not (is_used st.mem n) in
      if leb need (block_size st.mem b)
      then settle (stat_sub p b st) b need old_size old_sum new_size
      else if near && mergeable && leb need (block_size st.mem b + block_size st.mem n)
      then take_and_settle st b n need old_size old_sum new_size
      else move_block st ptr b old_size old_sum new_size

  -- realloc_unlocked
  unfoldable pub realloc_unlocked : State → ℕ → ℕ → ℕ × State
  unfolding resize
  realloc_unlocked st ptr new_size =
      let st0 = clear_error st in
      let (b, st1) = live_block p st0 ptr in
      let need = size_for p new_size in
      if ptr == 0
      then malloc os p st0 new_size
      else if new_size == 0
      then (0, free_unlocked os p st0 ptr)
      else if b == 0
      then (0, st1)
      else if not (is_used st1.mem b)
      then (0, fail double_free st1)
      else if not (canary_ok p st1 b)
      then (0, quarantine_block p st1 b)
      else if need == 0
      then (0, fail nomem st1)
      else resize (stat_note Counters.realloc new_size st1) ptr b need new_size

  -- memalign_unlocked: the front piece keeps its flags, and the tail is born in use.
  unfoldable pub cut_front : State → (b front total want : ℕ) → State
  cut_front st b front total want =
      let st1 = seal p (with_mem st (set_block_size st.mem b front)) b in
      cut_tail p st1 (want - hdr_size p) (total - front)

  -- memalign_unlocked, once it is known where to cut
  unfoldable pub memalign_at : State → (b want need size : ℕ) → ℕ × State
  unfolding cut_front
  memalign_at st b want need size =
      let front = want - payload_of p b in
      let tail = want - hdr_size p in
      let st1 = cut_front (stat_sub p b st) b front (block_size st.mem b) want in
      let (published, st2) = finish_allocation p (split_block p st1 tail need) tail size in
      if not published
      then (0, scrub_tick p st2)
      else (payload_of p tail, scrub_tick p (release_run os p (stat_add p tail st2) b))

  -- memalign_unlocked
  unfoldable pub memalign : State → ℕ → ℕ → ℕ × State
  unfolding memalign_at aligned_at
  memalign st align size =
      let pad = (2 * align + min_block p) % 2 ^ 64 in
      let (raw, st1) = malloc os p st (size + pad) in
      let want = aligned_at p raw align in
      let (b, st2) = block_of p st1 raw in
      let need = size_for p size in
      if leb align alignment
      then malloc os p st size
      else if ltb (size_max - pad) size
      then (0, fail nomem (clear_error st))
      else if raw == 0
      then (0, st1)
      else if b == 0
      then (raw, st2)
      else if need == 0 || ltb (block_size st2.mem b) (add64 (sub64 want raw) need)
      then (0, fail nomem (free_unlocked os p st2 raw))
      else memalign_at st2 b want need size
