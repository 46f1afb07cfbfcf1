-- ===== src/Coalesce.antt =====
-- Merging, releasing, splitting and stamping blocks: the static helpers of src/mm_core.c.
pub mod Cut
pub mod Stamp
pub mod Relink
pub mod Publish
use mars_memory_allocator.Base.{
  ℕ, zero, suc, ◌+◌, ◌-◌, ◌*◌, ◌/◌, ◌%◌, ◌^◌, ◌≤◌, ◌<◌, ◌≡◌, refl, sym, ap, ◌∙◌, ◌≢◌, ◌↔◌, ◌⊎◌, inl,
  inr, Bool, true, false, not, ◌&&◌, ◌||◌, Option, none, some, List, [], ◌∷◌, ◌++◌, arith, ltb, leb,
  ◌==◌, if◌then◌else◌, ltb→lt, lt→ltb, leb→le, le→leb, eq→==, ==_iff, Bool-cases, Option-cases,
  length, get_or, length-append,
}
use mars_memory_allocator.Layout.{Profile, trail, hdr_size, min_block}
use mars_memory_allocator.State.{State, with_mem, is_libc, fail, corrupt_header, sub64}
use mars_memory_allocator.Block.{
  block_size, set_payload_crc, set_word, block_end, set_block_size, set_prev_in_use, is_used,
}
use mars_memory_allocator.Check.{prev_free_block, seal, header_ok, unchanged, write_canary}
use mars_memory_allocator.Span.{span_of}
use mars_memory_allocator.FreeList.{bin_remove, bin_insert}
use mars_memory_allocator.Recovery.{publish, scrub_forget, quarantine_block}
use mars_memory_allocator.Memory.{store}

module _ (p : Profile) where
  -- `mm_set_block_size(b, own); mm_scrub_forget(b, mm_block_end(b)); mm_seal(b);`
  unfoldable pub take_next : State → ℕ → ℕ → State
  take_next st b own =
      let st1 = with_mem st (set_block_size st.mem b own) in
      seal p (scrub_forget b (block_end st1.mem b) st1) b

  -- absorb_neighbours, forwards: whether to go on, the block's extent, and the state
  unfoldable pub absorb_next : State → ℕ → Bool × ℕ × State
  unfolding take_next
  absorb_next st b =
      let own = block_size st.mem b in
      let n = block_end st.mem b in
      let theirs = block_size st.mem n in
      let st1 = bin_remove p st n in
      if leb (st.desc (span_of st b)).hi n
      then (true, own, st)
      else if not (header_ok p st n) || is_used st.mem n
      then (true, own, st)
      else if not (unchanged p st1 b own true)
      then (false, own, fail corrupt_header (quarantine_block p st1 b))
      else if not (unchanged p st1 n theirs false)
      then (true, own, fail corrupt_header (quarantine_block p st1 n))
      else (true, own + theirs, take_next st1 b (own + theirs))

  -- the word, the cursor and the seal of a predecessor that takes `b` in
  unfoldable pub take_prev : State → ℕ → ℕ → State
  take_prev st prev total =
      let st1 = with_mem st (set_word st.mem prev total (trail p) true false) in
      seal p (scrub_forget prev (block_end st1.mem prev) st1) prev

  -- absorb_neighbours, backwards; 0 is NULL
  unfoldable pub absorb_prev : State → ℕ → ℕ → ℕ × State
  unfolding take_prev
  absorb_prev st b own =
      let prev = prev_free_block p st b in
      let before = block_size st.mem prev in
      let st1 = bin_remove p st prev in
      if prev == 0
      then (b, st)
      else if not (unchanged p st1 b own true)
      then (0, fail corrupt_header (quarantine_block p st1 b))
      else if not (unchanged p st1 prev before false)
      then (b, fail corrupt_header (quarantine_block p st1 prev))
      else (prev, take_prev st1 prev (before + own))

  -- absorb_neighbours
  unfoldable pub absorb_neighbours : State → ℕ → ℕ × State
  unfolding absorb_next absorb_prev
  absorb_neighbours st b =
      let (on, own, st1) = absorb_next st b in
      if span_of st b == 0 then (0, st) else if not on then (0, st1) else absorb_prev st1 b own

  -- release_block
  unfoldable pub release_block : State → ℕ → State
  release_block st b =
      let m1 = set_word st.mem b (block_size st.mem b) 0 false false in
      let (published, st1) = publish p (with_mem st (set_payload_crc p m1 b 0)) b in
      if not published then st1 else bin_insert p st1 b

  -- the control word and the seal of what split_block cuts off
  unfoldable pub cut_tail : State → ℕ → ℕ → State
  cut_tail st tail leftover =
      let m1 = set_payload_crc p (store 8 st.mem tail 0) tail 0 in
      let m2 = set_word m1 tail leftover (trail p) true false in
      seal p (with_mem st (set_prev_in_use m2 tail true)) tail

  -- split_block
  unfoldable pub split_block : State → ℕ → ℕ → State
  unfolding cut_tail absorb_neighbours release_block
  split_block st b need =
      let leftover = sub64 (block_size st.mem b) need in
      let st1 = seal p (with_mem st (set_block_size st.mem b need)) b in
      let (run, st2) = absorb_neighbours (cut_tail st1 (b + need) leftover) (b + need) in
      if ltb leftover (min_block p) then st else if run == 0 then st2 else release_block st2 run

  -- finish_allocation
  unfoldable pub finish_allocation : State → ℕ → ℕ → Bool × State
  finish_allocation st b size =
      let total = block_size st.mem b in
      let give = if is_libc st.mode then sub64 (sub64 total (hdr_size p)) (trail p) else size in
      let m1 = set_word st.mem b total (sub64 (sub64 total (hdr_size p)) give) true false in
      publish p (write_canary p (with_mem st m1) b) b
