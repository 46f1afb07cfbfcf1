-- ===== src/HeapCheck.antt =====
-- The consistency checks: mm_verify and mm_check_heap of src/mm_integrity.c, and mm_bins_check of
-- src/mm_freelist.c, which it ends with. One arena is all that mm_check_heap walks.
pub mod Tiling
use mars_memory_allocator.Base.{
  ℕ, zero, suc, ◌+◌, ◌-◌, ◌*◌, ◌/◌, ◌%◌, ◌^◌, ◌≤◌, ◌<◌, ◌≡◌, refl, sym, ap, ◌∙◌, ◌≢◌, ◌↔◌, ◌⊎◌, inl,
  inr, Bool, true, false, not, ◌&&◌, ◌||◌, Option, none, some, List, [], ◌∷◌, ◌++◌, arith, ltb, leb,
  ◌==◌, if◌then◌else◌, ltb→lt, lt→ltb, leb→le, le→leb, eq→==, ==_iff, Bool-cases, Option-cases,
  length, get_or, length-append,
}
use mars_memory_allocator.Layout.{Profile, has_crc}
use mars_memory_allocator.State.{
  State, Status, clear_error, corrupt_links, ok, arena_live, corrupt_header, is_ok, not_initialized,
  quarantined, fail, corrupt_canary, corrupt_payload, is_libc, degraded,
}
use mars_memory_allocator.Block.{
  block_size, is_used, is_quarantined, prev_in_use, own_footer, payload_crc,
}
use mars_memory_allocator.Span.{all_spans, span_max_blocks}
use mars_memory_allocator.Bins.{bin_of}
use mars_memory_allocator.Locate.{block_of}
use mars_memory_allocator.Check.{header_ok, is_block, same_bool, canary_ok}
use mars_memory_allocator.FreeList.{bins_agree}
use mars_memory_allocator.Bitmap.{bin_count, update}
use mars_memory_allocator.Access.{payload_sum}

-- what the walk has seen: the quarantined bytes, and the free blocks of each bin
pub record Seen : Type 0 where
  pub lost : ℕ
  pub per_bin : ℕ → ℕ

-- where the walk leaves the loop: it has covered the span exactly when it stands at its end
abbrev pub covered_status : ℕ → ℕ → Status
covered_status hi q = if q == hi then ok else corrupt_links

module _ (p : Profile) where
  -- verify_unlocked, on the block
  unfoldable pub verify_block : State → ℕ → Status
  verify_block st b =
      if not (header_ok p st b)
      then corrupt_header
      else if is_quarantined st.mem b
      then quarantined
      else if not (canary_ok p st b)
      then corrupt_canary
      else if has_crc p
          && is_used st.mem b
          && not (payload_crc st.mem b == 0)
          && not (payload_sum p st.mem b == payload_crc st.mem b)
      then corrupt_payload
      else if is_libc st.mode
      then degraded
      else ok

  -- mm_verify
  unfoldable pub verify : State → ℕ → Status × State
  unfolding verify_block
  verify st ptr =
      let (b, st1) = block_of p (clear_error st) ptr in
      let e = verify_block st1 b in
      if b == 0 then (st1.last_error, st1) else if is_ok e then (ok, st1) else (e, fail e st1)

  -- The checks on one block, after a block that was free if `prev_free`. The first block of a span
  -- counts what is before it as in use.
  unfoldable pub check_block : State → ℕ → Bool → Status
  check_block st b prev_free =
      if not (is_block p st b)
      then corrupt_header
      else if not (header_ok p st b)
      then corrupt_header
      else if same_bool (prev_in_use st.mem b) prev_free
      then corrupt_links
      else if not (canary_ok p st b)
      then corrupt_canary
      else if is_used st.mem b
      then ok
      else if not (own_footer st.mem b == block_size st.mem b)
      then corrupt_links
      else if prev_free
      then corrupt_links
      else ok

  unfoldable pub see_block : State → ℕ → Seen → Seen
  see_block st b acc =
      let n = block_size st.mem b in
      let bin = bin_of p n in
      if is_used st.mem b
      then (if is_quarantined st.mem b then record acc { lost = acc.lost + n } else acc)
      else record acc { per_bin = update acc.per_bin bin (acc.per_bin bin + 1) }

  -- The walk over one span that ends at `hi`, from `q`: the status, and what was seen.
  unfoldable pub check_from : ℕ → State → ℕ → ℕ → Bool → Seen → Status × Seen
  unfolding check_block see_block
  check_from zero st hi q prev_free acc =
      (if ltb q hi then corrupt_links else covered_status hi q, acc)
  check_from (suc budget) st hi q prev_free acc =
      let next = q + block_size st.mem q in
      let rest = check_from budget st hi next (not (is_used st.mem q)) (see_block st q acc) in
      let e = check_block st q prev_free in
      if not (ltb q hi) then (covered_status hi q, acc) else if is_ok e then rest else (e, acc)

  unfoldable pub check_spans : List ℕ → State → Seen → Status × Seen
  unfolding check_from
  check_spans [] st acc = (ok, acc)
  check_spans (s ∷ ss) st acc =
      let sp = st.desc s in
      let (e, acc1) = check_from (span_max_blocks p sp) st sp.hi sp.lo false acc in
      let rest = check_spans ss st acc1 in if is_ok e then rest else (e, acc1)

  -- check_heap_unlocked, the status it reports
  unfoldable pub heap_status : State → Status
  unfolding check_spans
  heap_status st =
      let (e, seen) = check_spans (all_spans st) st (record { lost = 0; per_bin = λ _. 0 }) in
      if not (arena_live st)
      then not_initialized
      else if not (is_ok e)
      then e
      else if not (seen.lost == st.lost_bytes)
      then corrupt_links
      else if bins_agree p bin_count st seen.per_bin
      then ok
      else corrupt_links

  -- mm_check_heap
  unfoldable pub check_heap : State → Status × State
  unfolding heap_status
  check_heap st =
      let e = heap_status (clear_error st) in
      if is_ok e then (ok, clear_error st) else (e, fail e (clear_error st))
