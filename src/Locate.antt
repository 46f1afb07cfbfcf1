-- ===== src/Locate.antt =====
-- From a caller's pointer to a block: mm_block_of of src/mm_integrity.c, and the two checks of
-- src/mm_core.c that start from it. 0 is NULL.
pub mod Sound
use mars_memory_allocator.Base.{
  ℕ, zero, suc, ◌+◌, ◌-◌, ◌*◌, ◌/◌, ◌%◌, ◌^◌, ◌≤◌, ◌<◌, ◌≡◌, refl, sym, ap, ◌∙◌, ◌≢◌, ◌↔◌, ◌⊎◌, inl,
  inr, Bool, true, false, not, ◌&&◌, ◌||◌, Option, none, some, List, [], ◌∷◌, ◌++◌, arith, ltb, leb,
  ◌==◌, if◌then◌else◌, ltb→lt, lt→ltb, leb→le, le→leb, eq→==, ==_iff, Bool-cases, Option-cases,
  length, get_or, length-append,
}
use mars_memory_allocator.Layout.{Profile, hdr_size, alignment}
use mars_memory_allocator.State.{State, arena_live, fail, not_initialized, quarantined, invalid_ptr}
use mars_memory_allocator.Check.{header_ok, is_block}
use mars_memory_allocator.Recovery.{rescue}
use mars_memory_allocator.Span.{span_of}
use mars_memory_allocator.Block.{is_quarantined, is_used, requested_size}

module _ (p : Profile) where
  -- mm_block_of
  unfoldable pub block_of : State → ℕ → ℕ × State
  block_of st ptr =
      let s = if ptr == 0 then 0 else span_of st ptr in
      let first = (st.desc s).lo + hdr_size p in
      if not (arena_live st)
      then (0, fail not_initialized st)
      else if s == 0 || ltb ptr first
      then (0, fail invalid_ptr st)
      else if not ((ptr - first) % alignment == 0)
      then (0, fail invalid_ptr st)
      else if not (is_block p st (ptr - hdr_size p))
      then (0, fail invalid_ptr st)
      else (ptr - hdr_size p, st)

  -- size_of_live
  unfoldable pub size_of_live : State → ℕ → ℕ × State
  unfolding block_of
  size_of_live st ptr =
      let (b, st1) = block_of st ptr in
      if b == 0 || not (header_ok p st1 b)
      then (0, st1)
      else if not (is_used st1.mem b) || is_quarantined st1.mem b
      then (0, st1)
      else (requested_size p st1.mem b, st1)

  -- live_block
  unfoldable pub live_block : State → ℕ → ℕ × State
  unfolding block_of
  live_block st ptr =
      let (b, st1) = block_of st ptr in
      let (saved, st2) = rescue p st1 b in
      let st3 = if header_ok p st1 b then st1 else st2 in
      if b == 0
      then (0, st1)
      else if not (header_ok p st1 b) && not saved
      then (0, st2)
      else if is_quarantined st3.mem b
      then (0, fail quarantined st3)
      else (b, st3)
