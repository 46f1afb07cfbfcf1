-- ===== src/Check.antt =====
-- The validation of one block, src/mm_integrity.c: its bounds, its checksum, its canary, and the
-- sealing that makes them hold.
pub mod Seal
pub mod Canary
pub mod Bounds
use mars_memory_allocator.Base.{
  ℕ, zero, suc, ◌+◌, ◌-◌, ◌*◌, ◌/◌, ◌%◌, ◌^◌, ◌≤◌, ◌<◌, ◌≡◌, refl, sym, ap, ◌∙◌, ◌≢◌, ◌↔◌, ◌⊎◌, inl,
  inr, Bool, true, false, not, ◌&&◌, ◌||◌, Option, none, some, List, [], ◌∷◌, ◌++◌, arith, ltb, leb,
  ◌==◌, if◌then◌else◌, ltb→lt, lt→ltb, leb→le, le→leb, eq→==, ==_iff, Bool-cases, Option-cases,
  length, get_or, length-append,
}
use mars_memory_allocator.Layout.{
  Profile, has_crc, has_canary, has_mirror, alignment, min_block, hdr_size, mirror_size,
}
use mars_memory_allocator.Memory.{Mem, load, store, copy}
use mars_memory_allocator.State.{Span, State, with_mem}
use mars_memory_allocator.Span.{span_of, index_in, block_index}
use mars_memory_allocator.Block.{
  word, block_size, is_used, prev_in_use, is_quarantined, requested_size, hdr_crc, payload_of,
  block_end, read_prev_footer, own_footer, hdr_crc_of, canary_value,
}

-- `a == b` on booleans
abbrev pub same_bool : Bool → Bool → Bool
same_bool true b = b
same_bool false b = not b

module _ (p : Profile) where
  -- start_ok_in; `b` lies in `[lo, hi)`, where the differences do not wrap
  unfoldable pub start_ok_in : Span → ℕ → Bool
  start_ok_in s b = (b - s.lo) % alignment == 0 && leb (min_block p) (s.hi - b)

  unfoldable pub block_ok_in : Span → Mem → ℕ → Bool
  unfolding start_ok_in
  block_ok_in s m b =
      start_ok_in s b && leb (min_block p) (block_size m b) && leb (block_size m b) (s.hi - b)

  -- mm_is_block_start
  unfoldable pub is_block_start : State → ℕ → Bool
  is_block_start st b =
      let s = span_of st b in not (b == 0) && not (s == 0) && start_ok_in (st.desc s) b

  -- mm_is_block
  unfoldable pub is_block : State → ℕ → Bool
  is_block st b =
      let s = span_of st b in not (b == 0) && not (s == 0) && block_ok_in (st.desc s) st.mem b

  -- mm_header_ok
  unfoldable pub header_ok : State → ℕ → Bool
  header_ok st b =
      let s = span_of st b in
      not (b == 0)
      && not (s == 0)
      && block_ok_in (st.desc s) st.mem b
      && (if has_crc p
          then hdr_crc st.mem b == hdr_crc_of st.mem b (index_in (st.desc s) b) st.secret
          else true)

  -- mm_extent_corroborated
  unfoldable pub extent_corroborated : State → ℕ → Bool
  extent_corroborated st b =
      header_ok st b
      && (if has_crc p
          then true
          else if is_used st.mem b
          then true
          else own_footer st.mem b == block_size st.mem b)

  -- mm_unchanged
  unfoldable pub unchanged : State → ℕ → ℕ → Bool → Bool
  unchanged st b size used =
      header_ok st b && block_size st.mem b == size && same_bool (is_used st.mem b) used

  abbrev pub canary_at : Mem → ℕ → ℕ
  canary_at m b = payload_of p b + requested_size p m b

  -- mm_write_canary
  unfoldable pub write_canary : State → ℕ → State
  write_canary st b =
      if has_canary p
      then with_mem st
          (store 8 st.mem (canary_at st.mem b) (canary_value (block_index st b) st.secret))
      else st

  -- mm_canary_ok
  unfoldable pub canary_ok : State → ℕ → Bool
  canary_ok st b =
      if has_canary p
      then (if not (is_used st.mem b) || is_quarantined st.mem b
          then true
          else load 8 st.mem (canary_at st.mem b) == canary_value (block_index st b) st.secret)
      else true

  -- the first half of mm_seal: the checksum
  unfoldable pub seal_crc : State → ℕ → State
  seal_crc st b =
      if has_crc p
      then with_mem st (store 4 st.mem (b + 8) (hdr_crc_of st.mem b (block_index st b) st.secret))
      else st

  -- the second half: the tail mirror of an allocated block
  unfoldable pub seal_mirror : State → ℕ → State
  seal_mirror st b =
      if has_mirror p && is_used st.mem b
      then with_mem st (copy (hdr_size p) st.mem (block_end st.mem b - mirror_size p) b)
      else st

  -- mm_seal
  unfoldable pub seal : State → ℕ → State
  seal st b = seal_mirror (seal_crc st b) b

  -- mm_prev_free_block; 0 is NULL
  unfoldable pub prev_free_block : State → ℕ → ℕ
  prev_free_block st b =
      let s = span_of st b in
      let lo = (st.desc s).lo in
      let n = read_prev_footer st.mem b in
      let prev = b - n in
      if prev_in_use st.mem b || s == 0 || ltb (b - lo) (min_block p)
      then 0
      else if ltb n (min_block p) || not (n % alignment == 0) || ltb (b - lo) n
      then 0
      else if not (header_ok st prev) || not (block_size st.mem prev == n) || is_used st.mem prev
      then 0
      else prev
