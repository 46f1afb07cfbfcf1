-- ===== src/Access.antt =====
-- Validated reads and writes, src/mm_access.c. A failure is `none`, where the source returns -1.
-- The caller's buffer is outside the arena: a read returns the bytes it copies out, and a write
-- takes the bytes it copies in.
pub mod Frame
pub mod Reseal
pub mod Steps
pub mod RoundTrip
use mars_memory_allocator.Base.{
  ℕ, ◌+◌, ◌-◌, Bool, not, ◌&&◌, Option, none, some, List, ltb, ◌==◌, if◌then◌else◌, length,
}
use mars_memory_allocator.Layout.{Profile, has_crc}
use mars_memory_allocator.Memory.{Mem, write_bytes, read_bytes}
use mars_memory_allocator.State.{
  State, clear_error, with_mem, is_libc, quarantined, fail, quarantined, corrupt_payload,
  invalid_ptr, oob,
}
use mars_memory_allocator.Locate.{block_of}
use mars_memory_allocator.Check.{canary_ok, header_ok, seal}
use mars_memory_allocator.Block.{
  payload_crc_value, requested_size, is_quarantined, payload_crc, payload_of, is_used,
  set_payload_crc,
}
use mars_memory_allocator.Recovery.{quarantine_block, rescue}

-- mm_payload_crc_live
unfoldable pub payload_crc_live : Profile → State → Bool
payload_crc_live p st = has_crc p && not (is_libc st.mode)

module _ (p : Profile) where
  -- checked_block, after the header has been found sound or has been restored
  unfoldable pub checked_live : State → ℕ → ℕ → ℕ → ℕ × State
  checked_live st b offset len =
      let requested = requested_size p st.mem b in
      if is_quarantined st.mem b
      then (0, fail quarantined st)
      else if not (is_used st.mem b)
      then (0, fail invalid_ptr st)
      else if not (canary_ok p st b)
      then (0, quarantine_block p st b)
      else if ltb requested offset
      then (0, fail oob st)
      else if ltb (requested - offset) len
      then (0, fail oob st)
      else (b, st)

  -- checked_block
  unfoldable pub checked_block : State → ℕ → ℕ → ℕ → ℕ × State
  unfolding checked_live
  checked_block st ptr offset len =
      let (b, st1) = block_of p st ptr in
      let (saved, st2) = rescue p st1 b in
      if b == 0
      then (0, st1)
      else if header_ok p st1 b
      then checked_live st1 b offset len
      else if not saved
      then (0, st2)
      else checked_live st2 b offset len

  -- the checksum of a block's whole payload
  abbrev pub payload_sum : Mem → ℕ → ℕ
  payload_sum m b = payload_crc_value m (payload_of p b) (requested_size p m b)

  -- read_unlocked
  unfoldable pub read_unlocked : State → ℕ → ℕ → ℕ → Option (List ℕ) × State
  unfolding checked_block
  read_unlocked st ptr offset len =
      let (b, st1) = checked_block st ptr offset len in
      let m = st1.mem in
      if b == 0
      then (none, st1)
      else if has_crc p && not (payload_crc m b == 0) && not (payload_sum m b == payload_crc m b)
      then (none, fail corrupt_payload (quarantine_block p st1 b))
      else (some (read_bytes len m (payload_of p b + offset)), st1)

  -- write_unlocked, after the bytes are in
  unfoldable pub finish_write : State → ℕ → ℕ → Option ℕ × State
  finish_write st b len =
      if not (canary_ok p st b)
      then (none, quarantine_block p st b)
      else if payload_crc_live p st
      then (some len, seal p (with_mem st (set_payload_crc p st.mem b (payload_sum st.mem b))) b)
      else (some len, st)

  -- write_unlocked
  unfoldable pub write_unlocked : State → ℕ → ℕ → List ℕ → Option ℕ × State
  unfolding checked_block finish_write
  write_unlocked st ptr offset src =
      let (b, st1) = checked_block st ptr offset (length src) in
      let st2 = with_mem st1 (write_bytes st1.mem (payload_of p b + offset) src) in
      if b == 0 then (none, st1) else finish_write st2 b (length src)

  -- mm_read and mm_write, on a buffer that is not NULL
  unfoldable pub read : State → ℕ → ℕ → ℕ → Option (List ℕ) × State
  unfolding read_unlocked
  read st ptr offset len = read_unlocked (clear_error st) ptr offset len

  unfoldable pub write : State → ℕ → ℕ → List ℕ → Option ℕ × State
  unfolding write_unlocked
  write st ptr offset src = write_unlocked (clear_error st) ptr offset src
