-- ===== src/Mode.antt =====
-- mm_set_mode and mm_get_mode of src/mm_integrity.c, in a build with one arena. The mode that the
-- arenas of later threads would start in is not kept.
pub mod Forget
use mars_memory_allocator.Base.{
  ℕ, zero, suc, ◌+◌, not, ◌&&◌, List, [], ◌∷◌, ltb, ◌==◌, if◌then◌else◌,
}
use mars_memory_allocator.Layout.{Profile, has_crc, hdr_size, trail}
use mars_memory_allocator.State.{State, Mode, is_libc, with_mem, arena_live}
use mars_memory_allocator.Span.{all_spans, span_max_blocks}
use mars_memory_allocator.Block.{block_size, payload_crc, set_payload_crc}
use mars_memory_allocator.Check.{header_ok, seal, same_bool}

-- mm_get_mode
abbrev pub get_mode : State → Mode
get_mode st = st.mode

module _ (p : Profile) where
  -- `if (b->payload_crc != 0) { b->payload_crc = 0; mm_seal(b); }`
  unfoldable pub forget_one : State → ℕ → State
  forget_one st b =
      if payload_crc st.mem b == 0
      then st
      else seal p (with_mem st (set_payload_crc p st.mem b 0)) b

  -- the walk of forget_payload_crcs over one span that ends at `hi`, for `budget` blocks at most
  unfoldable pub forget_from : ℕ → (hi q : ℕ) → State → State
  forget_from zero hi q st = st
  forget_from (suc budget) hi q st =
      let st1 = forget_one st q in
      let rest = forget_from budget hi (q + block_size st1.mem q) st1 in
      if not (ltb q hi) then st else if not (header_ok p st q) then st else rest

  unfoldable pub forget_spans : List ℕ → State → State
  forget_spans [] st = st
  forget_spans (s ∷ ss) st =
      let sp = st.desc s in forget_spans ss (forget_from (span_max_blocks p sp) sp.hi sp.lo st)

  -- forget_payload_crcs
  unfoldable pub forget_payload_crcs : State → State
  unfolding forget_spans
  forget_payload_crcs st = forget_spans (all_spans st) st

  -- mm_set_mode, on the one arena; the type leaves no other value to refuse
  unfoldable pub set_mode : Mode → State → State
  set_mode m st =
      let st1 = record st { mode = m } in
      if same_bool (is_libc st.mode) (is_libc m)
      then st
      else if has_crc p && is_libc m && arena_live st1
      then forget_payload_crcs st1
      else st1

  -- mm_metadata_overhead
  abbrev pub metadata_overhead : ℕ
  metadata_overhead = hdr_size p + trail p
