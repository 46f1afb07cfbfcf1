-- ===== src/Confine/Join.antt =====
-- What absorb_neighbours of src/mm_core.c joins to a block, whatever the blocks hold.
use mars_memory_allocator.Base.{ℕ, ◌+◌, ◌≤◌, ◌<◌, ◌≡◌, refl, ap, ◌∙◌, Bool, true, false, arith}
use mars_memory_allocator.Layout.{Profile, trail}
use mars_memory_allocator.Layout.Word
use mars_memory_allocator.Layout.Word.Laws.{set_size-Reads}
use mars_memory_allocator.State.{State, with_mem, fail, corrupt_header}
use mars_memory_allocator.Span.{span_of}
use mars_memory_allocator.Memory.{store}
use mars_memory_allocator.Memory.Laws.{IsMem}
use mars_memory_allocator.Check.{is_block, unchanged, seal}
use mars_memory_allocator.Block.{word, block_size, block_end}
use mars_memory_allocator.Recovery.{quarantine_block, scrub_forget}
use mars_memory_allocator.Coalesce.{take_next, take_prev}
use mars_memory_allocator.Coalesce.Cut.{Room, word_stored, trail-lt}
use mars_memory_allocator.Access.Frame.{header_ok-is_block}
use mars_memory_allocator.Confine.Seal.{is_block-bounds, min_block-ge}
use mars_memory_allocator.Confine.Safe.{
  Safe, Safe-trans, unmoved, store-Safe, Spans, is_block-Starts,
}
use mars_memory_allocator.Confine.Link.{Kept-is_block, seal-Kept, word-lt}
use mars_memory_allocator.Confine.Abandon.{
  Room-is_block, Room-InSpan, Room-at, forget-Kept, block_size-set_word,
}
use mars_memory_allocator.Confine.Mirror.{size_units}
use mars_memory_allocator.Confine.Rescue.{Starts-Stands}
use mars_memory_allocator.Confine.Quarantine.{quarantine_block-Safe}

module _ (p : Profile) where
  -- a new control word on a room, with the patrol's cursor drawn back and the seal
  resealed_lem :
      (st : State) (b n w : ℕ)
      → Room p st b n
      → block_size (store 8 st.mem b w) b ≡ n
      → let st1 = with_mem st (store 8 st.mem b w) in
        let st3 = seal p (scrub_forget b (block_end st1.mem b) st1) b in
        Safe st st3 × (is_block p st3 b ≡ true) × (block_size st3.mem b ≡ n)
  resealed_lem st b n w r size =
      let st1 = with_mem st (store 8 st.mem b w) in
      let large = r.large_enough in
      let g = min_block-ge p in
      let a = store-Safe st 8 b w b (Room-InSpan p st b n b 8 r (omega arith) (omega arith)) in
      let f = forget-Kept p st1 b (block_end st1.mem b) b in
      let st2 = scrub_forget b (block_end st1.mem b) st1 in
      let k = Kept-is_block p st1 st2 b f (Room-is_block p st b n (store 8 st.mem b w) r size) in
      let l = seal-Kept p st2 b k in
      (
        Safe-trans a (Safe-trans f.safe l.safe),
        Kept-is_block p st2 (seal p st2 b) b l k,
        ap Word.size_of (l.same ∙ f.same) ∙ size,
      )

  -- the block that takes the next one in is a block in bounds, of their sizes together
  pub take_next_lem :
      (st : State) (b n : ℕ)
      → Room p st b n
      → IsMem st.mem
      → let st1 = take_next p st b n in
        Safe st st1 × (is_block p st1 b ≡ true) × (block_size st1.mem b ≡ n)
  unfolding take_next
  take_next_lem st b n r m =
      let w = Word.set_size (word st.mem b) n in
      let q = set_size-Reads (word st.mem b) n (word-lt st b m) r.extent in
      resealed_lem st b n w r (ap Word.size_of (word_stored p st.mem b w q.in_word) ∙ q.size)

  pub take_prev-Safe : (st : State) (b n : ℕ) → Room p st b n → Safe st (take_prev p st b n)
  unfolding take_prev
  take_prev-Safe st b n r =
      (resealed_lem st b n (Word.set_word (word st.mem b) n (trail p) true false) r
        (block_size-set_word p st.mem b n (trail p) true false r.extent (trail-lt p)).0).0

  pub quarantined-Safe :
      (st : State) (b : ℕ)
      → Spans st
      → IsMem st.mem
      → Safe st (fail corrupt_header (quarantine_block p st b))
  quarantined-Safe st b s m =
      let st1 = quarantine_block p st b in
      Safe-trans (quarantine_block-Safe p st b s m)
        (unmoved st1 (fail corrupt_header st1) refl refl refl refl refl refl)

  pub unchanged-is_block :
      (st : State) (b n : ℕ) (used : Bool)
      → unchanged p st b n used ≡ true
      → (is_block p st b ≡ true) × (block_size st.mem b ≡ n)
  unfolding unchanged
  unchanged-is_block st b n used h = (header_ok-is_block p st b (ground arith), ground arith)

  -- the block behind takes up where this one ends
  pub joined-Room :
      (st : State) (b own theirs : ℕ)
      → Spans st
      → is_block p st b ≡ true
      → block_size st.mem b ≡ own
      → b + own < (st.desc (span_of st b)).hi
      → is_block p st (b + own) ≡ true
      → block_size st.mem (b + own) ≡ theirs
      → Room p st b (own + theirs)
  joined-Room st b own theirs s h e in_span k f =
      let t = Starts-Stands p st b (is_block-Starts p st b h) in
      let above = t.above in
      let bound = is_block-bounds p st b h in
      let next = is_block-bounds p st (b + own) k in
      let same = s.whole b (b + own) t.found (omega arith) in_span in
      let u = size_units (word st.mem b) in
      let v = size_units (word st.mem (b + own)) in
      let inside : b + own + theirs ≤ (st.desc (span_of st b)).hi =
        omega (arith, next.2, ap (λ q. (st.desc q).hi) same, f) in
      Room-at p st b b (own + theirs) s t.found t.not_null t.above t.aligned (omega arith)
        (omega arith) (omega arith)

  -- the block before this one takes it in
  pub before-Room :
      (st : State) (prev b before own : ℕ)
      → Spans st
      → prev + before ≡ b
      → is_block p st prev ≡ true
      → block_size st.mem prev ≡ before
      → is_block p st b ≡ true
      → block_size st.mem b ≡ own
      → (st.desc (span_of st b)).lo ≤ prev
      → Room p st prev (before + own)
  before-Room st prev b before own s joins h e k f above =
      let t = Starts-Stands p st b (is_block-Starts p st b k) in
      let u = Starts-Stands p st prev (is_block-Starts p st prev h) in
      let room = t.room in
      let bound = is_block-bounds p st b k in
      let own_bound = is_block-bounds p st prev h in
      let g = min_block-ge p in
      let same = s.whole b prev t.found above (omega (arith, own_bound.1)) in
      let x = size_units (word st.mem b) in
      let y = size_units (word st.mem prev) in
      Room-at p st b prev (before + own) s t.found u.not_null above (rw same at (u.aligned))
        (omega arith) (omega (arith, bound.1)) (omega (arith, bound.2))
