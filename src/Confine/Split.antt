-- ===== src/Confine/Split.antt =====
-- split_block and finish_allocation of src/mm_core.c write only inside the spans.
use mars_memory_allocator.Base.{
  ◌^◌, ◌<◌, ℕ, ◌+◌, ◌-◌, ◌%◌, ◌≤◌, ◌≡◌, refl, ap, ◌∙◌, inl, inr, true, false, arith, ltb, ◌==◌,
  Bool-cases, if◌then◌else◌,
}
use mars_memory_allocator.Layout.{Profile, min_block, trail, hdr_size, has_canary}
use mars_memory_allocator.Layout.Word
use mars_memory_allocator.Layout.Word.Laws.{set_size-Reads}
use mars_memory_allocator.State.{State, with_mem, is_libc, sub64}
use mars_memory_allocator.Memory.{store}
use mars_memory_allocator.Memory.Laws.{IsMem}
use mars_memory_allocator.Check.{is_block, seal, write_canary}
use mars_memory_allocator.Block.{word, block_size, set_block_size, set_word, set_payload_crc}
use mars_memory_allocator.Coalesce.{cut_tail, absorb_neighbours, split_block, finish_allocation}
use mars_memory_allocator.Coalesce.Cut.{
  Room, word_stored, unsealed, unsealed-is_block, cut_tail-header_ok,
}
use mars_memory_allocator.Confine.Seal.{is_block-bounds, min_block-ge}
use mars_memory_allocator.Confine.Push.{header_ok-Starts}
use mars_memory_allocator.Confine.Safe.{
  Safe, Safe-refl, Safe-trans, store-Safe, Spans, Spans-step, Starts, Starts-InSpan,
  is_block-Starts,
}
use mars_memory_allocator.Confine.Link.{Kept-is_block, seal-Kept, word-lt}
use mars_memory_allocator.Confine.Abandon.{
  Room-is_block, Room-InSpan, Room-at, store_after, payload_crc_after,
}
use mars_memory_allocator.Confine.Mirror.{size_units}
use mars_memory_allocator.Confine.Rescue.{Starts-Stands}
use mars_memory_allocator.Confine.RecoverNext.{Room-step}
use mars_memory_allocator.Confine.Quarantine.{publish-Safe}
use mars_memory_allocator.Confine.Merge.{absorb_neighbours-Runs, release_block-Safe}
use mars_memory_allocator.Confine.Free.{found-Starts}

-- an extent is a 64-bit number
size_word : (w : ℕ) → w < 2 ^ 64 → Word.size_of w < 2 ^ 64
unfolding Word.size_of
size_word w l = omega arith

module _ (p : Profile) where
  -- part of a block in bounds
  pub part-Room :
      (st : State) (b c n : ℕ)
      → Spans st
      → is_block p st b ≡ true
      → b ≤ c
      → (c - b) % 16 ≡ 0
      → n % 16 ≡ 0
      → min_block p ≤ n
      → c + n ≤ b + block_size st.mem b
      → Room p st c n
  part-Room st b c n s h le a u l k =
      let t = Starts-Stands p st b (is_block-Starts p st b h) in
      let above = t.above in
      let aligned = t.aligned in
      let bound = is_block-bounds p st b h in
      Room-at p st b c n s t.found (ground (arith, t.not_null)) (omega arith) (omega arith) u l
        (omega (arith, bound.2))

  -- a control word of that size, and the seal
  pub worded-sealed :
      (st : State) (b n w : ℕ)
      → Room p st b n
      → block_size (store 8 st.mem b w) b ≡ n
      → let st1 = seal p (with_mem st (store 8 st.mem b w)) b in
        Safe st st1 × (is_block p st1 b ≡ true) × (block_size st1.mem b ≡ n)
  worded-sealed st b n w r size =
      let st0 = with_mem st (store 8 st.mem b w) in
      let large = r.large_enough in
      let g = min_block-ge p in
      let a = store-Safe st 8 b w b (Room-InSpan p st b n b 8 r (omega arith) (omega arith)) in
      let h = Room-is_block p st b n (store 8 st.mem b w) r size in
      let k = seal-Kept p st0 b h in
      (Safe-trans a k.safe, Kept-is_block p st0 (seal p st0 b) b k h, ap Word.size_of k.same ∙ size)

  cut_tail-Safe : (st : State) (b n : ℕ) → Room p st b n → Safe st (cut_tail p st b n)
  unfolding cut_tail
  cut_tail-Safe st b n r =
      let large = r.large_enough in
      let g = min_block-ge p in
      let i = Room-InSpan p st b n b 8 r (omega arith) (omega arith) in
      let j = Room-InSpan p st b n (b + 12) 4 r (omega arith) (omega arith) in
      let zeroed = store_after st st.mem 8 b 0 b (Safe-refl st) i in
      let summed = payload_crc_after p st (store 8 st.mem b 0) b 0 zeroed j in
      let m1 = set_payload_crc p (store 8 st.mem b 0) b 0 in
      let w1 = Word.set_word (word m1 b) n (trail p) true false in
      let worded = store_after st m1 8 b w1 b summed i in
      let m2 = set_word m1 b n (trail p) true false in
      let w2 = Word.set_prev_in_use (word m2 b) true in
      let linked = store_after st m2 8 b w2 b worded i in
      Safe-trans linked
        (seal-Kept p (with_mem st (unsealed p st b n)) b (unsealed-is_block p st b n r)).safe

  pub split_block-Safe :
      (st : State) (b need : ℕ)
      → Spans st
      → IsMem st.mem
      → is_block p st b ≡ true
      → need % 16 ≡ 0
      → min_block p ≤ need
      → need ≤ block_size st.mem b
      → Safe st (split_block p st b need)
  unfolding split_block
  split_block-Safe st b need s m h u l k =
      let size = block_size st.mem b in
      let leftover = size - need in
      let bound = size_word (word st.mem b) (word-lt st b m) in
      let same : sub64 size need ≡ leftover = omega arith in
      let units = size_units (word st.mem b) in
      elim (Bool-cases (ltb leftover (min_block p))) [
        | inl e ↦ rw (same, e) (Safe-refl st)
        | inr e ↦
            let big : min_block p ≤ leftover = ground arith in
            let front = part-Room st b b need s h (omega arith) (omega arith) u l (omega arith) in
            let w = Word.set_size (word st.mem b) need in
            let q = set_size-Reads (word st.mem b) need (word-lt st b m) front.extent in
            let read = ap Word.size_of (word_stored p st.mem b w q.in_word) ∙ q.size in
            let a = worded-sealed st b need w front read in
            let st1 = seal p (with_mem st (set_block_size st.mem b need)) b in
            let tail = b + need in
            let back =
              part-Room st b tail leftover s h (omega arith) (omega arith) (omega arith) big
                (omega arith) in
            let back1 = Room-step p st st1 tail leftover (a.0).confined back in
            let st2 = cut_tail p st1 tail leftover in
            let c = cut_tail-Safe st1 tail leftover back1 in
            let ac = Safe-trans a.0 c in
            let cut = cut_tail-header_ok p st1 tail leftover back1 in
            let r =
              absorb_neighbours-Runs p st2 tail (Spans-step ac.confined s) (ac.bytes m)
                (header_ok-Starts p st2 tail cut.0) in
            let acr = Safe-trans ac r.safe in
            let run = (absorb_neighbours p st2 tail).0 in
            let st3 = (absorb_neighbours p st2 tail).1 in
            elim (Bool-cases (run == 0)) [
              | inl f ↦ rw (same, e, f) acr
              | inr f ↦
                  let d =
                    release_block-Safe p st3 run (Spans-step acr.confined s) (acr.bytes m)
                      (found-Starts p r f) in
                  rw (same, e, f) (Safe-trans acr d)
            ]
      ]

  no_canary : (st : State) (b : ℕ) → has_canary p ≡ false → write_canary p st b ≡ st
  unfolding write_canary
  no_canary st b c = rw c refl

  -- finish_allocation, in a profile without canaries
  pub finish_allocation-Safe :
      (st : State) (b size : ℕ)
      → Spans st
      → IsMem st.mem
      → has_canary p ≡ false
      → Starts p st b
      → Safe st (finish_allocation p st b size).1
  unfolding finish_allocation
  finish_allocation-Safe st b size s m c h =
      let total = block_size st.mem b in
      let give = if is_libc st.mode then sub64 (sub64 total (hdr_size p)) (trail p) else size in
      let w =
        Word.set_word (word st.mem b) total (sub64 (sub64 total (hdr_size p)) give) true false in
      let g = min_block-ge p in
      let a = store-Safe st 8 b w b (Starts-InSpan p st b b 8 h (omega arith) (omega arith)) in
      let st1 = with_mem st (store 8 st.mem b w) in
      rw (no_canary st1 b c)
        (Safe-trans a (publish-Safe p st1 b (Spans-step a.confined s) (a.bytes m)))
