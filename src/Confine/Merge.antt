-- ===== src/Confine/Merge.antt =====
-- absorb_neighbours and release_block of src/mm_core.c write only inside the spans, whatever the blocks
-- hold.
use mars_memory_allocator.Base.{
  ℕ, ◌+◌, ◌≤◌, ◌<◌, ◌≡◌, refl, ◌≢◌, ◌⊎◌, inl, inr, true, false, not, ◌||◌, arith, leb, ◌==◌,
  Bool-cases,
}
use mars_memory_allocator.Layout.{Profile}
use mars_memory_allocator.Layout.Word
use mars_memory_allocator.State.{State, with_mem}
use mars_memory_allocator.Span.{span_of}
use mars_memory_allocator.Memory.{store}
use mars_memory_allocator.Memory.Laws.{IsMem}
use mars_memory_allocator.Check.{header_ok, unchanged, prev_free_block}
use mars_memory_allocator.Block.{word, block_size, block_end, is_used, set_payload_crc}
use mars_memory_allocator.Recovery.{publish}
use mars_memory_allocator.FreeList.{bin_remove}
use mars_memory_allocator.Coalesce.{absorb_next, absorb_prev, absorb_neighbours, release_block}
use mars_memory_allocator.Check.Bounds.{prev_free_block_sound}
use mars_memory_allocator.Confine.{Confined-span_of}
use mars_memory_allocator.Confine.Lists.{bin_remove-Safe, bin_insert-Safe}
use mars_memory_allocator.Confine.Push.{header_ok-Starts}
use mars_memory_allocator.Confine.Safe.{
  Safe, Safe-refl, Safe-trans, Spans, Spans-step, Starts, Starts-step,
}
use mars_memory_allocator.Confine.Quarantine.{publish-Safe, worded-Safe}
use mars_memory_allocator.Confine.Join.{
  quarantined-Safe, unchanged-is_block, before-Room, joined-Room, take_next_lem, take_prev-Safe,
}

module _ (p : Profile) where
  -- absorb_neighbours, forwards
  absorb_next-Safe :
      (st : State) (b : ℕ)
      → Spans st
      → IsMem st.mem
      → Starts p st b
      → Safe st (absorb_next p st b).2
  unfolding absorb_next
  absorb_next-Safe st b s m h =
      let own = block_size st.mem b in
      let n = block_end st.mem b in
      let theirs = block_size st.mem n in
      let st1 = bin_remove p st n in
      elim (Bool-cases (leb (st.desc (span_of st b)).hi n)) [
        | inl e ↦ rw e (Safe-refl st)
        | inr e ↦ elim (Bool-cases (not (header_ok p st n) || is_used st.mem n)) [
          | inl f ↦ rw (e, f) (Safe-refl st)
          | inr f ↦
              let a = bin_remove-Safe p st n (header_ok-Starts p st n (ground arith)) in
              let s1 = Spans-step a.confined s in
              let m1 = a.bytes m in
              elim (Bool-cases (unchanged p st1 b own true)) [
                | inr g ↦ rw (e, f, g) (Safe-trans a (quarantined-Safe p st1 b s1 m1))
                | inl g ↦ elim (Bool-cases (unchanged p st1 n theirs false)) [
                  | inr k ↦ rw (e, f, g, k) (Safe-trans a (quarantined-Safe p st1 n s1 m1))
                  | inl k ↦
                      let x = unchanged-is_block p st1 b own true g in
                      let y = unchanged-is_block p st1 n theirs false k in
                      let lt : n < (st.desc (span_of st b)).hi = ground arith in
                      let in_span : n < (st1.desc (span_of st1 b)).hi =
                        rw (Confined-span_of a.confined b, a.confined.same_desc) lt in
                      let room = joined-Room p st1 b own theirs s1 x.0 x.1 in_span y.0 y.1 in
                      rw (e, f, g, k)
                        (Safe-trans a (take_next_lem p st1 b (own + theirs) room m1).0)
                ]
              ]
        ]
      ]

  -- a step inside the spans that ends on nothing or on the start of a block
  pub record Runs (st st' : State) (n : ℕ) : Type 0 where
    pub safe : Safe st st'
    pub starts : ((n == 0) ≡ true) ⊎ Starts p st' n

  prev_free_block-above :
      (st : State) (b : ℕ)
      → prev_free_block p st b ≢ 0
      → (span_of st b ≢ 0) × ((st.desc (span_of st b)).lo ≤ prev_free_block p st b)
  unfolding prev_free_block
  prev_free_block-above st b h = ground arith

  -- absorb_neighbours, backwards
  absorb_prev-Runs :
      (st : State) (b own : ℕ)
      → Spans st
      → IsMem st.mem
      → Starts p st b
      → Runs st (absorb_prev p st b own).1 (absorb_prev p st b own).0
  unfolding absorb_prev
  absorb_prev-Runs st b own s m h =
      let prev = prev_free_block p st b in
      let before = block_size st.mem prev in
      let st1 = bin_remove p st prev in
      elim (Bool-cases (prev == 0)) [
        | inl e ↦ rw e (record { safe = Safe-refl st; starts = inr h })
        | inr e ↦
            let some : prev ≢ 0 = ground arith in
            let found = prev_free_block_sound p st b some in
            let above = prev_free_block-above st b some in
            let hp = header_ok-Starts p st prev found.0 in
            let a = bin_remove-Safe p st prev hp in
            let c = a.confined in
            let s1 = Spans-step c s in
            let m1 = a.bytes m in
            elim (Bool-cases (unchanged p st1 b own true)) [
              | inr g ↦
                  rw (e, g)
                    (record {
                      safe = Safe-trans a (quarantined-Safe p st1 b s1 m1);
                      starts = inl refl;
                    })
              | inl g ↦ elim (Bool-cases (unchanged p st1 prev before false)) [
                | inr k ↦
                    let q = Safe-trans a (quarantined-Safe p st1 prev s1 m1) in
                    rw (e, g, k) (record { safe = q; starts = inr (Starts-step p b q.confined h) })
                | inl k ↦
                    let x = unchanged-is_block p st1 prev before false k in
                    let y = unchanged-is_block p st1 b own true g in
                    let lo : (st1.desc (span_of st1 b)).lo ≤ prev =
                      rw (Confined-span_of c b, c.same_desc) above.1 in
                    let room = before-Room p st1 prev b before own s1 found.2 x.0 x.1 y.0 y.1 lo in
                    let q = Safe-trans a (take_prev-Safe p st1 prev (before + own) room) in
                    rw (e, g, k)
                      (record { safe = q; starts = inr (Starts-step p prev q.confined hp) })
              ]
            ]
      ]

  -- absorb_neighbours: it answers with nothing or with the start of a block.
  pub absorb_neighbours-Runs :
      (st : State) (b : ℕ)
      → Spans st
      → IsMem st.mem
      → Starts p st b
      → Runs st (absorb_neighbours p st b).1 (absorb_neighbours p st b).0
  unfolding absorb_neighbours
  absorb_neighbours-Runs st b s m h =
      let a = absorb_next-Safe st b s m h in
      let own = (absorb_next p st b).1 in
      let st1 = (absorb_next p st b).2 in
      elim (Bool-cases (span_of st b == 0)) [
        | inl e ↦ rw e (record { safe = Safe-refl st; starts = inl refl })
        | inr e ↦ elim (Bool-cases (absorb_next p st b).0) [
          | inr f ↦ rw (e, f) (record { safe = a; starts = inl refl })
          | inl f ↦
              let r =
                absorb_prev-Runs st1 b own (Spans-step a.confined s) (a.bytes m)
                  (Starts-step p b a.confined h) in
              rw (e, f) (record { safe = Safe-trans a r.safe; starts = r.starts })
        ]
      ]

  -- release_block
  pub release_block-Safe :
      (st : State) (b : ℕ)
      → Spans st
      → IsMem st.mem
      → Starts p st b
      → Safe st (release_block p st b)
  unfolding release_block
  release_block-Safe st b s m h =
      let w = Word.set_word (word st.mem b) (block_size st.mem b) 0 false false in
      let a = worded-Safe p st b w h in
      let st1 = with_mem st (set_payload_crc p (store 8 st.mem b w) b 0) in
      let q = publish-Safe p st1 b (Spans-step a.confined s) (a.bytes m) in
      let st2 = (publish p st1 b).1 in
      let k = Safe-trans a q in
      elim (Bool-cases (publish p st1 b).0) [
        | inr e ↦ rw e k
        | inl e ↦ rw e (Safe-trans k (bin_insert-Safe p st2 b (Starts-step p b k.confined h)))
      ]
