-- ===== src/Confine/Quarantine.antt =====
-- mm_publish and mm_quarantine of src/mm_integrity.c write only inside the spans, whatever the blocks
-- hold.
use mars_memory_allocator.Base.{ℕ, ◌+◌, refl, inl, inr, true, false, arith, ◌==◌, Bool-cases}
use mars_memory_allocator.Layout.{Profile}
use mars_memory_allocator.Layout.Word
use mars_memory_allocator.State.{
  State, with_mem, fail, corrupt_header, corrupt_links, quarantined, add64,
}
use mars_memory_allocator.Counters.{stat_note, quarantine}
use mars_memory_allocator.Memory.{store}
use mars_memory_allocator.Memory.Laws.{IsMem}
use mars_memory_allocator.Check.{is_block, is_block_start, header_ok, unchanged}
use mars_memory_allocator.Block.{
  word, block_size, is_used, is_quarantined, set_word, set_payload_crc,
}
use mars_memory_allocator.Recovery.{
  rescue, recover_next, publish, tag_and_seal, give_up, quarantine_block,
}
use mars_memory_allocator.FreeList.{bin_remove}
use mars_memory_allocator.Confine.Seal.{min_block-ge}
use mars_memory_allocator.Confine.Lists.{bin_remove-Safe}
use mars_memory_allocator.Confine.Safe.{
  Safe, Safe-refl, Safe-trans, unmoved, Spans, Spans-step, Starts, Starts-step, Starts-InSpan,
}
use mars_memory_allocator.Confine.Link.{Kept-is_block, tag_and_seal-Kept, relink-Safe}
use mars_memory_allocator.Confine.Abandon.{store_after, payload_crc_after}
use mars_memory_allocator.Confine.Rescue.{rescue-Safe}
use mars_memory_allocator.Confine.RecoverNext.{recover_next-Lands}

module _ (p : Profile) where
  failed_rescue-Safe :
      (st : State) (b : ℕ)
      → Spans st
      → IsMem st.mem
      → Safe st (rescue p (fail corrupt_header st) b).1
  failed_rescue-Safe st b s m =
      let u = unmoved st (fail corrupt_header st) refl refl refl refl refl refl in
      Safe-trans u (rescue-Safe p (fail corrupt_header st) b (Spans-step u.confined s) m)

  -- mm_publish
  pub publish-Safe : (st : State) (b : ℕ) → Spans st → IsMem st.mem → Safe st (publish p st b).1
  unfolding publish
  publish-Safe st b s m =
      let st1 = tag_and_seal p st b in
      elim (Bool-cases (is_block p st b)) [
        | inr e ↦ rw e (failed_rescue-Safe st b s m)
        | inl e ↦
            let k = tag_and_seal-Kept p st b e in
            let m1 = k.safe.bytes m in
            let l =
              recover_next-Lands p st1 b (Spans-step k.safe.confined s) m1
                (Kept-is_block p st st1 b k e) in
            let n = (recover_next p st1 b).0 in
            let st2 = (recover_next p st1 b).1 in
            let a = Safe-trans k.safe l.safe in
            elim (Bool-cases (n == 0)) [
              | inl z ↦ rw (e, z) a
              | inr z ↦ elim (l.lands) [
                | inl y ↦ cc
                | inr h ↦
                    rw (e, z)
                      (Safe-trans a (relink-Safe p st2 n (is_used st2.mem b) h (l.safe.bytes m1)))
              ]
            ]
      ]

  -- a control word and a cleared payload checksum, written where a block may start
  pub worded-Safe :
      (st : State) (b w : ℕ)
      → Starts p st b
      → Safe st (with_mem st (set_payload_crc p (store 8 st.mem b w) b 0))
  worded-Safe st b w h =
      let g = min_block-ge p in
      let i = Starts-InSpan p st b b 8 h (omega arith) (omega arith) in
      let j = Starts-InSpan p st b (b + 12) 4 h (omega arith) (omega arith) in
      payload_crc_after p st (store 8 st.mem b w) b 0
        (store_after st st.mem 8 b w b (Safe-refl st) i) j

  give_up-Safe :
      (st : State) (b n : ℕ) → Spans st → IsMem st.mem → Starts p st b → Safe st (give_up p st b n)
  unfolding give_up
  give_up-Safe st b n s m h =
      let a = worded-Safe st b (Word.set_word (word st.mem b) n 0 true true) h in
      let st1 = with_mem st (set_payload_crc p (set_word st.mem b n 0 true true) b 0) in
      let q = publish-Safe st1 b (Spans-step a.confined s) (a.bytes m) in
      let st2 = (publish p st1 b).1 in
      let st3 = record st2 { lost_bytes = add64 st2.lost_bytes n } in
      let last = fail quarantined (stat_note quarantine n st3) in
      elim (Bool-cases (publish p st1 b).0) [
        | inl e ↦
            rw e (Safe-trans a (Safe-trans q (unmoved st2 last refl refl refl refl refl refl)))
        | inr e ↦ rw e (Safe-trans a q)
      ]

  -- mm_quarantine
  pub quarantine_block-Safe :
      (st : State) (b : ℕ) → Spans st → IsMem st.mem → Safe st (quarantine_block p st b)
  unfolding quarantine_block
  quarantine_block-Safe st b s m =
      let n = block_size st.mem b in
      let st1 = bin_remove p st b in
      elim (Bool-cases (is_block_start p st b)) [
        | inr e ↦ rw e (Safe-refl st)
        | inl e ↦ elim (Bool-cases (header_ok p st b)) [
          | inr f ↦ rw (e, f) (rescue-Safe p st b s m)
          | inl f ↦ elim (Bool-cases (is_quarantined st.mem b)) [
            | inl q ↦ rw (e, f, q) (unmoved st _ refl refl refl refl refl refl)
            | inr q ↦ elim (Bool-cases (is_used st.mem b)) [
              | inl u ↦ rw (e, f, q, u) (give_up-Safe st b n s m e)
              | inr u ↦
                  let r = bin_remove-Safe p st b e in
                  let s1 = Spans-step r.confined s in
                  elim (Bool-cases (unchanged p st1 b n false)) [
                    | inl v ↦
                        rw (e, f, q, u, v)
                          (Safe-trans r
                            (give_up-Safe st1 b n s1 (r.bytes m) (Starts-step p b r.confined e)))
                    | inr v ↦
                        let x =
                          unmoved st1 (fail corrupt_links st1) refl refl refl refl refl refl in
                        let y =
                          rescue-Safe p (fail corrupt_links st1) b (Spans-step x.confined s1)
                            (r.bytes m) in
                        rw (e, f, q, u, v) (Safe-trans r (Safe-trans x y))
                  ]
            ]
          ]
        ]
      ]
