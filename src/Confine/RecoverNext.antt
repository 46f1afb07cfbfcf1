-- ===== src/Confine/RecoverNext.antt =====
-- mm_recover_next of src/mm_integrity.c writes only inside the spans, whatever the blocks hold.
use mars_memory_allocator.Base.{
  ℕ, ◌+◌, ◌-◌, ◌≤◌, ◌≡◌, refl, inl, inr, Bool, true, false, not, ◌&&◌, ◌||◌, arith, ltb, leb, ◌==◌,
  Bool-cases,
}
use mars_memory_allocator.Layout.{Profile, min_block, has_mirror}
use mars_memory_allocator.State.{State, fail, corrupt_header}
use mars_memory_allocator.Span.{span_of}
use mars_memory_allocator.Memory.Laws.{IsMem}
use mars_memory_allocator.Check.{is_block, header_ok}
use mars_memory_allocator.Block.{word, block_end, is_used}
use mars_memory_allocator.Recovery.{
  recover_next, scan_resync, mirror_says, restore, abandon, lost_run,
}
use mars_memory_allocator.Coalesce.Cut.{Room}
use mars_memory_allocator.Access.Frame.{header_ok-is_block}
use mars_memory_allocator.Confine.{Confined, Confined-span_of}
use mars_memory_allocator.Confine.Seal.{is_block-bounds, min_block-ge}
use mars_memory_allocator.Confine.Safe.{Safe-refl, Safe-trans, unmoved, Spans, is_block-Starts}
use mars_memory_allocator.Confine.Link.{is_block-same}
use mars_memory_allocator.Confine.Abandon.{Room-at, Lands, abandon-Lands}
use mars_memory_allocator.Confine.Mirror.{
  size_units, Stands, scan_resync-Candidate, mirror_says-Mirrored,
}
use mars_memory_allocator.Confine.Rescue.{Starts-Stands, mirrored_here, lost-Room}

module _ (p : Profile) where
  -- behind a block in bounds, where the span goes on
  after-Stands :
      (st : State) (b : ℕ)
      → is_block p st b ≡ true
      → block_end st.mem b + min_block p ≤ (st.desc (span_of st b)).hi
      → Stands p st b (block_end st.mem b)
  after-Stands st b h l =
      let t = Starts-Stands p st b (is_block-Starts p st b h) in
      let above = t.above in
      let aligned = t.aligned in
      let bound = is_block-bounds p st b h in
      let u = size_units (word st.mem b) in
      record {
        found = t.found;
        not_null = ground (arith, t.not_null);
        above = omega arith;
        aligned = omega (arith, u);
        room = l;
      }

  pub Room-step : (st st' : State) (b n : ℕ) → Confined st st' → Room p st b n → Room p st' b n
  Room-step st st' b n c r = record {
    not_null = r.not_null;
    found = rw (Confined-span_of c b) r.found;
    starts = rw (Confined-span_of c b, c.same_desc) r.starts;
    extent = r.extent;
    large_enough = r.large_enough;
    inside = rw (Confined-span_of c b, c.same_desc) r.inside;
  }

  bridge-Room :
      (st : State) (q b r : ℕ)
      → Spans st
      → Stands p st q b
      → r ≡ scan_resync p st (st.desc (span_of st q)) b
      → (has_mirror p && not (r == 0)) ≡ true
      → (mirror_says p st (st.desc (span_of st q)) b r == 0) ≡ false
      → min_block p ≤ mirror_says p st (st.desc (span_of st q)) b r - b
      → Room p st b (mirror_says p st (st.desc (span_of st q)) b r - b)
  bridge-Room st q b r s t e has z far =
      let sp = st.desc (span_of st q) in
      let w = mirror_says-Mirrored p st sp b r z in
      let at = w.start_is in
      let units = w.aligned in
      let above = t.above in
      let aligned = t.aligned in
      let g = min_block-ge p in
      elim (scan_resync-Candidate p st sp b) [
        | inl missing ↦ absurd (ground (arith, e))
        | inr c ↦
            let inside = c.room in
            Room-at p st q b (mirror_says p st sp b r - b) s t.found t.not_null above aligned
              (omega arith) far (omega arith)
      ]

  -- the repair of the block at `at` and the loss of what lies before it
  bridged-Lands :
      (st : State) (q b r : ℕ) (used : Bool)
      → Spans st
      → IsMem st.mem
      → Stands p st q b
      → r ≡ scan_resync p st (st.desc (span_of st q)) b
      → (has_mirror p && not (r == 0)) ≡ true
      → (mirror_says p st (st.desc (span_of st q)) b r == 0) ≡ false
      → let at = mirror_says p st (st.desc (span_of st q)) b r in
        let st1 = restore p st at r true in
        min_block p ≤ at - b
        → Lands p st (abandon p st1 b (at - b) used).1 (abandon p st1 b (at - b) used).0
  bridged-Lands st q b r used s m t e has z far =
      let sp = st.desc (span_of st q) in
      let at = mirror_says p st sp b r in
      let st1 = restore p st at r true in
      let l = mirrored_here p st q b r true s m t e has z in
      let room = bridge-Room st q b r s t e has z far in
      let a =
        abandon-Lands p st1 b (at - b) used (λ n. Room-step st st1 b (at - b) l.safe.confined room)
          (l.safe.bytes m) in
      record { safe = Safe-trans l.safe a.safe; lands = a.lands }

  failed-Lands :
      (st st' : State) (n : ℕ) → Lands p st st' n → Lands p st (fail corrupt_header st') n
  failed-Lands st st' n l =
      let u = unmoved st' (fail corrupt_header st') refl refl refl refl refl refl in
      record {
        safe = Safe-trans l.safe u;
        lands = elim (l.lands) [
          | inl z ↦ inl z
          | inr h ↦ inr (is_block-same p st' (fail corrupt_header st') n u.confined refl h)
        ];
      }

  -- mm_recover_next: it answers with nothing or with a block in bounds.
  pub recover_next-Lands :
      (st : State) (b : ℕ)
      → Spans st
      → IsMem st.mem
      → is_block p st b ≡ true
      → Lands p st (recover_next p st b).1 (recover_next p st b).0
  unfolding recover_next
  recover_next-Lands st b s m h =
      let sp = st.desc (span_of st b) in
      let start = block_end st.mem b in
      let r = scan_resync p st sp start in
      let used = is_used st.mem b in
      let at = mirror_says p st sp start r in
      let nothing : Lands p st st 0 = record { safe = Safe-refl st; lands = inl refl } in
      elim (Bool-cases
        (span_of st b == 0 || leb sp.hi start || ltb (sp.hi - start) (min_block p))) [
          | inl e ↦ rw e nothing
          | inr e ↦
              let t = after-Stands st b h (ground arith) in
              elim (Bool-cases (header_ok p st start)) [
                | inl f ↦
                    rw (e, f)
                      (record {
                        safe = Safe-refl st;
                        lands = inr (header_ok-is_block p st start f);
                      })
                | inr f ↦
                    let here = has_mirror p && not (r == 0) && not (at == 0) && at == start in
                    let later =
                      has_mirror p
                      && not (r == 0)
                      && not (at == 0)
                      && leb (min_block p) (at - start) in
                    elim (Bool-cases here) [
                      | inl g ↦
                          let same : at ≡ start = ground arith in
                          let l =
                            mirrored_here p st b start r used s m t refl (ground arith)
                              (ground arith) in
                          rw (e, f, g) (failed-Lands st _ start (rw same at l))
                      | inr g ↦ elim (Bool-cases later) [
                        | inl k ↦
                            rw (e, f, g, k)
                              (bridged-Lands st b start r used s m t refl (ground arith)
                                (ground arith) (ground arith))
                        | inr k ↦
                            rw (e, f, g, k)
                              (abandon-Lands p st start (lost_run p sp start r) used
                                (λ n. lost-Room p st b start s t) m)
                      ]
                    ]
              ]
        ]
