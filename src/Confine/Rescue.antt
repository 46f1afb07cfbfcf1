-- ===== src/Confine/Rescue.antt =====
-- mm_rescue of src/mm_integrity.c writes only inside the spans, whatever the blocks hold.
use mars_memory_allocator.Base.{
  ℕ, ◌-◌, ◌≡◌, refl, ◌≢◌, inl, inr, Bool, true, false, not, ◌&&◌, arith, ◌==◌, Bool-cases,
}
use mars_memory_allocator.Layout.{Profile, has_mirror}
use mars_memory_allocator.State.{State, fail, corrupt_header}
use mars_memory_allocator.Span.{span_of}
use mars_memory_allocator.Memory.Laws.{IsMem}
use mars_memory_allocator.Check.{is_block_start, header_ok, start_ok_in}
use mars_memory_allocator.Block.{prev_in_use}
use mars_memory_allocator.Recovery.{rescue, scan_resync, mirror_says, restore, lost_run}
use mars_memory_allocator.Coalesce.Cut.{Room}
use mars_memory_allocator.Confine.{span_of_bounds}
use mars_memory_allocator.Confine.Seal.{min_block-ge}
use mars_memory_allocator.Confine.Safe.{Safe, Safe-refl, Safe-trans, unmoved, Spans, Starts}
use mars_memory_allocator.Confine.Abandon.{Room-at, Lands, abandon-Lands}
use mars_memory_allocator.Confine.Mirror.{
  min_block-units, Stands, scan_resync-Candidate, mirror_says-Mirrored, restore-Lands,
}

module _ (p : Profile) where
  pub Starts-Stands : (st : State) (b : ℕ) → Starts p st b → Stands p st b b
  unfolding is_block_start start_ok_in
  Starts-Stands st b h =
      let f : span_of st b ≢ 0 = ground arith in
      let r = span_of_bounds st b f in
      record {
        found = f;
        not_null = ground arith;
        above = omega arith;
        aligned = ground arith;
        room = ground arith;
      }

  -- what is lost runs to the end of the span or to the next block, and is a room of its own
  pub lost-Room :
      (st : State) (q b : ℕ)
      → Spans st
      → Stands p st q b
      → Room p st b
          (lost_run p (st.desc (span_of st q)) b (scan_resync p st (st.desc (span_of st q)) b))
  lost-Room st q b s t =
      let sp = st.desc (span_of st q) in
      let r = scan_resync p st sp b in
      let units = (s.extent q t.found).0 in
      let above = t.above in
      let aligned = t.aligned in
      let room = t.room in
      let g = min_block-ge p in
      let m = min_block-units p in
      elim (scan_resync-Candidate p st sp b) [
        | inl z ↦ rw z (
            Room-at p st q b (sp.hi - b) s t.found t.not_null above aligned (omega arith)
              (omega arith) (omega arith))
        | inr c ↦
            let after = c.after in
            let n : (r == 0) ≡ false = ground arith in
            let step = c.units in
            let inside = c.room in
            rw n (
              Room-at p st q b (r - b) s t.found t.not_null above aligned (omega arith)
                (omega arith) (omega arith))
      ]

  pub mirrored_here :
      (st : State) (q b r : ℕ) (used : Bool)
      → Spans st
      → IsMem st.mem
      → Stands p st q b
      → r ≡ scan_resync p st (st.desc (span_of st q)) b
      → (has_mirror p && not (r == 0)) ≡ true
      → (mirror_says p st (st.desc (span_of st q)) b r == 0) ≡ false
      → Lands p st
          (restore p st (mirror_says p st (st.desc (span_of st q)) b r) r used)
          (mirror_says p st (st.desc (span_of st q)) b r)
  mirrored_here st q b r used s m t e has z =
      let sp = st.desc (span_of st q) in
      let mirror : has_mirror p ≡ true = ground arith in
      let w = mirror_says-Mirrored p st sp b r z in
      elim (scan_resync-Candidate p st sp b) [
        | inl missing ↦ absurd (ground (arith, e))
        | inr c ↦
            let after = c.after in
            let inside = c.room in
            restore-Lands p st q b r (mirror_says p st sp b r) used s m mirror t.found
              (ground arith) t.above (omega arith) (omega arith) w
      ]

  pub rescue-Safe : (st : State) (b : ℕ) → Spans st → IsMem st.mem → Safe st (rescue p st b).1
  unfolding rescue
  rescue-Safe st b s m =
      let sp = st.desc (span_of st b) in
      let r = scan_resync p st sp b in
      let used = prev_in_use st.mem b in
      elim (Bool-cases (header_ok p st b)) [
        | inl e ↦ rw e (Safe-refl st)
        | inr e ↦ elim (Bool-cases (is_block_start p st b)) [
          | inr f ↦ rw (e, f) (Safe-refl st)
          | inl f ↦
              let t = Starts-Stands st b f in
              elim (Bool-cases (has_mirror p && not (r == 0) && mirror_says p st sp b r == b)) [
                | inl g ↦
                    let here : mirror_says p st sp b r ≡ b = ground arith in
                    let some : (mirror_says p st sp b r == 0) ≡ false =
                      ground (arith, t.not_null) in
                    let l = mirrored_here st b b r used s m t refl (ground arith) some in
                    let u =
                      unmoved (restore p st b r used) (fail corrupt_header (restore p st b r used))
                        refl refl refl refl refl refl in
                    rw (e, f, g) (Safe-trans (rw here at (l.safe)) u)
                | inr g ↦
                    let a =
                      abandon-Lands p st b (lost_run p sp b r) used (λ n. lost-Room st b b s t) m in
                    rw (e, f, g) a.safe
              ]
        ]
      ]
