-- ===== src/Confine/Free.antt =====
-- mm_free of src/mm_core.c in the arena that mm_init makes: it writes only inside the caller's span,
-- whatever the blocks hold and whatever the pointer is.
use mars_memory_allocator.Base.{
  ℕ, ◌+◌, ◌-◌, ◌%◌, ◌≡◌, refl, ◌≢◌, inl, inr, true, false, ◌||◌, arith, ltb, ◌==◌, Bool-cases,
  if◌then◌else◌,
}
use mars_memory_allocator.Layout.{Profile, hdr_size, alignment}
use mars_memory_allocator.Platform.{Platform}
use mars_memory_allocator.State.{
  State, fail, clear_error, arena_live, is_user, double_free, quarantined,
}
use mars_memory_allocator.Span.{span_of}
use mars_memory_allocator.Counters.{stat_note, stat_sub, free}
use mars_memory_allocator.Memory.Laws.{IsMem}
use mars_memory_allocator.Check.{is_block, header_ok, canary_ok}
use mars_memory_allocator.Block.{is_used, is_quarantined, requested_size}
use mars_memory_allocator.Locate.{block_of, live_block}
use mars_memory_allocator.Recovery.{rescue}
use mars_memory_allocator.Coalesce.{absorb_neighbours, release_block}
use mars_memory_allocator.Alloc.{reclaim, release_run, free_unlocked, free_block}
use mars_memory_allocator.Confine.{Confined, Confined-span_of}
use mars_memory_allocator.Confine.Safe.{
  Safe, Safe-refl, Safe-trans, unmoved, Spans, Spans-step, Starts, Starts-step, is_block-Starts,
}
use mars_memory_allocator.Confine.Rescue.{rescue-Safe}
use mars_memory_allocator.Confine.Quarantine.{quarantine_block-Safe}
use mars_memory_allocator.Confine.Merge.{Runs, absorb_neighbours-Runs, release_block-Safe}
use mars_memory_allocator.Confine.Patrol.{scrub_tick-Safe}

-- every span is the caller's own, as in an arena that mm_init made
abbrev pub AllUser : State → Type 0
AllUser st = (q : ℕ) → span_of st q ≢ 0 → is_user (st.desc (span_of st q)).kind ≡ true

pub AllUser-step : {st st' : State} → Confined st st' → AllUser st → AllUser st'
AllUser-step c u q = rw (Confined-span_of c q, c.same_desc) (u q)

module _ (p : Profile) where
  failed-Runs : (st st' : State) → Safe st st' → Runs p st st' 0
  failed-Runs st st' s = record { safe = s; starts = inl refl }

  -- mm_block_of
  pub block_of-Runs : (st : State) (ptr : ℕ) → Runs p st (block_of p st ptr).1 (block_of p st ptr).0
  unfolding block_of
  block_of-Runs st ptr =
      let s = if ptr == 0 then 0 else span_of st ptr in
      let first = (st.desc s).lo + hdr_size p in
      elim (Bool-cases (arena_live st)) [
        | inr e ↦ rw e (failed-Runs st _ (unmoved st _ refl refl refl refl refl refl))
        | inl e ↦ elim (Bool-cases (s == 0 || ltb ptr first)) [
          | inl f ↦ rw (e, f) (failed-Runs st _ (unmoved st _ refl refl refl refl refl refl))
          | inr f ↦ elim (Bool-cases ((ptr - first) % alignment == 0)) [
            | inr g ↦ rw (e, f, g) (failed-Runs st _ (unmoved st _ refl refl refl refl refl refl))
            | inl g ↦ elim (Bool-cases (is_block p st (ptr - hdr_size p))) [
              | inr h ↦
                  rw (e, f, g, h) (failed-Runs st _ (unmoved st _ refl refl refl refl refl refl))
              | inl h ↦
                  rw (e, f, g, h)
                    (record {
                      safe = Safe-refl st;
                      starts = inr (is_block-Starts p st (ptr - hdr_size p) h);
                    })
            ]
          ]
        ]
      ]

  -- the end of live_block
  settled-Runs :
      (st st3 : State) (b : ℕ)
      → Safe st st3
      → Starts p st3 b
      → let out : ℕ × State =
          if is_quarantined st3.mem b then (0, fail quarantined st3) else (b, st3) in
        Runs p st out.1 out.0
  settled-Runs st st3 b s h = elim (Bool-cases (is_quarantined st3.mem b)) [
    | inl e ↦ rw e (failed-Runs st _ (Safe-trans s (unmoved st3 _ refl refl refl refl refl refl)))
    | inr e ↦ rw e (record { safe = s; starts = inr h })
  ]

  pub found-Starts : {st st1 : State} {b : ℕ} → Runs p st st1 b → (b == 0) ≡ false → Starts p st1 b
  found-Starts r n = elim (r.starts) [ inl z ↦ cc | inr h ↦ h ]

  pub live_block-Runs :
      (st : State) (ptr : ℕ)
      → Spans st
      → IsMem st.mem
      → Runs p st (live_block p st ptr).1 (live_block p st ptr).0
  unfolding live_block
  live_block-Runs st ptr s m =
      let r = block_of-Runs st ptr in
      let b = (block_of p st ptr).0 in
      let st1 = (block_of p st ptr).1 in
      let st2 = (rescue p st1 b).1 in
      let a = rescue-Safe p st1 b (Spans-step r.safe.confined s) (r.safe.bytes m) in
      elim (Bool-cases (b == 0)) [
        | inl e ↦ rw e (failed-Runs st st1 r.safe)
        | inr e ↦
            let h = found-Starts r e in
            elim (Bool-cases (header_ok p st1 b)) [
              | inl f ↦ rw (e, f) (settled-Runs st st1 b r.safe h)
              | inr f ↦ elim (Bool-cases (rescue p st1 b).0) [
                | inl g ↦
                    rw (e, f, g)
                      (settled-Runs st st2 b (Safe-trans r.safe a) (Starts-step p b a.confined h))
                | inr g ↦ rw (e, f, g) (failed-Runs st st2 (Safe-trans r.safe a))
              ]
            ]
      ]

module _ (os : Platform) (p : Profile) where
  reclaim-user : (st : State) (b : ℕ) → AllUser st → reclaim os p st b ≡ st
  unfolding reclaim
  reclaim-user st b u = elim (Bool-cases (span_of st b == 0)) [
    | inl e ↦ rw e refl
    | inr e ↦
        let k : is_user (st.desc (span_of st b)).kind ≡ true = u b (ground arith) in rw (e, k) refl
  ]

  release_run-Safe :
      (st : State) (b : ℕ)
      → Spans st
      → IsMem st.mem
      → AllUser st
      → Starts p st b
      → Safe st (release_run os p st b)
  unfolding release_run
  release_run-Safe st b s m u h =
      let r = absorb_neighbours-Runs p st b s m h in
      let run = (absorb_neighbours p st b).0 in
      let st1 = (absorb_neighbours p st b).1 in
      elim (Bool-cases (run == 0)) [
        | inl e ↦ rw e r.safe
        | inr e ↦
            let c = r.safe.confined in
            let q =
              release_block-Safe p st1 run (Spans-step c s) (r.safe.bytes m) (found-Starts p r e) in
            let k = Safe-trans r.safe q in
            rw (e, reclaim-user (release_block p st1 run) run (AllUser-step k.confined u)) k
      ]

  pub free_unlocked-Safe :
      (st : State) (ptr : ℕ)
      → Spans st
      → IsMem st.mem
      → AllUser st
      → Safe st (free_unlocked os p st ptr)
  unfolding free_unlocked
  free_unlocked-Safe st ptr s m u =
      let st0 = clear_error st in
      let z = unmoved st st0 refl refl refl refl refl refl in
      let r = live_block-Runs p st0 ptr (Spans-step z.confined s) m in
      let b = (live_block p st0 ptr).0 in
      let st1 = (live_block p st0 ptr).1 in
      let k = Safe-trans z r.safe in
      let s1 = Spans-step k.confined s in
      let m1 = k.bytes m in
      let st2 = stat_sub p b (stat_note free (requested_size p st1.mem b) st1) in
      let c = unmoved st1 st2 refl refl refl refl refl refl in
      elim (Bool-cases (b == 0)) [
        | inl e ↦ rw e k
        | inr e ↦ elim (Bool-cases (is_used st1.mem b)) [
          | inr f ↦
              rw (e, f)
                (Safe-trans k (unmoved st1 (fail double_free st1) refl refl refl refl refl refl))
          | inl f ↦ elim (Bool-cases (canary_ok p st1 b)) [
            | inr g ↦ rw (e, f, g) (Safe-trans k (quarantine_block-Safe p st1 b s1 m1))
            | inl g ↦
                let h = Starts-step p b c.confined (found-Starts p r e) in
                let kc = Safe-trans k c in
                let q =
                  release_run-Safe st2 b (Spans-step c.confined s1) m1 (AllUser-step kc.confined u)
                    h in
                let kq = Safe-trans kc q in
                let st3 = release_run os p st2 b in
                rw (e, f, g)
                  (Safe-trans kq (scrub_tick-Safe p st3 (Spans-step kq.confined s) (kq.bytes m)))
          ]
        ]
      ]

  -- In an arena of caller's spans, each of whole units and below 2^58 bytes and all apart from one
  -- another, with memory that holds bytes: mm_free of any pointer changes no byte outside every
  -- span and leaves the registry of spans alone, in all three profiles, whatever the headers, the
  -- links, the boundary tags and the mirrors hold. Every path is included: the refusals, the
  -- rescue of a header, the quarantine of a block, the rebuild of damaged lists, the merging with
  -- both neighbours and the patrol that ends the call.
  pub free_block-Confined :
      (st : State) (ptr : ℕ)
      → Spans st
      → IsMem st.mem
      → AllUser st
      → Confined st (free_block os p st ptr)
  unfolding free_block
  free_block-Confined st ptr s m u = elim (Bool-cases (ptr == 0)) [
    | inl e ↦ rw e (unmoved st (clear_error st) refl refl refl refl refl refl).confined
    | inr e ↦ rw e (free_unlocked-Safe st ptr s m u).confined
  ]
