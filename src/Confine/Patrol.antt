-- ===== src/Confine/Patrol.antt =====
-- The patrol scrubber of src/mm_integrity.c writes only inside the spans, whatever the blocks hold.
use mars_memory_allocator.Base.{
  ℕ, zero, suc, ◌+◌, ◌≡◌, refl, inl, inr, true, not, ◌&&◌, ◌||◌, ltb, ◌==◌, Bool-cases,
  if◌then◌else◌,
}
use mars_memory_allocator.Layout.{Profile, has_crc}
use mars_memory_allocator.State.{State, with_mem, is_ok, corrupt_header, add64, arena_live}
use mars_memory_allocator.Span.{max_blocks}
use mars_memory_allocator.Counters.{stat_note, repair}
use mars_memory_allocator.Memory.Laws.{IsMem}
use mars_memory_allocator.Check.{is_block, header_ok, canary_ok}
use mars_memory_allocator.Block.{block_size, is_used, own_footer, payload_crc, write_free_footer}
use mars_memory_allocator.Access.{payload_sum}
use mars_memory_allocator.Recovery.{rescue}
use mars_memory_allocator.Scrub.{
  Patrol, first_of, scrub_block, next_lap, visit, patrol_step, patrol, patrol_start, patrol_end,
  scrub_run, scrub_tick,
}
use mars_memory_allocator.Access.Frame.{header_ok-is_block}
use mars_memory_allocator.Confine.Safe.{Safe, Safe-refl, Safe-trans, unmoved, Spans, Spans-step}
use mars_memory_allocator.Confine.Link.{footer-Kept}
use mars_memory_allocator.Confine.Rescue.{rescue-Safe}
use mars_memory_allocator.Confine.Quarantine.{quarantine_block-Safe}

module _ (p : Profile) where
  repaired_tag-Safe :
      (st : State) (b n : ℕ)
      → is_block p st b ≡ true
      → Safe st (stat_note repair n (with_mem st (write_free_footer st.mem b)))
  repaired_tag-Safe st b n h =
      let st1 = with_mem st (write_free_footer st.mem b) in
      Safe-trans (footer-Kept p st b h).safe
        (unmoved st1 (stat_note repair n st1) refl refl refl refl refl refl)

  scrub_block-Safe :
      (st : State) (b : ℕ)
      → Spans st
      → IsMem st.mem
      → header_ok p st b ≡ true
      → Safe st (scrub_block p st b).1
  unfolding scrub_block
  scrub_block-Safe st b s m h =
      let bad_sum =
        has_crc p
        && not (payload_crc st.mem b == 0)
        && not (payload_sum p st.mem b == payload_crc st.mem b) in
      elim (Bool-cases (canary_ok p st b)) [
        | inr e ↦ rw e (quarantine_block-Safe p st b s m)
        | inl e ↦ elim (Bool-cases (is_used st.mem b)) [
          | inl u ↦ elim (Bool-cases bad_sum) [
            | inl g ↦ rw (e, u, g) (Safe-refl st)
            | inr g ↦ rw (e, u, g) (Safe-refl st)
          ]
          | inr u ↦ elim (Bool-cases (own_footer st.mem b == block_size st.mem b)) [
            | inl f ↦ rw (e, u, f) (Safe-refl st)
            | inr f ↦ elim (Bool-cases (has_crc p)) [
              | inl c ↦
                  rw (e, u, f, c)
                    (repaired_tag-Safe st b (block_size st.mem b) (header_ok-is_block p st b h))
              | inr c ↦ rw (e, u, f, c) (Safe-refl st)
            ]
          ]
        ]
      ]

  visit-Safe :
      (st : State) (pt : Patrol)
      → Spans st
      → IsMem st.mem
      → header_ok p st pt.at ≡ true
      → Safe st (visit p st pt).1
  unfolding visit
  visit-Safe st pt s m h = scrub_block-Safe st pt.at s m h

  patrol_step-Safe :
      (st : State) (pt : Patrol) → Spans st → IsMem st.mem → Safe st (patrol_step p st pt).1
  unfolding patrol_step
  patrol_step-Safe st pt0 s m =
      let pt = next_lap p st pt0 in
      let hit = record pt { found = first_of pt.found corrupt_header; hits = pt.hits + 1 } in
      let st1 = if is_block p st pt.at then (rescue p st pt.at).1 else st in
      let a : Safe st st1 = elim (Bool-cases (is_block p st pt.at)) [
        | inl e ↦ rw e (rescue-Safe p st pt.at s m)
        | inr e ↦ rw e (Safe-refl st)
      ] in
      elim (Bool-cases (header_ok p st pt.at)) [
        | inl e ↦ rw e (visit-Safe st pt s m e)
        | inr e ↦ elim (Bool-cases (header_ok p st1 pt.at)) [
          | inl f ↦
              rw (e, f) (Safe-trans a (visit-Safe st1 hit (Spans-step a.confined s) (a.bytes m) f))
          | inr f ↦ rw (e, f) a
        ]
      ]

  patrol-Safe :
      (guard budget : ℕ) (st : State) (pt : Patrol)
      → Spans st
      → IsMem st.mem
      → Safe st (patrol p guard budget st pt).1
  unfolding patrol
  patrol-Safe zero budget st pt s m = Safe-refl st
  patrol-Safe (suc guard) budget st pt s m =
      let a = patrol_step-Safe st pt s m in
      let pt1 = (patrol_step p st pt).0 in
      let st1 = (patrol_step p st pt).1 in
      let r = patrol-Safe guard budget st1 pt1 (Spans-step a.confined s) (a.bytes m) in
      elim (Bool-cases (ltb pt.visited budget)) [
        | inl e ↦ rw e (Safe-trans a r)
        | inr e ↦ rw e (Safe-refl st)
      ]

  patrol_end-Safe : (st : State) (pt : Patrol) → Safe st (patrol_end p st pt).1
  unfolding patrol_end
  patrol_end-Safe st pt = elim (Bool-cases (ltb 0 pt.hits)) [
    | inl e ↦ elim (Bool-cases (is_ok pt.found)) [
      | inl f ↦ rw (e, f) (unmoved st _ refl refl refl refl refl refl)
      | inr f ↦ rw (e, f) (unmoved st _ refl refl refl refl refl refl)
    ]
    | inr e ↦ elim (Bool-cases (is_ok pt.found)) [
      | inl f ↦ rw (e, f) (unmoved st _ refl refl refl refl refl refl)
      | inr f ↦ rw (e, f) (unmoved st _ refl refl refl refl refl refl)
    ]
  ]

  scrub_run-Safe :
      (st : State) (budget : ℕ) → Spans st → IsMem st.mem → Safe st (scrub_run p st budget).1
  unfolding scrub_run
  scrub_run-Safe st budget s m =
      let pt0 = patrol_start p st in
      let out = patrol p (max_blocks p st + st.span_count) budget st pt0 in
      let a = patrol-Safe (max_blocks p st + st.span_count) budget st pt0 s m in
      elim (Bool-cases (budget == 0 || pt0.span == 0)) [
        | inl e ↦ rw e (Safe-refl st)
        | inr e ↦ rw e (Safe-trans a (patrol_end-Safe out.1 out.0))
      ]

  -- The patrol step that ends a call.
  pub scrub_tick-Safe : (st : State) → Spans st → IsMem st.mem → Safe st (scrub_tick p st)
  unfolding scrub_tick
  scrub_tick-Safe st s m =
      let st1 = record st { ops = add64 st.ops 1 } in
      let st2 = record st1 { ops_since_scrub = add64 st.ops_since_scrub 1 } in
      let st3 = record st2 { ops_since_scrub = 0 } in
      let u = unmoved st st3 refl refl refl refl refl refl in
      elim (Bool-cases (st.scrub_interval == 0 || not (arena_live st))) [
        | inl e ↦ rw e (unmoved st st1 refl refl refl refl refl refl)
        | inr e ↦ elim (Bool-cases (ltb st2.ops_since_scrub st.scrub_interval)) [
          | inl f ↦ rw (e, f) (unmoved st st2 refl refl refl refl refl refl)
          | inr f ↦
              rw (e, f)
                (Safe-trans u (scrub_run-Safe st3 st.scrub_budget (Spans-step u.confined s) m))
        ]
      ]
