-- ===== src/Confine/Settle.antt =====
-- Resizing a block in place, src/mm_core.c, in a profile without canaries: it writes only inside the
-- spans, whatever the blocks hold.
use mars_memory_allocator.Base.{
  ℕ, ◌+◌, ◌%◌, ◌≤◌, ◌<◌, ◌≡◌, refl, inl, inr, true, false, arith, Bool-cases,
}
use mars_memory_allocator.Layout.{Profile, min_block, has_canary, has_crc, fast, hardened, paranoid}
use mars_memory_allocator.Platform.{Platform}
use mars_memory_allocator.State.{State}
use mars_memory_allocator.Memory.Laws.{IsMem}
use mars_memory_allocator.Counters.{stat_sub, stat_add}
use mars_memory_allocator.Span.{span_of}
use mars_memory_allocator.Check.{is_block, unchanged, header_ok}
use mars_memory_allocator.Block.{block_size, block_end}
use mars_memory_allocator.FreeList.{bin_remove}
use mars_memory_allocator.Coalesce.{split_block, finish_allocation, take_next}
use mars_memory_allocator.Resize.{settle, take_and_settle, carry_payload_crc}
use mars_memory_allocator.Confine.{Confined-span_of}
use mars_memory_allocator.Confine.Lists.{bin_remove-Safe}
use mars_memory_allocator.Confine.Push.{header_ok-Starts}
use mars_memory_allocator.Confine.Safe.{
  Safe, Safe-trans, unmoved, Spans, Spans-step, Starts-step, is_block-Starts,
}
use mars_memory_allocator.Confine.Join.{
  unchanged-is_block, joined-Room, take_next_lem, quarantined-Safe,
}
use mars_memory_allocator.Confine.Patrol.{scrub_tick-Safe}
use mars_memory_allocator.Confine.Split.{split_block-Safe, finish_allocation-Safe}

-- a profile without canaries has no checksums either
pub no_sums : (p : Profile) → has_canary p ≡ false → has_crc p ≡ false
no_sums fast c = refl
no_sums hardened c = absurd (ground arith)
no_sums paranoid c = absurd (ground arith)

pub nothing_carried :
    (p : Profile) (st : State) (b old_size old_sum new_size : ℕ)
    → has_canary p ≡ false
    → carry_payload_crc p st b old_size old_sum new_size ≡ st
unfolding carry_payload_crc
nothing_carried p st b old_size old_sum new_size c = rw (no_sums p c) refl

module _ (os : Platform) (p : Profile) where
  pub settle-Safe :
      (st : State) (b need old_size old_sum new_size : ℕ)
      → Spans st
      → IsMem st.mem
      → has_canary p ≡ false
      → is_block p st b ≡ true
      → need % 16 ≡ 0
      → min_block p ≤ need
      → need ≤ block_size st.mem b
      → Safe st (settle os p st b need old_size old_sum new_size).1
  unfolding settle
  settle-Safe st b need old_size old_sum new_size s m c h u l k =
      let d = split_block-Safe p st b need s m h u l k in
      let st1 = split_block p st b need in
      let starts = Starts-step p b d.confined (is_block-Starts p st b h) in
      let y =
        finish_allocation-Safe p st1 b new_size (Spans-step d.confined s) (d.bytes m) c starts in
      let st2 = (finish_allocation p st1 b new_size).1 in
      let z = Safe-trans d y in
      let st3 = stat_add p b st2 in
      let z3 = Safe-trans z (unmoved st2 st3 refl refl refl refl refl refl) in
      rw (nothing_carried p st1 b old_size old_sum new_size c)
        (elim (Bool-cases (finish_allocation p st1 b new_size).0) [
          | inr f ↦
              rw f (Safe-trans z (scrub_tick-Safe p st2 (Spans-step z.confined s) (z.bytes m)))
          | inl f ↦
              rw f (Safe-trans z3 (scrub_tick-Safe p st3 (Spans-step z3.confined s) (z3.bytes m)))
        ])

  pub take_and_settle-Safe :
      (st : State) (b need old_size old_sum new_size : ℕ)
      → Spans st
      → IsMem st.mem
      → has_canary p ≡ false
      → header_ok p st (block_end st.mem b) ≡ true
      → block_end st.mem b < (st.desc (span_of st b)).hi
      → need % 16 ≡ 0
      → min_block p ≤ need
      → need ≤ block_size st.mem b + block_size st.mem (block_end st.mem b)
      → Safe st (take_and_settle os p st b (block_end st.mem b) need old_size old_sum new_size).1
  unfolding take_and_settle
  take_and_settle-Safe st b need old_size old_sum new_size s m c h near u l k =
      let n = block_end st.mem b in
      let own = block_size st.mem b in
      let theirs = block_size st.mem n in
      let st0 = stat_sub p b st in
      let z = unmoved st st0 refl refl refl refl refl refl in
      let st1 = bin_remove p st0 n in
      let a =
        Safe-trans z
          (bin_remove-Safe p st0 n (Starts-step p n z.confined (header_ok-Starts p st n h))) in
      let s1 = Spans-step a.confined s in
      let m1 = a.bytes m in
      elim (Bool-cases (unchanged p st1 b own true)) [
        | inr e ↦ rw e (Safe-trans a (quarantined-Safe p st1 b s1 m1))
        | inl e ↦ elim (Bool-cases (unchanged p st1 n theirs false)) [
          | inr f ↦
              let st2 = stat_add p b st1 in
              let a2 = Safe-trans a (unmoved st1 st2 refl refl refl refl refl refl) in
              rw (e, f)
                (Safe-trans a2 (quarantined-Safe p st2 n (Spans-step a2.confined s) (a2.bytes m)))
          | inl f ↦
              let x = unchanged-is_block p st1 b own true e in
              let y = unchanged-is_block p st1 n theirs false f in
              let in_span : n < (st1.desc (span_of st1 b)).hi =
                rw (Confined-span_of a.confined b, a.confined.same_desc) near in
              let room = joined-Room p st1 b own theirs s1 x.0 x.1 in_span y.0 y.1 in
              let t = take_next_lem p st1 b (own + theirs) room m1 in
              let st2 = take_next p st1 b (own + theirs) in
              let at = Safe-trans a t.0 in
              let d =
                settle-Safe st2 b need old_size old_sum new_size (Spans-step at.confined s)
                  (at.bytes m) c t.1 u l (omega (arith, t.2)) in
              rw (e, f) (Safe-trans at d)
        ]
      ]
