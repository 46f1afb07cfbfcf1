-- ===== src/Arena/Open.antt =====
-- The first block of a span that src/mm_arena.c adopts, and of the arena that mm_init starts.
use mars_memory_allocator.Base.{
  ℕ, ◌+◌, ◌-◌, ◌/◌, ◌≤◌, ◌≡◌, refl, ◌≢◌, inl, inr, true, false, arith, ltb, ◌==◌, lt→ltb, le→leb,
  Bool-cases,
}
use mars_memory_allocator.Layout.{Profile, min_block, alignment}
use mars_memory_allocator.Arena.{stamp_first, adopt_registered}
use mars_memory_allocator.Layout.Word.Laws.{IsExtent}
use mars_memory_allocator.State.{State, with_mem, add64}
use mars_memory_allocator.Recovery.{publish}
use mars_memory_allocator.Span.{span_of}
use mars_memory_allocator.FreeList.{bin_insert}
use mars_memory_allocator.Confine.Seal.{min_block-ge}
use mars_memory_allocator.Bins.{bin_of}
use mars_memory_allocator.Platform.{Platform}
use mars_memory_allocator.Registry.{set_desc}
use mars_memory_allocator.Arena.First.{
  Bare, stamped_first-Reads, scrub-Opened, Installed, publish-Installed,
}

module _ (p : Profile) where
  -- A span that is the caller's own, as the registry has taken it
  pub record Own (st : State) (s usable : ℕ) : Type 0 where
    pub registered : st.user ≡ s
    pub exists : s ≢ 0
    pub not_null : (st.desc s).lo ≢ 0
    pub to_hi : (st.desc s).hi ≡ (st.desc s).lo + usable
    pub extent : IsExtent usable
    pub large_enough : min_block p ≤ usable

  module _ (os : Platform) where
    -- the state in which the first block is stamped
    adopting : State → ℕ → ℕ → State
    adopting st s usable = record (set_desc st s (record (st.desc s) { next = st.spans })) {
      spans = s;
      span_count = st.span_count + 1;
      total_bytes = add64 st.total_bytes usable;
      next_index_base = add64 st.next_index_base (usable / alignment);
    }

    pub self : (s : ℕ) → (s == s) ≡ true
    self s = ground arith

    span_of-adopting :
        (st : State) (s usable : ℕ)
        → Own st s usable
        → span_of (adopting st s usable) (st.desc s).lo ≡ s
    unfolding adopting span_of
    span_of-adopting st s usable o =
        let lo = (st.desc s).lo in
        let n : (s == 0) ≡ false = ground (arith, o.exists) in
        let large = o.large_enough in
        let l = le→leb lo lo (omega arith) in
        let k : ltb lo (lo + usable) ≡ true = lt→ltb _ _ (omega (arith, min_block-ge p)) in
        rw (o.registered, n, self s, o.to_hi, l, k) refl

    adopting-Bare :
        (st : State) (s usable : ℕ)
        → Own st s usable
        → Bare p (adopting st s usable) (st.desc s).lo usable
    unfolding adopting
    adopting-Bare st s usable o =
        let at = span_of-adopting st s usable o in
        record {
          not_null = o.not_null;
          found = rw at o.exists;
          from_lo = rw (at, self s) refl;
          to_hi = rw (at, self s) o.to_hi;
          extent = o.extent;
          large_enough = o.large_enough;
        }

    pub adopt_registered-Installed :
        (st : State) (s usable : ℕ)
        → Own st s usable
        → st.bins (bin_of p usable) ≡ 0
        → Installed p (adopt_registered os p st s) (st.desc s).lo usable
    unfolding adopt_registered adopting stamp_first
    adopt_registered-Installed st s usable o z =
        let lo = (st.desc s).lo in
        let room : (st.desc s).hi - lo ≡ usable = omega (arith, o.to_hi) in
        let st1 = adopting st s usable in
        let r = stamped_first-Reads p os st1 lo usable o.extent in
        let m = (stamp_first os p st1 lo usable).mem in
        let i = publish-Installed p st1 lo usable m (adopting-Bare st s usable o) r z in
        let st3 = bin_insert p (publish p (with_mem st1 m) lo).1 lo in
        rw room (elim (Bool-cases (st3.scrub_span == 0)) [
          | inl e ↦ rw e (scrub-Opened p st3 lo usable s lo i.0, i.1)
          | inr e ↦ rw e i
        ])
