-- ===== src/Locate/Sound.antt =====
-- What mm_block_of answers with, and what it looks at.
use mars_memory_allocator.Base.{
  ℕ, ◌+◌, ◌-◌, ◌%◌, ◌≡◌, refl, ◌≢◌, true, false, ◌||◌, arith, ltb, ◌==◌, if◌then◌else◌,
}
use mars_memory_allocator.Layout.{Profile, hdr_size, alignment}
use mars_memory_allocator.Locate.{block_of}
use mars_memory_allocator.State.{State, arena_live, with_mem, Status}
use mars_memory_allocator.Memory.{Mem}
use mars_memory_allocator.Block.{payload_of}
use mars_memory_allocator.Check.{is_block}
use mars_memory_allocator.Span.{span_of}

-- `st` with another memory and another status
abbrev pub moved : State → Mem → Status → State
moved st m e = record st { mem = m; last_error = e }

module _ (p : Profile) where
  pub span_of_mem : (st : State) (q : ℕ) (m : Mem) → span_of (with_mem st m) q ≡ span_of st q
  unfolding span_of
  span_of_mem st q m = refl

  span_of-moved :
      (st : State) (q : ℕ) (m : Mem) (e : Status) → span_of (moved st m e) q ≡ span_of st q
  unfolding span_of
  span_of-moved st q m e = refl

  -- the answer depends on memory only by whether the block at the pointer stands up
  pub block_of-moved :
      (st : State) (ptr : ℕ) (m : Mem) (e : Status)
      → (block_of p st ptr).0 ≢ 0
      → is_block p (moved st m e) (block_of p st ptr).0 ≡ true
      → block_of p (moved st m e) ptr ≡ ((block_of p st ptr).0, moved st m e)
  unfolding block_of
  block_of-moved st ptr m e h k =
      let s = if ptr == 0 then 0 else span_of st ptr in
      let first = (st.desc s).lo + hdr_size p in
      let live : arena_live st ≡ true = ground arith in
      let inside : (s == 0 || ltb ptr first) ≡ false = ground arith in
      let aligned : ((ptr - first) % alignment == 0) ≡ true = ground arith in
      let e' : (block_of p st ptr).0 ≡ ptr - hdr_size p = ground arith in
      let again : is_block p (moved st m e) (ptr - hdr_size p) ≡ true = rw e' at k in
      rw (e', span_of-moved st ptr m e, live, inside, aligned, again) refl

  -- A block that mm_block_of returns has its payload exactly at the caller's pointer and is in
  -- bounds of its span, and the state is as it was.
  pub block_of_sound :
      (st : State) (ptr : ℕ)
      → (block_of p st ptr).0 ≢ 0
      → (payload_of p (block_of p st ptr).0 ≡ ptr)
        × (is_block p st (block_of p st ptr).0 ≡ true)
        × ((block_of p st ptr).1 ≡ st)
  unfolding block_of
  block_of_sound st ptr h = ground arith
