-- ===== src/Check/Bounds.antt =====
-- What an accepted header says of its block: where it lies, and what stands before it.
use mars_memory_allocator.Base.{ℕ, ◌-◌, ◌%◌, ◌≤◌, ◌≡◌, ◌≢◌, true, false, arith}
use mars_memory_allocator.Layout.{Profile, alignment, min_block}
use mars_memory_allocator.State.{State}
use mars_memory_allocator.Span.{span_of}
use mars_memory_allocator.Block.{block_size, is_used, block_end}
use mars_memory_allocator.Check.{start_ok_in, block_ok_in, header_ok, prev_free_block}
use mars_memory_allocator.Confine.{span_of_bounds}

module _ (p : Profile) where
  -- The block `b` lies whole in the span that holds it, aligned and no shorter than a block can be.
  pub record InBounds (st : State) (b : ℕ) : Type 0 where
    pub found : span_of st b ≢ 0
    pub above : (st.desc (span_of st b)).lo ≤ b
    pub aligned : (b - (st.desc (span_of st b)).lo) % alignment ≡ 0
    pub large_enough : min_block p ≤ block_size st.mem b
    pub below : block_end st.mem b ≤ (st.desc (span_of st b)).hi

  -- A header that is accepted is one of a block that lies whole in the span which holds its
  -- address, aligned to the span's start and no shorter than a block can be.
  header_ok-InBounds : (st : State) (b : ℕ) → header_ok p st b ≡ true → InBounds st b
  unfolding header_ok block_ok_in start_ok_in
  header_ok-InBounds st b h =
      let f : span_of st b ≢ 0 = ground arith in
      let (l, r) = span_of_bounds st b f in
      record {
        found = f;
        above = l;
        aligned = ground arith;
        large_enough = ground arith;
        below = ground arith;
      }

  -- A block that mm_prev_free_block returns has an accepted header, is free, and ends exactly
  -- where the block that it was asked about starts, whatever the boundary tag holds.
  pub prev_free_block_sound :
      (st : State) (b : ℕ)
      → prev_free_block p st b ≢ 0
      → (header_ok p st (prev_free_block p st b) ≡ true)
        × (is_used st.mem (prev_free_block p st b) ≡ false)
        × (block_end st.mem (prev_free_block p st b) ≡ b)
  unfolding prev_free_block
  prev_free_block_sound st b h = ground arith
