-- ===== src/HeapCheck/Tiling.antt =====
-- What an answer of MM_OK from mm_check_heap says of the arena.
use mars_memory_allocator.Base.{
  ℕ, zero, suc, ◌≡◌, inl, inr, Bool, true, false, not, List, [], ◌∷◌, arith, ltb, Bool-cases,
}
use mars_memory_allocator.Layout.{Profile}
use mars_memory_allocator.State.{State, is_ok, ok, clear_error}
use mars_memory_allocator.HeapCheck.{
  check_block, check_from, check_heap, check_spans, covered_status, Seen, heap_status, see_block,
}
use mars_memory_allocator.Check.{header_ok, canary_ok}
use mars_memory_allocator.Block.{is_used, prev_in_use, own_footer, block_end, block_size}
use mars_memory_allocator.Span.{span_max_blocks, all_spans}

module _ (p : Profile) where
  -- A run of sound blocks from `q` that ends exactly at `hi`, after a block that was free if
  -- `prev_free`: the flag of each block says what precedes it, each boundary tag repeats its
  -- extent, and no two free blocks are neighbours.
  pub data Tiles (st : State) (hi : ℕ) : ℕ → Bool → Type 0 where
    done : (prev_free : Bool) → Tiles st hi hi prev_free
    used_block :
        {q : ℕ} {prev_free : Bool}
        → header_ok p st q ≡ true
        → prev_in_use st.mem q ≡ not prev_free
        → is_used st.mem q ≡ true
        → canary_ok p st q ≡ true
        → Tiles st hi (block_end st.mem q) false
        → Tiles st hi q prev_free
    free_block :
        {q : ℕ}
        → header_ok p st q ≡ true
        → prev_in_use st.mem q ≡ true
        → is_used st.mem q ≡ false
        → own_footer st.mem q ≡ block_size st.mem q
        → Tiles st hi (block_end st.mem q) true
        → Tiles st hi q false

  check_block_used :
      (st : State) (q : ℕ) (prev_free : Bool)
      → is_ok (check_block p st q prev_free) ≡ true
      → is_used st.mem q ≡ true
      → (header_ok p st q ≡ true)
        × (prev_in_use st.mem q ≡ not prev_free)
        × (canary_ok p st q ≡ true)
  unfolding check_block
  check_block_used st q prev_free h u = ground arith

  check_block_free :
      (st : State) (q : ℕ) (prev_free : Bool)
      → is_ok (check_block p st q prev_free) ≡ true
      → is_used st.mem q ≡ false
      → (header_ok p st q ≡ true)
        × (prev_in_use st.mem q ≡ true)
        × (own_footer st.mem q ≡ block_size st.mem q)
        × (prev_free ≡ false)
  unfolding check_block
  check_block_free st q prev_free h u = ground arith

  covered :
      (st : State) (hi q : ℕ) (prev_free : Bool)
      → is_ok (covered_status hi q) ≡ true
      → Tiles st hi q prev_free
  covered st hi q prev_free h = let e : q ≡ hi = ground arith in rw e (done prev_free)

  check_from-Tiles :
      (budget : ℕ) (st : State) (hi q : ℕ) (prev_free : Bool) (acc : Seen)
      → is_ok (check_from p budget st hi q prev_free acc).0 ≡ true
      → Tiles st hi q prev_free
  unfolding check_from
  check_from-Tiles zero st hi q prev_free acc h = covered st hi q prev_free (ground arith)
  check_from-Tiles (suc budget) st hi q prev_free acc h = elim (Bool-cases (ltb q hi)) [
    | inr e ↦ covered st hi q prev_free (ground arith)
    | inl e ↦
        let next = block_end st.mem q in
        let c : is_ok (check_block p st q prev_free) ≡ true = ground arith in
        let r : is_ok
              (check_from p budget st hi next (not (is_used st.mem q)) (see_block p st q acc)).0
            ≡ true =
          ground arith in
        let rest =
          check_from-Tiles budget st hi next (not (is_used st.mem q)) (see_block p st q acc) r in
        elim (Bool-cases (is_used st.mem q)) [
          | inl u ↦
              let f = check_block_used st q prev_free c u in used_block f.0 f.1 u f.2 (rw u at rest)
          | inr u ↦
              let f = check_block_free st q prev_free c u in
              rw f.3 (free_block f.0 f.1 u f.2 (rw u at rest))
        ]
  ]

  -- every span of the list is tiled
  pub data AllTiled (st : State) : List ℕ → Type 0 where
    none_left : AllTiled st []
    one_more :
        {s : ℕ} {ss : List ℕ}
        → Tiles st (st.desc s).hi (st.desc s).lo false
        → AllTiled st ss
        → AllTiled st (s ∷ ss)

  check_spans-AllTiled :
      (ss : List ℕ) (st : State) (acc : Seen)
      → is_ok (check_spans p ss st acc).0 ≡ true
      → AllTiled st ss
  unfolding check_spans
  check_spans-AllTiled [] st acc h = none_left
  check_spans-AllTiled (s ∷ ss) st acc h =
      let sp = st.desc s in
      let walk = check_from p (span_max_blocks p sp) st sp.hi sp.lo false acc in
      let c : is_ok walk.0 ≡ true = ground arith in
      let r : is_ok (check_spans p ss st walk.1).0 ≡ true = ground arith in
      one_more (check_from-Tiles (span_max_blocks p sp) st sp.hi sp.lo false acc c)
        (check_spans-AllTiled ss st walk.1 r)

  -- When mm_check_heap answers MM_OK, every span on the arena's list is tiled from its first byte
  -- to its last by blocks with accepted headers, in which every block in use passes the check of
  -- its canary, the PREV_IN_USE flags say what precedes, the free blocks repeat their extent in
  -- their tag, and no two free blocks are neighbours; and the call has only cleared the status.
  pub check_heap-AllTiled :
      (st : State)
      → (check_heap p st).0 ≡ ok
      → AllTiled (clear_error st) (all_spans st) × ((check_heap p st).1 ≡ clear_error st)
  unfolding check_heap heap_status
  check_heap-AllTiled st h =
      let acc : Seen = record { lost = 0; per_bin = λ _. 0 } in
      let c : is_ok (check_spans p (all_spans st) (clear_error st) acc).0 ≡ true = ground arith in
      (check_spans-AllTiled (all_spans st) (clear_error st) acc c, ground arith)
