-- ===== src/FreeList/Find.antt =====
-- What mm_bin_find answers with, whatever the links and the boundary tags hold.
use mars_memory_allocator.Base.{
  ℕ, zero, suc, ◌+◌, ◌^◌, ◌≤◌, ◌<◌, ◌≡◌, refl, ◌≢◌, inl, inr, Bool, true, false, not, ◌||◌, List,
  [], ◌∷◌, arith, ltb, ◌==◌, if◌then◌else◌, ltb→lt, Bool-cases,
}
use mars_memory_allocator.Layout.{Profile}
use mars_memory_allocator.Bitmap.{bin_count, next_nonempty}
use mars_memory_allocator.Bitmap.Laws.{IsBitmap, bitmap_set-IsBitmap}
use mars_memory_allocator.Bitmap.Search.{next_nonempty-smallest}
use mars_memory_allocator.Bins.{bin_of, bin_scan_cap}
use mars_memory_allocator.Bins.Order.{lt_of_bin_of-lt}
use mars_memory_allocator.State.{State, corrupt_links, fail}
use mars_memory_allocator.Span.{all_spans, span_max_blocks}
use mars_memory_allocator.Block.{block_size, is_used}
use mars_memory_allocator.Check.{header_ok}
use mars_memory_allocator.FreeList.{
  node_ok, next_of, scan_from, bin_push, rebuild_from, rebuild_spans, bins_reset, scan_bin,
  bin_head, find_once, find_attempts, bin_find, bins_rebuild,
}

module _ (p : Profile) where
  -- `b` is a free block of at least `need` bytes, with an accepted header
  pub record Serves (st : State) (need b : ℕ) : Type 0 where
    pub accepted : header_ok p st b ≡ true
    pub free : is_used st.mem b ≡ false
    pub fits : need ≤ block_size st.mem b

  scan_from-Serves :
      (left : ℕ) (st : State) (bin need back cur : ℕ)
      → (scan_from p left st bin need back cur).0 ≢ 0
      → Serves st need (scan_from p left st bin need back cur).0
  unfolding scan_from node_ok
  scan_from-Serves zero st bin need back cur h = ground arith
  scan_from-Serves (suc left) st bin need back cur h =
      ground (arith, scan_from-Serves left st bin need cur (next_of p st cur))

  bin_head-Serves :
      (st : State) (need bin : ℕ)
      → need < 2 ^ 64
      → bin_of p need < bin
      → (bin_head p st bin).0 ≢ 0
      → Serves st need (bin_head p st bin).0
  unfolding bin_head node_ok
  bin_head-Serves st need bin b lt h =
      let larger = lt_of_bin_of-lt p need (block_size st.mem (st.bins bin)) b in
      ground (arith, larger)

  above_exact :
      (st : State) (bin : ℕ)
      → IsBitmap st.bin_bitmap
      → next_nonempty st.bin_bitmap (bin + 1) < bin_count
      → bin < next_nonempty st.bin_bitmap (bin + 1)
  above_exact st bin v h = omega (arith, ((next_nonempty-smallest st.bin_bitmap (bin + 1) v).1 h).0)

  -- the choice of mm_bin_find between what the exact bin gave and the head of a larger one
  chosen :
      (P : ℕ → Type 0) (found other : ℕ × Bool) (c : Bool)
      → (found.0 ≢ 0 → P found.0)
      → (c ≡ true → other.0 ≢ 0 → P other.0)
      → (if not (found.0 == 0) || found.1 then found else if c then other else (0, false)).0 ≢ 0
      → P (if not (found.0 == 0) || found.1 then found else if c then other else (0, false)).0
  chosen P (f, d) other c here there = elim (Bool-cases (not (f == 0) || d)) [
    | inl e ↦ rw e here
    | inr e ↦
        rw e (elim (Bool-cases c) [ inl t ↦ rw t (there t) | inr t ↦ rw t (λ z. absurd (z refl)) ])
  ]

  find_once-Serves :
      (st : State) (need : ℕ)
      → IsBitmap st.bin_bitmap
      → need < 2 ^ 64
      → (find_once p st need).0 ≢ 0
      → Serves st need (find_once p st need).0
  unfolding find_once scan_bin
  find_once-Serves st need v b =
      let j = next_nonempty st.bin_bitmap (bin_of p need + 1) in
      chosen (λ x. Serves st need x) (scan_bin p st (bin_of p need) need) (bin_head p st j)
        (ltb j bin_count)
        (scan_from-Serves bin_scan_cap st (bin_of p need) need 0 (st.bins (bin_of p need)))
        (λ l. bin_head-Serves st need j b (above_exact st (bin_of p need) v (ltb→lt j bin_count l)))

  bin_push-IsBitmap :
      (st : State) (b bin : ℕ) → IsBitmap st.bin_bitmap → IsBitmap (bin_push p st b bin).bin_bitmap
  unfolding bin_push
  bin_push-IsBitmap st b bin v = ground (arith, bitmap_set-IsBitmap st.bin_bitmap bin v)

  rebuild_from-IsBitmap :
      (budget hi q : ℕ) (st : State)
      → IsBitmap st.bin_bitmap
      → IsBitmap (rebuild_from p budget hi q st).bin_bitmap
  unfolding rebuild_from
  rebuild_from-IsBitmap zero hi q st v = v
  rebuild_from-IsBitmap (suc budget) hi q st v =
      let st1 =
        if not (is_used st.mem q) then bin_push p st q (bin_of p (block_size st.mem q)) else st in
      let v1 : IsBitmap st1.bin_bitmap = elim (Bool-cases (is_used st.mem q)) [
        | inl e ↦ rw e v
        | inr e ↦ rw e (bin_push-IsBitmap st q (bin_of p (block_size st.mem q)) v)
      ] in
      let rest = rebuild_from-IsBitmap budget hi (q + block_size st1.mem q) st1 v1 in
      ground (arith, rest)

  rebuild_spans-IsBitmap :
      (ss : List ℕ) (st : State)
      → IsBitmap st.bin_bitmap
      → IsBitmap (rebuild_spans p ss st).bin_bitmap
  unfolding rebuild_spans
  rebuild_spans-IsBitmap [] st v = v
  rebuild_spans-IsBitmap (s ∷ ss) st v =
      let sp = st.desc s in
      rebuild_spans-IsBitmap ss (rebuild_from p (span_max_blocks p sp) sp.hi sp.lo st)
        (rebuild_from-IsBitmap (span_max_blocks p sp) sp.hi sp.lo st v)

  bins_rebuild-IsBitmap : (st : State) → IsBitmap (bins_rebuild p st).bin_bitmap
  unfolding bins_rebuild bins_reset
  bins_rebuild-IsBitmap st =
      rebuild_spans-IsBitmap (all_spans st) (bins_reset p st) (λ i. omega arith)

  find_attempts-Serves :
      (left : ℕ) (st : State) (need : ℕ)
      → IsBitmap st.bin_bitmap
      → need < 2 ^ 64
      → (find_attempts p left st need).0 ≢ 0
      → Serves (find_attempts p left st need).1 need (find_attempts p left st need).0
  unfolding find_attempts
  find_attempts-Serves zero st need v b h = ground arith
  find_attempts-Serves (suc left) st need v b h =
      let st1 = bins_rebuild p (fail corrupt_links st) in
      let rest =
        find_attempts-Serves left st1 need (bins_rebuild-IsBitmap (fail corrupt_links st)) b in
      let once = find_once-Serves st need v b in ground (arith, rest, once)

  -- A block that mm_bin_find returns for a request is, in the state that it returns, free, at
  -- least as large as the request and under an accepted header. It holds from any memory and any
  -- bin heads, as long as the bitmap's words and the request are of 64 bits.
  pub bin_find-Serves :
      (st : State) (need : ℕ)
      → IsBitmap st.bin_bitmap
      → need < 2 ^ 64
      → (bin_find p st need).0 ≢ 0
      → Serves (bin_find p st need).1 need (bin_find p st need).0
  unfolding bin_find
  bin_find-Serves st need v b h = find_attempts-Serves 2 st need v b h
