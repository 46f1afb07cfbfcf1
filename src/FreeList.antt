-- ===== src/FreeList.antt =====
-- The size-classed free lists, src/mm_freelist.c. The links lie in the free blocks themselves.
pub mod Find
pub mod Push
use mars_memory_allocator.Base.{
  ℕ, zero, suc, ◌+◌, Bool, true, false, not, ◌&&◌, ◌||◌, Option, none, some, List, [], ◌∷◌, ltb,
  leb, ◌==◌, if◌then◌else◌,
}
use mars_memory_allocator.Layout.{Profile}
use mars_memory_allocator.Bitmap.{
  bin_count, update, bitmap_set, bitmap_clear, bitmap_test, next_nonempty,
}
use mars_memory_allocator.Bins.{bin_of, bin_scan_cap}
use mars_memory_allocator.State.{State, corrupt_links, fail, with_mem}
use mars_memory_allocator.Span.{all_spans, span_max_blocks, max_blocks}
use mars_memory_allocator.Block.{
  block_size, is_used, free_link_get, free_link_set, link_next, link_prev,
}
use mars_memory_allocator.Check.{is_block, header_ok, extent_corroborated}

-- `bool == bool` of bitmap_test and a bin's head
abbrev pub differs : Bool → Bool → Bool
differs true b = not b
differs false b = b

module _ (p : Profile) where
  abbrev pub next_of : State → ℕ → ℕ
  next_of st b = free_link_get p st.mem b link_next st.secret

  abbrev pub prev_of : State → ℕ → ℕ
  prev_of st b = free_link_get p st.mem b link_prev st.secret

  abbrev pub set_next : State → ℕ → ℕ → State
  set_next st b v = with_mem st (free_link_set p st.mem b link_next v st.secret)

  abbrev pub set_prev : State → ℕ → ℕ → State
  set_prev st b v = with_mem st (free_link_set p st.mem b link_prev v st.secret)

  unfoldable pub node_ok : State → ℕ → ℕ → Bool
  node_ok st b bin =
      is_block p st b
      && header_ok p st b
      && not (is_used st.mem b)
      && bin_of p (block_size st.mem b) == bin

  unfoldable pub links_ok : State → ℕ → ℕ → Bool
  links_ok st b bin =
      let next = next_of st b in
      let prev = prev_of st b in
      node_ok st b bin
      && (if next == 0 then true else node_ok st next bin && prev_of st next == b)
      && (if prev == 0 then st.bins bin == b else node_ok st prev bin && next_of st prev == b)

  -- the head of a bin that is known to be sound
  unfoldable pub bin_push : State → ℕ → ℕ → State
  bin_push st b bin =
      let head = st.bins bin in
      let st1 = set_prev (set_next st b head) b 0 in
      let st2 = if head == 0 then st1 else set_prev st1 head b in
      record st2 { bins = update st2.bins bin b; bin_bitmap = bitmap_set st2.bin_bitmap bin }

  -- mm_bins_reset
  unfoldable pub bins_reset : State → State
  bins_reset st = record st { bins = λ _. 0; bin_bitmap = λ _. 0 }

  -- the walk of mm_bins_rebuild over one span that ends at `hi`, for `budget` blocks at most
  unfoldable pub rebuild_from : ℕ → ℕ → ℕ → State → State
  rebuild_from zero hi q st = st
  rebuild_from (suc budget) hi q st =
      let free = not (is_used st.mem q) in
      let st1 = if free then bin_push st q (bin_of p (block_size st.mem q)) else st in
      let rest = rebuild_from budget hi (q + block_size st1.mem q) st1 in
      if not (ltb q hi) || not (header_ok p st q)
      then st
      else if free && not (extent_corroborated p st q)
      then fail corrupt_links st
      else rest

  unfoldable pub rebuild_spans : List ℕ → State → State
  unfolding rebuild_from
  rebuild_spans [] st = st
  rebuild_spans (s ∷ ss) st =
      let sp = st.desc s in rebuild_spans ss (rebuild_from (span_max_blocks p sp) sp.hi sp.lo st)

  -- mm_bins_rebuild
  unfoldable pub bins_rebuild : State → State
  unfolding rebuild_spans bins_reset
  bins_rebuild st = rebuild_spans (all_spans st) (bins_reset st)

  -- mm_bin_insert
  unfoldable pub bin_insert : State → ℕ → State
  bin_insert st b =
      let bin = bin_of p (block_size st.mem b) in
      let head = st.bins bin in
      if not (head == 0) && not (node_ok st head bin)
      then bins_rebuild (fail corrupt_links st)
      else bin_push st b bin

  -- the splice at the end of mm_bin_remove
  unfoldable pub unlink : State → ℕ → ℕ → State
  unlink st b bin =
      let next = next_of st b in
      let prev = prev_of st b in
      let st1 =
        if prev == 0
        then record st {
          bins = update st.bins bin next;
          bin_bitmap = if next == 0 then bitmap_clear st.bin_bitmap bin else st.bin_bitmap;
        }
        else set_next st prev next in
      if next == 0 then st1 else set_prev st1 next prev

  -- mm_bin_remove
  unfoldable pub bin_remove : State → ℕ → State
  bin_remove st b =
      let bin = bin_of p (block_size st.mem b) in
      let st1 = bins_rebuild (fail corrupt_links st) in
      if links_ok st b bin
      then unlink st b bin
      else if links_ok st1 b bin
      then unlink st1 b bin
      else if is_used st1.mem b
      then st1
      else set_prev (set_next st1 b 0) b 0

  -- The loop of scan_bin with `left` blocks still to look at: the block found, or 0, and whether
  -- damage was met.
  unfoldable pub scan_from : ℕ → State → ℕ → ℕ → (back cur : ℕ) → ℕ × Bool
  scan_from zero st bin need back cur = (0, false)
  scan_from (suc left) st bin need back cur =
      let rest = scan_from left st bin need cur (next_of st cur) in
      if cur == 0
      then (0, false)
      else if not (node_ok st cur bin) || not (prev_of st cur == back)
      then (0, true)
      else if leb need (block_size st.mem cur)
      then (cur, false)
      else rest

  unfoldable pub scan_bin : State → ℕ → ℕ → ℕ × Bool
  unfolding scan_from
  scan_bin st bin need = scan_from bin_scan_cap st bin need 0 (st.bins bin)

  unfoldable pub bin_head : State → ℕ → ℕ × Bool
  bin_head st bin =
      let h = st.bins bin in
      if h == 0 || not (node_ok st h bin) || not (prev_of st h == 0) then (0, true) else (h, false)

  -- one attempt of mm_bin_find
  unfoldable pub find_once : State → ℕ → ℕ × Bool
  find_once st need =
      let bin = bin_of p need in
      let found = scan_bin st bin need in
      let j = next_nonempty st.bin_bitmap (bin + 1) in
      if not (found.0 == 0) || found.1
      then found
      else if ltb j bin_count
      then bin_head st j
      else (0, false)

  -- mm_bin_find: a second attempt runs against bins rebuilt from the tiling.
  unfoldable pub find_attempts : ℕ → State → ℕ → ℕ × State
  find_attempts zero st need = (0, st)
  find_attempts (suc left) st need =
      let (b, damaged) = find_once st need in
      let rest = find_attempts left (bins_rebuild (fail corrupt_links st)) need in
      if not (b == 0) then (b, st) else if not damaged then (0, st) else rest

  unfoldable pub bin_find : State → ℕ → ℕ × State
  unfolding find_attempts
  bin_find st need = find_attempts 2 st need

  -- The chain of bin `i` from `cur` on, as mm_bins_check walks it: its length, or `none` where a
  -- check fails or the budget is used up.
  unfoldable pub chain_length : ℕ → State → ℕ → (back cur seen : ℕ) → Option ℕ
  chain_length zero st i back cur seen = if cur == 0 then some seen else none
  chain_length (suc budget) st i back cur seen =
      let rest = chain_length budget st i cur (next_of st cur) (seen + 1) in
      if cur == 0
      then some seen
      else if not (header_ok p st cur)
          || is_used st.mem cur
          || not (bin_of p (block_size st.mem cur) == i)
          || not (prev_of st cur == back)
      then none
      else rest

  -- the checks of mm_bins_check on one bin
  unfoldable pub bin_agrees : State → (ℕ → ℕ) → ℕ → Bool
  unfolding chain_length
  bin_agrees st counts i =
      if differs (bitmap_test st.bin_bitmap i) (not (st.bins i == 0))
      then false
      else elim (chain_length (max_blocks p st) st i 0 (st.bins i) 0) [
        | none ↦ false
        | some seen ↦ seen == counts i
      ]

  unfoldable pub bins_agree : ℕ → State → (ℕ → ℕ) → Bool
  bins_agree zero st counts = true
  bins_agree (suc n) st counts = bins_agree n st counts && bin_agrees st counts n
