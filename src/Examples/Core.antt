-- ===== src/Examples/Core.antt =====
-- The theorems on blocks, free lists, the heap check and validated access, on the small arena.
use mars_memory_allocator.Base.{◌≡◌, refl, true, false, some, [], ◌∷◌, arith}
use mars_memory_allocator.Layout.{fast, trail}
use mars_memory_allocator.Layout.Word
use mars_memory_allocator.Examples.Heap.{heap, first, middle, last, first_ok}
use mars_memory_allocator.FreeList.{
  bin_find, find_attempts, find_once, scan_bin, scan_from, bin_head, node_ok, bins_agree,
  bin_agrees, chain_length,
}
use mars_memory_allocator.Locate.{block_of}
use mars_memory_allocator.Check.{
  canary_ok, header_ok, block_ok_in, start_ok_in, is_block, prev_free_block, seal,
}
use mars_memory_allocator.Span.{
  span_of, index_find, find_from, all_spans, spans_from, span_max_blocks, max_blocks,
}
use mars_memory_allocator.Bins.{bin_of, floor_log2, log2_from}
use mars_memory_allocator.Memory.{load, store}
use mars_memory_allocator.Bitmap.{
  next_nonempty, bitmap_test, next_word, lowest_bit, lowest_bit_from,
}
use mars_memory_allocator.Block.{
  free_link_get, is_used, read_prev_footer, word, block_end, own_footer,
}
use mars_memory_allocator.Access.Frame.{Live}
use mars_memory_allocator.FreeList.Find.{Serves, bin_find-Serves}
use mars_memory_allocator.Access.{write, read}
use mars_memory_allocator.Access.RoundTrip.{read-write}
use mars_memory_allocator.HeapCheck.Tiling.{AllTiled, check_heap-AllTiled}
use mars_memory_allocator.Confine.{Confined}
use mars_memory_allocator.Check.Bounds.{prev_free_block_sound}
use mars_memory_allocator.HeapCheck.{
  check_heap, heap_status, check_spans, check_from, check_block, see_block,
}
use mars_memory_allocator.State.{clear_error, ok}
use mars_memory_allocator.Check.Seal.{seal-header_ok}
use mars_memory_allocator.Coalesce.Cut.{Room, cut_tail-header_ok}
use mars_memory_allocator.Coalesce.{cut_tail}
use mars_memory_allocator.Confine.Write.{write-Confined}
use mars_memory_allocator.Layout.Word.Laws.{Reads}

first-Live : Live fast heap first
unfolding canary_ok header_ok block_ok_in start_ok_in is_block span_of index_find find_from load
    store Word.size_of Word.set_word Word.set_prev_in_use Word.is_used Word.prev_in_use
    Word.is_quarantined Word.requested_size
first-Live = record {
  accepted = first_ok;
  used = refl;
  not_quarantined = refl;
  canary_intact = refl;
  room = omega arith;
}

first_found : (block_of fast heap 4112).0 ≡ first
unfolding block_of header_ok block_ok_in start_ok_in is_block span_of index_find find_from load
    store Word.size_of Word.set_word Word.set_prev_in_use Word.is_used Word.prev_in_use
    Word.is_quarantined Word.requested_size
first_found = refl

read-write_example :
    ((write fast heap 4112 4 (1 ∷ 2 ∷ 3 ∷ [])).0 ≡ some 3)
    × ((read fast (write fast heap 4112 4 (1 ∷ 2 ∷ 3 ∷ [])).1 4112 4 3).0 ≡ some (1 ∷ 2 ∷ 3 ∷ []))
unfolding block_of header_ok block_ok_in start_ok_in is_block span_of index_find find_from load
    store Word.size_of Word.set_word Word.set_prev_in_use Word.is_used Word.prev_in_use
    Word.is_quarantined Word.requested_size
read-write_example =
    read-write fast heap 4112 4 (1 ∷ 2 ∷ 3 ∷ []) refl (λ e. omega arith) first-Live (omega arith)

first-is_block : is_block fast heap first ≡ true
unfolding header_ok block_ok_in start_ok_in is_block span_of index_find find_from load store
    Word.size_of Word.set_word Word.set_prev_in_use Word.is_used Word.prev_in_use
    Word.is_quarantined Word.requested_size
first-is_block = refl

found_middle : (bin_find fast heap 40).0 ≡ middle
unfolding bin_find find_attempts find_once scan_bin scan_from bin_head node_ok bin_of floor_log2
    log2_from next_nonempty next_word lowest_bit lowest_bit_from free_link_get header_ok block_ok_in
    start_ok_in is_block span_of index_find find_from load store Word.size_of Word.set_word
    Word.set_prev_in_use Word.is_used Word.prev_in_use Word.is_quarantined Word.requested_size
found_middle = refl

bin_find-Serves_example : Serves fast (bin_find fast heap 40).1 40 (bin_find fast heap 40).0
bin_find-Serves_example =
    bin_find-Serves fast heap 40 (λ i. ground arith) (omega arith)
      (λ e. omega (arith, found_middle))

heap_sound : (check_heap fast heap).0 ≡ ok
unfolding check_heap heap_status check_spans check_from check_block see_block canary_ok spans_from
    span_max_blocks max_blocks own_footer bins_agree bin_agrees chain_length bitmap_test bin_of
    floor_log2 log2_from free_link_get header_ok block_ok_in start_ok_in is_block span_of index_find
    find_from load store Word.size_of Word.set_word Word.set_prev_in_use Word.is_used
    Word.prev_in_use Word.is_quarantined Word.requested_size
heap_sound = refl

check_heap-AllTiled_example :
    AllTiled fast (clear_error heap) (all_spans heap)
    × ((check_heap fast heap).1 ≡ clear_error heap)
check_heap-AllTiled_example = check_heap-AllTiled fast heap heap_sound

before_last : prev_free_block fast heap last ≡ middle
unfolding prev_free_block read_prev_footer header_ok block_ok_in start_ok_in is_block span_of
    index_find find_from load store Word.size_of Word.set_word Word.set_prev_in_use Word.is_used
    Word.prev_in_use Word.is_quarantined Word.requested_size
before_last = refl

prev_free_block_sound_example :
    (header_ok fast heap (prev_free_block fast heap last) ≡ true)
    × (is_used heap.mem (prev_free_block fast heap last) ≡ false)
    × (block_end heap.mem (prev_free_block fast heap last) ≡ last)
prev_free_block_sound_example =
    prev_free_block_sound fast heap last (λ e. omega (arith, before_last))

seal-header_ok_example :
    (header_ok fast (seal fast heap first) first ≡ true)
    × (word (seal fast heap first).mem first ≡ word heap.mem first)
seal-header_ok_example = seal-header_ok fast heap first first-is_block

write-Confined_example : Confined heap (write fast heap 4112 4 (1 ∷ 2 ∷ 3 ∷ [])).1
unfolding block_of header_ok block_ok_in start_ok_in is_block span_of index_find find_from load
    store Word.size_of Word.set_word Word.set_prev_in_use Word.is_used Word.prev_in_use
    Word.is_quarantined Word.requested_size
write-Confined_example =
    write-Confined fast heap 4112 4 (1 ∷ 2 ∷ 3 ∷ []) refl (λ e. omega arith) first-Live
      (omega arith)

inside_first : Room fast heap 4120 48
unfolding header_ok block_ok_in start_ok_in is_block span_of index_find find_from load store
    Word.size_of Word.set_word Word.set_prev_in_use Word.is_used Word.prev_in_use
    Word.is_quarantined Word.requested_size
inside_first = record {
  not_null = λ e. omega arith;
  found = λ e. omega arith;
  starts = refl;
  extent = (refl, omega arith);
  large_enough = omega arith;
  inside = omega arith;
}

cut_tail-header_ok_example :
    (header_ok fast (cut_tail fast heap 4120 48) 4120 ≡ true)
    × Reads (word (cut_tail fast heap 4120 48).mem 4120) 48 (trail fast) true false true
cut_tail-header_ok_example = cut_tail-header_ok fast heap 4120 48 inside_first
