-- ===== src/Examples/Arenas.antt =====
-- The theorems on whole blocks and arenas at concrete inputs.
use mars_memory_allocator.Layout.Word
use mars_memory_allocator.Base.{
  ℕ, ◌+◌, ◌-◌, ◌*◌, ◌%◌, ◌^◌, ◌≤◌, ◌≡◌, refl, ◌≢◌, inr, true, some, arith,
}
use mars_memory_allocator.Layout.{fast, hardened, paranoid, min_block, block_offset, size_for}
use mars_memory_allocator.Examples.Heap.{heap, heap_mem, middle}
use mars_memory_allocator.Platform.{Platform}
use mars_memory_allocator.Memory.Laws.{IsMem, store-IsMem}
use mars_memory_allocator.Resize.{aligned_at}
use mars_memory_allocator.Check.{header_ok, is_block, block_ok_in, start_ok_in}
use mars_memory_allocator.Arena.{init}
use mars_memory_allocator.Arena.First.{Installed}
use mars_memory_allocator.Resize.Align.{aligned_at-Cuts}
use mars_memory_allocator.Span.{span_of, index_find, find_from, index_put, put_from, slot_for}
use mars_memory_allocator.Arena.Init.{usable_of, init-Installed}
use mars_memory_allocator.Memory.{load, store}
use mars_memory_allocator.Block.{block_end, requested_size}
use mars_memory_allocator.Coalesce.{finish_allocation}
use mars_memory_allocator.Access.Frame.{Live}
use mars_memory_allocator.Coalesce.Publish.{granted, finish_allocation-Live}
use mars_memory_allocator.State.{Index, clear_error, fail, nomem}
use mars_memory_allocator.Registry.{empty_index}
use mars_memory_allocator.Alloc.{malloc}
use mars_memory_allocator.Span.Lookup.{index_find-index_put, index_put_ends}
use mars_memory_allocator.Bitmap.{update}
use mars_memory_allocator.Alloc.Refuse.{malloc_refused}

abbrev pub linux : Platform
linux = record {
  can_grow = true;
  page = 4096;
  map_at = λ n bytes. 2 ^ 40 + n * 2 ^ 30;
  drops = λ lo hi. true;
  user_desc = 8192;
  stack_address = 140737488347136;
  time = 1700000000;
  clock = 123456;
}

pub heap_mem-IsMem : IsMem heap_mem
heap_mem-IsMem = store-IsMem 8 _ 4232 _ (
    store-IsMem 8 _ 4224 _ (
      store-IsMem 8 _ 4184 _ (
        store-IsMem 8 _ 4176 _
          (store-IsMem 8 _ 4168 _ (store-IsMem 8 (λ _. 0) 4104 _ (λ x. omega arith))))))

middle_followed : header_ok fast heap (block_end heap.mem middle) ≡ true
unfolding header_ok block_ok_in start_ok_in span_of index_find find_from load store Word.size_of
    Word.set_word Word.set_prev_in_use
middle_followed = refl

finish_allocation-Live_example :
    ((finish_allocation fast heap middle 40).0 ≡ true)
    × Live fast (finish_allocation fast heap middle 40).1 middle
    × (requested_size fast (finish_allocation fast heap middle 40).1.mem middle
        ≡ granted fast heap middle 40)
unfolding is_block block_ok_in start_ok_in span_of index_find find_from load store Word.size_of
    Word.set_word Word.set_prev_in_use size_for
finish_allocation-Live_example =
    finish_allocation-Live fast heap middle 40 refl heap_mem-IsMem (omega arith) (omega arith)
      (omega arith) (omega arith) (omega arith) (inr middle_followed)

aligned_at-Cuts_example :
    (aligned_at paranoid 4112 64 % 64 ≡ 0)
    × (4112 + min_block paranoid ≤ aligned_at paranoid 4112 64)
    × (aligned_at paranoid 4112 64 - 4112 + size_for paranoid 100
        ≤ size_for paranoid (100 + 2 * 64 + min_block paranoid))
aligned_at-Cuts_example =
    aligned_at-Cuts paranoid 4112 64 6 100 refl (omega arith) (omega arith) (omega arith)

init-Installed_example :
    ((init linux hardened heap 65536 5000).0 ≡ true)
    × Installed hardened
        (init linux hardened heap 65536 5000).1
        (65536 + block_offset hardened)
        (usable_of hardened 5000)
init-Installed_example =
    init-Installed linux hardened heap 65536 5000 (λ e. omega arith) (λ e. omega arith)
      (omega arith) (omega arith) (omega arith)

malloc_refused_example :
    malloc linux hardened heap (2 ^ 64 - 9) ≡ (0, fail nomem (clear_error heap))
malloc_refused_example =
    malloc_refused linux hardened heap (2 ^ 64 - 9) refl (omega arith) (inr (omega arith))

-- a table of eight slots with one entry
abbrev one_entry : Index
one_entry = record {
  cap = 8;
  unit = update (λ _. 0) (slot_for 5 8) 5;
  span = update (λ _. 0) (slot_for 5 8) 77;
}

one_entry_put : index_put (empty_index 8) 5 77 ≡ some one_entry
unfolding index_put put_from
one_entry_put = refl

index_find-index_put_example :
    (index_find one_entry 5 ≡ 77)
    × ((u : ℕ)
        → u ≢ 5
        → index_find (empty_index 8) u ≢ 0
        → index_find one_entry u ≡ index_find (empty_index 8) u)
index_find-index_put_example =
    index_find-index_put (empty_index 8) 5 77 one_entry one_entry_put (λ e. omega arith)
      (λ e. omega arith)

index_put_ends_example : (ix : Index) × (index_put (empty_index 8) 9 77 ≡ some ix)
index_put_ends_example = index_put_ends (empty_index 8) 9 77 3 6 refl (omega arith) refl
