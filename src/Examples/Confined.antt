-- ===== src/Examples/Confined.antt =====
-- What stays inside the spans, on the small arena, and the change of the mode.
use mars_memory_allocator.Base.{ℕ, ◌≡◌, refl, arith, leb, ltb, ◌&&◌, if◌then◌else◌}
use mars_memory_allocator.Layout.{fast, hardened}
use mars_memory_allocator.State.{libc}
use mars_memory_allocator.Span.{span_of, index_find, find_from}
use mars_memory_allocator.Examples.Heap.{heap}
use mars_memory_allocator.Examples.Arenas.{linux, heap_mem-IsMem}
use mars_memory_allocator.Confine.{Confined}
use mars_memory_allocator.Confine.Safe.{Spans}
use mars_memory_allocator.Confine.Free.{AllUser, free_block-Confined}
use mars_memory_allocator.Confine.Fresh.{UserArena}
use mars_memory_allocator.Confine.Hands.{Hands, malloc-Hands}
use mars_memory_allocator.Confine.Realloc.{realloc_unlocked-Confined}
use mars_memory_allocator.Resize.{realloc_unlocked}
use mars_memory_allocator.Confine.Malloc.{malloc-Confined}
use mars_memory_allocator.Alloc.{free_block, malloc}
use mars_memory_allocator.Mode.{set_mode}
use mars_memory_allocator.Mode.Forget.{set_mode-Confined}

span_of-heap : (q : ℕ) → span_of heap q ≡ (if leb 4104 q && ltb q 4264 then 1 else 0)
unfolding span_of index_find find_from
span_of-heap q = refl

heap-Spans : Spans heap
heap-Spans = record {
  extent = λ q f. (omega arith, omega arith);
  whole = λ q x f g u. ground (arith, span_of-heap q, span_of-heap x);
}

heap-AllUser : AllUser heap
heap-AllUser q f = refl

pub heap-UserArena : UserArena linux fast heap
heap-UserArena = record {
  spans = heap-Spans;
  bytes = heap_mem-IsMem;
  fixed = refl;
  none_fresh = λ q f. refl;
  bitmap = λ i. ground arith;
}

free_block-Confined_example : Confined heap (free_block linux fast heap 4112)
free_block-Confined_example =
    free_block-Confined linux fast heap 4112 heap-Spans heap_mem-IsMem heap-AllUser

malloc-Confined_example : Confined heap (malloc linux fast heap 24).1
malloc-Confined_example = malloc-Confined linux fast heap 24 heap-UserArena refl

set_mode-Confined_example : Confined heap (set_mode hardened libc heap)
set_mode-Confined_example = set_mode-Confined hardened libc heap

malloc-Hands_example : Hands heap 24 (malloc linux fast heap 24).0
malloc-Hands_example = malloc-Hands linux fast heap 24 heap-UserArena

realloc_unlocked-Confined_example : Confined heap (realloc_unlocked linux fast heap 4112 100).1
realloc_unlocked-Confined_example =
    realloc_unlocked-Confined linux fast heap 4112 100 heap-UserArena heap-AllUser refl
