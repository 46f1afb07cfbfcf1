-- ===== src/Shim/Family.antt =====
-- The malloc family of src/shim/mm_shim.c.
use Prim.Native.Nat.{bit_and, bit_xor}
use mars_memory_allocator.Base.{
  ℕ, ◌+◌, ◌-◌, ◌*◌, ◌%◌, ◌^◌, Bool, true, not, ◌&&◌, ◌||◌, Option, none, some, ltb, leb, ◌==◌,
  if◌then◌else◌,
}
use mars_memory_allocator.Bitmap.{update}
use mars_memory_allocator.Layout.{round_up, Profile, hdr_size, size_max}
use mars_memory_allocator.Platform.{Platform}
use mars_memory_allocator.Memory.{copy, fill}
use mars_memory_allocator.Span.{owns}
use mars_memory_allocator.State.{Status, add64, with_mem, is_ok, nomem, degraded}
use mars_memory_allocator.Alloc.{malloc, malloc_fresh, free_block, usable_size}
use mars_memory_allocator.Resize.{realloc_unlocked, memalign}
use mars_memory_allocator.HeapCheck.{check_heap}
use mars_memory_allocator.Shim.{
  Loader, Shim, Call, malloc_call, free_call, calloc_call, realloc_call, aligned_call, reported,
  flipped_bit, consistent, inconsistent, say, with_heap, from_pool, pool_alloc, pool_size_of,
  startup,
}

-- the statuses that report passes over
abbrev pub quiet : Status → Bool
quiet nomem = true
quiet degraded = true
quiet s = is_ok s

-- report
abbrev pub report : Call → Shim → Shim
report c sh = if quiet sh.heap.last_error then sh else say (reported c sh.heap.last_error) sh

-- power_of_two
abbrev pub power_of_two : ℕ → Bool
power_of_two n = not (n == 0) && bit_and n (n - 1) == 0

-- page_size, where 0 stands for an answer of sysconf that is not positive
abbrev pub page_size : Loader → ℕ
page_size l = if l.page == 0 then 4096 else l.page

module _ (l : Loader) (os : Platform) (p : Profile) where
  -- maybe_flip
  unfoldable pub maybe_flip : Shim → ℕ → Shim
  maybe_flip sh q =
      let seen = add64 sh.allocs_seen 1 in
      let sh1 = record sh { allocs_seen = seen } in
      let at = q - hdr_size p + 1 in
      let m = update sh.heap.mem at (bit_xor (sh.heap.mem at) 16) in
      let sh2 = record (with_heap sh1 (with_mem sh.heap m)) { flipped = true } in
      if sh.flip_at == 0 || sh.flipped
      then sh
      else if not (seen == sh.flip_at)
      then sh1
      else say (flipped_bit seen) sh2

  -- `if (!g_ready) startup();`
  abbrev pub started : Shim → Shim
  started sh = if sh.ready then sh else startup l os p sh

  -- `size == 0 ? 1 : size`
  abbrev pub at_least_one : ℕ → ℕ
  at_least_one size = if size == 0 then 1 else size

  -- malloc
  unfoldable pub shim_malloc : Shim → ℕ → ℕ × Shim
  unfolding maybe_flip
  shim_malloc sh0 size =
      let sh = started sh0 in
      let (q, st) = malloc os p sh.heap (at_least_one size) in
      let sh1 = with_heap sh st in
      if not sh.ready
      then pool_alloc l sh size
      else if q == 0
      then (0, sh1)
      else (q, maybe_flip (report malloc_call sh1) q)

  -- free
  unfoldable pub shim_free : Shim → ℕ → Shim
  shim_free sh0 q =
      let sh = started sh0 in
      let sh1 = with_heap sh (free_block os p sh.heap q) in
      if q == 0
      then sh0
      else if from_pool l q
      then sh0
      else if sh.ready && owns sh.heap q
      then report free_call sh1
      else if sh.real_free
      then with_heap sh (l.system_free sh.heap q)
      else sh

  -- calloc
  unfoldable pub shim_calloc : Shim → (nmemb size : ℕ) → ℕ × Shim
  shim_calloc sh0 nmemb size =
      let total = nmemb * size in
      let sh = started sh0 in
      let (q, dirty, st) = malloc_fresh os p sh.heap (at_least_one total) in
      let sh1 = report calloc_call (with_heap sh st) in
      let cleared = λ (n : ℕ). with_heap sh1 (with_mem st (fill n st.mem q 0)) in
      if leb (2 ^ 64) total
      then (0, sh0)
      else if not sh.ready
      then pool_alloc l sh total
      else if q == 0
      then (0, with_heap sh st)
      else if sh1.nofresh || dirty == size_max
      then (q, cleared total)
      else if not (dirty == 0)
      then (q, cleared (if ltb dirty total then dirty else total))
      else (q, sh1)

  -- realloc of a block of the pool
  unfoldable pub realloc_pooled : Shim → ℕ → ℕ → ℕ × Shim
  unfolding shim_malloc
  realloc_pooled sh q size =
      let (fresh, sh1) = shim_malloc sh size in
      let had = pool_size_of l sh1 q in
      let n = if ltb had size then had else size in
      if size == 0
      then (0, sh)
      else if fresh == 0
      then (0, sh1)
      else (fresh, with_heap sh1 (with_mem sh1.heap (copy n sh1.heap.mem fresh q)))

  -- realloc
  unfoldable pub shim_realloc : Shim → ℕ → ℕ → ℕ × Shim
  unfolding shim_malloc realloc_pooled
  shim_realloc sh0 q size =
      let sh = started sh0 in
      let (moved, st) = realloc_unlocked os p sh.heap q size in
      let (other, foreign) = l.system_realloc sh.heap q size in
      if q == 0
      then shim_malloc sh0 size
      else if from_pool l q
      then realloc_pooled sh0 q size
      else if sh.ready && owns sh.heap q
      then (moved, report realloc_call (with_heap sh st))
      else (other, with_heap sh foreign)

  -- aligned_alloc, and memalign
  unfoldable pub shim_aligned_alloc : Shim → ℕ → ℕ → ℕ × Shim
  shim_aligned_alloc sh0 alignment size =
      let sh = started sh0 in
      let (q, st) = memalign os p sh.heap alignment (at_least_one size) in
      let sh1 = with_heap sh st in
      if not (power_of_two alignment)
      then (0, sh0)
      else if not sh.ready
      then (0, sh)
      else if q == 0
      then (0, sh1)
      else (q, report aligned_call sh1)

  -- posix_memalign: the error number, and what is stored through `out`, if anything
  unfoldable pub posix_memalign : Shim → ℕ → ℕ → ℕ × Option ℕ × Shim
  unfolding shim_aligned_alloc
  posix_memalign sh alignment size =
      let (q, sh1) = shim_aligned_alloc sh alignment size in
      if not (power_of_two alignment) || not (alignment % 8 == 0)
      then (22, none, sh)
      else if q == 0
      then (12, none, sh1)
      else (0, some q, sh1)

  -- valloc
  unfoldable pub valloc : Shim → ℕ → ℕ × Shim
  unfolding shim_aligned_alloc
  valloc sh size = shim_aligned_alloc sh (page_size l) size

  -- `(size + p - 1) & ~(p - 1)`
  abbrev pub paged : ℕ → ℕ
  paged size = round_up size (page_size l)

  -- pvalloc
  unfoldable pub pvalloc : Shim → ℕ → ℕ × Shim
  unfolding shim_aligned_alloc
  pvalloc sh size =
      if ltb (size_max - page_size l) size
      then (0, sh)
      else shim_aligned_alloc sh (page_size l) (paged size)

  -- malloc_usable_size
  unfoldable pub malloc_usable_size : Shim → ℕ → ℕ × Shim
  malloc_usable_size sh q =
      let (n, st) = usable_size os p sh.heap q in
      if q == 0
      then (0, sh)
      else if from_pool l q
      then (pool_size_of l sh q, sh)
      else if not sh.ready || not (owns sh.heap q)
      then (0, sh)
      else (n, with_heap sh st)

  -- the check that shim_end makes of the heap
  unfoldable pub shim_end_check : Shim → Shim
  shim_end_check sh =
      let (s, st) = check_heap p sh.heap in
      let sh1 = with_heap sh st in
      if not sh.ready || not sh.check
      then sh
      else if is_ok s
      then say consistent sh1
      else say (inconsistent s) sh1
