-- ===== src/Examples/Programs.antt =====
-- The histogram of the benchmarks and the preload library at concrete inputs.
use mars_memory_allocator.Base.{
  ℕ, ◌-◌, ◌*◌, ◌^◌, ◌≤◌, ◌<◌, ◌≡◌, ◌+◌, inr, refl, ◌≢◌, true, false, arith, ◌==◌, if◌then◌else◌, [],
  ◌∷◌, none,
}
use mars_memory_allocator.Layout.{fast}
use mars_memory_allocator.Examples.Heap.{heap}
use mars_memory_allocator.Examples.Arenas.{linux}
use mars_memory_allocator.State.{with_mem}
use mars_memory_allocator.Histogram.{
  Hist, hist_reset, hist_slots, hist_index, hist_value_at, hist_merge, hist_quantile,
}
use mars_memory_allocator.Histogram.Error.{hist_value_at-hist_index}
use mars_memory_allocator.Histogram.Merge.{IsHist, record_all, hist_merge-records}
use mars_memory_allocator.Histogram.Quantile.{Ranks, hist_quantile-Ranks}
use mars_memory_allocator.Shim.{Loader, Shim, pool_alloc}
use mars_memory_allocator.Shim.Number.{say_num, read_from, IsDigits, say_num-reads}
use mars_memory_allocator.Shim.Granted.{Granted}
use mars_memory_allocator.Shim.Pool.{
  Pristine, StartReach, here, next, take, pool_grants, pool_rewinds,
}
use mars_memory_allocator.Shim.Family.{shim_calloc}
use mars_memory_allocator.Shim.Calloc.{Cleared, calloc_clears, calloc-Hands}
use mars_memory_allocator.Confine.Hands.{Hands}
use mars_memory_allocator.Examples.Confined.{heap-UserArena}

hist_value_at-hist_index_example :
    (hist_index 1000 < hist_slots)
    × (hist_value_at (hist_index 1000) ≤ 1000)
    × (1000 < 256 → hist_value_at (hist_index 1000) ≡ 1000)
    × (256 ≤ 1000
        → 128 * (1000 - hist_value_at (hist_index 1000)) < hist_value_at (hist_index 1000))
hist_value_at-hist_index_example = hist_value_at-hist_index 1000 (omega arith)

abbrev two_samples : Hist
two_samples = record {
  slots = λ i. if i == 5 then 2 else 0;
  count = 2;
  total = 10;
  min = 5;
  max = 5;
}

two_samples-IsHist : IsHist two_samples
two_samples-IsHist = record {
  slots_word = λ i. ground arith;
  count_word = omega arith;
  total_word = omega arith;
  min_word = omega arith;
}

hist_merge-records_example :
    hist_merge two_samples (record_all hist_reset (300 ∷ 7 ∷ []))
    ≡ record_all two_samples (300 ∷ 7 ∷ [])
hist_merge-records_example = hist_merge-records two_samples (300 ∷ 7 ∷ []) two_samples-IsHist

hist_quantile-Ranks_example :
    (i : ℕ) × Ranks (300 ∷ 7 ∷ []) 2 i (hist_quantile (record_all hist_reset (300 ∷ 7 ∷ [])) 2)
hist_quantile-Ranks_example =
    hist_quantile-Ranks (300 ∷ 7 ∷ []) 2 (omega arith) (omega arith) (omega arith)

say_num-reads_example : (read_from 0 (say_num 65536) ≡ 65536) × IsDigits (say_num 65536)
say_num-reads_example = say_num-reads 65536 (omega arith)

abbrev loader : Loader
loader = record {
  pool = 65536;
  dlsym_requests = [];
  finds_free = true;
  shim_debug = none;
  shim_check = none;
  shim_nofresh = none;
  shim_flip = 0;
  system_free = λ st q. st;
  system_realloc = λ st q size. (0, st);
  page = 4096;
}

abbrev start : Shim
start = record {
  heap = with_mem heap (λ _. 0);
  pool_used = 0;
  pool_peak = 0;
  ready = false;
  starting = true;
  real_free = false;
  debug = false;
  check = false;
  nofresh = false;
  flip_at = 0;
  allocs_seen = 0;
  flipped = false;
  said = [];
}

start-Pristine : Pristine loader start
start-Pristine = record { aligned = refl; unused = refl; zeroed = λ x g u. refl }

abbrev one_taken : Shim
unfolding pool_alloc
one_taken = (pool_alloc loader start 40).1

granted_first : (pool_alloc loader start 40).0 ≡ 65552
unfolding pool_alloc
granted_first = refl

granted_next : (pool_alloc loader one_taken 24).0 ≡ 65616
unfolding pool_alloc
granted_next = refl

Reach-one_taken : StartReach loader linux fast start one_taken ((65552, 40) ∷ [])
unfolding pool_alloc
Reach-one_taken = next here (take start [] 40 (omega arith) (λ e. omega arith))

pool_grants_example :
    Granted loader one_taken
      (pool_alloc loader one_taken 24).1
      ((65552, 40) ∷ [])
      (pool_alloc loader one_taken 24).0
      24
pool_grants_example =
    pool_grants loader 24 start-Pristine Reach-one_taken (omega arith)
      (λ e. omega (arith, granted_next))

pool_rewinds_example :
    ((pool_alloc loader one_taken (2 ^ 64 - 64)).0 ≢ 0)
    × (65536 < (pool_alloc loader (pool_alloc loader one_taken (2 ^ 64 - 64)).1 8).0)
    × ((pool_alloc loader (pool_alloc loader one_taken (2 ^ 64 - 64)).1 8).0 + 8
        ≤ 65536 + one_taken.pool_used)
unfolding pool_alloc
pool_rewinds_example =
    pool_rewinds loader one_taken (2 ^ 64 - 64) 8 (omega arith) (omega arith) refl (omega arith)
      (omega arith) (omega arith) (omega arith)

abbrev running : Shim
running = record start { heap = heap; ready = true; starting = false }

calloc_clears_example : Cleared loader linux fast 24 (shim_calloc loader linux fast running 3 8)
calloc_clears_example = calloc_clears loader linux fast running 3 8 refl (inr heap-UserArena)

calloc-Hands_example : Hands heap 24 (shim_calloc loader linux fast running 3 8).0
calloc-Hands_example = calloc-Hands loader linux fast running 3 8 refl heap-UserArena
