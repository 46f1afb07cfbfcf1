-- ===== src/Examples/Threads.antt =====
-- Threads that adopt arenas, end, and outlive a reset.
use mars_memory_allocator.Base.{◌≤◌, ◌≡◌, refl, ◌≢◌, true, false, length}
use mars_memory_allocator.Pool.{
  growing, Pool, arena_adopt, on_thread_exit, arenas_reset, PoolReach, new_pool, fresh_pool,
  then_step, adopting, ending, occurs, pick, clear_claims, but_first,
}
use mars_memory_allocator.Pool.Sound.{orphans_spare}

-- thread 1 works in the main arena, 4096, and thread 2 in an arena of its own, 8192
abbrev one_thread : Pool
one_thread = record (arena_adopt (new_pool 4096) 1 12288).1 { main_growable = true }

abbrev two_threads : Pool
two_threads = (arena_adopt one_thread 2 8192).1

abbrev one_left : Pool
one_left = on_thread_exit two_threads 2

Reach-two_threads : PoolReach 4096 two_threads
unfolding arena_adopt pick occurs
Reach-two_threads =
    then_step (then_step (then_step fresh_pool (adopting 1 12288 refl)) (growing true))
      (adopting 2 8192 refl)

orphans_spare_example :
    (occurs 8192 one_left.orphans ≤ 1)
    × (occurs 8192 one_left.orphans ≡ 1
        → (one_left.claimed 8192 ≡ false)
          × (8192 ≢ one_left.main)
          × (occurs 8192 one_left.arenas ≡ 1))
    × (one_left.count ≡ length one_left.arenas)
orphans_spare_example = orphans_spare 4096 one_left 8192 (then_step Reach-two_threads (ending 2))

-- Thread 1 resets every arena and starts a growable one again, thread 3 adopts the second one, thread 2 ends, and thread 4 adopts.
abbrev after_reset : Pool
after_reset =
    let st0 = record (arenas_reset two_threads 1) { main_growable = true } in
    let st1 = (arena_adopt st0 3 16384).1 in (arena_adopt (on_thread_exit st1 2) 4 20480).1

-- threads 3 and 4 then both work in it
two_in_one : (after_reset.self 3 ≡ 8192) × (after_reset.self 4 ≡ 8192)
unfolding arena_adopt pick on_thread_exit arenas_reset clear_claims but_first
two_in_one = (refl, refl)
