-- ===== src/Pool/Sound.antt =====
-- The orphans of src/mm_lock.c: each once, and nobody's.
use mars_memory_allocator.Base.{ℕ, ◌≤◌, ◌≡◌, refl, ap, ◌≢◌, false, [], arith, length}
use mars_memory_allocator.Pool.{
  growing, adopting, ending, resetting, fresh_pool, then_step, Pool, occurs, PoolReach, PoolStep,
  new_pool,
}
use mars_memory_allocator.Pool.Moves.{
  PoolOk, on_thread_exit-PoolOk, growing-PoolOk, arena_adopt-PoolOk, unset, arenas_reset-PoolOk,
}

new_pool-PoolOk : (main : ℕ) → PoolOk (new_pool main)
unfolding occurs
new_pool-PoolOk main = record {
  spoken_for = λ b. omega arith;
  not_main = refl;
  listed = λ b. omega arith;
  distinct = λ b. ground arith;
  claims_listed = λ b. omega arith;
  first = ([], refl);
  counted = refl;
}

PoolStep-PoolOk : (s t : Pool) → PoolOk s → PoolStep s t → PoolOk t
PoolStep-PoolOk s t v (adopting thread fresh z) = arena_adopt-PoolOk s thread fresh v z
PoolStep-PoolOk s t v (ending thread) = on_thread_exit-PoolOk s thread v
PoolStep-PoolOk s t v (resetting thread) = arenas_reset-PoolOk s thread v
PoolStep-PoolOk s t v (growing growable) = growing-PoolOk s growable v

PoolReach-PoolOk : (main : ℕ) (s : Pool) → PoolReach main s → PoolOk s
PoolReach-PoolOk main s fresh_pool = new_pool-PoolOk main
PoolReach-PoolOk main t (then_step {s} r m) = PoolStep-PoolOk s t (PoolReach-PoolOk main s r) m

-- However threads adopt arenas, end, and reset them all, an arena stands at most once on the list
-- of orphans, which is linked through the arenas themselves; one that stands there is claimed by
-- nobody, is not the main arena and is on the list of arenas; and the count of arenas is the
-- length of that list.
pub orphans_spare :
    (main : ℕ) (s : Pool) (a : ℕ)
    → PoolReach main s
    → (occurs a s.orphans ≤ 1)
      × (occurs a s.orphans ≡ 1 → (s.claimed a ≡ false) × (a ≢ s.main) × (occurs a s.arenas ≡ 1))
      × (s.count ≡ length s.arenas)
orphans_spare main s a r =
    let v = PoolReach-PoolOk main s r in
    let h = v.spoken_for a in
    let m = v.not_main in
    let l = v.listed a in
    let d = v.distinct a in
    (
      ground arith,
      λ e. (
        unset (s.claimed a) (omega arith),
        λ k. let z = ap (λ b. occurs b s.orphans) k in omega arith,
        omega arith,
      ),
      v.counted,
    )
