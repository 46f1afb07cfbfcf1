-- ===== src/Drain.antt =====
-- mm_remote_drain of src/mm_core.c: the owner of an arena frees what other threads handed over. The
-- state is the owner's arena, and the ring is its queue.
pub mod Empty
use mars_memory_allocator.Base.{
  ℕ, zero, suc, ◌+◌, ◌-◌, ◌*◌, ◌/◌, ◌%◌, ◌^◌, ◌≤◌, ◌<◌, ◌≡◌, refl, sym, ap, ◌∙◌, ◌≢◌, ◌↔◌, ◌⊎◌, inl,
  inr, Bool, true, false, not, ◌&&◌, ◌||◌, Option, none, some, List, [], ◌∷◌, ◌++◌, arith, ltb, leb,
  ◌==◌, if◌then◌else◌, ltb→lt, lt→ltb, leb→le, le→leb, eq→==, ==_iff, Bool-cases, Option-cases,
  length, get_or, length-append,
}
use mars_memory_allocator.Platform.{Platform}
use mars_memory_allocator.Layout.{Profile}
use mars_memory_allocator.State.{State, fail}
use mars_memory_allocator.Remote.{Ring, remote_pop, remote_slots}
use mars_memory_allocator.Alloc.{free_unlocked}

module _ (os : Platform) (p : Profile) where
  -- the loop of mm_remote_drain, for at most `rounds` pointers
  unfoldable pub drain_from : ℕ → Ring → State → Ring × State
  drain_from zero r st = (r, st)
  drain_from (suc rounds) r st =
      let (ptr, r1) = remote_pop r in
      let rest = drain_from rounds r1 (free_unlocked os p st ptr) in
      if ptr == 0 then (r1, st) else rest

  -- mm_remote_drain; the queue holds no more than its slots, and one more round finds it empty
  unfoldable pub remote_drain : Ring → State → Ring × State
  unfolding drain_from
  remote_drain r st =
      let (r1, st1) = drain_from (remote_slots + 1) r st in (r1, fail st.last_error st1)
