-- ===== src/Scrub/Budget.antt =====
-- How much one patrol looks at.
use mars_memory_allocator.Base.{ℕ, zero, suc, ◌+◌, Bool, ◌||◌, ltb, if◌then◌else◌}
use mars_memory_allocator.Layout.{Profile}
use mars_memory_allocator.Check.{header_ok, is_block}
use mars_memory_allocator.Recovery.{rescue}
use mars_memory_allocator.Scrub.{patrol_step, Patrol, next_lap}
use mars_memory_allocator.State.{State}

module _ (p : Profile) where
  -- whether one pass of the loop's body hands a block to scrub_block: the header at the cursor is
  -- accepted, if need be after its rescue
  unfoldable pub reaches : State → Patrol → Bool
  reaches st pt =
      let at = (next_lap p st pt).at in
      let st1 = if is_block p st at then (rescue p st at).1 else st in
      header_ok p st at || header_ok p st1 at

  -- how many blocks the loop hands to scrub_block, counted along its passes
  unfoldable pub handed : ℕ → ℕ → State → Patrol → ℕ
  handed zero budget st pt = 0
  handed (suc guard) budget st pt =
      let rest = handed guard budget (patrol_step p st pt).1 (patrol_step p st pt).0 in
      if ltb pt.visited budget then (if reaches st pt then 1 else 0) + rest else 0
