-- ===== src/Drain/Empty.antt =====
-- Draining the queue of remote frees empties it.
use mars_memory_allocator.Base.{ℕ, ◌≢◌, List, [], ◌∷◌}
use mars_memory_allocator.Platform.{Platform}
use mars_memory_allocator.State.{State}
use mars_memory_allocator.Remote.Inv.{Inv}

-- no pointer of the list is NULL
unfoldable pub NoNull : List ℕ → Type 0
NoNull [] = Unit
NoNull (x ∷ xs) = (x ≢ 0) × NoNull xs
