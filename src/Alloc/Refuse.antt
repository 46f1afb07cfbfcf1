-- ===== src/Alloc/Refuse.antt =====
-- The requests that the allocation calls of src/mm_core.c refuse, and what refusing changes.
use mars_memory_allocator.Base.{ℕ, ◌+◌, ◌≤◌, ◌<◌, ◌≡◌, refl, ◌⊎◌, inl, inr, true, ◌==◌, Bool-cases}
use mars_memory_allocator.Layout.{Profile, size_max, hdr_size, trail, alignment, size_for}
use mars_memory_allocator.Platform.{Platform}
use mars_memory_allocator.Alloc.{malloc, malloc_fresh}
use mars_memory_allocator.State.{State, arena_live, clear_error, fail, nomem}
use mars_memory_allocator.Layout.Geometry.{size_for_zero}

module _ (os : Platform) (p : Profile) where
  -- While the arena holds memory, mm_malloc of 0 bytes, or of a size_t so large that its header,
  -- trailer and alignment overflow, returns NULL, reports that memory is short, and changes
  -- nothing else of the state.
  pub malloc_refused :
      (st : State) (size : ℕ)
      → arena_live st ≡ true
      → size ≤ size_max
      → (size ≡ 0) ⊎ (size_max < size + hdr_size p + trail p + alignment)
      → malloc os p st size ≡ (0, fail nomem (clear_error st))
  unfolding malloc malloc_fresh
  malloc_refused st size l k (inl z) = rw (l, z) refl
  malloc_refused st size l k (inr o) =
      let need : size_for p size ≡ 0 = (size_for_zero p size k).1 o in
      elim (Bool-cases (size == 0)) [ inl e ↦ rw (l, e) refl | inr e ↦ rw (l, e, need) refl ]
