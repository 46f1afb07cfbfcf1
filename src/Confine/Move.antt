-- ===== src/Confine/Move.antt =====
-- The way mm_realloc of src/mm_core.c moves a block, in a profile without canaries: it writes only
-- inside the spans, whatever the blocks hold.
use mars_memory_allocator.Base.{
  ℕ, ◌≤◌, ◌≡◌, refl, inl, inr, true, false, arith, ◌==◌, Bool-cases, ltb, if◌then◌else◌,
}
use mars_memory_allocator.Layout.{Profile, has_canary}
use mars_memory_allocator.Platform.{Platform}
use mars_memory_allocator.Memory.{copy}
use mars_memory_allocator.State.{State, with_mem}
use mars_memory_allocator.Check.{seal, is_block}
use mars_memory_allocator.Block.{payload_of}
use mars_memory_allocator.Locate.{block_of}
use mars_memory_allocator.Locate.Sound.{block_of_sound}
use mars_memory_allocator.Alloc.{malloc, free_unlocked}
use mars_memory_allocator.Resize.{move_block}
use mars_memory_allocator.Confine.{InSpan, InSpan-step, copy-Confined}
use mars_memory_allocator.Confine.Safe.{Safe, Safe-trans, copy-IsMem, Spans-step}
use mars_memory_allocator.Confine.Link.{seal-Kept}
use mars_memory_allocator.Confine.Free.{AllUser, AllUser-step, block_of-Runs, free_unlocked-Safe}
use mars_memory_allocator.Confine.Fresh.{UserArena}
use mars_memory_allocator.Confine.Malloc.{malloc-Safe}
use mars_memory_allocator.Confine.Hands.{malloc-Hands}
use mars_memory_allocator.Confine.Settle.{nothing_carried}

copied-Safe :
    (st : State) (n dst src b : ℕ)
    → InSpan st b dst n
    → Safe st (with_mem st (copy n st.mem dst src))
copied-Safe st n dst src b i = record {
  confined = copy-Confined st n dst src b i;
  bytes = copy-IsMem n st.mem dst src;
}

shorter : {st : State} {b a n : ℕ} (k : ℕ) → k ≤ n → InSpan st b a n → InSpan st b a k
shorter k l i = record { found = i.found; above = i.above; below = omega (arith, i.below) }

module _ (os : Platform) (p : Profile) where
  -- the copy of a block into the one that was allocated for it
  copied_over :
      (st : State) (fresh b size carry : ℕ)
      → UserArena os p st
      → has_canary p ≡ false
      → fresh ≡ (malloc os p st size).0
      → (fresh == 0) ≡ false
      → carry ≤ size
      → let st1 = (malloc os p st size).1 in
        Safe st (with_mem st1 (copy carry st1.mem fresh (payload_of p b)))
  unfolding malloc
  copied_over st fresh b size carry w c e n l =
      let st1 = (malloc os p st size).1 in
      let a = malloc-Safe os p st size w c in
      elim (malloc-Hands os p st size w) [
        | inl z ↦ absurd (ground (arith, e, z))
        | inr (q, i) ↦
            let j = shorter carry l (rw e i) in
            Safe-trans a (copied-Safe st1 carry fresh (payload_of p b) q (InSpan-step a.confined j))
      ]

  pub freed-Safe :
      (st st' : State) (ptr : ℕ)
      → Safe st st'
      → UserArena os p st
      → AllUser st
      → Safe st' (free_unlocked os p st' ptr)
  freed-Safe st st' ptr s w u =
      free_unlocked-Safe os p st' ptr (Spans-step s.confined w.spans) (s.bytes w.bytes)
        (AllUser-step s.confined u)

  -- the fallback: allocate, copy, release
  pub move_block-Safe :
      (st : State) (ptr b old_size old_sum new_size : ℕ)
      → UserArena os p st
      → AllUser st
      → has_canary p ≡ false
      → Safe st (move_block os p st ptr b old_size old_sum new_size).1
  unfolding move_block malloc
  move_block-Safe st ptr b old_size old_sum new_size w u c =
      let fresh = (malloc os p st new_size).0 in
      let st1 = (malloc os p st new_size).1 in
      let carry = if ltb old_size new_size then old_size else new_size in
      let st2 = with_mem st1 (copy carry st1.mem fresh (payload_of p b)) in
      let at = (block_of p st2 fresh).0 in
      let st3 = (block_of p st2 fresh).1 in
      elim (Bool-cases (fresh == 0)) [
        | inl e ↦ rw e (malloc-Safe os p st new_size w c)
        | inr e ↦
            let d = copied_over st fresh b new_size carry w c refl e (ground arith) in
            let dr = Safe-trans d (block_of-Runs p st2 fresh).safe in
            elim (Bool-cases (at == 0)) [
              | inl f ↦ rw (e, f) (Safe-trans dr (freed-Safe st st3 ptr dr w u))
              | inr f ↦
                  let sound = block_of_sound p st2 fresh (ground arith) in
                  let h : is_block p st3 at ≡ true = rw sound.2 (sound.1) in
                  let k = Safe-trans dr (seal-Kept p st3 at h).safe in
                  rw (e, f, nothing_carried p st3 at carry old_sum new_size c)
                    (Safe-trans k (freed-Safe st (seal p st3 at) ptr k w u))
            ]
      ]
