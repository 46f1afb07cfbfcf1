-- ===== src/Confine/Hands.antt =====
-- What mm_malloc of src/mm_core.c hands out lies in a span, whatever the blocks hold.
use mars_memory_allocator.Base.{
  ℕ, ◌+◌, ◌≤◌, ◌≡◌, refl, inl, inr, true, false, arith, ◌==◌, Bool-cases, ◌⊎◌,
}
use mars_memory_allocator.Layout.{Profile, size_for, hdr_size}
use mars_memory_allocator.Platform.{Platform}
use mars_memory_allocator.State.{State, with_mem, clear_error, arena_live}
use mars_memory_allocator.Check.{unchanged, seal}
use mars_memory_allocator.Block.{block_size, payload_of, set_word, set_payload_crc}
use mars_memory_allocator.FreeList.{bin_remove}
use mars_memory_allocator.FreeList.Find.{Serves}
use mars_memory_allocator.Coalesce.{split_block, finish_allocation}
use mars_memory_allocator.Alloc.{find_block, hand_out, carve, malloc_fresh, malloc}
use mars_memory_allocator.Confine.{InSpan, Confined, Confined-span_of}
use mars_memory_allocator.Confine.Seal.{is_block-InSpan}
use mars_memory_allocator.Confine.Lists.{bin_remove-Safe}
use mars_memory_allocator.Confine.Push.{header_ok-Starts}
use mars_memory_allocator.Confine.Safe.{Safe-trans, unmoved}
use mars_memory_allocator.Confine.Join.{unchanged-is_block}
use mars_memory_allocator.Confine.Find.{find_block-Finds}
use mars_memory_allocator.Confine.Fresh.{NoneFresh, NoneFresh-step, need-Fits, not_fresh, UserArena}

-- NULL, or the address of that many bytes of one span
abbrev pub Hands : State → (size ptr : ℕ) → Type 0
Hands st size ptr = (ptr ≡ 0) ⊎ ((b : ℕ) × InSpan st b ptr size)

-- A step that leaves the registry alone did so from its end as well.
InSpan-back : {st st' : State} {b a n : ℕ} → Confined st st' → InSpan st' b a n → InSpan st b a n
InSpan-back {b = b} c i = record {
  found = rw (← Confined-span_of c b) i.found;
  above = rw (← Confined-span_of c b, ← c.same_desc) i.above;
  below = rw (← Confined-span_of c b, ← c.same_desc) i.below;
}

Hands-back :
    {st st' : State} {size ptr : ℕ} → Confined st st' → Hands st' size ptr → Hands st size ptr
Hands-back c (inl z) = inl z
Hands-back c (inr (b, i)) = inr (b, InSpan-back c i)

module _ (os : Platform) (p : Profile) where
  hand_out-at :
      (st : State) (b found need size : ℕ)
      → ((hand_out os p st b found need size).0 ≡ 0)
        ⊎ ((hand_out os p st b found need size).0 ≡ payload_of p b)
  unfolding hand_out
  hand_out-at st b found need size =
      let st1 = seal p (with_mem st (set_word st.mem b found 0 true false)) b in
      let st2 = split_block p st1 b need in
      let r = finish_allocation p (with_mem st2 (set_payload_crc p st2.mem b 0)) b size in
      elim (Bool-cases r.0) [ inl e ↦ rw e (inr refl) | inr e ↦ rw e (inl refl) ]

  carve-Hands :
      (st : State) (b need size : ℕ)
      → NoneFresh st
      → Serves p st need b
      → size + hdr_size p ≤ need
      → Hands st size (carve os p st b need size).0
  unfolding carve
  carve-Hands st b need size n v k =
      let found = block_size st.mem b in
      let st1 = bin_remove p st b in
      let a = bin_remove-Safe p st b (header_ok-Starts p st b v.accepted) in
      let f = not_fresh os p st1 b (NoneFresh-step a.confined n) in
      elim (Bool-cases (unchanged p st1 b found false)) [
        | inr e ↦ rw e (inl refl)
        | inl e ↦
            let x = unchanged-is_block p st1 b found false e in
            let fits = v.fits in
            let i =
              is_block-InSpan p st1 b (payload_of p b) size x.0 (omega arith)
                (omega (arith, x.1)) in
            rw (e, f)
              (elim (hand_out-at st1 b found need size) [
                | inl z ↦ inl z
                | inr at ↦ inr (b, rw at (InSpan-back a.confined i))
              ])
      ]

  -- In an arena with a fixed set of spans, of which none promises zeroed memory, each of whole
  -- units and below 2^58 bytes and all apart from one another, with memory that holds bytes and a
  -- bitmap of machine words: in all three profiles, mm_malloc of any size returns NULL or the
  -- address of that many bytes that lie whole in one span, whatever the headers, the links and the
  -- boundary tags hold.
  pub malloc-Hands :
      (st : State) (size : ℕ) → UserArena os p st → Hands st size (malloc os p st size).0
  unfolding malloc malloc_fresh
  malloc-Hands st size w =
      let st0 = clear_error st in
      let need = size_for p size in
      elim (Bool-cases (arena_live st0)) [
        | inr e ↦ rw e (inl refl)
        | inl e ↦ elim (Bool-cases (size == 0)) [
          | inl f ↦ rw (e, f) (inl refl)
          | inr f ↦ elim (Bool-cases (need == 0)) [
            | inl g ↦ rw (e, f, g) (inl refl)
            | inr g ↦
                let fits = need-Fits p size (ground arith) g in
                let r = find_block-Finds os p st0 need w.bitmap fits.4 w.fixed in
                let b = (find_block os p st0 need).0 in
                let st1 = (find_block os p st0 need).1 in
                let z = unmoved st st0 refl refl refl refl refl refl in
                let c = (Safe-trans z r.safe).confined in
                let n1 = NoneFresh-step c w.none_fresh in
                elim (Bool-cases (b == 0)) [
                  | inl h ↦ rw (e, f, g, h) (inl refl)
                  | inr h ↦
                      let v : Serves p st1 need b = elim (r.serves) [ inl y ↦ cc | inr y ↦ y ] in
                      rw (e, f, g, h)
                        (Hands-back c (carve-Hands st1 b need size n1 v (omega (arith, fits.2))))
                ]
          ]
        ]
      ]
