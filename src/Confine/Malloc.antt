-- ===== src/Confine/Malloc.antt =====
-- mm_malloc of src/mm_core.c in the arena that mm_init makes, in a profile without canaries: it writes
-- only inside the caller's span, whatever the blocks hold.
use mars_memory_allocator.Base.{
  ℕ, ◌+◌, ◌%◌, ◌≤◌, ◌≡◌, refl, inl, inr, true, false, arith, ◌==◌, Bool-cases,
}
use mars_memory_allocator.Layout.{Profile, size_for, min_block, has_canary}
use mars_memory_allocator.Layout.Word
use mars_memory_allocator.Platform.{Platform}
use mars_memory_allocator.State.{
  State, Status, with_mem, fail, clear_error, arena_live, nomem, not_initialized, corrupt_links,
}
use mars_memory_allocator.Counters.{stat_note, stat_add, alloc, alloc_failed}
use mars_memory_allocator.Memory.Laws.{IsMem}
use mars_memory_allocator.Check.{is_block, seal, unchanged}
use mars_memory_allocator.Block.{word, block_size, set_word, set_payload_crc}
use mars_memory_allocator.FreeList.{bin_remove}
use mars_memory_allocator.FreeList.Find.{Serves}
use mars_memory_allocator.Recovery.{quarantine_block}
use mars_memory_allocator.Coalesce.{split_block, finish_allocation}
use mars_memory_allocator.Scrub.{scrub_tick}
use mars_memory_allocator.Alloc.{find_block, hand_out, carve, malloc_fresh, malloc}
use mars_memory_allocator.Confine.{Confined}
use mars_memory_allocator.Confine.Seal.{min_block-ge}
use mars_memory_allocator.Confine.Lists.{bin_remove-Safe}
use mars_memory_allocator.Confine.Push.{header_ok-Starts}
use mars_memory_allocator.Confine.Safe.{
  Safe, Safe-refl, Safe-trans, unmoved, Spans, Spans-step, Starts-step, Starts-InSpan,
  is_block-Starts,
}
use mars_memory_allocator.Confine.Abandon.{payload_crc_after, block_size-set_word}
use mars_memory_allocator.Confine.Mirror.{size_units}
use mars_memory_allocator.Confine.Quarantine.{quarantine_block-Safe}
use mars_memory_allocator.Confine.Join.{unchanged-is_block}
use mars_memory_allocator.Confine.Patrol.{scrub_tick-Safe}
use mars_memory_allocator.Confine.Split.{
  part-Room, worded-sealed, split_block-Safe, finish_allocation-Safe,
}
use mars_memory_allocator.Confine.Find.{find_block-Finds}
use mars_memory_allocator.Confine.Fresh.{NoneFresh, NoneFresh-step, need-Fits, not_fresh, UserArena}

module _ (os : Platform) (p : Profile) where
  hand_out-Safe :
      (st : State) (b found need size : ℕ)
      → Spans st
      → IsMem st.mem
      → has_canary p ≡ false
      → is_block p st b ≡ true
      → block_size st.mem b ≡ found
      → need % 16 ≡ 0
      → min_block p ≤ need
      → need ≤ found
      → Safe st (hand_out os p st b found need size).1
  unfolding hand_out
  hand_out-Safe st b found need size s m c h e u l k =
      let units = size_units (word st.mem b) in
      let room =
        part-Room p st b b found s h (omega arith) (omega arith) (omega arith) (omega arith)
          (omega arith) in
      let w = Word.set_word (word st.mem b) found 0 true false in
      let q = block_size-set_word p st.mem b found 0 true false room.extent (omega arith) in
      let a = worded-sealed p st b found w room q.0 in
      let st1 = seal p (with_mem st (set_word st.mem b found 0 true false)) b in
      let ka = a.0 in
      let size1 = a.2 in
      let d =
        split_block-Safe p st1 b need (Spans-step ka.confined s) (ka.bytes m) a.1 u l
          (omega arith) in
      let st2 = split_block p st1 b need in
      let ad = Safe-trans ka d in
      let starts = Starts-step p b ad.confined (is_block-Starts p st b h) in
      let g = min_block-ge p in
      let i = Starts-InSpan p st2 b (b + 12) 4 starts (omega arith) (omega arith) in
      let x = payload_crc_after p st2 st2.mem b 0 (Safe-refl st2) i in
      let adx = Safe-trans ad x in
      let st2' = with_mem st2 (set_payload_crc p st2.mem b 0) in
      let y =
        finish_allocation-Safe p st2' b size (Spans-step adx.confined s) (adx.bytes m) c
          (Starts-step p b x.confined starts) in
      let st3 = (finish_allocation p st2' b size).1 in
      let st4 = stat_add p b (stat_note alloc size st3) in
      let z = Safe-trans adx y in
      let z4 = Safe-trans z (unmoved st3 st4 refl refl refl refl refl refl) in
      elim (Bool-cases (finish_allocation p st2' b size).0) [
        | inr f ↦ rw f (Safe-trans z (scrub_tick-Safe p st3 (Spans-step z.confined s) (z.bytes m)))
        | inl f ↦
            rw f (Safe-trans z4 (scrub_tick-Safe p st4 (Spans-step z4.confined s) (z4.bytes m)))
      ]

  carve-Safe :
      (st : State) (b need size : ℕ)
      → Spans st
      → IsMem st.mem
      → NoneFresh st
      → has_canary p ≡ false
      → Serves p st need b
      → need % 16 ≡ 0
      → min_block p ≤ need
      → Safe st (carve os p st b need size).2
  unfolding carve
  carve-Safe st b need size s m n c v u l =
      let found = block_size st.mem b in
      let st1 = bin_remove p st b in
      let a = bin_remove-Safe p st b (header_ok-Starts p st b v.accepted) in
      let s1 = Spans-step a.confined s in
      let m1 = a.bytes m in
      let f = not_fresh os p st1 b (NoneFresh-step a.confined n) in
      let st2 = quarantine_block p st1 b in
      let st3 = fail corrupt_links st2 in
      let q =
        Safe-trans (quarantine_block-Safe p st1 b s1 m1)
          (unmoved st2 st3 refl refl refl refl refl refl) in
      let aq = Safe-trans a q in
      elim (Bool-cases (unchanged p st1 b found false)) [
        | inr e ↦
            rw e (Safe-trans aq (scrub_tick-Safe p st3 (Spans-step aq.confined s) (aq.bytes m)))
        | inl e ↦
            let x = unchanged-is_block p st1 b found false e in
            rw (e, f)
              (Safe-trans a (hand_out-Safe st1 b found need size s1 m1 c x.0 x.1 u l v.fits))
      ]

  refused-Safe :
      (st st' : State) → Safe st st' → Spans st → IsMem st.mem → Safe st (scrub_tick p st')
  refused-Safe st st' a s m =
      Safe-trans a (scrub_tick-Safe p st' (Spans-step a.confined s) (a.bytes m))

  pub malloc-Safe :
      (st : State) (size : ℕ)
      → UserArena os p st
      → has_canary p ≡ false
      → Safe st (malloc_fresh os p st size).2
  unfolding malloc_fresh
  malloc-Safe st size w c =
      let st0 = clear_error st in
      let z = unmoved st st0 refl refl refl refl refl refl in
      let s0 = Spans-step z.confined w.spans in
      let need = size_for p size in
      let plain = λ (e : Status). unmoved st (fail e st0) refl refl refl refl refl refl in
      elim (Bool-cases (arena_live st0)) [
        | inr e ↦ rw e (plain not_initialized)
        | inl e ↦ elim (Bool-cases (size == 0)) [
          | inl f ↦ rw (e, f) (plain nomem)
          | inr f ↦ elim (Bool-cases (need == 0)) [
            | inl g ↦ rw (e, f, g) (plain nomem)
            | inr g ↦
                let fits = need-Fits p size (ground arith) g in
                let r = find_block-Finds os p st0 need w.bitmap fits.4 w.fixed in
                let b = (find_block os p st0 need).0 in
                let st1 = (find_block os p st0 need).1 in
                let k = Safe-trans z r.safe in
                let s1 = Spans-step k.confined w.spans in
                let m1 = k.bytes w.bytes in
                let n1 = NoneFresh-step k.confined w.none_fresh in
                elim (Bool-cases (b == 0)) [
                  | inl h ↦
                      let st2 = fail nomem (stat_note alloc_failed 0 st1) in
                      let x = unmoved st1 st2 refl refl refl refl refl refl in
                      rw (e, f, g, h) (refused-Safe st st2 (Safe-trans k x) w.spans w.bytes)
                  | inr h ↦
                      let v : Serves p st1 need b = elim (r.serves) [ inl y ↦ cc | inr y ↦ y ] in
                      rw (e, f, g, h)
                        (Safe-trans k (carve-Safe st1 b need size s1 m1 n1 c v fits.0 fits.1))
                ]
          ]
        ]
      ]

  -- In an arena with a fixed set of spans, none of which promises zeroed memory, each of whole
  -- units and below 2^58 bytes and all apart from one another, with memory that holds bytes and a
  -- bitmap of machine words: in the profile without canaries, mm_malloc of any size changes no
  -- byte outside every span and leaves the registry of spans alone, whatever the headers, the
  -- links and the boundary tags hold.
  pub malloc-Confined :
      (st : State) (size : ℕ)
      → UserArena os p st
      → has_canary p ≡ false
      → Confined st (malloc os p st size).1
  unfolding malloc
  malloc-Confined st size w c = (malloc-Safe st size w c).confined
