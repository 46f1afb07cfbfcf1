-- ===== src/Confine/Write.antt =====
-- mm_write keeps the promise: it writes only inside the span of its block.
use mars_memory_allocator.Base.{
  ℕ, ◌+◌, ◌≤◌, ◌≡◌, refl, ◌≢◌, inl, inr, true, false, List, arith, Bool-cases, length,
}
use mars_memory_allocator.Confine.Seal.{
  seal-Confined, is_block-InSpan, is_block-bounds, min_block-ge,
}
use mars_memory_allocator.Access.Frame.{Live, header_ok-is_block}
use mars_memory_allocator.Layout.{Profile, has_crc}
use mars_memory_allocator.State.{State, is_libc, ok, with_mem}
use mars_memory_allocator.Confine.{InSpan, Confined, OutsideSpans, Confined-trans, store-Confined}
use mars_memory_allocator.Check.{is_block}
use mars_memory_allocator.Locate.{block_of}
use mars_memory_allocator.Memory.Laws.{Outside, write_bytes-Outside}
use mars_memory_allocator.Locate.Sound.{moved}
use mars_memory_allocator.Block.{requested_size, payload_of}
use mars_memory_allocator.Access.Reseal.{resealed, summed, summed-is_block}
use mars_memory_allocator.Access.{write, payload_sum}
use mars_memory_allocator.Memory.{write_bytes}
use mars_memory_allocator.Access.Steps.{
  written, write_frame_Live, write-value, finish_write-crc, finish_write-plain,
}

InSpan-Outside :
    {st : State} {b a n : ℕ} (x : ℕ) → InSpan st b a n → OutsideSpans st x → Outside a n x
InSpan-Outside {b = b} x i h = omega (arith, h b i.found, i.above, i.below)

bytes-Confined :
    (st : State) (b a : ℕ) (src : List ℕ)
    → InSpan st b a (length src)
    → Confined st (moved st (write_bytes st.mem a src) ok)
bytes-Confined st b a src i = record {
  same_desc = refl;
  same_user = refl;
  same_index = refl;
  same_spans = refl;
  same_count = refl;
  outside = λ x h. write_bytes-Outside src st.mem a x (InSpan-Outside x i h);
}

module _ (p : Profile) where
  resealed-Confined : (st : State) (b : ℕ) → is_block p st b ≡ true → Confined st (resealed p st b)
  resealed-Confined st b h =
      let i =
        is_block-InSpan p st b (b + 12) 4 h (omega arith)
          (omega (arith, (is_block-bounds p st b h).1, min_block-ge p)) in
      Confined-trans (store-Confined st 4 (b + 12) (payload_sum p st.mem b) b i)
        (seal-Confined p (with_mem st (summed p st b)) b (summed-is_block p st b h))

  -- Under the managed mode, a write inside the payload of a live block, through a pointer that
  -- block_of finds, changes no byte that lies outside every span and leaves the registry of spans
  -- alone, in all three profiles: neither the bytes, nor the checksum, nor the tail mirror leave
  -- the block's span.
  pub write-Confined :
      (st : State) (ptr offset : ℕ) (src : List ℕ)
      → is_libc st.mode ≡ false
      → (block_of p st ptr).0 ≢ 0
      → Live p st (block_of p st ptr).0
      → offset + length src ≤ requested_size p st.mem (block_of p st ptr).0
      → Confined st (write p st ptr offset src).1
  write-Confined st ptr offset src g n l k =
      let b = (block_of p st ptr).0 in
      let s1 = moved st (written p st b offset src) ok in
      let h = header_ok-is_block p st b l.accepted in
      let l1 = write_frame_Live p st b offset src l k in
      let room = l.room in
      let i =
        is_block-InSpan p st b (payload_of p b + offset) (length src) h (omega arith)
          (omega arith) in
      let put = bytes-Confined st b (payload_of p b + offset) src i in
      let n' = length src in
      rw (write-value p st ptr offset src n l k) (elim (Bool-cases (has_crc p)) [
        | inl e ↦
            rw (finish_write-crc p s1 b n' e g l1.canary_intact)
              (Confined-trans put (resealed-Confined s1 b (header_ok-is_block p s1 b l1.accepted)))
        | inr e ↦ rw (finish_write-plain p s1 b n' e l1.canary_intact) put
      ])
