-- ===== src/Access/RoundTrip.antt =====
-- A write through mm_write is read back by mm_read.
use mars_memory_allocator.Base.{
  ℕ, ◌+◌, ◌≤◌, ◌≡◌, refl, sym, ◌∙◌, ◌≢◌, inl, inr, true, false, some, List, arith, Bool-cases,
  length,
}
use mars_memory_allocator.Layout.{Profile, has_crc}
use mars_memory_allocator.State.{State, ok, is_libc}
use mars_memory_allocator.Access.{read, payload_sum, write}
use mars_memory_allocator.Block.{requested_size, payload_of}
use mars_memory_allocator.Access.Frame.{Live, header_ok-is_block}
use mars_memory_allocator.Locate.{block_of}
use mars_memory_allocator.Memory.Laws.{read_bytes-write_bytes}
use mars_memory_allocator.Access.Reseal.{
  resealed, resealed-Live, resealed-word, resealed_state, resealed-payload_crc, resealed-payload,
  resealed-payload_sum,
}
use mars_memory_allocator.Locate.Sound.{moved}
use mars_memory_allocator.Access.Steps.{
  written, read_back, write_frame_Live, write-value, written-requested, finish_write-crc,
  finish_write-plain,
}

module _ (p : Profile) where
  plain-Returns :
      (st : State) (ptr offset : ℕ) (src : List ℕ)
      → has_crc p ≡ false
      → (block_of p st ptr).0 ≢ 0
      → Live p st (block_of p st ptr).0
      → offset + length src ≤ requested_size p st.mem (block_of p st ptr).0
      → (read p
          (moved st (written p st (block_of p st ptr).0 offset src) ok)
          ptr
          offset
          (length src)).0
        ≡ some src
  plain-Returns st ptr offset src e n l k =
      let b = (block_of p st ptr).0 in
      let m = written p st b offset src in
      read_back p st ptr offset src m n (write_frame_Live p st b offset src l k)
        (rw (written-requested p st b offset src k) k) (λ c. ground arith)
        (read_bytes-write_bytes src st.mem (payload_of p b + offset))

  resealed-Returns :
      (st : State) (ptr offset : ℕ) (src : List ℕ)
      → has_crc p ≡ true
      → (block_of p st ptr).0 ≢ 0
      → Live p st (block_of p st ptr).0
      → offset + length src ≤ requested_size p st.mem (block_of p st ptr).0
      → (read p
          (resealed p
            (moved st (written p st (block_of p st ptr).0 offset src) ok)
            (block_of p st ptr).0)
          ptr
          offset
          (length src)).0
        ≡ some src
  resealed-Returns st ptr offset src e n l k =
      let b = (block_of p st ptr).0 in
      let s1 = moved st (written p st b offset src) ok in
      let l1 = write_frame_Live p st b offset src l k in
      let h1 = header_ok-is_block p s1 b l1.accepted in
      let l2 = resealed-Live p s1 b e h1 l1 in
      let m = (resealed p s1 b).mem in
      let k1 : offset + length src ≤ requested_size p s1.mem b =
        rw (written-requested p st b offset src k) k in
      let w = resealed-word p s1 b h1 in
      let req : requested_size p m b ≡ requested_size p s1.mem b = rw w refl in
      let whole : payload_sum p m b ≡ payload_sum p s1.mem b =
        resealed-payload_sum p s1 b e h1 l1.room in
      let back =
        read_back p st ptr offset src m n (rw (resealed_state p s1 b) at l2) (rw req k1)
          (λ c. resealed-payload_crc p s1 b h1 ∙ sym whole)
          (resealed-payload p s1 b (payload_of p b + offset) (length src) e l1.room (omega arith)
              (omega arith)
            ∙ read_bytes-write_bytes src st.mem (payload_of p b + offset)) in
      rw (resealed_state p s1 b) back

  -- Under the managed mode, a write inside the payload of a live block, through a pointer that
  -- block_of finds, returns the number of bytes, and a read of the same range then returns exactly
  -- the bytes written. It holds in all three profiles, of any block that is accepted, in use, not
  -- quarantined, with an intact canary and room for its trailer.
  pub read-write :
      (st : State) (ptr offset : ℕ) (src : List ℕ)
      → is_libc st.mode ≡ false
      → (block_of p st ptr).0 ≢ 0
      → Live p st (block_of p st ptr).0
      → offset + length src ≤ requested_size p st.mem (block_of p st ptr).0
      → ((write p st ptr offset src).0 ≡ some (length src))
        × ((read p (write p st ptr offset src).1 ptr offset (length src)).0 ≡ some src)
  read-write st ptr offset src g n l k =
      let b = (block_of p st ptr).0 in
      let s1 = moved st (written p st b offset src) ok in
      let c = (write_frame_Live p st b offset src l k).canary_intact in
      let n' = length src in
      rw (write-value p st ptr offset src n l k) (elim (Bool-cases (has_crc p)) [
        | inl e ↦
            rw (finish_write-crc p s1 b n' e g c) (refl, resealed-Returns st ptr offset src e n l k)
        | inr e ↦
            rw (finish_write-plain p s1 b n' e c) (refl, plain-Returns st ptr offset src e n l k)
      ])
