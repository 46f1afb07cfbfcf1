-- ===== src/Access/Steps.antt =====
-- What mm_write and mm_read do on a live block, step by step.
use mars_memory_allocator.Base.{
  ℕ, ◌+◌, ◌-◌, ◌≤◌, ◌≡◌, refl, ap, ◌∙◌, ◌≢◌, inl, inr, true, false, not, ◌&&◌, some, List, arith,
  ltb, ◌==◌, length,
}
use mars_memory_allocator.Layout.{Profile, has_crc}
use mars_memory_allocator.State.{State, clear_error, ok, is_libc}
use mars_memory_allocator.Access.{
  checked_block, checked_live, read, read_unlocked, payload_sum, write, write_unlocked,
  finish_write, payload_crc_live,
}
use mars_memory_allocator.Block.{requested_size, payload_of, payload_crc}
use mars_memory_allocator.Access.Frame.{
  SameFrame, Live, clear_error-Live, header_ok-is_block, SameFrame-Live,
}
use mars_memory_allocator.Locate.{block_of}
use mars_memory_allocator.Memory.{write_bytes, read_bytes, Mem}
use mars_memory_allocator.Memory.Laws.{load-write_bytes-Apart}
use mars_memory_allocator.Layout.Geometry.{hdr_size-ge}
use mars_memory_allocator.Access.Reseal.{hdr_size_of_crc, resealed}
use mars_memory_allocator.Check.{canary_at, canary_ok}
use mars_memory_allocator.Locate.Sound.{moved, block_of-moved}

module _ (p : Profile) where
  checked_block-Live :
      (st : State) (ptr offset len b : ℕ)
      → b ≢ 0
      → block_of p st ptr ≡ (b, st)
      → Live p st b
      → offset + len ≤ requested_size p st.mem b
      → checked_block p st ptr offset len ≡ (b, st)
  unfolding checked_block checked_live
  checked_block-Live st ptr offset len b n e l k =
      let o : ltb (requested_size p st.mem b) offset ≡ false = ground arith in
      let q : ltb (requested_size p st.mem b - offset) len ≡ false = ground arith in
      let z : (b == 0) ≡ false = ground arith in
      rw (e, z, l.accepted, l.not_quarantined, l.used, l.canary_intact, o, q) refl

  write_frame :
      (st : State) (b offset : ℕ) (src : List ℕ)
      → offset + length src ≤ requested_size p st.mem b
      → SameFrame p st b (write_bytes st.mem (payload_of p b + offset) src)
  write_frame st b offset src k =
      let a = payload_of p b + offset in
      record {
        word_same = load-write_bytes-Apart 8 src st.mem a b (inr (omega (arith, hdr_size-ge p)));
        hdr_same = λ e.
            load-write_bytes-Apart 4 src st.mem a (b + 8)
              (inr (omega (arith, hdr_size_of_crc p e)));
        sum_same = λ e.
            load-write_bytes-Apart 4 src st.mem a (b + 12)
              (inr (omega (arith, hdr_size_of_crc p e)));
        canary_same =
            λ e. load-write_bytes-Apart 8 src st.mem a (canary_at p st.mem b) (inl (omega arith));
      }

  read-Live :
      (st : State) (ptr offset len b : ℕ)
      → b ≢ 0
      → block_of p (clear_error st) ptr ≡ (b, clear_error st)
      → Live p (clear_error st) b
      → offset + len ≤ requested_size p st.mem b
      → (has_crc p ≡ true → payload_crc st.mem b ≡ payload_sum p st.mem b)
      → (read p st ptr offset len).0 ≡ some (read_bytes len st.mem (payload_of p b + offset))
  unfolding read read_unlocked
  read-Live st ptr offset len b n e l k c =
      let z : (b == 0) ≡ false = ground arith in
      let check : (has_crc p
            && not (payload_crc st.mem b == 0)
            && not (payload_sum p st.mem b == payload_crc st.mem b))
          ≡ false =
        ground (arith, c) in
      rw (checked_block-Live (clear_error st) ptr offset len b n e l k, z, check) refl

  -- the state that a write ends in, read back
  pub read_back :
      (st : State) (ptr offset : ℕ) (src : List ℕ) (m : Mem)
      → (block_of p st ptr).0 ≢ 0
      → Live p (moved st m ok) (block_of p st ptr).0
      → offset + length src ≤ requested_size p m (block_of p st ptr).0
      → (has_crc p ≡ true
          → payload_crc m (block_of p st ptr).0 ≡ payload_sum p m (block_of p st ptr).0)
      → read_bytes (length src) m (payload_of p (block_of p st ptr).0 + offset) ≡ src
      → (read p (moved st m ok) ptr offset (length src)).0 ≡ some src
  read_back st ptr offset src m n l k c r =
      let b = (block_of p st ptr).0 in
      let e = block_of-moved p st ptr m ok n (header_ok-is_block p (moved st m ok) b l.accepted) in
      read-Live (moved st m ok) ptr offset (length src) b n e l k c ∙ ap some r

  -- the memory with the bytes in
  abbrev pub written : State → ℕ → ℕ → List ℕ → Mem
  written st b offset src = write_bytes st.mem (payload_of p b + offset) src

  pub write-value :
      (st : State) (ptr offset : ℕ) (src : List ℕ)
      → (block_of p st ptr).0 ≢ 0
      → Live p st (block_of p st ptr).0
      → offset + length src ≤ requested_size p st.mem (block_of p st ptr).0
      → write p st ptr offset src
        ≡ finish_write p
            (moved st (written st (block_of p st ptr).0 offset src) ok)
            (block_of p st ptr).0
            (length src)
  unfolding write write_unlocked
  write-value st ptr offset src n l k =
      let b = (block_of p st ptr).0 in
      let l0 = clear_error-Live p st b l in
      let e =
        block_of-moved p st ptr st.mem ok n (header_ok-is_block p (clear_error st) b l0.accepted) in
      let z : (b == 0) ≡ false = ground arith in
      rw (checked_block-Live (clear_error st) ptr offset (length src) b n e l0 k, z) refl

  -- a write to a live block under the managed mode returns the length, and leaves these bytes
  pub write_frame_Live :
      (st : State) (b offset : ℕ) (src : List ℕ)
      → Live p st b
      → offset + length src ≤ requested_size p st.mem b
      → Live p (moved st (written st b offset src) ok) b
  write_frame_Live st b offset src l k =
      SameFrame-Live p (clear_error st) b (written st b offset src)
        (write_frame (clear_error st) b offset src k) (clear_error-Live p st b l)

  -- the word of a block stays under a write into its payload
  pub written-requested :
      (st : State) (b offset : ℕ) (src : List ℕ)
      → offset + length src ≤ requested_size p st.mem b
      → requested_size p (written st b offset src) b ≡ requested_size p st.mem b
  written-requested st b offset src k =
      let w = (write_frame st b offset src k).word_same in rw w refl

  pub finish_write-crc :
      (s : State) (b n : ℕ)
      → has_crc p ≡ true
      → is_libc s.mode ≡ false
      → canary_ok p s b ≡ true
      → finish_write p s b n ≡ (some n, resealed p s b)
  unfolding finish_write payload_crc_live
  finish_write-crc s b n e g c = rw (c, g, e) refl

  pub finish_write-plain :
      (s : State) (b n : ℕ)
      → has_crc p ≡ false
      → canary_ok p s b ≡ true
      → finish_write p s b n ≡ (some n, s)
  unfolding finish_write payload_crc_live
  finish_write-plain s b n e c = rw (c, e) refl
