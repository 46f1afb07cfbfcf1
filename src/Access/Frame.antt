-- ===== src/Access/Frame.antt =====
-- What a change of a block's payload leaves alone.
use mars_memory_allocator.Base.{
  ℕ, ◌+◌, ◌≤◌, ◌≡◌, refl, sym, ◌∙◌, inl, inr, true, false, arith, Bool-cases,
}
use mars_memory_allocator.Layout.{Profile, has_crc, has_canary, hdr_size, trail}
use mars_memory_allocator.State.{State, with_mem, clear_error}
use mars_memory_allocator.Check.{canary_ok, header_ok, canary_at, is_block}
use mars_memory_allocator.Block.{
  hdr_crc_of, is_used, is_quarantined, requested_size, block_size, hdr_crc,
}
use mars_memory_allocator.Memory.{Mem, load}
use mars_memory_allocator.Span.{block_index, index_in, span_of}
use mars_memory_allocator.Check.Seal.{header_ok_intro}

module _ (p : Profile) where
  -- A live block as finish_allocation leaves it: accepted, in use, its canary intact, and its
  -- payload followed by room for the trailer.
  pub record Live (st : State) (b : ℕ) : Type 0 where
    pub accepted : header_ok p st b ≡ true
    pub used : is_used st.mem b ≡ true
    pub not_quarantined : is_quarantined st.mem b ≡ false
    pub canary_intact : canary_ok p st b ≡ true
    pub room : hdr_size p + requested_size p st.mem b + trail p ≤ block_size st.mem b

  -- `m` agrees with the memory of `st` in the header and the canary of `b`
  pub record SameFrame (st : State) (b : ℕ) (m : Mem) : Type 0 where
    pub word_same : load 8 m b ≡ load 8 st.mem b
    pub hdr_same : has_crc p ≡ true → load 4 m (b + 8) ≡ load 4 st.mem (b + 8)
    pub sum_same : has_crc p ≡ true → load 4 m (b + 12) ≡ load 4 st.mem (b + 12)
    pub canary_same :
        has_canary p ≡ true → load 8 m (canary_at p st.mem b) ≡ load 8 st.mem (canary_at p st.mem b)

  hdr_crc_same :
      (st : State) (b : ℕ) (m : Mem) (index : ℕ)
      → load 8 m b ≡ load 8 st.mem b
      → load 4 m (b + 12) ≡ load 4 st.mem (b + 12)
      → hdr_crc_of m b index st.secret ≡ hdr_crc_of st.mem b index st.secret
  unfolding hdr_crc_of
  hdr_crc_same st b m index w s = rw (w, s) refl

  pub header_ok-is_block : (st : State) (b : ℕ) → header_ok p st b ≡ true → is_block p st b ≡ true
  unfolding header_ok is_block
  header_ok-is_block st b h = ground arith

  header_ok-hdr_crc :
      (st : State) (b : ℕ)
      → header_ok p st b ≡ true
      → has_crc p ≡ true
      → hdr_crc st.mem b ≡ hdr_crc_of st.mem b (index_in (st.desc (span_of st b)) b) st.secret
  unfolding header_ok
  header_ok-hdr_crc st b h e = ground arith

  -- An accepted header is accepted while its own bytes stay.
  pub header_ok_kept :
      (st : State) (b : ℕ) (m : Mem)
      → load 8 m b ≡ load 8 st.mem b
      → (has_crc p ≡ true → load 4 m (b + 8) ≡ load 4 st.mem (b + 8))
      → (has_crc p ≡ true → load 4 m (b + 12) ≡ load 4 st.mem (b + 12))
      → header_ok p st b ≡ true
      → header_ok p (with_mem st m) b ≡ true
  header_ok_kept st b m w c s h =
      let ix = index_in (st.desc (span_of st b)) b in
      header_ok_intro p st (with_mem st m) b (header_ok-is_block st b h)
        (record { desc_same = refl; user_same = refl; index_same = refl; secret_same = refl }) w
        (λ e. c e ∙ header_ok-hdr_crc st b h e ∙ sym (hdr_crc_same st b m ix w (s e)))

  block_index_mem :
      (st : State) (b : ℕ) (m : Mem) → block_index (with_mem st m) b ≡ block_index st b
  unfolding block_index span_of
  block_index_mem st b m = refl

  -- the check of a canary reads the control word and the canary
  pub canary_ok_same :
      (st : State) (b : ℕ) (m : Mem)
      → load 8 m b ≡ load 8 st.mem b
      → (has_canary p ≡ true
          → load 8 m (canary_at p st.mem b) ≡ load 8 st.mem (canary_at p st.mem b))
      → canary_ok p st b ≡ true
      → canary_ok p (with_mem st m) b ≡ true
  unfolding canary_ok
  canary_ok_same st b m w c h =
      let at : canary_at p m b ≡ canary_at p st.mem b = rw w refl in
      elim (Bool-cases (has_canary p)) [
        | inr e ↦ rw e refl
        | inl e ↦ rw (at, c e, w, block_index_mem st b m) h
      ]

  -- A live block stays live under a change of memory that keeps its frame.
  pub SameFrame-Live :
      (st : State) (b : ℕ) (m : Mem) → SameFrame st b m → Live st b → Live (with_mem st m) b
  SameFrame-Live st b m f l = record {
    accepted = header_ok_kept st b m f.word_same f.hdr_same f.sum_same l.accepted;
    used = rw f.word_same l.used;
    not_quarantined = rw f.word_same l.not_quarantined;
    canary_intact = canary_ok_same st b m f.word_same f.canary_same l.canary_intact;
    room = rw f.word_same l.room;
  }

  -- clearing the status changes nothing that a live block rests on
  pub clear_error-Live : (st : State) (b : ℕ) → Live st b → Live (clear_error st) b
  unfolding header_ok canary_ok block_index span_of
  clear_error-Live st b l = record {
    accepted = l.accepted;
    used = l.used;
    not_quarantined = l.not_quarantined;
    canary_intact = l.canary_intact;
    room = l.room;
  }
