-- ===== src/Check/Seal.antt =====
-- What sealing a block establishes.
use mars_memory_allocator.Base.{
  ℕ, ◌+◌, ◌-◌, ◌^◌, ◌≤◌, ◌<◌, ◌≡◌, refl, sym, ap, ◌∙◌, ◌≢◌, inl, inr, true, ◌&&◌, arith, eq→==,
  Bool-cases,
}
use mars_memory_allocator.Layout.{
  fast, hardened, paranoid, Profile, has_crc, min_block, has_mirror, hdr_size, mirror_size,
}
use mars_memory_allocator.Memory.{Mem, load, store}
use mars_memory_allocator.Memory.Laws.{load-store, load-store-Apart, load-copy-Apart}
use mars_memory_allocator.Crc.Laws.{crc32c-lt}
use mars_memory_allocator.State.{State, with_mem}
use mars_memory_allocator.Span.{span_of, block_index, index_in}
use mars_memory_allocator.Block.{
  word, hdr_crc, payload_crc, block_size, block_end, is_used, hdr_crc_of,
}
use mars_memory_allocator.Check.{
  start_ok_in, block_ok_in, is_block, header_ok, seal_crc, seal_mirror, seal,
}

mirror_room_of :
    (p : Profile) (n b : ℕ) → has_mirror p ≡ true → min_block p ≤ n → b + 16 ≤ b + n - mirror_size p
mirror_room_of fast n b e l = ground arith
mirror_room_of hardened n b e l = ground arith
mirror_room_of paranoid n b e l = ground arith

module _ (p : Profile) where
  -- the checksum is read from fields that storing it leaves alone
  hdr_crc_of_ext :
      (m m' : Mem) (b index secret : ℕ)
      → load 8 m' b ≡ load 8 m b
      → load 4 m' (b + 12) ≡ load 4 m (b + 12)
      → hdr_crc_of m' b index secret ≡ hdr_crc_of m b index secret
  unfolding hdr_crc_of
  hdr_crc_of_ext m m' b index secret e f = rw (e, f) refl

  -- `st'` has the registry and the secret of `st`
  pub record SameRegistry (st st' : State) : Type 0 where
    pub desc_same : st'.desc ≡ st.desc
    pub user_same : st'.user ≡ st.user
    pub index_same : st'.index ≡ st.index
    pub secret_same : st'.secret ≡ st.secret

  span_of_same : {st st' : State} (b : ℕ) → SameRegistry st st' → span_of st' b ≡ span_of st b
  unfolding span_of
  span_of_same b r = rw (r.desc_same, r.user_same, r.index_same) refl

  -- A block in bounds whose control word stays and whose checksum is the one of the fields is accepted.
  pub header_ok_intro :
      (st st' : State) (b : ℕ)
      → is_block p st b ≡ true
      → SameRegistry st st'
      → word st'.mem b ≡ word st.mem b
      → (has_crc p ≡ true
          → hdr_crc st'.mem b
            ≡ hdr_crc_of st'.mem b (index_in (st.desc (span_of st b)) b) st.secret)
      → header_ok p st' b ≡ true
  unfolding header_ok is_block block_ok_in start_ok_in
  header_ok_intro st st' b h r w c =
      rw (span_of_same b r, r.desc_same, r.secret_same, w)
        (elim (Bool-cases (has_crc p)) [
          | inl e ↦ rw (e, eq→== _ _ (c e)) (ground arith)
          | inr e ↦ rw e (ground arith)
        ])

  is_block-span_of : (st : State) (b : ℕ) → is_block p st b ≡ true → span_of st b ≢ 0
  unfolding is_block
  is_block-span_of st b h = ground arith

  pub is_block-min_block :
      (st : State) (b : ℕ) → is_block p st b ≡ true → min_block p ≤ block_size st.mem b
  unfolding is_block block_ok_in
  is_block-min_block st b h = ground arith

  block_index_found :
      (st : State) (b : ℕ)
      → span_of st b ≢ 0
      → block_index st b ≡ index_in (st.desc (span_of st b)) b
  unfolding block_index
  block_index_found st b f = ground arith

  hdr_crc_of-lt : (m : Mem) (b index secret : ℕ) → hdr_crc_of m b index secret < 2 ^ 32
  unfolding hdr_crc_of
  hdr_crc_of-lt m b index secret = crc32c-lt _

  pub seal_crc-word : (st : State) (b : ℕ) → word (seal_crc p st b).mem b ≡ word st.mem b
  unfolding seal_crc
  seal_crc-word st b = ground (
    arith,
    load-store-Apart 8 4 st.mem (b + 8) b (hdr_crc_of st.mem b (block_index st b) st.secret)
        (inr (omega arith)),
  )

  pub seal_crc-payload_crc :
      (st : State) (b : ℕ) → payload_crc (seal_crc p st b).mem b ≡ payload_crc st.mem b
  unfolding seal_crc
  seal_crc-payload_crc st b = ground (
    arith,
    load-store-Apart 4 4 st.mem (b + 8) (b + 12) (hdr_crc_of st.mem b (block_index st b) st.secret)
        (inl (omega arith)),
  )

  seal_crc-hdr_crc :
      (st : State) (b : ℕ)
      → has_crc p ≡ true
      → hdr_crc (seal_crc p st b).mem b ≡ hdr_crc_of st.mem b (block_index st b) st.secret
  unfolding seal_crc
  seal_crc-hdr_crc st b e =
      let c = hdr_crc_of st.mem b (block_index st b) st.secret in
      let back : load 4 (store 4 st.mem (b + 8) c) (b + 8) ≡ c = omega (
        arith,
        load-store 4 st.mem (b + 8) c,
        hdr_crc_of-lt st.mem b (block_index st b) st.secret,
      ) in
      rw e back

  seal_crc-SameRegistry :
      (st : State) (b : ℕ) (m : Mem) → SameRegistry st (with_mem (seal_crc p st b) m)
  unfolding seal_crc
  seal_crc-SameRegistry st b m = elim (Bool-cases (has_crc p)) [
    | inl e ↦
        rw e (record { desc_same = refl; user_same = refl; index_same = refl; secret_same = refl })
    | inr e ↦
        rw e (record { desc_same = refl; user_same = refl; index_same = refl; secret_same = refl })
  ]

  -- The checksum is stored, and the header's sixteen bytes are then left alone.
  pub seal_crc_then :
      (st : State) (b : ℕ) (m : Mem)
      → is_block p st b ≡ true
      → load 8 m b ≡ load 8 (seal_crc p st b).mem b
      → load 4 m (b + 8) ≡ load 4 (seal_crc p st b).mem (b + 8)
      → load 4 m (b + 12) ≡ load 4 (seal_crc p st b).mem (b + 12)
      → header_ok p (with_mem (seal_crc p st b) m) b ≡ true
  seal_crc_then st b m h w c pc =
      let w' = w ∙ seal_crc-word st b in
      let pc' = pc ∙ seal_crc-payload_crc st b in
      let ix = block_index_found st b (is_block-span_of st b h) in
      header_ok_intro st (with_mem (seal_crc p st b) m) b h (seal_crc-SameRegistry st b m) w' (λ e.
        c
        ∙ seal_crc-hdr_crc st b e
        ∙ ap (λ i. hdr_crc_of st.mem b i st.secret) ix
        ∙ sym (hdr_crc_of_ext st.mem m b (index_in (st.desc (span_of st b)) b) st.secret w' pc'))

  mirror_room :
      (st : State) (b : ℕ)
      → is_block p st b ≡ true
      → has_mirror p ≡ true
      → b + 16 ≤ block_end (seal_crc p st b).mem b - mirror_size p
  mirror_room st b h e =
      rw (seal_crc-word st b)
        (mirror_room_of p (block_size st.mem b) b e (is_block-min_block st b h))

  pub mirror_apart :
      (st : State) (b n a : ℕ)
      → is_block p st b ≡ true
      → a + n ≤ b + 16
      → load n (seal p st b).mem a ≡ load n (seal_crc p st b).mem a
  unfolding seal seal_mirror
  mirror_apart st b n a h l =
      let m = (seal_crc p st b).mem in
      let room = mirror_room st b h in
      let apart = load-copy-Apart n (hdr_size p) m (block_end m b - mirror_size p) b a in
      ground (arith, room, apart)

  pub seal_mem : (st : State) (b : ℕ) → seal p st b ≡ with_mem (seal_crc p st b) (seal p st b).mem
  unfolding seal seal_mirror
  seal_mem st b = elim (Bool-cases (has_mirror p && is_used (seal_crc p st b).mem b)) [
    | inl e ↦ rw e refl
    | inr e ↦ rw e refl
  ]

  -- Sealing a block in bounds makes its header accepted, and leaves its control word, in every
  -- profile: the tail mirror of a block in bounds does not reach its header.
  pub seal-header_ok :
      (st : State) (b : ℕ)
      → is_block p st b ≡ true
      → (header_ok p (seal p st b) b ≡ true) × (word (seal p st b).mem b ≡ word st.mem b)
  seal-header_ok st b h =
      let w = mirror_apart st b 8 b h (omega arith) in
      let c = mirror_apart st b 4 (b + 8) h (omega arith) in
      let d = mirror_apart st b 4 (b + 12) h (omega arith) in
      (rw (seal_mem st b) (seal_crc_then st b (seal p st b).mem h w c d), w ∙ seal_crc-word st b)
