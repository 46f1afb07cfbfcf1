-- ===== src/Access/Reseal.antt =====
-- What sealing a block over a new payload checksum leaves: src/mm_access.c, the end of write_unlocked.
use mars_memory_allocator.Base.{
  ℕ, ◌+◌, ◌-◌, ◌^◌, ◌≤◌, ◌<◌, ◌≡◌, refl, ap, ◌∙◌, inl, inr, true, ◌&&◌, arith, Bool-cases,
}
use mars_memory_allocator.Layout.{
  fast, hardened, paranoid, Profile, has_canary, has_crc, hdr_size, trail, mirror_size, has_mirror,
}
use mars_memory_allocator.Block.{
  payload_crc_value, requested_size, block_end, payload_of, hdr_crc_of, block_size, payload_crc,
  is_used,
}
use mars_memory_allocator.Memory.{Mem, read_bytes, load, store}
use mars_memory_allocator.State.{State, with_mem}
use mars_memory_allocator.Access.{payload_sum}
use mars_memory_allocator.Crc.Laws.{crc32c-lt}
use mars_memory_allocator.Check.{is_block, seal, canary_at, seal_mirror, seal_crc, block_ok_in}
use mars_memory_allocator.Access.Frame.{Live, canary_ok_same}
use mars_memory_allocator.Memory.Laws.{
  store-Outside, copy-Outside, load-store, load-store-Apart, read_bytes_ext, load_ext,
}
use mars_memory_allocator.Span.{block_index, span_of}
use mars_memory_allocator.Check.Seal.{
  seal_crc-word, seal-header_ok, mirror_apart, seal_crc-payload_crc, seal_mem,
}

pub hdr_size_of_crc : (p : Profile) → has_crc p ≡ true → hdr_size p ≡ 16
hdr_size_of_crc fast e = ground arith
hdr_size_of_crc hardened e = refl
hdr_size_of_crc paranoid e = refl

pub trail_of_canary : (p : Profile) → has_canary p ≡ true → trail p ≡ 8 + mirror_size p
trail_of_canary fast e = ground arith
trail_of_canary hardened e = refl
trail_of_canary paranoid e = refl

payload_crc_value-lt : (m : Mem) (a len : ℕ) → payload_crc_value m a len < 2 ^ 32
unfolding payload_crc_value
payload_crc_value-lt m a len = ground (arith, crc32c-lt (read_bytes len m a))

module _ (p : Profile) where
  pub seal_crc_outside : (st : State) (b x : ℕ) → b + 16 ≤ x → (seal_crc p st b).mem x ≡ st.mem x
  unfolding seal_crc
  seal_crc_outside st b x l =
      let c = hdr_crc_of st.mem b (block_index st b) st.secret in
      let crc = store-Outside 4 st.mem (b + 8) c x (inr (omega arith)) in
      elim (Bool-cases (has_crc p)) [ inl e ↦ rw e crc | inr e ↦ rw e refl ]

  pub seal_mirror_outside :
      (st : State) (b x : ℕ)
      → x < block_end st.mem b - mirror_size p
      → (seal_mirror p st b).mem x ≡ st.mem x
  unfolding seal_mirror
  seal_mirror_outside st b x l =
      let c = copy-Outside (hdr_size p) st.mem (block_end st.mem b - mirror_size p) b x (inl l) in
      elim (Bool-cases (has_mirror p && is_used st.mem b)) [ inl e ↦ rw e c | inr e ↦ rw e refl ]

  -- sealing writes nothing between the header and the trailing mirror
  pub seal_inside :
      (st : State) (b x : ℕ)
      → b + 16 ≤ x
      → x < block_end st.mem b - mirror_size p
      → (seal p st b).mem x ≡ st.mem x
  unfolding seal
  seal_inside st b x l k =
      seal_mirror_outside (seal_crc p st b) b x (rw (seal_crc-word p st b) k)
      ∙ seal_crc_outside st b x l

  -- the state after a write under a checksum: the sum is stored and the header sealed over it
  abbrev pub resealed : State → ℕ → State
  resealed st b = seal p (with_mem st (store 4 st.mem (b + 12) (payload_sum p st.mem b))) b

  abbrev pub summed : State → ℕ → Mem
  summed st b = store 4 st.mem (b + 12) (payload_sum p st.mem b)

  summed-word : (st : State) (b : ℕ) → load 8 (summed st b) b ≡ load 8 st.mem b
  summed-word st b =
      load-store-Apart 8 4 st.mem (b + 12) b (payload_sum p st.mem b) (inr (omega arith))

  -- past the header and up to the trailing mirror, nothing moves
  resealed_inside :
      (st : State) (b x : ℕ)
      → b + 16 ≤ x
      → x < block_end st.mem b - mirror_size p
      → (resealed st b).mem x ≡ st.mem x
  resealed_inside st b x l k =
      seal_inside (with_mem st (summed st b)) b x l (rw (summed-word st b) k)
      ∙ store-Outside 4 st.mem (b + 12) (payload_sum p st.mem b) x (inr (omega arith))

  pub summed-is_block :
      (st : State) (b : ℕ)
      → is_block p st b ≡ true
      → is_block p (with_mem st (summed st b)) b ≡ true
  unfolding is_block block_ok_in span_of
  summed-is_block st b h = rw (summed-word st b) h

  pub resealed-word :
      (st : State) (b : ℕ) → is_block p st b ≡ true → load 8 (resealed st b).mem b ≡ load 8 st.mem b
  resealed-word st b h =
      (seal-header_ok p (with_mem st (summed st b)) b (summed-is_block st b h)).1 ∙ summed-word st b

  pub resealed-payload :
      (st : State) (b a len : ℕ)
      → has_crc p ≡ true
      → hdr_size p + requested_size p st.mem b + trail p ≤ block_size st.mem b
      → payload_of p b ≤ a
      → a + len ≤ payload_of p b + requested_size p st.mem b
      → read_bytes len (resealed st b).mem a ≡ read_bytes len st.mem a
  resealed-payload st b a len e room g k =
      let h = hdr_size_of_crc p e in
      read_bytes_ext len st.mem (resealed st b).mem a
        (λ x l u. resealed_inside st b x (omega arith) (omega arith))

  payload_crc_value_ext :
      (m m' : Mem) (a len : ℕ)
      → read_bytes len m' a ≡ read_bytes len m a
      → payload_crc_value m' a len ≡ payload_crc_value m a len
  unfolding payload_crc_value
  payload_crc_value_ext m m' a len e = rw e refl

  -- the checksum that was stored is still the one of the payload
  pub resealed-payload_sum :
      (st : State) (b : ℕ)
      → has_crc p ≡ true
      → is_block p st b ≡ true
      → hdr_size p + requested_size p st.mem b + trail p ≤ block_size st.mem b
      → payload_sum p (resealed st b).mem b ≡ payload_sum p st.mem b
  resealed-payload_sum st b e h room =
      let n = requested_size p st.mem b in
      let same = resealed-payload st b (payload_of p b) n e room (omega arith) (omega arith) in
      rw (resealed-word st b h)
        (payload_crc_value_ext st.mem (resealed st b).mem (payload_of p b) n same)

  pub resealed-payload_crc :
      (st : State) (b : ℕ)
      → is_block p st b ≡ true
      → payload_crc (resealed st b).mem b ≡ payload_sum p st.mem b
  resealed-payload_crc st b h =
      let s = with_mem st (summed st b) in
      let v : load 4 (summed st b) (b + 12) ≡ payload_sum p st.mem b = omega (
        arith,
        load-store 4 st.mem (b + 12) (payload_sum p st.mem b),
        payload_crc_value-lt st.mem (payload_of p b) (requested_size p st.mem b),
      ) in
      mirror_apart p s b 4 (b + 12) (summed-is_block st b h) (omega arith)
      ∙ seal_crc-payload_crc p s b
      ∙ v

  pub seal_crc_state : (st : State) (b : ℕ) → seal_crc p st b ≡ with_mem st (seal_crc p st b).mem
  unfolding seal_crc
  seal_crc_state st b = elim (Bool-cases (has_crc p)) [ inl e ↦ rw e refl | inr e ↦ rw e refl ]

  -- nothing but memory moves
  pub resealed_state : (st : State) (b : ℕ) → resealed st b ≡ with_mem st (resealed st b).mem
  resealed_state st b =
      let s = with_mem st (summed st b) in
      seal_mem p s b ∙ ap (λ t. with_mem t (seal p s b).mem) (seal_crc_state s b)

  pub resealed-Live :
      (st : State) (b : ℕ)
      → has_crc p ≡ true
      → is_block p st b ≡ true
      → Live p st b
      → Live p (resealed st b) b
  resealed-Live st b e h l =
      let w = resealed-word st b h in
      let room = l.room in
      let hdr = hdr_size_of_crc p e in
      record {
        accepted = (seal-header_ok p (with_mem st (summed st b)) b (summed-is_block st b h)).0;
        used = rw w l.used;
        not_quarantined = rw w l.not_quarantined;
        canary_intact = rw (resealed_state st b) (
            canary_ok_same p st b (resealed st b).mem w
              (λ c. load_ext 8 st.mem (resealed st b).mem (canary_at p st.mem b) (λ x g u.
                resealed_inside st b x (omega arith) (omega (arith, trail_of_canary p c, room))))
              l.canary_intact);
        room = rw w l.room;
      }
