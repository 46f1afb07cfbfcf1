-- ===== src/Confine/Seal.antt =====
-- Sealing and the canary stay inside the block, and so inside its span.
use mars_memory_allocator.Base.{
  ℕ, ◌+◌, ◌-◌, ◌≤◌, ◌≡◌, refl, ◌≢◌, inl, inr, true, ◌&&◌, arith, Bool-cases,
}
use mars_memory_allocator.Layout.{
  fast, hardened, paranoid, Profile, has_mirror, min_block, mirror_size, hdr_size, has_crc,
}
use mars_memory_allocator.State.{State}
use mars_memory_allocator.Check.{is_block, seal, seal_crc, seal_mirror, block_ok_in, start_ok_in}
use mars_memory_allocator.Confine.{
  Confined, Confined-trans, InSpan, span_of_bounds, copy-Confined, Confined-refl, store-Confined,
}
use mars_memory_allocator.Block.{block_end, hdr_crc_of, is_used, block_size}
use mars_memory_allocator.Access.Frame.{header_ok-is_block}
use mars_memory_allocator.Check.Seal.{seal_crc_then}
use mars_memory_allocator.Span.{block_index, span_of}

pub min_block-ge : (p : Profile) → 16 ≤ min_block p
min_block-ge fast = omega arith
min_block-ge hardened = omega arith
min_block-ge paranoid = omega arith

-- the mirror lies in the block
pub mirror_room :
    (p : Profile) (n b : ℕ)
    → has_mirror p ≡ true
    → min_block p ≤ n
    → (b ≤ b + n - mirror_size p) × (b + n - mirror_size p + hdr_size p ≤ b + n)
mirror_room fast n b e l = ground arith
mirror_room hardened n b e l = ground arith
mirror_room paranoid n b e l = ground arith

module _ (p : Profile) where
  pub is_block-bounds :
      (st : State) (b : ℕ)
      → is_block p st b ≡ true
      → (span_of st b ≢ 0)
        × (min_block p ≤ block_size st.mem b)
        × (block_end st.mem b ≤ (st.desc (span_of st b)).hi)
  unfolding is_block block_ok_in start_ok_in
  is_block-bounds st b h =
      let f : span_of st b ≢ 0 = ground arith in
      let r = span_of_bounds st b f in (f, ground arith, ground arith)

  -- a part of a block in bounds lies in the block's span
  pub is_block-InSpan :
      (st : State) (b a n : ℕ)
      → is_block p st b ≡ true
      → b ≤ a
      → a + n ≤ block_end st.mem b
      → InSpan st b a n
  is_block-InSpan st b a n h l k =
      let bound = is_block-bounds st b h in
      let r = span_of_bounds st b bound.0 in
      record { found = bound.0; above = omega arith; below = omega (arith, bound.2) }

  seal_crc-Confined : (st : State) (b : ℕ) → is_block p st b ≡ true → Confined st (seal_crc p st b)
  unfolding seal_crc
  seal_crc-Confined st b h =
      let v = hdr_crc_of st.mem b (block_index st b) st.secret in
      let i =
        is_block-InSpan st b (b + 8) 4 h (omega arith)
          (omega (arith, (is_block-bounds st b h).1, min_block-ge p)) in
      elim (Bool-cases (has_crc p)) [
        | inl e ↦ rw e (store-Confined st 4 (b + 8) v b i)
        | inr e ↦ rw e (Confined-refl st)
      ]

  seal_mirror-Confined :
      (st : State) (b : ℕ) → is_block p st b ≡ true → Confined st (seal_mirror p st b)
  unfolding seal_mirror
  seal_mirror-Confined st b h =
      let dst = block_end st.mem b - mirror_size p in
      elim (Bool-cases (has_mirror p && is_used st.mem b)) [
        | inl e ↦
            let m : has_mirror p ≡ true = ground arith in
            let w = mirror_room p (block_size st.mem b) b m (is_block-bounds st b h).1 in
            let i = is_block-InSpan st b dst (hdr_size p) h w.0 w.1 in
            rw e (copy-Confined st (hdr_size p) dst b b i)
        | inr e ↦ rw e (Confined-refl st)
      ]

  seal_crc-is_block :
      (st : State) (b : ℕ) → is_block p st b ≡ true → is_block p (seal_crc p st b) b ≡ true
  seal_crc-is_block st b h =
      header_ok-is_block p (seal_crc p st b) b
        (seal_crc_then p st b (seal_crc p st b).mem h refl refl refl)

  -- Sealing a block in bounds writes no byte that lies outside every span, and leaves the registry
  -- of spans alone.
  pub seal-Confined : (st : State) (b : ℕ) → is_block p st b ≡ true → Confined st (seal p st b)
  unfolding seal
  seal-Confined st b h =
      Confined-trans (seal_crc-Confined st b h)
        (seal_mirror-Confined (seal_crc p st b) b (seal_crc-is_block st b h))
