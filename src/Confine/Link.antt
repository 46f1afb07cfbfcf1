-- ===== src/Confine/Link.antt =====
-- Sealing a block, writing its boundary tag and making the next block's flag agree, src/mm_integrity.c:
-- each stays inside the spans and keeps the block's own control word.
use mars_memory_allocator.Base.{
  ℕ, ◌+◌, ◌-◌, ◌^◌, ◌≤◌, ◌<◌, ◌≡◌, refl, ◌∙◌, inl, inr, Bool, true, ◌&&◌, ◌||◌, arith, leb, ◌==◌,
  Bool-cases,
}
use mars_memory_allocator.Layout.{Profile, has_crc, has_mirror, hdr_size, mirror_size}
use mars_memory_allocator.State.{State, with_mem}
use mars_memory_allocator.Span.{span_of, block_index}
use mars_memory_allocator.Memory.Laws.{IsMem, store-IsMem, load-lt, load_ext, load-store-Apart}
use mars_memory_allocator.Check.{
  is_block, block_ok_in, header_ok, same_bool, seal, seal_crc, seal_mirror,
}
use mars_memory_allocator.Check.Seal.{seal-header_ok, is_block-min_block}
use mars_memory_allocator.Block.{
  word, block_size, block_end, is_used, prev_in_use, hdr_crc_of, set_prev_in_use, write_free_footer,
}
use mars_memory_allocator.Recovery.{relink, tag_and_seal, seal_and_link}
use mars_memory_allocator.Access.Frame.{header_ok-is_block}
use mars_memory_allocator.Coalesce.Relink.{relinked_is_block, relink_below}
use mars_memory_allocator.Confine.{Confined, Confined-span_of}
use mars_memory_allocator.Confine.Seal.{seal-Confined, is_block-InSpan, min_block-ge}
use mars_memory_allocator.Confine.Safe.{Safe, Safe-refl, Safe-trans, store-Safe, copy-IsMem}

pub word-lt : (st : State) (b : ℕ) → IsMem st.mem → word st.mem b < 2 ^ 64
word-lt st b m = omega (arith, load-lt 8 st.mem b m)

module _ (p : Profile) where
  seal_crc-IsMem : (st : State) (b : ℕ) → IsMem st.mem → IsMem (seal_crc p st b).mem
  unfolding seal_crc
  seal_crc-IsMem st b m = elim (Bool-cases (has_crc p)) [
    | inl e ↦
        rw e (store-IsMem 4 st.mem (b + 8) (hdr_crc_of st.mem b (block_index st b) st.secret) m)
    | inr e ↦ rw e m
  ]

  seal_mirror-IsMem : (st : State) (b : ℕ) → IsMem st.mem → IsMem (seal_mirror p st b).mem
  unfolding seal_mirror
  seal_mirror-IsMem st b m = elim (Bool-cases (has_mirror p && is_used st.mem b)) [
    | inl e ↦ rw e (copy-IsMem (hdr_size p) st.mem (block_end st.mem b - mirror_size p) b m)
    | inr e ↦ rw e m
  ]

  -- a step that stays inside the spans and keeps the control word of `b`
  pub record Kept (st st' : State) (b : ℕ) : Type 0 where
    pub safe : Safe st st'
    pub same : word st'.mem b ≡ word st.mem b

  pub Kept-refl : (st : State) (b : ℕ) → Kept st st b
  Kept-refl st b = record { safe = Safe-refl st; same = refl }

  pub Kept-trans : {st st' st'' : State} {b : ℕ} → Kept st st' b → Kept st' st'' b → Kept st st'' b
  Kept-trans k l = record { safe = Safe-trans k.safe l.safe; same = l.same ∙ k.same }

  -- a block in bounds stays in bounds
  pub is_block-same :
      (st st' : State) (b : ℕ)
      → Confined st st'
      → block_size st'.mem b ≡ block_size st.mem b
      → is_block p st b ≡ true
      → is_block p st' b ≡ true
  unfolding is_block block_ok_in
  is_block-same st st' b c w h = rw (Confined-span_of c b, c.same_desc, w) h

  pub Kept-is_block :
      (st st' : State) (b : ℕ) → Kept st st' b → is_block p st b ≡ true → is_block p st' b ≡ true
  Kept-is_block st st' b k h = is_block-same st st' b k.safe.confined (rw (k.same) refl) h

  pub seal-Kept : (st : State) (b : ℕ) → is_block p st b ≡ true → Kept st (seal p st b) b
  unfolding seal
  seal-Kept st b h = record {
    safe = record {
      confined = seal-Confined p st b h;
      bytes = λ m. seal_mirror-IsMem (seal_crc p st b) b (seal_crc-IsMem st b m);
    };
    same = (seal-header_ok p st b h).1;
  }

  pub footer-Kept :
      (st : State) (b : ℕ)
      → is_block p st b ≡ true
      → Kept st (with_mem st (write_free_footer st.mem b)) b
  unfolding write_free_footer
  footer-Kept st b h =
      let l = is_block-min_block p st b h in
      let g = min_block-ge p in
      let at = block_end st.mem b - 8 in
      record {
        safe =
            store-Safe st 8 at (block_size st.mem b) b
              (is_block-InSpan p st b at 8 h (omega arith) (omega arith));
        same = load-store-Apart 8 8 st.mem at b (block_size st.mem b) (inr (omega arith));
      }

  pub tag_and_seal-Kept :
      (st : State) (b : ℕ) → is_block p st b ≡ true → Kept st (tag_and_seal p st b) b
  unfolding tag_and_seal
  tag_and_seal-Kept st b h = elim (Bool-cases (is_used st.mem b)) [
    | inl e ↦ rw e (seal-Kept st b h)
    | inr e ↦
        let f = footer-Kept st b h in
        let st1 = with_mem st (write_free_footer st.mem b) in
        rw e (Kept-trans f (seal-Kept st1 b (Kept-is_block st st1 b f h)))
  ]

  pub relink-Safe :
      (st : State) (n : ℕ) (used : Bool)
      → is_block p st n ≡ true
      → IsMem st.mem
      → Safe st (relink p st n used)
  unfolding relink
  relink-Safe st n used h m = elim (Bool-cases (same_bool (prev_in_use st.mem n) used)) [
    | inl e ↦ rw e (Safe-refl st)
    | inr e ↦
        let st1 = with_mem st (set_prev_in_use st.mem n used) in
        let i =
          is_block-InSpan p st n n 8 h (omega arith)
            (omega (arith, is_block-min_block p st n h, min_block-ge p)) in
        let b = relinked_is_block p st n used h (word-lt st n m) in
        rw e (Safe-trans (store-Safe st 8 n _ n i) (seal-Kept st1 n b).safe)
  ]

  -- relinking behind a block keeps its word
  relink-Kept :
      (st : State) (b n : ℕ) (used : Bool)
      → b + 8 ≤ n
      → is_block p st n ≡ true
      → IsMem st.mem
      → Kept st (relink p st n used) b
  relink-Kept st b n used l h m = record {
    safe = relink-Safe st n used h m;
    same =
        load_ext 8 st.mem _ b
          (λ x g u. relink_below p st n x used h (word-lt st n m) (omega arith));
  }

  pub seal_and_link-Kept :
      (st : State) (b : ℕ)
      → is_block p st b ≡ true
      → IsMem st.mem
      → Kept st (seal_and_link p st b) b
  unfolding seal_and_link
  seal_and_link-Kept st b h m =
      let st1 = tag_and_seal p st b in
      let k = tag_and_seal-Kept st b h in
      let end = block_end st1.mem b in
      let l = is_block-min_block p st1 b (Kept-is_block st st1 b k h) in
      elim (Bool-cases (span_of st1 b == 0 || leb (st1.desc (span_of st1 b)).hi end)) [
        | inl e ↦ rw e k
        | inr e ↦ elim (Bool-cases (header_ok p st1 end)) [
          | inr f ↦ rw (e, f) k
          | inl f ↦
              let r =
                relink-Kept st1 b end (is_used st1.mem b) (omega (arith, l, min_block-ge p))
                  (header_ok-is_block p st1 end f) (k.safe.bytes m) in
              rw (e, f) (Kept-trans k r)
        ]
      ]
