-- ===== src/Coalesce/Relink.antt =====
-- Making the next block's flag agree, the end of mm_publish in src/mm_integrity.c, touches no block before it.
use mars_memory_allocator.Base.{
  ℕ, ◌+◌, ◌^◌, ◌<◌, ◌≡◌, refl, ap, ◌∙◌, inl, inr, Bool, true, arith, Bool-cases,
}
use mars_memory_allocator.Layout.{Profile}
use mars_memory_allocator.Layout.Word
use mars_memory_allocator.Coalesce.Stamp.{seal_state, seal_below}
use mars_memory_allocator.State.{State, with_mem}
use mars_memory_allocator.Check.{is_block, block_ok_in, same_bool, canary_at}
use mars_memory_allocator.Recovery.{relink}
use mars_memory_allocator.Access.Frame.{Live, header_ok-is_block, SameFrame, SameFrame-Live}
use mars_memory_allocator.Block.{word, block_end, set_prev_in_use, prev_in_use, block_size}
use mars_memory_allocator.Check.Seal.{is_block-min_block}
use mars_memory_allocator.Layout.Word.Laws.{set_prev_in_use-Reads}
use mars_memory_allocator.Memory.Laws.{store-Outside, load-store, load_ext}
use mars_memory_allocator.Locate.Sound.{span_of_mem}
use mars_memory_allocator.Layout.Geometry.{hdr_size-ge}
use mars_memory_allocator.Access.Reseal.{hdr_size_of_crc, trail_of_canary}

module _ (p : Profile) where
  pub relinked_is_block :
      (st : State) (n : ℕ) (used : Bool)
      → is_block p st n ≡ true
      → word st.mem n < 2 ^ 64
      → is_block p (with_mem st (set_prev_in_use st.mem n used)) n ≡ true
  unfolding is_block block_ok_in
  relinked_is_block st n used h l =
      let r = set_prev_in_use-Reads (word st.mem n) used l in
      let i = r.in_word in
      let back : word (set_prev_in_use st.mem n used) n
          ≡ Word.set_prev_in_use (word st.mem n) used =
        omega (arith, load-store 8 st.mem n (Word.set_prev_in_use (word st.mem n) used)) in
      let size : block_size (set_prev_in_use st.mem n used) n ≡ block_size st.mem n =
        ap Word.size_of back ∙ r.size in
      rw (span_of_mem p st n (set_prev_in_use st.mem n used), size) h

  -- relinking a block in bounds writes nothing below it, and only to memory
  pub relink_below :
      (st : State) (n x : ℕ) (used : Bool)
      → is_block p st n ≡ true
      → word st.mem n < 2 ^ 64
      → x < n
      → (relink p st n used).mem x ≡ st.mem x
  unfolding relink
  relink_below st n x used h l k =
      let m = set_prev_in_use st.mem n used in
      let s = seal_below p (with_mem st m) n x (relinked_is_block st n used h l) k in
      let o = store-Outside 8 st.mem n (Word.set_prev_in_use (word st.mem n) used) x (inl k) in
      elim (Bool-cases (same_bool (prev_in_use st.mem n) used)) [
        | inl e ↦ rw e refl
        | inr e ↦ rw e (s ∙ o)
      ]

  relink_state :
      (st : State) (n : ℕ) (used : Bool) → relink p st n used ≡ with_mem st (relink p st n used).mem
  unfolding relink
  relink_state st n used = elim (Bool-cases (same_bool (prev_in_use st.mem n) used)) [
    | inl e ↦ rw e refl
    | inr e ↦ rw e (seal_state p (with_mem st (set_prev_in_use st.mem n used)) n)
  ]

  -- a live block is not touched by what is written behind it
  pub relink-Live :
      (st : State) (b : ℕ) (used : Bool)
      → Live p st b
      → is_block p st (block_end st.mem b) ≡ true
      → word st.mem (block_end st.mem b) < 2 ^ 64
      → Live p (relink p st (block_end st.mem b) used) b
        × (word (relink p st (block_end st.mem b) used).mem b ≡ word st.mem b)
  relink-Live st b used l h k =
      let n = block_end st.mem b in
      let room = l.room in
      let small = is_block-min_block p st b (header_ok-is_block p st b l.accepted) in
      let below : (x : ℕ) → x < n → (relink p st n used).mem x ≡ st.mem x =
        λ x u. relink_below st n x used h k u in
      let f : SameFrame p st b (relink p st n used).mem = record {
        word_same = load_ext 8 st.mem _ b (λ x g u. below x (omega (arith, hdr_size-ge p)));
        hdr_same = λ e.
            load_ext 4 st.mem _ (b + 8) (λ x g u. below x (omega (arith, hdr_size_of_crc p e)));
        sum_same = λ e.
            load_ext 4 st.mem _ (b + 12) (λ x g u. below x (omega (arith, hdr_size_of_crc p e)));
        canary_same = λ e.
            load_ext 8 st.mem _ (canary_at p st.mem b)
              (λ x g u. below x (omega (arith, trail_of_canary p e)));
      } in
      (
        rw (relink_state st n used) (SameFrame-Live p st b (relink p st n used).mem f l),
        f.word_same,
      )
