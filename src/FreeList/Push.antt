-- ===== src/FreeList/Push.antt =====
-- Pushing a block on a bin and taking it off again.
use mars_memory_allocator.Base.{
  ℕ, ◌+◌, ◌^◌, ◌≤◌, ◌<◌, ◌≡◌, ◌∙◌, ◌≢◌, ◌⊎◌, inl, inr, true, arith, ◌==◌, Bool-cases,
}
use mars_memory_allocator.Layout.{Profile}
use mars_memory_allocator.State.{State}
use mars_memory_allocator.FreeList.{bin_push, next_of, prev_of}
use mars_memory_allocator.Bitmap.Laws.{bitmap_test-bitmap_set}
use mars_memory_allocator.Bitmap.{bitmap_test, bitmap_set, update}
use mars_memory_allocator.Memory.{Mem}
use mars_memory_allocator.Block.{free_link_get, free_link_set, link_next, link_prev}
use mars_memory_allocator.Block.Laws.{
  free_link_get-free_link_set, free_link_get-free_link_set-Apart,
}

module _ (p : Profile) where
  -- the values that the links hold are of 64 bits, and the links of the two blocks do not overlap
  pub record Linkable (st : State) (b bin : ℕ) : Type 0 where
    pub secret_fits : st.secret < 2 ^ 64
    pub block_fits : b < 2 ^ 64
    pub head_fits : st.bins bin < 2 ^ 64
    pub apart : (b + 16 ≤ st.bins bin) ⊎ (st.bins bin + 16 ≤ b)

  -- `b` heads the bin, linked both ways with what headed it before
  pub record Heads (st st' : State) (b bin : ℕ) : Type 0 where
    pub head : st'.bins bin ≡ b
    pub next : next_of p st' b ≡ st.bins bin
    pub prev : prev_of p st' b ≡ 0
    pub back : st.bins bin ≢ 0 → prev_of p st' (st.bins bin) ≡ b
    pub bit : bitmap_test st'.bin_bitmap bin ≡ true

  -- the two links of the pushed block
  own_links : State → ℕ → ℕ → Mem
  own_links st b bin =
      free_link_set p (free_link_set p st.mem b link_next (st.bins bin) st.secret) b link_prev 0
        st.secret

  own_links-next :
      (st : State) (b bin : ℕ)
      → Linkable st b bin
      → free_link_get p (own_links st b bin) b link_next st.secret ≡ st.bins bin
  unfolding own_links
  own_links-next st b bin l =
      free_link_get-free_link_set-Apart p
        (free_link_set p st.mem b link_next (st.bins bin) st.secret) b b link_prev link_next 0
        st.secret (inr (omega arith))
      ∙ free_link_get-free_link_set p st.mem b link_next (st.bins bin) st.secret l.head_fits
          l.secret_fits

  own_links-prev :
      (st : State) (b bin : ℕ)
      → Linkable st b bin
      → free_link_get p (own_links st b bin) b link_prev st.secret ≡ 0
  unfolding own_links
  own_links-prev st b bin l =
      free_link_get-free_link_set p (free_link_set p st.mem b link_next (st.bins bin) st.secret) b
        link_prev 0 st.secret (omega arith) l.secret_fits

  -- the link back from the old head leaves them
  head_link_apart :
      (st : State) (b bin which : ℕ) (m : Mem)
      → Linkable st b bin
      → which ≤ 1
      → free_link_get p (free_link_set p m (st.bins bin) link_prev b st.secret) b which st.secret
        ≡ free_link_get p m b which st.secret
  head_link_apart st b bin which m l w =
      free_link_get-free_link_set-Apart p m (st.bins bin) b link_prev which b st.secret
        (omega (arith, l.apart))

  -- A block pushed on a bin heads it: its links lead to the old head and to nothing, the old head,
  -- if there is one, leads back to it, and the bin's bit is set. The addresses and the secret are
  -- of 64 bits, and the links of the two blocks do not overlap.
  bin_push-Heads :
      (st : State) (b bin : ℕ) → Linkable st b bin → Heads st (bin_push p st b bin) b bin
  unfolding bin_push own_links
  bin_push-Heads st b bin l =
      let h = st.bins bin in
      let m = own_links st b bin in
      let set : bitmap_test (bitmap_set st.bin_bitmap bin) bin ≡ true =
        ground (arith, bitmap_test-bitmap_set st.bin_bitmap bin bin) in
      let here : update st.bins bin b bin ≡ b = ground arith in
      elim (Bool-cases (h == 0)) [
        | inl e ↦ rw e (record {
          head = here;
          next = own_links-next st b bin l;
          prev = own_links-prev st b bin l;
          back = λ n. absurd (n (ground arith));
          bit = set;
        })
        | inr e ↦ rw e (record {
          head = here;
          next = head_link_apart st b bin link_next m l (omega arith) ∙ own_links-next st b bin l;
          prev = head_link_apart st b bin link_prev m l (omega arith) ∙ own_links-prev st b bin l;
          back = λ n.
              free_link_get-free_link_set p m h link_prev b st.secret l.block_fits l.secret_fits;
          bit = set;
        })
      ]
