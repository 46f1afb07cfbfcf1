-- ===== src/Confine/Lists.antt =====
-- mm_bin_insert and mm_bin_remove of src/mm_freelist.c, whatever the blocks hold.
use mars_memory_allocator.Base.{
  ℕ, ◌≡◌, refl, inl, inr, true, not, ◌&&◌, arith, ◌==◌, if◌then◌else◌, Bool-cases,
}
use mars_memory_allocator.Bitmap.{bitmap_clear, update}
use mars_memory_allocator.Bins.{bin_of}
use mars_memory_allocator.Layout.{Profile}
use mars_memory_allocator.State.{State, corrupt_links, fail}
use mars_memory_allocator.Block.{block_size, is_used}
use mars_memory_allocator.FreeList.{
  node_ok, links_ok, bins_rebuild, bin_insert, bin_remove, unlink, set_next, next_of, prev_of,
}
use mars_memory_allocator.Confine.Safe.{Safe, Safe-trans, unmoved, Starts, Starts-step}
use mars_memory_allocator.Confine.Push.{
  Linked, set_prev_if-Safe, Linked-step, node_ok-Starts, own_links-Safe, set_next-Safe,
  bin_push-Safe,
}
use mars_memory_allocator.Confine.Rebuild.{repaired-Safe}

module _ (p : Profile) where
  pub bin_insert-Safe : (st : State) (b : ℕ) → Starts p st b → Safe st (bin_insert p st b)
  unfolding bin_insert
  bin_insert-Safe st b h =
      let bin = bin_of p (block_size st.mem b) in
      let head = st.bins bin in
      elim (Bool-cases (not (head == 0) && not (node_ok p st head bin))) [
        | inl e ↦ rw e (repaired-Safe p st)
        | inr e ↦
            let l : Linked p st head = elim (Bool-cases (head == 0)) [
              | inl z ↦ inl z
              | inr n ↦ inr (node_ok-Starts p st head bin (ground arith))
            ] in
            rw e (bin_push-Safe p st b bin h l)
      ]

  -- the two neighbours of a node whose links were checked
  links_ok-Linked :
      (st : State) (b bin : ℕ)
      → links_ok p st b bin ≡ true
      → Linked p st (next_of p st b) × Linked p st (prev_of p st b)
  unfolding links_ok
  links_ok-Linked st b bin h =
      let next = next_of p st b in
      let prev = prev_of p st b in
      (
        elim (Bool-cases (next == 0)) [
          | inl z ↦ inl z
          | inr n ↦ inr (node_ok-Starts p st next bin (ground arith))
        ],
        elim (Bool-cases (prev == 0)) [
          | inl z ↦ inl z
          | inr n ↦ inr (node_ok-Starts p st prev bin (ground arith))
        ],
      )

  -- the first half of the splice
  splice : State → (bin next prev : ℕ) → State
  splice st bin next prev =
      if prev == 0
      then record st {
        bins = update st.bins bin next;
        bin_bitmap = if next == 0 then bitmap_clear st.bin_bitmap bin else st.bin_bitmap;
      }
      else set_next p st prev next

  splice-Safe :
      (st : State) (bin next prev : ℕ) → Linked p st prev → Safe st (splice st bin next prev)
  unfolding splice
  splice-Safe st bin next prev l = elim (Bool-cases (prev == 0)) [
    | inl e ↦ rw e (unmoved st _ refl refl refl refl refl refl)
    | inr n ↦ elim l [ inl e ↦ cc | inr s ↦ rw n (set_next-Safe p st prev next s) ]
  ]

  unlink-Safe : (st : State) (b bin : ℕ) → links_ok p st b bin ≡ true → Safe st (unlink p st b bin)
  unfolding unlink splice
  unlink-Safe st b bin h =
      let next = next_of p st b in
      let prev = prev_of p st b in
      let l = links_ok-Linked st b bin h in
      let first = splice-Safe st bin next prev l.1 in
      Safe-trans first
        (set_prev_if-Safe p (splice st bin next prev) next prev (Linked-step p st _ next first l.0))

  -- Taking a block off its list, with the rebuild where its links are damaged.
  pub bin_remove-Safe : (st : State) (b : ℕ) → Starts p st b → Safe st (bin_remove p st b)
  unfolding bin_remove
  bin_remove-Safe st b h =
      let bin = bin_of p (block_size st.mem b) in
      let st1 = bins_rebuild p (fail corrupt_links st) in
      let a = repaired-Safe p st in
      elim (Bool-cases (links_ok p st b bin)) [
        | inl e ↦ rw e (unlink-Safe st b bin e)
        | inr e ↦ elim (Bool-cases (links_ok p st1 b bin)) [
          | inl f ↦ rw (e, f) (Safe-trans a (unlink-Safe st1 b bin f))
          | inr f ↦ elim (Bool-cases (is_used st1.mem b)) [
            | inl u ↦ rw (e, f, u) a
            | inr u ↦
                rw (e, f, u)
                  (Safe-trans a (own_links-Safe p st1 b 0 0 (Starts-step p b a.confined h)))
          ]
        ]
      ]
