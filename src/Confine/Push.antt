-- ===== src/Confine/Push.antt =====
-- bin_push of src/mm_freelist.c and the links that it sets, whatever the blocks hold.
use mars_memory_allocator.Base.{
  ℕ, ◌≡◌, refl, ◌⊎◌, inl, inr, true, arith, ◌==◌, if◌then◌else◌, Bool-cases,
}
use mars_memory_allocator.Layout.{Profile}
use mars_memory_allocator.State.{State}
use mars_memory_allocator.Check.{header_ok}
use mars_memory_allocator.Block.{link_next, link_prev}
use mars_memory_allocator.FreeList.{node_ok, bin_push, set_next, set_prev}
use mars_memory_allocator.Access.Frame.{header_ok-is_block}
use mars_memory_allocator.Confine.Safe.{
  Safe, Safe-refl, Safe-trans, unmoved, Starts, Starts-step, is_block-Starts, link-Safe,
}

module _ (p : Profile) where
  -- nothing, or the start of a block
  abbrev pub Linked : State → ℕ → Type 0
  Linked st b = ((b == 0) ≡ true) ⊎ Starts p st b

  pub header_ok-Starts : (st : State) (b : ℕ) → header_ok p st b ≡ true → Starts p st b
  header_ok-Starts st b h = is_block-Starts p st b (header_ok-is_block p st b h)

  pub node_ok-Starts : (st : State) (b bin : ℕ) → node_ok p st b bin ≡ true → Starts p st b
  unfolding node_ok
  node_ok-Starts st b bin h = is_block-Starts p st b (ground arith)

  pub set_next-Safe : (st : State) (b v : ℕ) → Starts p st b → Safe st (set_next p st b v)
  set_next-Safe st b v h = link-Safe p st b link_next v (omega arith) h

  set_prev-Safe : (st : State) (b v : ℕ) → Starts p st b → Safe st (set_prev p st b v)
  set_prev-Safe st b v h = link-Safe p st b link_prev v (omega arith) h

  -- the link of what may be NULL
  pub set_prev_if-Safe :
      (st : State) (b v : ℕ) → Linked st b → Safe st (if b == 0 then st else set_prev p st b v)
  set_prev_if-Safe st b v h = elim (Bool-cases (b == 0)) [
    | inl e ↦ rw e (Safe-refl st)
    | inr n ↦ elim h [ inl e ↦ cc | inr s ↦ rw n (set_prev-Safe st b v s) ]
  ]

  pub own_links-Safe :
      (st : State) (b v w : ℕ) → Starts p st b → Safe st (set_prev p (set_next p st b v) b w)
  own_links-Safe st b v w h =
      let a = set_next-Safe st b v h in
      Safe-trans a (set_prev-Safe (set_next p st b v) b w (Starts-step p b a.confined h))

  pub Linked-step : (st st' : State) (b : ℕ) → Safe st st' → Linked st b → Linked st' b
  Linked-step st st' b s (inl e) = inl e
  Linked-step st st' b s (inr h) = inr (Starts-step p b s.confined h)

  pub bin_push-Safe :
      (st : State) (b bin : ℕ)
      → Starts p st b
      → Linked st (st.bins bin)
      → Safe st (bin_push p st b bin)
  unfolding bin_push
  bin_push-Safe st b bin h l =
      let head = st.bins bin in
      let st1 = set_prev p (set_next p st b head) b 0 in
      let a = own_links-Safe st b head 0 h in
      let c = set_prev_if-Safe st1 head b (Linked-step st st1 head a l) in
      let st2 = if head == 0 then st1 else set_prev p st1 head b in
      Safe-trans a (Safe-trans c (unmoved st2 _ refl refl refl refl refl refl))
