-- ===== src/Mode/Forget.antt =====
-- Switching to MM_MODE_LIBC, src/mm_integrity.c: which blocks lose their payload checksum.
use mars_memory_allocator.Base.{
  ℕ, zero, suc, ◌+◌, ◌≡◌, refl, inl, inr, true, ◌&&◌, List, [], ◌∷◌, arith, ltb, ◌==◌, Bool-cases,
}
use mars_memory_allocator.Layout.{Profile, has_crc}
use mars_memory_allocator.State.{State, Mode, is_libc, with_mem, arena_live}
use mars_memory_allocator.Span.{all_spans, span_max_blocks}
use mars_memory_allocator.Memory.{store}
use mars_memory_allocator.Memory.Laws.{load-store-Apart}
use mars_memory_allocator.Block.{block_size, payload_crc}
use mars_memory_allocator.Check.{header_ok, same_bool}
use mars_memory_allocator.Check.Seal.{is_block-min_block}
use mars_memory_allocator.Access.Frame.{header_ok-is_block}
use mars_memory_allocator.Mode.{
  forget_one, forget_from, forget_spans, forget_payload_crcs, set_mode,
}
use mars_memory_allocator.Confine.{Confined}
use mars_memory_allocator.Confine.Seal.{is_block-InSpan, min_block-ge}
use mars_memory_allocator.Confine.Safe.{Safe, Safe-refl, Safe-trans, unmoved, store-Safe}
use mars_memory_allocator.Confine.Link.{Kept, Kept-refl, Kept-trans, Kept-is_block, seal-Kept}

module _ (p : Profile) where
  forget_one-Kept :
      (st : State) (b : ℕ)
      → has_crc p ≡ true
      → header_ok p st b ≡ true
      → Kept p st (forget_one p st b) b
  unfolding forget_one
  forget_one-Kept st b c h =
      let k = header_ok-is_block p st b h in
      let l = is_block-min_block p st b k in
      let g = min_block-ge p in
      let i = is_block-InSpan p st b (b + 12) 4 k (omega arith) (omega arith) in
      let st1 = with_mem st (store 4 st.mem (b + 12) 0) in
      let a : Kept p st st1 b = record {
        safe = store-Safe st 4 (b + 12) 0 b i;
        same = load-store-Apart 8 4 st.mem (b + 12) b 0 (inr (omega arith));
      } in
      elim (Bool-cases (payload_crc st.mem b == 0)) [
        | inl e ↦ rw e (Kept-refl p st b)
        | inr e ↦ rw (e, c) (Kept-trans p a (seal-Kept p st1 b (Kept-is_block p st st1 b a k)))
      ]

  forget_from-Safe :
      (budget hi q : ℕ) (st : State) → has_crc p ≡ true → Safe st (forget_from p budget hi q st)
  unfolding forget_from
  forget_from-Safe zero hi q st c = Safe-refl st
  forget_from-Safe (suc budget) hi q st c =
      let st1 = forget_one p st q in
      elim (Bool-cases (ltb q hi)) [
        | inr e ↦ rw e (Safe-refl st)
        | inl e ↦ elim (Bool-cases (header_ok p st q)) [
          | inr f ↦ rw (e, f) (Safe-refl st)
          | inl f ↦
              rw (e, f)
                (Safe-trans (forget_one-Kept st q c f).safe
                  (forget_from-Safe budget hi (q + block_size st1.mem q) st1 c))
        ]
      ]

  forget_spans-Safe : (ss : List ℕ) (st : State) → has_crc p ≡ true → Safe st (forget_spans p ss st)
  unfolding forget_spans
  forget_spans-Safe [] st c = Safe-refl st
  forget_spans-Safe (s ∷ ss) st c =
      let sp = st.desc s in
      Safe-trans (forget_from-Safe (span_max_blocks p sp) sp.hi sp.lo st c)
        (forget_spans-Safe ss (forget_from p (span_max_blocks p sp) sp.hi sp.lo st) c)

  -- Switching the mode, in whatever state the arena is: no byte outside every span changes, and
  -- the registry of spans stays, although every header may be rewritten.
  pub set_mode-Confined : (m : Mode) (st : State) → Confined st (set_mode p m st)
  unfolding set_mode forget_payload_crcs
  set_mode-Confined m st =
      let st1 = record st { mode = m } in
      let u = unmoved st st1 refl refl refl refl refl refl in
      elim (Bool-cases (same_bool (is_libc st.mode) (is_libc m))) [
        | inl e ↦ rw e (Safe-refl st).confined
        | inr e ↦ elim (Bool-cases (has_crc p && is_libc m && arena_live st1)) [
          | inr f ↦ rw (e, f) u.confined
          | inl f ↦
              let c : has_crc p ≡ true = ground arith in
              rw (e, f) (Safe-trans u (forget_spans-Safe (all_spans st1) st1 c)).confined
        ]
      ]
