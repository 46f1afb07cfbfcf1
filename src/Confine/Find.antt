-- ===== src/Confine/Find.antt =====
-- The search for a free block in src/mm_core.c, in the arena that mm_init makes.
use mars_memory_allocator.Base.{
  ℕ, zero, suc, ◌+◌, ◌^◌, ◌<◌, ◌≡◌, refl, ◌∙◌, ◌≢◌, ◌⊎◌, inl, inr, true, false, not, ◌&&◌, ◌||◌,
  List, [], ◌∷◌, arith, ltb, ◌==◌, if◌then◌else◌, Bool-cases,
}
use mars_memory_allocator.Layout.{Profile}
use mars_memory_allocator.Platform.{Platform}
use mars_memory_allocator.Bitmap.Laws.{IsBitmap}
use mars_memory_allocator.Bins.{bin_of}
use mars_memory_allocator.State.{State, fail, corrupt_links}
use mars_memory_allocator.Span.{large_threshold, all_spans, span_max_blocks}
use mars_memory_allocator.Check.{header_ok, extent_corroborated}
use mars_memory_allocator.Block.{block_size, is_used}
use mars_memory_allocator.FreeList.{
  bin_push, rebuild_from, rebuild_spans, bins_reset, bins_rebuild, find_once, find_attempts,
  bin_find,
}
use mars_memory_allocator.FreeList.Find.{Serves, bin_find-Serves}
use mars_memory_allocator.Alloc.{find_block, grow_for}
use mars_memory_allocator.Confine.Rebuild.{bins_rebuild-Safe}
use mars_memory_allocator.Confine.Safe.{Safe, Safe-refl, Safe-trans, unmoved}

module _ (p : Profile) where
  push-growable : (st : State) (b bin : ℕ) → (bin_push p st b bin).growable ≡ st.growable
  unfolding bin_push
  push-growable st b bin = elim (Bool-cases (st.bins bin == 0)) [
    | inl e ↦ rw e refl
    | inr e ↦ rw e refl
  ]

  rebuild_from-growable :
      (budget hi q : ℕ) (st : State) → (rebuild_from p budget hi q st).growable ≡ st.growable
  unfolding rebuild_from
  rebuild_from-growable zero hi q st = refl
  rebuild_from-growable (suc budget) hi q st =
      let free = not (is_used st.mem q) in
      let bin = bin_of p (block_size st.mem q) in
      let st1 = if free then bin_push p st q bin else st in
      let filed : st1.growable ≡ st.growable = elim (Bool-cases free) [
        | inl e ↦ rw e (push-growable st q bin)
        | inr e ↦ rw e refl
      ] in
      let rest = rebuild_from-growable budget hi (q + block_size st1.mem q) st1 ∙ filed in
      elim (Bool-cases (not (ltb q hi) || not (header_ok p st q))) [
        | inl e ↦ rw e refl
        | inr e ↦ elim (Bool-cases (free && not (extent_corroborated p st q))) [
          | inl f ↦ rw (e, f) refl
          | inr f ↦ rw (e, f) rest
        ]
      ]

  rebuild_spans-growable :
      (ss : List ℕ) (st : State) → (rebuild_spans p ss st).growable ≡ st.growable
  unfolding rebuild_spans
  rebuild_spans-growable [] st = refl
  rebuild_spans-growable (s ∷ ss) st =
      let sp = st.desc s in
      rebuild_spans-growable ss (rebuild_from p (span_max_blocks p sp) sp.hi sp.lo st)
      ∙ rebuild_from-growable (span_max_blocks p sp) sp.hi sp.lo st

  bins_rebuild-growable : (st : State) → (bins_rebuild p st).growable ≡ st.growable
  unfolding bins_rebuild bins_reset
  bins_rebuild-growable st = rebuild_spans-growable (all_spans st) (bins_reset p st)

  -- the search for a block, with the lists rebuilt where they are damaged
  find_attempts-Safe :
      (left : ℕ) (st : State) (need : ℕ)
      → Safe st (find_attempts p left st need).1
        × ((find_attempts p left st need).1.growable ≡ st.growable)
  unfolding find_attempts
  find_attempts-Safe zero st need = (Safe-refl st, refl)
  find_attempts-Safe (suc left) st need =
      let st0 = fail corrupt_links st in
      let st1 = bins_rebuild p st0 in
      let u = unmoved st st0 refl refl refl refl refl refl in
      let a = Safe-trans u (bins_rebuild-Safe p st0) in
      let r = find_attempts-Safe left st1 need in
      elim (Bool-cases ((find_once p st need).0 == 0)) [
        | inr e ↦ rw e (Safe-refl st, refl)
        | inl e ↦ elim (Bool-cases (find_once p st need).1) [
          | inr f ↦ rw (e, f) (Safe-refl st, refl)
          | inl f ↦ rw (e, f) (Safe-trans a r.0, r.1 ∙ bins_rebuild-growable st0)
        ]
      ]

  bin_find-Safe :
      (st : State) (need : ℕ)
      → Safe st (bin_find p st need).1 × ((bin_find p st need).1.growable ≡ st.growable)
  unfolding bin_find
  bin_find-Safe st need = find_attempts-Safe 2 st need

module _ (os : Platform) (p : Profile) where
  no_growth : (st : State) (need : ℕ) → st.growable ≡ false → grow_for os p st need ≡ (0, st)
  unfolding grow_for
  no_growth st need g = rw g refl

  -- a step inside the spans that ends on nothing or on a free block that serves
  pub record Finds (st st' : State) (need b : ℕ) : Type 0 where
    pub safe : Safe st st'
    pub serves : ((b == 0) ≡ true) ⊎ Serves p st' need b

  pub find_block-Finds :
      (st : State) (need : ℕ)
      → IsBitmap st.bin_bitmap
      → need < 2 ^ 64
      → st.growable ≡ false
      → Finds st (find_block os p st need).1 need (find_block os p st need).0
  unfolding find_block
  find_block-Finds st need v l g =
      let b = (bin_find p st need).0 in
      let st0 = (bin_find p st need).1 in
      let a = bin_find-Safe p st need in
      let d : (st.growable && ltb large_threshold need) ≡ false = ground (arith, g) in
      elim (Bool-cases (b == 0)) [
        | inl e ↦ rw (d, e, no_growth st0 need (a.1 ∙ g)) (record { safe = a.0; serves = inl refl })
        | inr e ↦
            let some : b ≢ 0 = ground arith in
            rw (d, e, e) (record { safe = a.0; serves = inr (bin_find-Serves p st need v l some) })
      ]
