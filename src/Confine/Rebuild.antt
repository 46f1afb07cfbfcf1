-- ===== src/Confine/Rebuild.antt =====
-- mm_bins_rebuild of src/mm_freelist.c, whatever the blocks hold.
use mars_memory_allocator.Base.{
  ℕ, zero, suc, ◌+◌, ◌≡◌, refl, ap, inl, inr, true, not, ◌&&◌, ◌||◌, List, [], ◌∷◌, arith, ltb,
  ◌==◌, if◌then◌else◌, Bool-cases,
}
use mars_memory_allocator.Bitmap.{update}
use mars_memory_allocator.Bins.{bin_of}
use mars_memory_allocator.Layout.{Profile}
use mars_memory_allocator.State.{State, corrupt_links, fail}
use mars_memory_allocator.Span.{all_spans, span_max_blocks}
use mars_memory_allocator.Check.{header_ok, extent_corroborated}
use mars_memory_allocator.Block.{block_size, is_used}
use mars_memory_allocator.FreeList.{bin_push, bins_reset, rebuild_from, rebuild_spans, bins_rebuild}
use mars_memory_allocator.Confine.Safe.{Safe, Safe-refl, Safe-trans, unmoved, Starts, Starts-step}
use mars_memory_allocator.Confine.Push.{Linked, Linked-step, bin_push-Safe, header_ok-Starts}

module _ (p : Profile) where
  -- every bin heads nothing or the start of a block
  Headed : State → Type 0
  Headed st = (i : ℕ) → Linked p st (st.bins i)

  Rebuilt : State → State → Type 0
  unfolding Headed
  Rebuilt st st' = Safe st st' × Headed st'

  Linked-at : (st : State) (x y : ℕ) → x ≡ y → Linked p st y → Linked p st x
  Linked-at st x y e l = rw e l

  Headed-step : (st st' : State) → Safe st st' → st'.bins ≡ st.bins → Headed st → Headed st'
  unfolding Headed
  Headed-step st st' s e l i =
      Linked-at st' (st'.bins i) (st.bins i) (ap (λ (f : ℕ → ℕ). f i) e)
        (Linked-step p st st' (st.bins i) s (l i))

  push_bins : (st : State) (b bin : ℕ) → (bin_push p st b bin).bins ≡ update st.bins bin b
  unfolding bin_push
  push_bins st b bin = elim (Bool-cases (st.bins bin == 0)) [
    | inl e ↦ rw e refl
    | inr e ↦ rw e refl
  ]

  Linked-update :
      (st st' : State) (b bin i : ℕ)
      → Safe st st'
      → Starts p st b
      → Linked p st (st.bins i)
      → Linked p st' (update st.bins bin b i)
  Linked-update st st' b bin i s h l = elim (Bool-cases (bin == i)) [
    | inl e ↦ rw e (inr (Starts-step p b s.confined h))
    | inr e ↦ rw e (Linked-step p st st' (st.bins i) s l)
  ]

  bin_push-Headed :
      (st : State) (b bin : ℕ) → Starts p st b → Headed st → Headed (bin_push p st b bin)
  unfolding Headed
  bin_push-Headed st b bin h l i =
      let s = bin_push-Safe p st b bin h (l bin) in
      let at = ap (λ (f : ℕ → ℕ). f i) (push_bins st b bin) in
      let new = Linked-update st (bin_push p st b bin) b bin i s h (l i) in
      Linked-at (bin_push p st b bin) ((bin_push p st b bin).bins i) (update st.bins bin b i) at new

  Headed-at : (st : State) (i : ℕ) → Headed st → Linked p st (st.bins i)
  unfolding Headed
  Headed-at st i l = l i

  failed-Rebuilt : (st : State) → Headed st → Rebuilt st (fail corrupt_links st)
  unfolding Rebuilt
  failed-Rebuilt st l =
      let s = unmoved st (fail corrupt_links st) refl refl refl refl refl refl in
      (s, Headed-step st (fail corrupt_links st) s refl l)

  -- the block that the rebuild stands on is filed if it is free
  filed-Rebuilt :
      (st : State) (q : ℕ)
      → Starts p st q
      → Headed st
      → Rebuilt st
          (if not (is_used st.mem q) then bin_push p st q (bin_of p (block_size st.mem q)) else st)
  unfolding Rebuilt
  filed-Rebuilt st q h l =
      let bin = bin_of p (block_size st.mem q) in
      elim (Bool-cases (is_used st.mem q)) [
        | inl e ↦ rw e (Safe-refl st, l)
        | inr e ↦
            rw e (bin_push-Safe p st q bin h (Headed-at st bin l), bin_push-Headed st q bin h l)
      ]

  rebuild_from-Rebuilt :
      (budget hi q : ℕ) (st : State) → Headed st → Rebuilt st (rebuild_from p budget hi q st)
  unfolding rebuild_from Rebuilt
  rebuild_from-Rebuilt zero hi q st l = (Safe-refl st, l)
  rebuild_from-Rebuilt (suc budget) hi q st l =
      elim (Bool-cases (not (ltb q hi) || not (header_ok p st q))) [
        | inl e ↦ rw e (Safe-refl st, l)
        | inr e ↦
            let h : header_ok p st q ≡ true = ground arith in
            let f = filed-Rebuilt st q (header_ok-Starts p st q h) l in
            let free = not (is_used st.mem q) in
            let st1 = if free then bin_push p st q (bin_of p (block_size st.mem q)) else st in
            let r = rebuild_from-Rebuilt budget hi (q + block_size st1.mem q) st1 f.1 in
            elim (Bool-cases (free && not (extent_corroborated p st q))) [
              | inl d ↦ rw (e, d) (failed-Rebuilt st l)
              | inr d ↦ rw (e, d) (Safe-trans f.0 r.0, r.1)
            ]
      ]

  rebuild_spans-Rebuilt :
      (ss : List ℕ) (st : State) → Headed st → Rebuilt st (rebuild_spans p ss st)
  unfolding rebuild_spans Rebuilt
  rebuild_spans-Rebuilt [] st l = (Safe-refl st, l)
  rebuild_spans-Rebuilt (s ∷ ss) st l =
      let sp = st.desc s in
      let st1 = rebuild_from p (span_max_blocks p sp) sp.hi sp.lo st in
      let a = rebuild_from-Rebuilt (span_max_blocks p sp) sp.hi sp.lo st l in
      let c = rebuild_spans-Rebuilt ss st1 a.1 in (Safe-trans a.0 c.0, c.1)

  reset-Headed : (st : State) → Headed (bins_reset p st)
  unfolding Headed bins_reset
  reset-Headed st i = inl refl

  reset-Safe : (st : State) → Safe st (bins_reset p st)
  unfolding bins_reset
  reset-Safe st = unmoved st _ refl refl refl refl refl refl

  pub bins_rebuild-Safe : (st : State) → Safe st (bins_rebuild p st)
  unfolding bins_rebuild Rebuilt
  bins_rebuild-Safe st =
      let r = rebuild_spans-Rebuilt (all_spans st) (bins_reset p st) (reset-Headed st) in
      Safe-trans (reset-Safe st) r.0

  pub repaired-Safe : (st : State) → Safe st (bins_rebuild p (fail corrupt_links st))
  repaired-Safe st =
      Safe-trans (unmoved st (fail corrupt_links st) refl refl refl refl refl refl)
        (bins_rebuild-Safe (fail corrupt_links st))
