-- ===== src/Shim/Calloc.antt =====
-- calloc of src/shim/mm_shim.c clears what its caller may read.
use mars_memory_allocator.Base.{
  ℕ, ◌+◌, ◌*◌, ◌^◌, ◌≤◌, ◌<◌, ◌≡◌, refl, ◌≢◌, ◌⊎◌, inl, inr, true, false, not, ◌||◌, arith, ltb,
  leb, ◌==◌, if◌then◌else◌, Bool-cases,
}
use mars_memory_allocator.Layout.{Profile, size_max}
use mars_memory_allocator.Platform.{Platform}
use mars_memory_allocator.Memory.{Mem, fill}
use mars_memory_allocator.State.{State, with_mem}
use mars_memory_allocator.Alloc.{malloc, malloc_fresh}
use mars_memory_allocator.Confine.Fresh.{UserArena, malloc-dirty}
use mars_memory_allocator.Confine.Hands.{Hands, malloc-Hands}
use mars_memory_allocator.Confine.{InSpan}
use mars_memory_allocator.Shim.{Loader, Shim, with_heap, calloc_call}
use mars_memory_allocator.Shim.Family.{shim_calloc, report, quiet, at_least_one}

fill_inside : (n : ℕ) (m : Mem) (a v x : ℕ) → a ≤ x → x < a + n → fill n m a v x ≡ v
unfolding fill
fill_inside n m a v x g u = ground arith

report-nofresh : (sh : Shim) → (report calloc_call sh).nofresh ≡ sh.nofresh
report-nofresh sh = elim (Bool-cases (quiet sh.heap.last_error)) [
  | inl e ↦ rw e refl
  | inr e ↦ rw e refl
]

-- The first bytes of a range that lies in one span.
InSpan-part : {st : State} {b a n m : ℕ} → m ≤ n → InSpan st b a n → InSpan st b a m
InSpan-part h i = record { found = i.found; above = i.above; below = omega (arith, h, i.below) }

module _ (l : Loader) (os : Platform) (p : Profile) where
  -- the rest of calloc, after malloc answered
  answered : Shim → (total : ℕ) → ℕ × ℕ × State → ℕ × Shim
  answered sh total r =
      let (q, dirty, st) = r in
      let sh1 = report calloc_call (with_heap sh st) in
      let cleared = λ (n : ℕ). with_heap sh1 (with_mem st (fill n st.mem q 0)) in
      if q == 0
      then (0, with_heap sh st)
      else if sh1.nofresh || dirty == size_max
      then (q, cleared total)
      else if not (dirty == 0)
      then (q, cleared (if ltb dirty total then dirty else total))
      else (q, sh1)

  calloc-answered :
      (sh : Shim) (nmemb size : ℕ)
      → sh.ready ≡ true
      → nmemb * size < 2 ^ 64
      → shim_calloc l os p sh nmemb size
        ≡ answered sh
            (nmemb * size)
            (malloc_fresh os p sh.heap (at_least_one l os p (nmemb * size)))
  unfolding shim_calloc answered
  calloc-answered sh nmemb size r o =
      let small : leb (2 ^ 64) (nmemb * size) ≡ false = ground arith in rw (small, r) refl

  answered-clear :
      (sh : Shim) (total x : ℕ) (r : ℕ × ℕ × State)
      → (sh.nofresh ≡ true) ⊎ (r.1 ≡ size_max)
      → (answered sh total r).0 ≢ 0
      → (answered sh total r).0 ≤ x
      → x < (answered sh total r).0 + total
      → (answered sh total r).1.heap.mem x ≡ 0
  unfolding answered
  answered-clear sh total x (q, dirty, st) c z g u =
      let sh1 = report calloc_call (with_heap sh st) in
      let f : (sh1.nofresh || dirty == size_max) ≡ true = elim c [
        | inl y ↦ rw (report-nofresh (with_heap sh st), y) refl
        | inr y ↦ ground (arith, y)
      ] in
      elim (Bool-cases (q == 0)) [
        | inl e ↦ absurd (z (rw e refl))
        | inr e ↦
            let low : q ≤ x = rw (e, f) at g in
            let high : x < q + total = rw (e, f) at u in
            rw (e, f) (fill_inside total st.mem q 0 x low high)
      ]

  -- where the product overflows, calloc returns NULL
  calloc-overflow :
      (sh : Shim) (nmemb size : ℕ)
      → leb (2 ^ 64) (nmemb * size) ≡ true
      → (shim_calloc l os p sh nmemb size).0 ≡ 0
  unfolding shim_calloc
  calloc-overflow sh nmemb size o = rw o refl

  -- NULL, or a block whose bytes are clear, all of them, since their number is below 2^64
  abbrev pub Cleared : (total : ℕ) → ℕ × Shim → Type 0
  Cleared total r =
      (r.0 ≡ 0) ⊎ ((total < 2 ^ 64) × ((x : ℕ) → r.0 ≤ x → x < r.0 + total → r.1.heap.mem x ≡ 0))

  -- While the arena is up, and MARS_SHIM_NOFRESH is set or the arena, its registry sound, is fixed
  -- to spans that do not count as fresh: calloc returns NULL or a block of which every byte that
  -- was asked for is clear, whatever the block held before, and then the product of its arguments
  -- is below 2^64.
  pub calloc_clears :
      (sh : Shim) (nmemb size : ℕ)
      → sh.ready ≡ true
      → (sh.nofresh ≡ true) ⊎ UserArena os p sh.heap
      → Cleared (nmemb * size) (shim_calloc l os p sh nmemb size)
  calloc_clears sh nmemb size r c =
      let total = nmemb * size in
      let answer = malloc_fresh os p sh.heap (at_least_one l os p total) in
      let whole : (sh.nofresh ≡ true) ⊎ (answer.1 ≡ size_max) = elim c [
        | inl y ↦ inl y
        | inr w ↦ inr (malloc-dirty os p sh.heap (at_least_one l os p total) w)
      ] in
      elim (Bool-cases (leb (2 ^ 64) total)) [
        | inl o ↦ inl (calloc-overflow sh nmemb size o)
        | inr o ↦
            let below : total < 2 ^ 64 = ground arith in
            rw (calloc-answered sh nmemb size r below)
              (elim (Bool-cases ((answered sh total answer).0 == 0)) [
                | inl e ↦ inl (ground arith)
                | inr e ↦ inr (below, λ x. answered-clear sh total x answer whole (ground arith))
              ])
      ]

  -- the pointer that malloc answered with
  answered-at : (sh : Shim) (total : ℕ) (r : ℕ × ℕ × State) → (answered sh total r).0 ≡ r.0
  unfolding answered
  answered-at sh total (q, dirty, st) = ground arith

  -- While the arena is up, its registry sound, and fixed to spans that do not count as fresh: for
  -- any two numbers, calloc returns NULL or the address of as many bytes as their product, taken
  -- without wrap-around, that lie whole in one span, in all three profiles, whatever the headers,
  -- the links and the boundary tags hold.
  pub calloc-Hands :
      (sh : Shim) (nmemb size : ℕ)
      → sh.ready ≡ true
      → UserArena os p sh.heap
      → Hands sh.heap (nmemb * size) (shim_calloc l os p sh nmemb size).0
  unfolding malloc
  calloc-Hands sh nmemb size r w =
      let total = nmemb * size in
      let asked = at_least_one l os p total in
      let answer = malloc_fresh os p sh.heap asked in
      elim (Bool-cases (leb (2 ^ 64) total)) [
        | inl o ↦ inl (calloc-overflow sh nmemb size o)
        | inr o ↦
            let below : total < 2 ^ 64 = ground arith in
            let more : total ≤ asked = ground arith in
            rw (calloc-answered sh nmemb size r below, answered-at sh total answer)
              (elim (malloc-Hands os p sh.heap asked w) [
                | inl e ↦ inl e
                | inr (b, i) ↦ inr (b, InSpan-part more i)
              ])
      ]
