-- ===== src/Shim/Granted.antt =====
-- What pool_alloc of src/shim/mm_shim.c does to the pool, when it grants a request and when it does not.
use mars_memory_allocator.Base.{
  ℕ, ◌+◌, ◌-◌, ◌*◌, ◌/◌, ◌%◌, ◌^◌, ◌≤◌, ◌<◌, ◌≡◌, refl, ap, ◌∙◌, ◌≢◌, ◌⊎◌, inl, inr, false, ◌∷◌,
  arith, ltb, Bool-cases, if◌then◌else◌,
}
use mars_memory_allocator.Bitmap.{update}
use mars_memory_allocator.Memory.{load, store}
use mars_memory_allocator.Memory.Laws.{Outside, load-store, load-store-Apart, store-Outside}
use mars_memory_allocator.State.{add64, with_mem}
use mars_memory_allocator.Shim.{
  Loader, Shim, bootstrap_bytes, pool_need, pool_alloc, pool_size_of, with_heap, say,
  pool_exhausted,
}
use mars_memory_allocator.Shim.Grants.{
  Grants, Within, Stacked, Stacked-above, Within-below, Stacked-put,
}

module _ (l : Loader) where
  pub record PoolOk (sh : Shim) (gs : Grants) : Type 0 where
    pub fits : sh.pool_used ≤ bootstrap_bytes
    pub units : sh.pool_used % 16 ≡ 0
    pub untouched :
        (x : ℕ) → l.pool + sh.pool_used ≤ x → x < l.pool + bootstrap_bytes → sh.heap.mem x ≡ 0
    pub stacked : Stacked l.pool sh.heap.mem (l.pool + sh.pool_used) gs

  -- the bytes that a request takes from the pool
  abbrev taken : ℕ → ℕ
  taken size = 16 + (size + 15) / 16 * 16

  -- the state that a granted request leaves
  granted : Shim → ℕ → Shim
  granted sh size =
      let h = l.pool + sh.pool_used in
      let used = sh.pool_used + taken size in
      record (with_heap sh (with_mem sh.heap (store 8 (store 8 sh.heap.mem h size) (h + 8) 0))) {
        pool_used = used;
        pool_peak = if ltb sh.pool_peak used then used else sh.pool_peak;
      }

  pool_alloc-cases :
      (sh : Shim) (size : ℕ)
      → sh.pool_used ≤ bootstrap_bytes
      → size < 2 ^ 63
      → (pool_alloc l sh size ≡ (0, say pool_exhausted sh))
        ⊎ ((pool_alloc l sh size ≡ (l.pool + sh.pool_used + 16, granted sh size))
            × (sh.pool_used + taken size ≤ bootstrap_bytes))
  unfolding pool_alloc granted
  pool_alloc-cases sh size f b =
      let need : pool_need l size ≡ taken size = omega arith in
      let used : add64 sh.pool_used (taken size) ≡ sh.pool_used + taken size = omega arith in
      let large : ltb (taken size) size ≡ false = ground arith in
      elim (Bool-cases (ltb bootstrap_bytes (sh.pool_used + taken size))) [
        | inl e ↦ inl (rw (need, used, large, e) refl)
        | inr e ↦ inr (rw (need, used, large, e) refl, ground arith)
      ]

  -- what a granted block is
  pub record Granted (sh sh' : Shim) (gs : Grants) (at size : ℕ) : Type 0 where
    pub aligned : at % 16 ≡ 0
    pub above : l.pool + 16 ≤ at
    pub below : at + size ≤ l.pool + bootstrap_bytes
    pub sized : pool_size_of l sh' at ≡ size
    pub clear : (x : ℕ) → at ≤ x → x < at + size → sh'.heap.mem x ≡ 0
    pub apart : (x : ℕ) → at - 16 ≤ x → ¬ Within x gs
    pub kept : (x : ℕ) → Within x gs → sh'.heap.mem x ≡ sh.heap.mem x

  -- what a granted request leaves of the memory that it does not write
  granted-kept :
      (sh : Shim) (size x : ℕ)
      → Outside (l.pool + sh.pool_used) 16 x
      → (granted sh size).heap.mem x ≡ sh.heap.mem x
  unfolding granted
  granted-kept sh size x o =
      let h = l.pool + sh.pool_used in
      store-Outside 8 (store 8 sh.heap.mem h size) (h + 8) 0 x (ground arith)
      ∙ store-Outside 8 sh.heap.mem h size x (ground arith)

  granted-header :
      (sh : Shim) (size : ℕ)
      → size < 2 ^ 63
      → load 8 (granted sh size).heap.mem (l.pool + sh.pool_used) ≡ size
  unfolding granted
  granted-header sh size b =
      let h = l.pool + sh.pool_used in
      load-store-Apart 8 8 (store 8 sh.heap.mem h size) (h + 8) h 0 (inr (omega arith))
      ∙ load-store 8 sh.heap.mem h size
      ∙ omega arith

  granted-Granted :
      (sh : Shim) (gs : Grants) (size : ℕ)
      → PoolOk sh gs
      → l.pool % 16 ≡ 0
      → size < 2 ^ 63
      → sh.pool_used + taken size ≤ bootstrap_bytes
      → Granted sh (granted sh size) gs (l.pool + sh.pool_used + 16) size
  unfolding pool_size_of
  granted-Granted sh gs size k a b f =
      let at = l.pool + sh.pool_used + 16 in
      let back : at - 16 ≡ l.pool + sh.pool_used = omega arith in
      record {
        aligned = omega (arith, k.units);
        above = omega arith;
        below = omega arith;
        sized = rw back (granted-header sh size b);
        clear = λ x g u.
            granted-kept sh size x (inr (omega arith)) ∙ k.untouched x (omega arith) (omega arith);
        apart = λ x g w.
            omega (arith, Within-below sh.heap.mem l.pool (l.pool + sh.pool_used) x gs k.stacked w);
        kept = λ x w.
            granted-kept sh size x
              (inl (Within-below sh.heap.mem l.pool (l.pool + sh.pool_used) x gs k.stacked w));
      }

  granted-PoolOk :
      (sh : Shim) (gs : Grants) (size : ℕ)
      → PoolOk sh gs
      → l.pool % 16 ≡ 0
      → size < 2 ^ 63
      → sh.pool_used + taken size ≤ bootstrap_bytes
      → PoolOk (granted sh size) ((l.pool + sh.pool_used + 16, size) ∷ gs)
  unfolding granted
  granted-PoolOk sh gs size k a b f =
      let at = l.pool + sh.pool_used + 16 in
      let back : at - 16 ≡ l.pool + sh.pool_used = omega arith in
      record {
        fits = f;
        units = omega (arith, k.units);
        untouched =
            λ x g u. granted-kept sh size x (inr (omega arith)) ∙ k.untouched x (omega arith) u;
        stacked = (
          omega arith,
          omega (arith, k.units),
          omega arith,
          rw back (granted-header sh size b),
          rw back (
              Stacked-above sh.heap.mem (granted sh size).heap.mem l.pool (l.pool + sh.pool_used) gs
                (λ x u. granted-kept sh size x (inl (omega arith))) k.stacked),
        );
      }

  pub take-PoolOk :
      (sh : Shim) (gs : Grants) (size : ℕ)
      → PoolOk sh gs
      → l.pool % 16 ≡ 0
      → size < 2 ^ 63
      → (pool_alloc l sh size).0 ≢ 0
      → PoolOk (pool_alloc l sh size).1 (((pool_alloc l sh size).0, size) ∷ gs)
        × Granted sh (pool_alloc l sh size).1 gs (pool_alloc l sh size).0 size
  take-PoolOk sh gs size k a b z = elim (pool_alloc-cases sh size k.fits b) [
    | inl e ↦ absurd (z (ap (λ r. r.0) e))
    | inr (e, f) ↦ rw e (granted-PoolOk sh gs size k a b f, granted-Granted sh gs size k a b f)
  ]

  pub refuse-PoolOk :
      (sh : Shim) (gs : Grants) (size : ℕ)
      → PoolOk sh gs
      → size < 2 ^ 63
      → (pool_alloc l sh size).0 ≡ 0
      → PoolOk (pool_alloc l sh size).1 gs
  refuse-PoolOk sh gs size k b z = elim (pool_alloc-cases sh size k.fits b) [
    | inl e ↦
        rw e
          (record { fits = k.fits; units = k.units; untouched = k.untouched; stacked = k.stacked })
    | inr (e, f) ↦ absurd (omega (arith, z, ap (λ r. r.0) e))
  ]

  pub put-PoolOk :
      (sh : Shim) (gs : Grants) (x v : ℕ)
      → PoolOk sh gs
      → Within x gs
      → PoolOk (with_heap sh (with_mem sh.heap (update sh.heap.mem x v))) gs
  put-PoolOk sh gs x v k w =
      let top = l.pool + sh.pool_used in
      let low = Within-below sh.heap.mem l.pool top x gs k.stacked w in
      record {
        fits = k.fits;
        units = k.units;
        untouched = λ y g u. ground (arith, k.untouched y g u);
        stacked = Stacked-put sh.heap.mem l.pool top x v gs k.stacked w;
      }
