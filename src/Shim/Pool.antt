-- ===== src/Shim/Pool.antt =====
-- The bootstrap pool of src/shim/mm_shim.c over a whole start-up: what it hands out, as a step relation.
use mars_memory_allocator.Base.{
  ℕ, ◌+◌, ◌-◌, ◌%◌, ◌^◌, ◌≤◌, ◌<◌, ◌≡◌, refl, ◌≢◌, inl, inr, true, false, [], ◌∷◌, arith, ltb, ◌==◌,
  Bool-cases,
}
use mars_memory_allocator.Bitmap.{update}
use mars_memory_allocator.Layout.{Profile}
use mars_memory_allocator.Platform.{Platform}
use mars_memory_allocator.State.{add64, with_mem}
use mars_memory_allocator.Shim.{
  Loader, Shim, bootstrap_bytes, pool_need, pool_alloc, from_pool, with_heap,
}
use mars_memory_allocator.Shim.Family.{shim_free}
use mars_memory_allocator.Shim.Grants.{Grants, Within}
use mars_memory_allocator.Shim.Granted.{PoolOk, Granted, take-PoolOk, refuse-PoolOk, put-PoolOk}

module _ (l : Loader) where
  -- The pool is where the loader puts it; the program takes blocks, is refused, writes into the
  -- blocks that it has, and gives them back.
  pub data StartStep (os : Platform) (p : Profile) : Shim → Grants → Shim → Grants → Type 0 where
    take :
        (sh : Shim) (gs : Grants) (size : ℕ)
        → size < 2 ^ 63
        → (pool_alloc l sh size).0 ≢ 0
        → StartStep os p sh gs (pool_alloc l sh size).1 (((pool_alloc l sh size).0, size) ∷ gs)
    refuse :
        (sh : Shim) (gs : Grants) (size : ℕ)
        → size < 2 ^ 63
        → (pool_alloc l sh size).0 ≡ 0
        → StartStep os p sh gs (pool_alloc l sh size).1 gs
    put :
        (sh : Shim) (gs : Grants) (x v : ℕ)
        → Within x gs
        → StartStep os p sh gs (with_heap sh (with_mem sh.heap (update sh.heap.mem x v))) gs
    give_back :
        (sh : Shim) (gs : Grants) (q : ℕ)
        → from_pool l q ≡ true
        → StartStep os p sh gs (shim_free l os p sh q) gs

  pub data StartReach (os : Platform) (p : Profile) (first : Shim) : Shim → Grants → Type 0 where
    here : StartReach os p first first []
    next :
        {sh sh' : Shim} {gs gs' : Grants}
        → StartReach os p first sh gs
        → StartStep os p sh gs sh' gs'
        → StartReach os p first sh' gs'

  -- the pool before anything is taken from it, as the loader maps it: 16-aligned and zero
  pub record Pristine (sh : Shim) : Type 0 where
    pub aligned : l.pool % 16 ≡ 0
    pub unused : sh.pool_used ≡ 0
    pub zeroed : (x : ℕ) → l.pool ≤ x → x < l.pool + bootstrap_bytes → sh.heap.mem x ≡ 0

  give_back_lem :
      (os : Platform) (p : Profile) (sh : Shim) (q : ℕ)
      → from_pool l q ≡ true
      → shim_free l os p sh q ≡ sh
  unfolding shim_free
  give_back_lem os p sh q e = elim (Bool-cases (q == 0)) [
    | inl n ↦ rw n refl
    | inr n ↦ rw (n, e) refl
  ]

  StartStep-PoolOk :
      {os : Platform} {p : Profile} {sh sh' : Shim} {gs gs' : Grants}
      → l.pool % 16 ≡ 0
      → StartStep os p sh gs sh' gs'
      → PoolOk l sh gs
      → PoolOk l sh' gs'
  StartStep-PoolOk a (take sh gs size b z) k = (take-PoolOk l sh gs size k a b z).0
  StartStep-PoolOk a (refuse sh gs size b z) k = refuse-PoolOk l sh gs size k b z
  StartStep-PoolOk a (put sh gs x v w) k = put-PoolOk l sh gs x v k w
  StartStep-PoolOk {os} {p} a (give_back sh gs q e) k = rw (give_back_lem os p sh q e) k

  StartReach-PoolOk :
      {os : Platform} {p : Profile} {first sh : Shim} {gs : Grants}
      → Pristine first
      → StartReach os p first sh gs
      → PoolOk l sh gs
  StartReach-PoolOk z here = record {
    fits = omega (arith, z.unused);
    units = omega (arith, z.unused);
    untouched = λ x g u. z.zeroed x (omega arith) u;
    stacked = tt;
  }
  StartReach-PoolOk z (next r s) = StartStep-PoolOk z.aligned s (StartReach-PoolOk z r)

  -- Before the arena is up, however blocks below 2^63 bytes were taken from the bootstrap pool,
  -- refused, written to and freed since it was mapped clear and 16-aligned: a block below 2^63
  -- bytes that it grants is 16-aligned, lies in the pool behind its header, which records its
  -- size, is clear, shares no byte with its header or with an earlier block, and leaves the bytes
  -- of the earlier ones as they were.
  pub pool_grants :
      {os : Platform} {p : Profile} {first sh : Shim} {gs : Grants} (size : ℕ)
      → Pristine first
      → StartReach os p first sh gs
      → size < 2 ^ 63
      → (pool_alloc l sh size).0 ≢ 0
      → Granted l sh (pool_alloc l sh size).1 gs (pool_alloc l sh size).0 size
  pool_grants {sh} {gs} size z r b g =
      (take-PoolOk l sh gs size (StartReach-PoolOk z r) z.aligned b g).1

  -- Where the pool ends below 2^64 and holds what it handed out, a request of a multiple of 16
  -- bytes that falls short of 2^64 by at least 48 and by at most 16 more than the bytes handed out
  -- is granted by pool_alloc, although no pool could hold it; and the next request, of 1 to 16
  -- bytes, is granted memory that lies wholly within the bytes of the pool that had been handed
  -- out before.
  pub pool_rewinds :
      (sh : Shim) (size more : ℕ)
      → l.pool + bootstrap_bytes < 2 ^ 64
      → sh.pool_used ≤ bootstrap_bytes
      → size % 16 ≡ 0
      → 2 ^ 64 ≤ size + sh.pool_used + 16
      → size + 48 ≤ 2 ^ 64
      → 0 < more
      → more ≤ 16
      → let sh1 = (pool_alloc l sh size).1 in
        ((pool_alloc l sh size).0 ≢ 0)
        × (l.pool < (pool_alloc l sh1 more).0)
        × ((pool_alloc l sh1 more).0 + more ≤ l.pool + sh.pool_used)
  unfolding pool_alloc
  pool_rewinds sh size more a f m c d z s =
      let back = sh.pool_used + size + 16 - 2 ^ 64 in
      let need : pool_need l size ≡ size + 16 = omega arith in
      let used : add64 sh.pool_used (size + 16) ≡ back = omega arith in
      let large : ltb (size + 16) size ≡ false = ground arith in
      let inside : ltb bootstrap_bytes back ≡ false = ground arith in
      let need1 : pool_need l more ≡ 32 = omega arith in
      let used1 : add64 back 32 ≡ back + 32 = omega arith in
      let large1 : ltb 32 more ≡ false = ground arith in
      let inside1 : ltb bootstrap_bytes (back + 32) ≡ false = ground arith in
      rw (need, used, large, inside, need1, used1, large1, inside1)
        (λ e. omega arith, omega arith, omega arith)
