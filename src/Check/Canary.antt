-- ===== src/Check/Canary.antt =====
-- The trailing canary of src/mm_integrity.c.
use Prim.Native.Nat.{bit_xor}
use mars_memory_allocator.Base.{ℕ, ◌+◌, ◌*◌, ◌%◌, ◌^◌, ◌≤◌, ◌<◌, ◌≡◌, refl, inr, true, arith}
use mars_memory_allocator.Base.Bits.{bit_xor-lt}
use mars_memory_allocator.Layout.{Profile}
use mars_memory_allocator.Block.{canary_value, word, canary}
use mars_memory_allocator.Check.{write_canary, canary_at, canary_ok}
use mars_memory_allocator.State.{State, with_mem}
use mars_memory_allocator.Memory.Laws.{load-store-Apart, load-store}
use mars_memory_allocator.Span.{block_index, span_of}
use mars_memory_allocator.Memory.{Mem, load, store}
use mars_memory_allocator.Layout.Geometry.{hdr_size-ge}

canary_value-lt : (index secret : ℕ) → secret < 2 ^ 64 → canary_value index secret < 2 ^ 64
unfolding canary_value
canary_value-lt index secret s =
    bit_xor-lt 64 (bit_xor canary secret) (index * 0x9e3779b97f4a7c15 % 2 ^ 64)
      (bit_xor-lt 64 canary secret (omega arith) s) (omega arith)

module _ (p : Profile) where
  canary_at-ge : (m : Mem) (b : ℕ) → b + 8 ≤ canary_at p m b
  canary_at-ge m b = omega (arith, hdr_size-ge p)

  -- the memory after a canary is written
  abbrev pub canary_store : State → ℕ → Mem
  canary_store st b =
      store 8 st.mem (canary_at p st.mem b) (canary_value (block_index st b) st.secret)

  pub canary_store-word : (st : State) (b : ℕ) → word (canary_store st b) b ≡ word st.mem b
  canary_store-word st b =
      load-store-Apart 8 8 st.mem (canary_at p st.mem b) b
        (canary_value (block_index st b) st.secret) (inr (canary_at-ge st.mem b))

  canary_store-load :
      (st : State) (b : ℕ)
      → st.secret < 2 ^ 64
      → load 8 (canary_store st b) (canary_at p (canary_store st b) b)
        ≡ canary_value (block_index st b) st.secret
  canary_store-load st b s = rw (canary_store-word st b) (
      omega (
        arith,
        load-store 8 st.mem (canary_at p st.mem b) (canary_value (block_index st b) st.secret),
        canary_value-lt (block_index st b) st.secret s,
      ))

  block_index_mem :
      (st : State) (b : ℕ) (m : Mem) → block_index (with_mem st m) b ≡ block_index st b
  unfolding block_index span_of
  block_index_mem st b m = refl

  pub stored-canary_ok :
      (st : State) (b : ℕ)
      → st.secret < 2 ^ 64
      → canary_ok p (with_mem st (canary_store st b)) b ≡ true
  unfolding canary_ok
  stored-canary_ok st b s =
      let e = canary_store-load st b s in
      let i = block_index_mem st b (canary_store st b) in ground (arith, e, i)

  -- A block whose canary has just been written passes the check of it, while the arena's secret is
  -- a 64-bit value.
  pub write_canary-canary_ok :
      (st : State) (b : ℕ) → st.secret < 2 ^ 64 → canary_ok p (write_canary p st b) b ≡ true
  unfolding canary_ok write_canary
  write_canary-canary_ok st b s = let stored = stored-canary_ok st b s in ground (arith, stored)
