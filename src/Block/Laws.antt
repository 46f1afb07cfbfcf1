-- ===== src/Block/Laws.antt =====
-- The free links in a block's payload: what is stored comes back, under any secret.
use Prim.Native.Nat.{bit_xor}
use mars_memory_allocator.Base.Bits.{bit_xor-lt, bit_xor_cancel}
use mars_memory_allocator.Base.{ℕ, ◌+◌, ◌*◌, ◌^◌, ◌<◌, ◌≡◌, ap, arith}
use mars_memory_allocator.Block.{free_link_get, free_link_set, payload_of}
use mars_memory_allocator.Layout.{Profile}
use mars_memory_allocator.Memory.{Mem, load, store}
use mars_memory_allocator.Memory.Laws.{Apart, load-store, load-store-Apart}

-- A link written into a free block is read back under the same secret, for 64-bit values.
pub free_link_get-free_link_set :
    (p : Profile) (m : Mem) (b which ptr secret : ℕ)
    → ptr < 2 ^ 64
    → secret < 2 ^ 64
    → free_link_get p (free_link_set p m b which ptr secret) b which secret ≡ ptr
unfolding free_link_get free_link_set
free_link_get-free_link_set p m b which ptr secret h k =
    let a = payload_of p b + which * 8 in
    let s = load-store 8 m a (bit_xor ptr secret) in
    let l = bit_xor-lt 64 ptr secret h k in
    let e : load 8 (store 8 m a (bit_xor ptr secret)) a ≡ bit_xor ptr secret = omega arith in
    rw e (bit_xor_cancel ptr secret)

-- Writing a link leaves every other link that does not overlap it.
pub free_link_get-free_link_set-Apart :
    (p : Profile) (m : Mem) (b b' which which' ptr secret : ℕ)
    → Apart (payload_of p b + which * 8) 8 (payload_of p b' + which' * 8) 8
    → free_link_get p (free_link_set p m b which ptr secret) b' which' secret
      ≡ free_link_get p m b' which' secret
unfolding free_link_get free_link_set
free_link_get-free_link_set-Apart p m b b' which which' ptr secret h =
    ap (λ t. bit_xor t secret)
      (load-store-Apart 8 8 m (payload_of p b + which * 8) (payload_of p b' + which' * 8)
        (bit_xor ptr secret) h)
