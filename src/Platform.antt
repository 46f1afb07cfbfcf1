-- ===== src/Platform.antt =====
-- What the allocator asks of the operating system: mmap, munmap, madvise and sysconf, and the
-- sources that mm_draw_secret stirs. None of it is code of the repository, so it is a record of
-- functions that the operations take. A mapping that is made is of zeroes, as mmap documents for an
-- anonymous one, and so is a page given back by MADV_DONTNEED when it is next read.
use Prim.Native.Nat.{bit_xor, bit_or}
use mars_memory_allocator.Base.{
  ℕ, ◌+◌, ◌-◌, ◌*◌, ◌/◌, ◌%◌, ◌^◌, Bool, not, ◌||◌, ◌∷◌, leb, ◌==◌, if◌then◌else◌,
}
use mars_memory_allocator.State.{State, with_mem, add64}
use mars_memory_allocator.Memory.{fill, Mem}
use mars_memory_allocator.Layout.{round_up, clear_low}

pub record Platform : Type 0 where
  -- whether mappings can be made at all, and the page size
  pub can_grow : Bool
  pub page : ℕ
  -- the address of the mapping that the n-th call gets for so many bytes; 0 is a refusal
  pub map_at : ℕ → ℕ → ℕ
  -- whether madvise drops the pages from one address up to another
  pub drops : ℕ → ℕ → Bool
  -- the address of the static descriptor of a caller-supplied span
  pub user_desc : ℕ
  -- the address, the time and the clock that mm_draw_secret reads
  pub stack_address : ℕ
  pub time : ℕ
  pub clock : ℕ

-- `n` bytes from `a` on read as zero
unfoldable pub zeroed : Mem → ℕ → ℕ → Mem
unfolding fill
zeroed m a n = fill n m a 0

module _ (os : Platform) where
  -- sys_map
  unfoldable pub sys_map : State → ℕ → ℕ × State
  sys_map st bytes =
      let a = os.map_at st.maps bytes in
      let st1 = record st { maps = st.maps + 1 } in
      if a == 0 then (0, st1) else (a, with_mem st1 (zeroed st1.mem a bytes))

  -- sys_unmap
  unfoldable pub sys_unmap : State → ℕ → ℕ → State
  sys_unmap st a bytes =
      if a == 0 || bytes == 0 then st else record st { unmapped = (a, bytes) ∷ st.unmapped }

  -- mm_sys_alloc
  unfoldable pub sys_alloc : State → ℕ → ℕ × State
  unfolding sys_map
  sys_alloc st bytes = sys_map st (round_up bytes os.page)

  -- mm_arena_release_pages
  unfoldable pub release_pages : State → ℕ → ℕ → State
  release_pages st from to =
      let lo = round_up from os.page in
      let hi = clear_low to os.page in
      if not os.can_grow || from == 0 || leb to from
      then st
      else if leb hi lo
      then st
      else if os.drops lo hi
      then with_mem st (zeroed st.mem lo (hi - lo))
      else st

  -- mm_draw_secret
  unfoldable pub draw_secret : State → ℕ
  draw_secret st =
      let z0 = bit_xor os.stack_address (os.time * 2 ^ 20 % 2 ^ 64) in
      let z1 = add64 (bit_xor z0 (os.clock * 0x2545f4914f6cdd1d % 2 ^ 64)) 0x9e3779b97f4a7c15 in
      let z2 = bit_xor z1 (z1 / 2 ^ 30) * 0xbf58476d1ce4e5b9 % 2 ^ 64 in
      let z3 = bit_xor z2 (z2 / 2 ^ 27) * 0x94d049bb133111eb % 2 ^ 64 in
      if st.pinned == 0 then bit_or (bit_xor z3 (z3 / 2 ^ 31)) 1 else st.pinned

-- mm_pin_secret
unfoldable pub pin_secret : ℕ → State → State
pin_secret secret st = record st { pinned = secret }
