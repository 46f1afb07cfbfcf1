-- ===== src/Memory.antt =====
-- The bytes of the process, by address, and the ways that the allocator moves them: loads and
-- stores of little-endian words, memcpy and memset.
pub mod Laws
use mars_memory_allocator.Base.{
  ℕ, zero, suc, ◌+◌, ◌-◌, ◌*◌, ◌/◌, ◌%◌, ◌^◌, ◌≤◌, ◌<◌, ◌≡◌, refl, sym, ap, ◌∙◌, ◌≢◌, ◌↔◌, ◌⊎◌, inl,
  inr, Bool, true, false, not, ◌&&◌, ◌||◌, Option, none, some, List, [], ◌∷◌, ◌++◌, arith, ltb, leb,
  ◌==◌, if◌then◌else◌, ltb→lt, lt→ltb, leb→le, le→leb, eq→==, ==_iff, Bool-cases, Option-cases,
  length, get_or, length-append,
}
use mars_memory_allocator.Bitmap.{update}

abbrev pub Mem : Type 0
Mem = ℕ → ℕ

-- the number that `n` bytes from `a` on stand for
unfoldable pub load : ℕ → Mem → ℕ → ℕ
load zero m a = 0
load (suc n) m a = m a + 256 * load n m (a + 1)

unfoldable pub store : ℕ → Mem → ℕ → ℕ → Mem
store zero m a v = m
store (suc n) m a v = store n (update m a (v % 256)) (a + 1) (v / 256)

-- memcpy(dst, src, n) between ranges that do not overlap
unfoldable pub copy : ℕ → Mem → ℕ → ℕ → Mem
copy zero m dst src = m
copy (suc n) m dst src = copy n (update m dst (m src)) (dst + 1) (src + 1)

-- memset(a, v, n)
unfoldable pub fill : ℕ → Mem → ℕ → ℕ → Mem
fill n m a v x = if leb a x && ltb x (a + n) then v else m x

-- the bytes of a buffer, out of memory and into it
unfoldable pub read_bytes : ℕ → Mem → ℕ → List ℕ
read_bytes zero m a = []
read_bytes (suc n) m a = m a ∷ read_bytes n m (a + 1)

unfoldable pub write_bytes : Mem → ℕ → List ℕ → Mem
write_bytes m a [] = m
write_bytes m a (b ∷ bs) = write_bytes (update m a b) (a + 1) bs

-- the `n` bytes of a number, lowest first
unfoldable pub bytes_of : ℕ → ℕ → List ℕ
bytes_of zero v = []
bytes_of (suc n) v = v % 256 ∷ bytes_of n (v / 256)
