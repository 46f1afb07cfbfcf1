-- ===== src/Layout/Geometry.antt =====
-- The sizes that mm_size_for computes from a request, src/mm_core.c.
use mars_memory_allocator.Base.{ℕ, ◌+◌, ◌-◌, ◌%◌, ◌^◌, ◌≤◌, ◌<◌, ◌≡◌, ◌↔◌, arith}
use mars_memory_allocator.Layout.{
  Profile, fast, hardened, paranoid, hdr_size, trail, min_block, size_for, slack_carved, size_max,
  alignment,
}

abbrev pub Fits : Profile → ℕ → ℕ → Type 0
Fits p payload need =
    (need % 16 ≡ 0)
    × (min_block p ≤ need)
    × (payload + hdr_size p + trail p ≤ need)
    × (need - hdr_size p - payload ≤ slack_carved p)
    × (need < 2 ^ 64)

-- For a positive request that does not overflow, mm_size_for gives a 64-bit multiple of 16, no
-- smaller than a block can be, that holds the header, the payload and the trailer, and leaves no
-- more slack than a carved block may have.
pub size_for-Fits :
    (p : Profile) (payload : ℕ)
    → 0 < payload
    → payload + hdr_size p + trail p + alignment ≤ size_max
    → Fits p payload (size_for p payload)
unfolding size_for
size_for-Fits fast payload h k = ground arith
size_for-Fits hardened payload h k = ground arith
size_for-Fits paranoid payload h k = ground arith

pub hdr_size-ge : (p : Profile) → 8 ≤ hdr_size p
hdr_size-ge fast = omega arith
hdr_size-ge hardened = omega arith
hdr_size-ge paranoid = omega arith

-- A request of a size_t is refused, with a size of 0, exactly where the payload, the header, the
-- trailer and one unit of alignment together exceed SIZE_MAX.
pub size_for_zero :
    (p : Profile) (payload : ℕ)
    → payload ≤ size_max
    → (size_for p payload ≡ 0) ↔ (size_max < payload + hdr_size p + trail p + alignment)
unfolding size_for
size_for_zero fast payload h = ground arith
size_for_zero hardened payload h = ground arith
size_for_zero paranoid payload h = ground arith
