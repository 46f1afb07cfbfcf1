-- ===== src/Bins.antt =====
-- How block sizes are cut into bins, src/mm_freelist.h.
pub mod Order
use mars_memory_allocator.Base.{
  ℕ, zero, suc, ◌+◌, ◌-◌, ◌*◌, ◌/◌, ◌%◌, ◌^◌, ◌≤◌, ◌<◌, ◌≡◌, refl, sym, ap, ◌∙◌, ◌≢◌, ◌↔◌, ◌⊎◌, inl,
  inr, Bool, true, false, not, ◌&&◌, ◌||◌, Option, none, some, List, [], ◌∷◌, ◌++◌, arith, ltb, leb,
  ◌==◌, if◌then◌else◌, ltb→lt, lt→ltb, leb→le, le→leb, eq→==, ==_iff, Bool-cases, Option-cases,
  length, get_or, length-append,
}
use mars_memory_allocator.Layout.{Profile, alignment, min_block}
use mars_memory_allocator.Bitmap.{bin_count}

abbrev pub small_bins : ℕ
small_bins = 64

abbrev pub large_octave0 : ℕ
large_octave0 = 10

abbrev pub large_subbins : ℕ
large_subbins = 4

abbrev pub bin_scan_cap : ℕ
bin_scan_cap = 16

-- the first size too large for an exact class
abbrev pub large_min : Profile → ℕ
large_min p = min_block p + alignment * small_bins

-- `while ((n >>= 1) != 0) k++;`, for the 64 rounds that a word can take
unfoldable pub log2_from : ℕ → ℕ → ℕ → ℕ
log2_from zero n k = k
log2_from (suc rounds) n k =
    let rest = log2_from rounds (n / 2) (k + 1) in if n / 2 == 0 then k else rest

unfoldable pub floor_log2 : ℕ → ℕ
unfolding log2_from
floor_log2 n = log2_from 64 n 0

-- mm_bin_of: the bin of a block of `n` bytes
unfoldable pub bin_of : Profile → ℕ → ℕ
bin_of p n =
    let k = floor_log2 n in
    let idx = small_bins + (k - large_octave0) * large_subbins + n / 2 ^ (k - 2) % 4 in
    if ltb n (large_min p)
    then if leb n (min_block p) then 0 else (n - min_block p) / alignment
    else if ltb idx bin_count
    then idx
    else bin_count - 1
