-- ===== src/Bins/Order.antt =====
-- mm_bin_of is monotonic, which the search of the bins rests on: src/mm_freelist.h, "Why the
-- search is O(1)".
use native.Mathlib.Nat.{
  pow-suc, pow-le-pow_right, one-le-pow, le-div_iff_mul-le, div-lt_iff_lt-mul, div-mul-le_self,
  eq-or-lt_of_le,
}
use native.Mathlib.Decide.{dec_lt}
use mars_memory_allocator.Base.{
  ℕ, zero, suc, ◌+◌, ◌-◌, ◌*◌, ◌/◌, ◌%◌, ◌^◌, ◌≤◌, ◌<◌, ◌≡◌, inl, inr, arith, ◌==◌, Bool-cases,
}
use mars_memory_allocator.Layout.{Profile, fast, hardened, paranoid, min_block}
use mars_memory_allocator.Bitmap.{bin_count}
use mars_memory_allocator.Bins.{large_min, log2_from, floor_log2, bin_of, small_bins}

log2_from-bounds :
    (rounds n k : ℕ)
    → 0 < n
    → n < 2 ^ rounds
    → (d : ℕ) × (log2_from rounds n k ≡ k + d) × (2 ^ d ≤ n) × (n < 2 ^ suc d)
unfolding log2_from
log2_from-bounds zero n k h l = absurd (omega arith)
log2_from-bounds (suc rounds) n k h l = elim (Bool-cases (n / 2 == 0)) [
  | inl end ↦ (0, rw end (omega arith), omega arith, ground arith)
  | inr more ↦
      let half : n / 2 < 2 ^ rounds = omega (arith, pow-suc 2 rounds) in
      let (d, e, lo, hi) = log2_from-bounds rounds (n / 2) (k + 1) (ground arith) half in
      (
        suc d,
        rw more (omega (arith, e)),
        omega (arith, lo, pow-suc 2 d),
        omega (arith, hi, pow-suc 2 (suc d)),
      )
]

-- For a positive 64-bit number, floor_log2 is the place of its highest set bit: the number lies
-- between that power of two and the next.
pub floor_log2_bounds :
    (n : ℕ) → 0 < n → n < 2 ^ 64 → (2 ^ floor_log2 n ≤ n) × (n < 2 ^ suc (floor_log2 n))
unfolding floor_log2
floor_log2_bounds n h l =
    let (d, e, lo, hi) = log2_from-bounds 64 n 0 h l in
    let e' : log2_from 64 n 0 ≡ d = omega (arith, e) in (rw e' lo, rw e' hi)

floor_log2_mono : (m n : ℕ) → 0 < m → m ≤ n → n < 2 ^ 64 → floor_log2 m ≤ floor_log2 n
floor_log2_mono m n h l k = elim (dec_lt (floor_log2 n) (floor_log2 m)) [
  | no ge ↦ omega arith
  | yes lt ↦ absurd (
      omega (
        arith,
        floor_log2_bounds m h (omega arith),
        floor_log2_bounds n (omega arith) k,
        pow-le-pow_right {n = 2} (omega arith) lt,
      ))
]

-- the quarter of the octave: from 4 to 7
quarter_bounds :
    (n k : ℕ) → 2 ≤ k → 2 ^ k ≤ n → n < 2 ^ suc k → (4 ≤ n / 2 ^ (k - 2)) × (n / 2 ^ (k - 2) < 8)
quarter_bounds n zero h lo hi = absurd (omega arith)
quarter_bounds n (suc zero) h lo hi = absurd (omega arith)
quarter_bounds n (suc (suc j)) h lo hi =
    let e : suc (suc j) - 2 ≡ j = omega arith in
    let pos = one-le-pow j 2 (omega arith) in
    rw e (
      (le-div_iff_mul-le pos).1 (omega (arith, pow-suc 2 j, pow-suc 2 (suc j))),
      (div-lt_iff_lt-mul pos).1
          (omega (arith, pow-suc 2 j, pow-suc 2 (suc j), pow-suc 2 (suc (suc j)))),
    )

div_mono : (m n d : ℕ) → 0 < d → m ≤ n → m / d ≤ n / d
div_mono m n d h l = (le-div_iff_mul-le h).1 (omega (arith, div-mul-le_self m d))

log2-ge-ten : (n : ℕ) → 1024 ≤ n → n < 2 ^ 64 → 10 ≤ floor_log2 n
unfolding floor_log2
log2-ge-ten n h l = omega (arith, floor_log2_mono 1024 n (omega arith) h l)

-- the bin of a large size, before the clamp
abbrev large_index : ℕ → ℕ
large_index n = let k = floor_log2 n in small_bins + (k - 10) * 4 + n / 2 ^ (k - 2) % 4

large_index_mono : (m n : ℕ) → 1024 ≤ m → m ≤ n → n < 2 ^ 64 → large_index m ≤ large_index n
large_index_mono m n h l b =
    let km = log2-ge-ten m h (omega arith) in
    let kn = log2-ge-ten n (omega arith) b in
    let bm = floor_log2_bounds m (omega arith) (omega arith) in
    let bn = floor_log2_bounds n (omega arith) b in
    let qm = quarter_bounds m (floor_log2 m) (omega arith) bm.0 bm.1 in
    let qn = quarter_bounds n (floor_log2 n) (omega arith) bn.0 bn.1 in
    elim (eq-or-lt_of_le (floor_log2_mono m n (omega arith) l b)) [
      | inl e ↦
          let q : m / 2 ^ (floor_log2 m - 2) ≤ n / 2 ^ (floor_log2 n - 2) = rw e (
            div_mono m n (2 ^ (floor_log2 n - 2)) (one-le-pow (floor_log2 n - 2) 2 (omega arith))
              l) in
          omega arith
      | inr lt ↦ omega arith
    ]

large_index-ge : (n : ℕ) → small_bins ≤ large_index n
large_index-ge n = omega arith

large_min_bounds :
    (p : Profile) → (1024 ≤ large_min p) × (large_min p ≡ min_block p + 1024) × (0 < min_block p)
large_min_bounds fast = omega arith
large_min_bounds hardened = omega arith
large_min_bounds paranoid = omega arith

-- A larger block never lands in a smaller bin: over every size of 64 bits, the join between the
-- exact and the log-spaced classes and the clamp on the top bin included.
pub bin_of_mono : (p : Profile) (m n : ℕ) → m ≤ n → n < 2 ^ 64 → bin_of p m ≤ bin_of p n
unfolding bin_of
bin_of_mono p m n l b = elim (dec_lt m (large_min p)) [
  | yes s ↦ ground (arith, large_min_bounds p)
  | no g ↦ ground (arith, large_min_bounds p, large_index_mono m n)
]

-- Every size has a bin.
pub bin_of-lt : (p : Profile) (n : ℕ) → bin_of p n < bin_count
unfolding bin_of
bin_of-lt p n = ground (arith, large_min_bounds p)

-- Every block in a bin above the one that a 64-bit request lands in is strictly larger than the
-- request.
pub lt_of_bin_of-lt :
    (p : Profile) (need n : ℕ) → need < 2 ^ 64 → bin_of p need < bin_of p n → need < n
lt_of_bin_of-lt p need n b h = elim (dec_lt need n) [
  | yes l ↦ l
  | no g ↦ absurd (omega (arith, bin_of_mono p n need (omega arith) b))
]

-- Below the log-spaced classes a bin is exact: a 16-granular size from the smallest block on that
-- lands in one of the small bins is the one size of that bin.
pub bin_of_exact :
    (p : Profile) (n : ℕ)
    → n % 16 ≡ 0
    → min_block p ≤ n
    → bin_of p n < small_bins
    → n ≡ min_block p + 16 * bin_of p n
unfolding bin_of
bin_of_exact fast n d l h = ground arith
bin_of_exact hardened n d l h = ground arith
bin_of_exact paranoid n d l h = ground arith
