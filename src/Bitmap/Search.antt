-- ===== src/Bitmap/Search.antt =====
-- next_nonempty against what it is for: the smallest non-empty bin at or above a given one.
use Prim.Native.Nat.{bit_and}
use native.Mathlib.Nat.{pow-suc, one-le-pow}
use mars_memory_allocator.Base.{
  ℕ, zero, suc, ◌+◌, ◌-◌, ◌*◌, ◌/◌, ◌%◌, ◌^◌, ◌≤◌, ◌<◌, ◌≡◌, refl, ◌≢◌, inl, inr, true, false,
  arith, leb, ◌==◌, Bool-cases,
}
use mars_memory_allocator.Base.Bits.{bit_and-le}
use mars_memory_allocator.Base.Digits.{
  digit, digit-lt, digit-bit_and, digit-zero, digit_mask_above, digit_mask_below,
}
use mars_memory_allocator.Bitmap.{
  Bitmap, bin_count, update, bitmap_test, lowest_bit_from, lowest_bit, next_word, next_nonempty,
}
use mars_memory_allocator.Bitmap.Laws.{IsBitmap, bitmap_test-digit, two-pow-lt}

-- `d` is the place of the lowest set digit of `w`
record IsLowest (w d : ℕ) : Type 0 where
  set : digit w d ≡ 1
  clear : (j : ℕ) → j < d → digit w j ≡ 0

IsLowest-suc : (w d : ℕ) → w % 2 ≡ 0 → IsLowest (w / 2) d → IsLowest w (suc d)
IsLowest-suc w d even l = record { set = l.set; clear = below }
  where
    below : (j : ℕ) → j < suc d → digit w j ≡ 0
    below zero h = even
    below (suc j) h = l.clear j (omega arith)

lowest_bit_from-IsLowest :
    (rounds w k : ℕ)
    → w < 2 ^ rounds
    → w ≢ 0
    → (d : ℕ) × (lowest_bit_from rounds w k ≡ k + d) × (d < rounds) × IsLowest w d
unfolding lowest_bit_from
lowest_bit_from-IsLowest zero w k h ne = absurd (ne (omega arith))
lowest_bit_from-IsLowest (suc rounds) w k h ne =
    let half : w / 2 < 2 ^ rounds = omega (arith, pow-suc 2 rounds) in
    elim (Bool-cases (w % 2 == 0)) [
      | inl even ↦
          let e : w % 2 ≡ 0 = ground arith in
          let (d, eq, lt, l) = lowest_bit_from-IsLowest rounds (w / 2) (k + 1) half (omega arith) in
          (suc d, rw even (omega (arith, eq)), omega (arith, lt), IsLowest-suc w d e l)
      | inr odd ↦ (
        0,
        rw odd (omega arith),
        omega arith,
        record { set = ground arith; clear = λ j l. absurd (omega arith) },
      )
    ]

-- __builtin_ctzll on a word that is not 0
lowest_bit-IsLowest : (w : ℕ) → w < 2 ^ 64 → w ≢ 0 → (lowest_bit w < 64) × IsLowest w (lowest_bit w)
unfolding lowest_bit
lowest_bit-IsLowest w h ne =
    let (d, eq, lt, l) = lowest_bit_from-IsLowest 64 w 0 h ne in
    let e : lowest_bit_from 64 w 0 ≡ d = omega (arith, eq) in (rw e lt, rw e l)

-- the bit of bin `j`, with `w` standing for the word being looked at
abbrev bin_digit : Bitmap → ℕ → ℕ → ℕ → ℕ
bin_digit bm word w j = digit (update bm word w (j / 64)) (j % 64)

record IsNext (bm : Bitmap) (word w r : ℕ) : Type 0 where
  within : r ≤ bin_count
  from_word : word * 64 ≤ r
  set : r < bin_count → bin_digit bm word w r ≡ 1
  clear : (j : ℕ) → word * 64 ≤ j → j < r → bin_digit bm word w j ≡ 0

IsNext-hit :
    (bm : Bitmap) (word w d : ℕ)
    → word < 2
    → d < 64
    → IsLowest w d
    → IsNext bm word w (word * 64 + d)
IsNext-hit bm word w d h k l = record {
  within = omega arith;
  from_word = omega arith;
  set = λ _.
      let q : (word * 64 + d) / 64 ≡ word = omega arith in
      let r : (word * 64 + d) % 64 ≡ d = omega arith in rw (q, r) (ground (arith, l.set));
  clear = λ j a b. ground (arith, l.clear (j % 64));
}

next_word-IsNext :
    (rounds : ℕ) (bm : Bitmap) (word w : ℕ)
    → word < 2
    → 2 ≤ word + rounds
    → w < 2 ^ 64
    → IsBitmap bm
    → IsNext bm word w (next_word rounds bm word w)
unfolding next_word
next_word-IsNext zero bm word w e h k v = absurd (omega arith)
next_word-IsNext (suc rounds) bm word w e h k v = elim (Bool-cases (w == 0)) [
  | inl z ↦
      let w0 : w ≡ 0 = ground arith in
      elim (Bool-cases (leb 2 (word + 1))) [
        | inl last ↦
            rw (z, last)
              (record {
                within = omega arith;
                from_word = ground arith;
                set = λ l. absurd (omega arith);
                clear = λ j a b. ground (arith, digit-zero (j % 64));
              })
        | inr more ↦
            let ih =
              next_word-IsNext rounds bm (word + 1) (bm (word + 1)) (ground arith) (omega arith)
                (v (word + 1)) v in
            rw (z, more)
              (record {
                within = ih.within;
                from_word = omega (arith, ih.from_word);
                set = λ l. ground (arith, ih.set l, ih.from_word);
                clear = λ j a b. ground (arith, digit-zero (j % 64), ih.clear j);
              })
      ]
  | inr nz ↦
      let low = lowest_bit-IsLowest w k (ground arith) in
      rw nz (IsNext-hit bm word w (lowest_bit w) (omega arith) low.0 low.1)
]

mask_as_difference : (r : ℕ) → r < 64 → (2 ^ 64 - 1) * 2 ^ r % 2 ^ 64 ≡ 2 ^ 64 - 2 ^ r
mask_as_difference r h = omega (arith, one-le-pow r 2, two-pow-lt r 64 h)

abbrev IsSmallest : Bitmap → ℕ → ℕ → Type 0
IsSmallest bm from r =
    (r ≤ bin_count)
    × (r < bin_count → (from ≤ r) × (bitmap_test bm r ≡ true))
    × ((j : ℕ) → from ≤ j → j < r → bitmap_test bm j ≡ false)

module _ (bm : Bitmap) (from w : ℕ) (low : from < bin_count)
    (masked : (k : ℕ)
      → digit w k ≡ digit (bit_and (bm (from / 64)) (2 ^ 64 - 2 ^ (from % 64))) k) where
  digit_masked_above : (k : ℕ) → from % 64 ≤ k → k < 64 → digit w k ≡ digit (bm (from / 64)) k
  digit_masked_above k h l = omega (
    arith,
    masked k,
    digit-bit_and (bm (from / 64)) (2 ^ 64 - 2 ^ (from % 64)) k,
    digit_mask_above 64 (from % 64) k h l,
    digit-lt (bm (from / 64)) k,
  )

  digit_masked_below : (k : ℕ) → k < from % 64 → digit w k ≡ 0
  digit_masked_below k h = omega (
    arith,
    masked k,
    digit-bit_and (bm (from / 64)) (2 ^ 64 - 2 ^ (from % 64)) k,
    digit_mask_below 64 (from % 64) k h (omega arith),
  )

  IsNext-IsSmallest : (r : ℕ) → IsNext bm (from / 64) w r → IsSmallest bm from r
  IsNext-IsSmallest r n = (
    n.within,
    λ l. (
      ground (arith, n.set l, n.from_word, digit_masked_below (r % 64)),
      ground (
        arith,
        n.set l,
        n.from_word,
        bitmap_test-digit bm r,
        digit_masked_below (r % 64),
        digit_masked_above (r % 64),
      ),
    ),
    λ j a b.
        ground (arith, n.clear j, n.within, bitmap_test-digit bm j, digit_masked_above (j % 64)),
  )

-- On words of 64 bits, the result of next_nonempty is at most MM_BIN_COUNT; below that it is a bin
-- at or above `from` whose bit is set; and no bin from `from` up to it has its bit set.
pub next_nonempty-smallest :
    (bm : Bitmap) (from : ℕ)
    → IsBitmap bm
    → (next_nonempty bm from ≤ bin_count)
      × (next_nonempty bm from < bin_count
          → (from ≤ next_nonempty bm from) × (bitmap_test bm (next_nonempty bm from) ≡ true))
      × ((j : ℕ) → from ≤ j → j < next_nonempty bm from → bitmap_test bm j ≡ false)
unfolding next_nonempty
next_nonempty-smallest bm from v = elim (Bool-cases (leb bin_count from)) [
  | inl out ↦ rw out (omega arith, λ l. absurd (omega arith), λ j a b. ground arith)
  | inr low ↦
      let below : from < bin_count = ground arith in
      let mask = mask_as_difference (from % 64) (omega arith) in
      let m = bit_and (bm (from / 64)) ((2 ^ 64 - 1) * 2 ^ (from % 64) % 2 ^ 64) in
      let n =
        next_word-IsNext 2 bm (from / 64) m (omega arith) (omega arith)
          (omega (
            arith,
            v (from / 64),
            bit_and-le (bm (from / 64)) (bm (from / 64)) ((2 ^ 64 - 1) * 2 ^ (from % 64) % 2 ^ 64)
                (omega arith),
          ))
          v in
      rw low (IsNext-IsSmallest bm from m below (λ k. rw mask refl) _ n)
]
