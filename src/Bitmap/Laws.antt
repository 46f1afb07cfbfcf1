-- ===== src/Bitmap/Laws.antt =====
-- What setting and clearing a bit of the bitmap leaves for the test to read.
use native.Mathlib.Nat.{one-le-pow, pow-suc}
use mars_memory_allocator.Base.{
  ℕ, zero, suc, ◌-◌, ◌/◌, ◌%◌, ◌^◌, ◌<◌, ◌≡◌, refl, true, false, not, arith, ◌==◌, if◌then◌else◌,
}
use mars_memory_allocator.Base.Bits.{bit_or-lt, bit_and-le}
use mars_memory_allocator.Base.Digits.{
  digit, digit_lem, digit-lt, digit-bit_or, digit-bit_and, digit-two-pow_self, digit-two-pow_ne,
  digit_complement,
}
use mars_memory_allocator.Bitmap.{Bitmap, bitmap_set, bitmap_clear, bitmap_test}

-- every word is a 64-bit one
abbrev pub IsBitmap : Bitmap → Type 0
IsBitmap bm = (i : ℕ) → bm i < 2 ^ 64

pub bitmap_test-digit :
    (bm : Bitmap) (bin : ℕ) → bitmap_test bm bin ≡ not (digit (bm (bin / 64)) (bin % 64) == 0)
unfolding bitmap_test
bitmap_test-digit bm bin = rw (digit_lem (bm (bin / 64)) (bin % 64)) refl

pub two-pow-lt : (k n : ℕ) → k < n → 2 ^ k < 2 ^ n
two-pow-lt zero zero h = absurd (omega arith)
two-pow-lt zero (suc n) h = omega (arith, pow-suc 2 n, one-le-pow n 2)
two-pow-lt (suc k) zero h = absurd (omega arith)
two-pow-lt (suc k) (suc n) h = omega (arith, pow-suc 2 n, pow-suc 2 k, two-pow-lt k n (omega arith))

-- Setting a bin's bit sets that bit and leaves every other bin's as it was.
pub bitmap_test-bitmap_set :
    (bm : Bitmap) (bin j : ℕ)
    → bitmap_test (bitmap_set bm bin) j ≡ (if bin == j then true else bitmap_test bm j)
unfolding bitmap_set
bitmap_test-bitmap_set bm bin j = ground (
  arith,
  bitmap_test-digit (bitmap_set bm bin) j,
  bitmap_test-digit bm j,
  digit-bit_or (bm (bin / 64)) (2 ^ (bin % 64)) (j % 64),
  digit-lt (bm (bin / 64)) (j % 64),
  digit-two-pow_self (bin % 64),
  digit-two-pow_ne (bin % 64) (j % 64),
)

-- On words of 64 bits, clearing a bin's bit clears that bit and leaves every other bin's as it
-- was.
pub bitmap_test-bitmap_clear :
    (bm : Bitmap) (bin j : ℕ)
    → IsBitmap bm
    → bitmap_test (bitmap_clear bm bin) j ≡ (if bin == j then false else bitmap_test bm j)
unfolding bitmap_clear
bitmap_test-bitmap_clear bm bin j v = ground (
  arith,
  bitmap_test-digit (bitmap_clear bm bin) j,
  bitmap_test-digit bm j,
  digit-bit_and (bm (bin / 64)) (2 ^ 64 - 1 - 2 ^ (bin % 64)) (j % 64),
  digit_complement 64 (2 ^ (bin % 64)) (j % 64) (two-pow-lt (bin % 64) 64 (omega arith)),
  digit-lt (bm (bin / 64)) (j % 64),
  digit-two-pow_self (bin % 64),
  digit-two-pow_ne (bin % 64) (j % 64),
)

-- Both keep the words in 64 bits.
pub bitmap_set-IsBitmap : (bm : Bitmap) (bin : ℕ) → IsBitmap bm → IsBitmap (bitmap_set bm bin)
unfolding bitmap_set
bitmap_set-IsBitmap bm bin v i = ground (
  arith,
  v i,
  v (bin / 64),
  bit_or-lt 64 (bm (bin / 64)) (2 ^ (bin % 64)),
  two-pow-lt (bin % 64) 64 (omega arith),
)

pub bitmap_clear-IsBitmap : (bm : Bitmap) (bin : ℕ) → IsBitmap bm → IsBitmap (bitmap_clear bm bin)
unfolding bitmap_clear
bitmap_clear-IsBitmap bm bin v i = ground (
  arith,
  v i,
  v (bin / 64),
  bit_and-le (bm (bin / 64)) (bm (bin / 64)) (2 ^ 64 - 1 - 2 ^ (bin % 64)) (omega arith),
)
