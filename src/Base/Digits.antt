-- ===== src/Base/Digits.antt =====
-- The k-th binary digit of a number, and the digits of the masks that C code builds.
use Prim.Native.Nat.{ℕ, zero, suc, ◌-◌, ◌/◌, ◌%◌, ◌≤◌, ◌<◌, ◌^◌, min, max, bit_and, bit_or}
use mathlib.Core.Path.{◌≡◌, refl, ◌∙◌, ap}
use mathlib.Core.Logic.{◌≢◌}
use native.Mathlib.Nat.{pow-suc, one-le-pow, div-div-eq-div-mul, mul_comm, div-one}
use native.Mathlib.Omega.{arith}
use mars_memory_allocator.Base.Bits.{bit_or_step, bit_and_step}

-- by halving
abbrev pub digit : ℕ → ℕ → ℕ
digit w zero = w % 2
digit w (suc k) = digit (w / 2) k

pub digit_lem : (w k : ℕ) → digit w k ≡ w / 2 ^ k % 2
digit_lem w zero = omega (arith, div-one w)
digit_lem w (suc k) = digit_lem (w / 2) k ∙ ap (λ t. t % 2) (halved w k)
  where
    halved : (w k : ℕ) → w / 2 / 2 ^ k ≡ w / 2 ^ suc k
    halved w k = rw (div-div-eq-div-mul, pow-suc, mul_comm) refl

pub digit-lt : (w k : ℕ) → digit w k < 2
digit-lt w zero = omega arith
digit-lt w (suc k) = digit-lt (w / 2) k

pub digit-bit_or : (a b k : ℕ) → digit (bit_or a b) k ≡ max (digit a k) (digit b k)
digit-bit_or a b zero = omega (arith, bit_or_step a b)
digit-bit_or a b (suc k) =
    let half : bit_or a b / 2 ≡ bit_or (a / 2) (b / 2) = omega (arith, bit_or_step a b) in
    rw half (digit-bit_or (a / 2) (b / 2) k)

pub digit-bit_and : (a b k : ℕ) → digit (bit_and a b) k ≡ min (digit a k) (digit b k)
digit-bit_and a b zero = omega (arith, bit_and_step a b)
digit-bit_and a b (suc k) =
    let half : bit_and a b / 2 ≡ bit_and (a / 2) (b / 2) = omega (arith, bit_and_step a b) in
    rw half (digit-bit_and (a / 2) (b / 2) k)

pub digit-zero : (k : ℕ) → digit 0 k ≡ 0
digit-zero zero = refl
digit-zero (suc k) = digit-zero k

half-two-pow : (j : ℕ) → 2 ^ suc j / 2 ≡ 2 ^ j
half-two-pow j = omega (arith, pow-suc 2 j)

pub digit-two-pow_self : (j : ℕ) → digit (2 ^ j) j ≡ 1
digit-two-pow_self zero = refl
digit-two-pow_self (suc j) = rw half-two-pow (digit-two-pow_self j)

pub digit-two-pow_ne : (j k : ℕ) → j ≢ k → digit (2 ^ j) k ≡ 0
digit-two-pow_ne zero zero h = absurd (h refl)
digit-two-pow_ne zero (suc k) h = digit-zero k
digit-two-pow_ne (suc j) zero h = omega (arith, pow-suc 2 j)
digit-two-pow_ne (suc j) (suc k) h = rw half-two-pow (digit-two-pow_ne j k (λ e. h (ap suc e)))

-- `~x` in n bits
pub digit_complement : (n x k : ℕ) → x < 2 ^ n → k < n → digit (2 ^ n - 1 - x) k ≡ 1 - digit x k
digit_complement zero x k h l = absurd (omega arith)
digit_complement (suc n) x zero h l = omega (arith, pow-suc 2 n)
digit_complement (suc n) x (suc k) h l =
    let half : (2 ^ suc n - 1 - x) / 2 ≡ 2 ^ n - 1 - x / 2 = omega (arith, pow-suc 2 n) in
    rw half (digit_complement n (x / 2) k (omega (arith, pow-suc 2 n)) (omega arith))

-- `~0 << r` in n bits
pub digit_mask_above : (n r k : ℕ) → r ≤ k → k < n → digit (2 ^ n - 2 ^ r) k ≡ 1
digit_mask_above zero r k h l = absurd (omega arith)
digit_mask_above (suc n) zero zero h l = omega (arith, pow-suc 2 n, one-le-pow n 2)
digit_mask_above (suc n) zero (suc k) h l =
    let half : (2 ^ suc n - 2 ^ 0) / 2 ≡ 2 ^ n - 2 ^ 0 = omega (arith, pow-suc 2 n) in
    rw half (digit_mask_above n zero k (omega arith) (omega arith))
digit_mask_above (suc n) (suc r) zero h l = absurd (omega arith)
digit_mask_above (suc n) (suc r) (suc k) h l =
    let half : (2 ^ suc n - 2 ^ suc r) / 2 ≡ 2 ^ n - 2 ^ r =
      omega (arith, pow-suc 2 n, pow-suc 2 r) in
    rw half (digit_mask_above n r k (omega arith) (omega arith))

pub digit_mask_below : (n r k : ℕ) → k < r → r ≤ n → digit (2 ^ n - 2 ^ r) k ≡ 0
digit_mask_below zero r k h l = absurd (omega arith)
digit_mask_below (suc n) zero k h l = absurd (omega arith)
digit_mask_below (suc n) (suc r) zero h l = omega (arith, pow-suc 2 n, pow-suc 2 r)
digit_mask_below (suc n) (suc r) (suc k) h l =
    let half : (2 ^ suc n - 2 ^ suc r) / 2 ≡ 2 ^ n - 2 ^ r =
      omega (arith, pow-suc 2 n, pow-suc 2 r) in
    rw half (digit_mask_below n r k (omega arith) (omega arith))

-- a number with no digit below n set is 0 there
pub eq_zero_of_digits : (n w : ℕ) → w < 2 ^ n → ((k : ℕ) → k < n → digit w k ≡ 0) → w ≡ 0
eq_zero_of_digits zero w h all = omega arith
eq_zero_of_digits (suc n) w h all =
    let low : w % 2 ≡ 0 = all 0 (omega arith) in
    let rest : w / 2 ≡ 0 =
      eq_zero_of_digits n (w / 2) (omega (arith, pow-suc 2 n)) (λ k l. all (suc k) (omega arith)) in
    omega arith
