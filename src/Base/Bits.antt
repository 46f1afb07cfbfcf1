-- ===== src/Base/Bits.antt =====
-- The native bit operations at variables: one digit at a time, then the laws of exclusive or.
use Prim.Native.Nat.{
  ℕ, zero, suc, ◌+◌, ◌-◌, ◌*◌, ◌/◌, ◌%◌, ◌≤◌, ◌<◌, ◌^◌, min, max, bit_and, bit_or, bit_xor, digits,
  bit_and-bitwise, bit_or-bitwise, bit_xor-bitwise, differ,
}
use mathlib.Core.Path.{◌≡◌, refl, ap, ◌∙◌}
use mathlib.Core.Logic.{inl, inr}
use native.Mathlib.Nat.{
  mod-le, mod-eq_of_lt, pow-suc, one-le-pow, div-div-eq-div-mul, mod-add-div, eq-or-lt_of_le,
}
use native.Mathlib.Omega.{arith}

-- Fuel past the first argument makes no difference, so one step of the recursion needs none.
module _ (tail : ℕ → ℕ) (op : ℕ → ℕ → ℕ) where
  one_more : (fuel x y : ℕ) → x ≤ fuel → digits tail op (suc fuel) x y ≡ digits tail op fuel x y
  one_more zero zero y h = refl
  one_more (suc fuel) zero y h = refl
  one_more zero (suc x) y h = absurd (omega arith)
  one_more (suc fuel) (suc x) y h = omega (arith, one_more fuel (suc x / 2) (y / 2) (omega arith))

  spare_fuel :
      (more fuel x y : ℕ)
      → x ≤ fuel
      → fuel ≤ more
      → digits tail op more x y ≡ digits tail op fuel x y
  spare_fuel zero fuel x y h l = let e : fuel ≡ 0 = omega arith in rw e refl
  spare_fuel (suc more) fuel x y h l = elim (eq-or-lt_of_le l) [
    | inl e ↦ rw e refl
    | inr lt ↦ one_more more x y (omega arith) ∙ spare_fuel more fuel x y h (omega arith)
  ]

  digits_step :
      (x y : ℕ)
      → tail y ≡ tail (y / 2) * 2 + op 0 (y % 2)
      → digits tail op x x y ≡ digits tail op (x / 2) (x / 2) (y / 2) * 2 + op (x % 2) (y % 2)
  digits_step zero y base = base
  digits_step (suc x) y base =
      let halves = spare_fuel x (suc x / 2) (suc x / 2) (y / 2) (omega arith) (omega arith) in
      omega (arith, halves)

differ_digits : (x y : ℕ) → x < 2 → y < 2 → differ x y ≡ (x + y) % 2
differ_digits zero y h k = omega arith
differ_digits (suc zero) zero h k = omega arith
differ_digits (suc zero) (suc zero) h k = omega arith
differ_digits (suc zero) (suc (suc y)) h k = absurd (omega arith)
differ_digits (suc (suc x)) y h k = absurd (omega arith)

pub bit_xor_step : (a b : ℕ) → bit_xor a b ≡ bit_xor (a / 2) (b / 2) * 2 + (a % 2 + b % 2) % 2
bit_xor_step a b = omega (
  arith,
  bit_xor-bitwise a b,
  bit_xor-bitwise (a / 2) (b / 2),
  digits_step (λ c. c) differ a b (omega arith),
  differ_digits (a % 2) (b % 2) (omega arith) (omega arith),
)

pub bit_or_step : (x y : ℕ) → bit_or x y ≡ bit_or (x / 2) (y / 2) * 2 + max (x % 2) (y % 2)
bit_or_step x y =
    let step = digits_step (λ c. c) max x y (omega arith) in
    let whole = bit_or-bitwise x y in omega (arith, step, whole, bit_or-bitwise (x / 2) (y / 2))

pub bit_and_step : (x y : ℕ) → bit_and x y ≡ bit_and (x / 2) (y / 2) * 2 + min (x % 2) (y % 2)
bit_and_step x y =
    let step = digits_step (λ c. 0) min x y (omega arith) in
    let whole = bit_and-bitwise x y in omega (arith, step, whole, bit_and-bitwise (x / 2) (y / 2))

pub zero-bit_xor : (b : ℕ) → bit_xor 0 b ≡ b
zero-bit_xor b = bit_xor-bitwise 0 b

-- The laws go from the halves to the numbers: `n` bounds how deep.
xor_comm_fuel : (n a b : ℕ) → a ≤ n → b ≤ n → bit_xor a b ≡ bit_xor b a
xor_comm_fuel zero zero zero p q = refl
xor_comm_fuel zero (suc a) b p q = absurd (omega arith)
xor_comm_fuel zero zero (suc b) p q = absurd (omega arith)
xor_comm_fuel (suc n) a b p q = omega (
  arith,
  bit_xor_step a b,
  bit_xor_step b a,
  xor_comm_fuel n (a / 2) (b / 2) (omega arith) (omega arith),
)

pub bit_xor_comm : (a b : ℕ) → bit_xor a b ≡ bit_xor b a
bit_xor_comm a b = xor_comm_fuel (a + b) a b (omega arith) (omega arith)

xor_self_fuel : (n a : ℕ) → a ≤ n → bit_xor a a ≡ 0
xor_self_fuel zero zero p = refl
xor_self_fuel zero (suc a) p = absurd (omega arith)
xor_self_fuel (suc n) a p = omega (arith, bit_xor_step a a, xor_self_fuel n (a / 2) (omega arith))

pub bit_xor_self : (a : ℕ) → bit_xor a a ≡ 0
bit_xor_self a = xor_self_fuel a a (omega arith)

xor_assoc_fuel :
    (n a b c : ℕ) → a ≤ n → b ≤ n → c ≤ n → bit_xor (bit_xor a b) c ≡ bit_xor a (bit_xor b c)
xor_assoc_fuel zero zero b c p q r = rw (zero-bit_xor b, zero-bit_xor (bit_xor b c))
xor_assoc_fuel zero (suc a) b c p q r = absurd (omega arith)
xor_assoc_fuel (suc n) a b c p q r =
    let ih = xor_assoc_fuel n (a / 2) (b / 2) (c / 2) (omega arith) (omega arith) (omega arith) in
    let ab : bit_xor a b / 2 ≡ bit_xor (a / 2) (b / 2) = omega (arith, bit_xor_step a b) in
    let bc : bit_xor b c / 2 ≡ bit_xor (b / 2) (c / 2) = omega (arith, bit_xor_step b c) in
    let left : bit_xor (bit_xor a b / 2) (c / 2) ≡ bit_xor (a / 2) (bit_xor b c / 2) =
      rw (ab, bc) ih in
    omega (
      arith,
      bit_xor_step a b,
      bit_xor_step b c,
      bit_xor_step (bit_xor a b) c,
      bit_xor_step a (bit_xor b c),
    )

pub bit_xor_assoc : (a b c : ℕ) → bit_xor (bit_xor a b) c ≡ bit_xor a (bit_xor b c)
bit_xor_assoc a b c = xor_assoc_fuel (a + b + c) a b c (omega arith) (omega arith) (omega arith)

-- Two equal keys cancel.
pub bit_xor_cancel : (a k : ℕ) → bit_xor (bit_xor a k) k ≡ a
bit_xor_cancel a k = rw (bit_xor_assoc, bit_xor_self, bit_xor_comm) (zero-bit_xor a)

pub bit_xor-lt : (k a b : ℕ) → a < 2 ^ k → b < 2 ^ k → bit_xor a b < 2 ^ k
bit_xor-lt zero a b h l =
    let x : a ≡ 0 = omega arith in let y : b ≡ 0 = omega arith in rw (x, y) (omega arith)
bit_xor-lt (suc k) a b h l = omega (
  arith,
  pow-suc 2 k,
  bit_xor_step a b,
  bit_xor-lt k (a / 2) (b / 2) (omega (arith, pow-suc 2 k)) (omega (arith, pow-suc 2 k)),
)

pub bit_or-lt : (k a b : ℕ) → a < 2 ^ k → b < 2 ^ k → bit_or a b < 2 ^ k
bit_or-lt zero a b h l =
    let x : a ≡ 0 = omega arith in let y : b ≡ 0 = omega arith in rw (x, y) (omega arith)
bit_or-lt (suc k) a b h l = omega (
  arith,
  pow-suc 2 k,
  bit_or_step a b,
  bit_or-lt k (a / 2) (b / 2) (omega (arith, pow-suc 2 k)) (omega (arith, pow-suc 2 k)),
)

pub bit_and-le : (n a b : ℕ) → a ≤ n → bit_and a b ≤ a
bit_and-le zero zero b p = omega (arith, bit_and-bitwise 0 b)
bit_and-le zero (suc a) b p = absurd (omega arith)
bit_and-le (suc n) a b p =
    omega (arith, bit_and_step a b, bit_and-le n (a / 2) (b / 2) (omega arith))

no_common_bits : (fuel x : ℕ) → x ≤ fuel → bit_and x 0 ≡ 0
no_common_bits zero x h = let e : x ≡ 0 = omega arith in rw e refl
no_common_bits (suc fuel) x h =
    omega (arith, no_common_bits fuel (x / 2) (omega arith), bit_and_step x 0)

mod-two-mul : (a m : ℕ) → a % (2 * m) ≡ a / 2 % m * 2 + a % 2
mod-two-mul a m =
    let low : a / 2 % m + m * (a / (2 * m)) ≡ a / 2 =
      rw (div-div-eq-div-mul a 2 m) at (mod-add-div (a / 2) m) in
    omega (arith, low, mod-add-div a (2 * m))

mod-two-pow-suc : (k a : ℕ) → a % 2 ^ suc k ≡ a / 2 % 2 ^ k * 2 + a % 2
mod-two-pow-suc k a =
    let e : 2 ^ suc k ≡ 2 * 2 ^ k = omega (arith, pow-suc 2 k) in rw e (mod-two-mul a (2 ^ k))

-- A mask of `k` low bits is the remainder by `2 ^ k`.
pub bit_and_mask : (k a : ℕ) → bit_and a (2 ^ k - 1) ≡ a % 2 ^ k
bit_and_mask zero a = omega (arith, no_common_bits a a (omega arith))
bit_and_mask (suc k) a =
    let half : (2 ^ suc k - 1) / 2 ≡ 2 ^ k - 1 = omega (arith, pow-suc 2 k) in
    let low : bit_and a (2 ^ suc k - 1) ≡ bit_and (a / 2) (2 ^ k - 1) * 2 + a % 2 =
      rw (← half) (omega (arith, bit_and_step a (2 ^ suc k - 1), pow-suc 2 k, one-le-pow k 2)) in
    omega (arith, low, bit_and_mask k (a / 2), mod-two-pow-suc k a)

-- A mask of the high bits of a word takes the remainder off.
pub bit_and_high : (k w a : ℕ) → k ≤ w → a < 2 ^ w → bit_and a (2 ^ w - 2 ^ k) ≡ a - a % 2 ^ k
bit_and_high zero w a h l = omega (arith, bit_and_mask w a, mod-eq_of_lt l)
bit_and_high (suc k) zero a h l = absurd (omega arith)
bit_and_high (suc k) (suc w) a h l =
    let p = pow-suc 2 k in
    let q = pow-suc 2 w in
    let half : (2 ^ suc w - 2 ^ suc k) / 2 ≡ 2 ^ w - 2 ^ k = omega arith in
    let rest = bit_and_high k w (a / 2) (omega arith) (omega arith) in
    let low : bit_and a (2 ^ suc w - 2 ^ suc k) ≡ bit_and (a / 2) (2 ^ w - 2 ^ k) * 2 =
      rw (← half) (omega (arith, bit_and_step a (2 ^ suc w - 2 ^ suc k))) in
    omega (arith, low, rest, mod-two-pow-suc k a, mod-le (a / 2) (2 ^ k))

-- Disjoint fields add up.
pub bit_xor_fields : (k h l : ℕ) → l < 2 ^ k → bit_xor (h * 2 ^ k) l ≡ h * 2 ^ k + l
bit_xor_fields zero h l b =
    let z : l ≡ 0 = omega arith in
    rw z (omega (arith, bit_xor_comm (h * 2 ^ 0) 0, zero-bit_xor (h * 2 ^ 0)))
bit_xor_fields (suc k) h l b =
    let e = ap (λ (t : ℕ). h * t) (pow-suc 2 k) in
    let half : h * 2 ^ suc k / 2 ≡ h * 2 ^ k = omega (arith, e) in
    let step : bit_xor (h * 2 ^ suc k) l ≡ bit_xor (h * 2 ^ k) (l / 2) * 2 + l % 2 =
      rw (← half) (omega (arith, e, bit_xor_step (h * 2 ^ suc k) l)) in
    omega (arith, step, e, bit_xor_fields k h (l / 2) (omega (arith, pow-suc 2 k)))

-- A set top bit stays above.
pub bit_xor_top : (k a q : ℕ) → a < 2 ^ k → q < 2 ^ k → bit_xor a (2 ^ k + q) ≡ 2 ^ k + bit_xor a q
bit_xor_top zero a q h l =
    let x : a ≡ 0 = omega arith in let y : q ≡ 0 = omega arith in rw (x, y) refl
bit_xor_top (suc k) a q h l =
    let p = pow-suc 2 k in
    let half : (2 ^ suc k + q) / 2 ≡ 2 ^ k + q / 2 = omega (arith, p) in
    let ih = bit_xor_top k (a / 2) (q / 2) (omega (arith, p)) (omega (arith, p)) in
    let step : bit_xor (a / 2) ((2 ^ suc k + q) / 2) ≡ 2 ^ k + bit_xor (a / 2) (q / 2) =
      rw half ih in
    omega (arith, p, step, bit_xor_step a (2 ^ suc k + q), bit_xor_step a q)

pub bit_xor-zero : (a : ℕ) → bit_xor a 0 ≡ a
bit_xor-zero a = rw bit_xor_comm (zero-bit_xor a)

pub bit_xor_high : (k a b : ℕ) → b < 2 ^ k → bit_xor a b / 2 ^ k ≡ a / 2 ^ k
bit_xor_high zero a b h = let z : b ≡ 0 = omega arith in rw z (ap (λ t. t / 2 ^ 0) (bit_xor-zero a))
bit_xor_high (suc k) a b h =
    let e : 2 ^ suc k ≡ 2 * 2 ^ k = omega (arith, pow-suc 2 k) in
    let half : bit_xor a b / 2 ≡ bit_xor (a / 2) (b / 2) = omega (arith, bit_xor_step a b) in
    rw (e, ← div-div-eq-div-mul (bit_xor a b) 2 (2 ^ k), half, ← div-div-eq-div-mul a 2 (2 ^ k))
      (bit_xor_high k (a / 2) (b / 2) (omega arith))
