-- ===== src/Crc/Reference.antt =====
-- What CRC32C is, bit by bit: division by the reflected Castagnoli polynomial, one shift for each
-- bit of the message. This is the independent description that the table is held against.
use Prim.Native.Nat.{bit_xor}
use native.Mathlib.Nat.{pow-suc}
use mars_memory_allocator.Base.{
  ℕ, zero, suc, ◌+◌, ◌*◌, ◌/◌, ◌%◌, ◌^◌, ◌<◌, ◌≡◌, refl, sym, ap, ◌∙◌, List, [], ◌∷◌, arith, ◌==◌,
  if◌then◌else◌,
}
use mars_memory_allocator.Base.Bits.{
  bit_xor_step, bit_xor_comm, bit_xor_self, bit_xor_assoc, zero-bit_xor, bit_xor-lt, bit_xor-zero,
}

abbrev pub poly : ℕ
poly = 0x82f63b78

unfoldable pub shift_bit : ℕ → ℕ
shift_bit c = bit_xor (c / 2) (if c % 2 == 0 then 0 else poly)

unfoldable pub shift_bits : ℕ → ℕ → ℕ
shift_bits zero c = c
shift_bits (suc n) c = shift_bits n (shift_bit c)

unfoldable pub bitwise_step : ℕ → ℕ → ℕ
bitwise_step crc b = shift_bits 8 (bit_xor crc b)

unfoldable pub bitwise_crc : ℕ → List ℕ → ℕ
bitwise_crc crc [] = crc
bitwise_crc crc (b ∷ bs) = bitwise_crc (bitwise_step crc b) bs

xor_half : (a b : ℕ) → bit_xor a b / 2 ≡ bit_xor (a / 2) (b / 2)
xor_half a b = omega (arith, bit_xor_step a b)

xor_parity : (a b : ℕ) → bit_xor a b % 2 ≡ (a % 2 + b % 2) % 2
xor_parity a b = omega (arith, bit_xor_step a b)

-- regrouping four terms
xor_swap : (a b c d : ℕ) → bit_xor (bit_xor a b) (bit_xor c d) ≡ bit_xor (bit_xor a c) (bit_xor b d)
xor_swap a b c d =
    bit_xor_assoc a b (bit_xor c d)
    ∙ ap (bit_xor a)
        (sym (bit_xor_assoc b c d) ∙ ap (λ t. bit_xor t d) (bit_xor_comm b c) ∙ bit_xor_assoc c b d)
    ∙ sym (bit_xor_assoc a c (bit_xor b d))

abbrev feedback : ℕ → ℕ
feedback c = if c % 2 == 0 then 0 else poly

feedback-bit_xor : (a b : ℕ) → feedback (bit_xor a b) ≡ bit_xor (feedback a) (feedback b)
feedback-bit_xor a b =
    ground (
      arith,
      xor_parity a b,
      bit_xor-zero 0,
      bit_xor-zero poly,
      zero-bit_xor poly,
      bit_xor_self poly,
    )

shift_bit-bit_xor : (a b : ℕ) → shift_bit (bit_xor a b) ≡ bit_xor (shift_bit a) (shift_bit b)
unfolding shift_bit
shift_bit-bit_xor a b =
    rw (xor_half a b, feedback-bit_xor a b) (xor_swap (a / 2) (b / 2) (feedback a) (feedback b))

pub shift_bits-bit_xor :
    (n a b : ℕ) → shift_bits n (bit_xor a b) ≡ bit_xor (shift_bits n a) (shift_bits n b)
unfolding shift_bits
shift_bits-bit_xor zero a b = refl
shift_bits-bit_xor (suc n) a b =
    ap (shift_bits n) (shift_bit-bit_xor a b) ∙ shift_bits-bit_xor n (shift_bit a) (shift_bit b)

-- zeroes shift out
pub shift_bits-mul : (n h : ℕ) → shift_bits n (h * 2 ^ n) ≡ h
unfolding shift_bits shift_bit
shift_bits-mul zero h = omega arith
shift_bits-mul (suc n) h =
    let even : (h * 2 ^ suc n) % 2 ≡ 0 = omega (arith, ap (λ (t : ℕ). h * t) (pow-suc 2 n)) in
    let half : h * 2 ^ suc n / 2 ≡ h * 2 ^ n = omega (arith, ap (λ (t : ℕ). h * t) (pow-suc 2 n)) in
    rw (even, half, bit_xor-zero) (shift_bits-mul n h)

pub shift_bit-lt : (c : ℕ) → c < 2 ^ 32 → shift_bit c < 2 ^ 32
unfolding shift_bit
shift_bit-lt c h = ground (arith, bit_xor-lt 32 (c / 2) 0, bit_xor-lt 32 (c / 2) poly)

pub shift_bits-lt : (n c : ℕ) → c < 2 ^ 32 → shift_bits n c < 2 ^ 32
unfolding shift_bits
shift_bits-lt zero c h = h
shift_bits-lt (suc n) c h = shift_bits-lt n (shift_bit c) (shift_bit-lt c h)
