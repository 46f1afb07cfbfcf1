-- ===== src/Crc/Detect.antt =====
-- Damage that CRC32C cannot miss: README.md and docs/FAULT_MODEL.md, single-bit detection.
use Prim.Native.Nat.{bit_xor}
use mars_memory_allocator.Base.{
  ℕ, zero, suc, ◌-◌, ◌/◌, ◌%◌, ◌^◌, ◌≤◌, ◌<◌, ◌≡◌, sym, ap, ◌∙◌, ◌≢◌, List, [], ◌∷◌, ◌++◌, arith,
}
use mars_memory_allocator.Base.Bits.{
  bit_xor_top, bit_xor_cancel, bit_xor_comm, bit_xor-lt, bit_xor-zero,
}
use mars_memory_allocator.Crc.{crc32c_sw, crc32c, sw_step}
use mars_memory_allocator.Crc.Reference.{poly, shift_bit, shift_bits, shift_bit-lt, bitwise_step}
use mars_memory_allocator.Crc.Laws.{
  AreBytes, sw_step-bitwise_step, bitwise_step-lt, crc32c_sw-lt, crc32c_sw-append,
}

bit_xor_right_cancel : (a b k : ℕ) → bit_xor a k ≡ bit_xor b k → a ≡ b
bit_xor_right_cancel a b k h =
    sym (bit_xor_cancel a k) ∙ ap (λ t. bit_xor t k) h ∙ bit_xor_cancel b k

bit_xor_left_cancel : (k a b : ℕ) → bit_xor k a ≡ bit_xor k b → a ≡ b
bit_xor_left_cancel k a b h = bit_xor_right_cancel a b k (bit_xor_comm a k ∙ h ∙ bit_xor_comm k b)

shift_bit_even : (c : ℕ) → c % 2 ≡ 0 → shift_bit c ≡ c / 2
unfolding shift_bit
shift_bit_even c h = ground (arith, bit_xor-zero (c / 2))

-- the polynomial's top bit is set, so an odd register leaves it set
shift_bit_odd :
    (c : ℕ) → c < 2 ^ 32 → c % 2 ≡ 1 → (shift_bit c ≡ bit_xor (c / 2) poly) × (2 ^ 31 ≤ shift_bit c)
unfolding shift_bit
shift_bit_odd c l h = ground (arith, bit_xor_top 31 (c / 2) 0x2f63b78 (omega arith) (omega arith))

shift_bit_injective : (c d : ℕ) → c < 2 ^ 32 → d < 2 ^ 32 → shift_bit c ≡ shift_bit d → c ≡ d
shift_bit_injective c d h k e = ground (
  arith,
  shift_bit_even c,
  shift_bit_even d,
  shift_bit_odd c,
  shift_bit_odd d,
  bit_xor_right_cancel (c / 2) (d / 2) poly,
)

shift_bits_injective :
    (n c d : ℕ) → c < 2 ^ 32 → d < 2 ^ 32 → shift_bits n c ≡ shift_bits n d → c ≡ d
unfolding shift_bits
shift_bits_injective zero c d h k e = e
shift_bits_injective (suc n) c d h k e =
    shift_bit_injective c d h k
      (shift_bits_injective n (shift_bit c) (shift_bit d) (shift_bit-lt c h) (shift_bit-lt d k) e)

bitwise_step_injective :
    (c d a b : ℕ)
    → c < 2 ^ 32
    → d < 2 ^ 32
    → a < 256
    → b < 256
    → bitwise_step c a ≡ bitwise_step d b
    → bit_xor c a ≡ bit_xor d b
unfolding bitwise_step
bitwise_step_injective c d a b hc hd ha hb e =
    shift_bits_injective 8 (bit_xor c a) (bit_xor d b) (bit_xor-lt 32 c a hc (omega arith))
      (bit_xor-lt 32 d b hd (omega arith)) e

sw_step-lt : (c b : ℕ) → c < 2 ^ 32 → b < 256 → sw_step c b < 2 ^ 32
sw_step-lt c b h k = rw (sw_step-bitwise_step c b k) (bitwise_step-lt c b h k)

sw_step_equal :
    (c d a b : ℕ)
    → c < 2 ^ 32
    → d < 2 ^ 32
    → a < 256
    → b < 256
    → sw_step c a ≡ sw_step d b
    → bit_xor c a ≡ bit_xor d b
sw_step_equal c d a b hc hd ha hb e =
    bitwise_step_injective c d a b hc hd ha hb
      (sym (sw_step-bitwise_step c a ha) ∙ e ∙ sw_step-bitwise_step d b hb)

-- Two registers that differ still differ after the same bytes.
crc32c_sw_injective :
    (bs : List ℕ) (c d : ℕ)
    → AreBytes bs
    → c < 2 ^ 32
    → d < 2 ^ 32
    → crc32c_sw c bs ≡ crc32c_sw d bs
    → c ≡ d
unfolding crc32c_sw
crc32c_sw_injective [] c d v h k e = e
crc32c_sw_injective (b ∷ bs) c d v h k e = bit_xor_right_cancel c d b (
    sw_step_equal c d b b h k v.0 v.0 (
      crc32c_sw_injective bs (sw_step c b) (sw_step d b) v.1 (sw_step-lt c b h v.0)
        (sw_step-lt d b k v.0) e))

-- Two byte messages that differ in one byte, and so in any bits of that byte, have different
-- checksums: no damage confined to one byte goes unseen, wherever it lies in the message.
pub crc32c_detects_byte :
    (before after : List ℕ) (a b : ℕ)
    → AreBytes before
    → AreBytes after
    → a < 256
    → b < 256
    → a ≢ b
    → crc32c (before ++ (a ∷ after)) ≢ crc32c (before ++ (b ∷ after))
unfolding crc32c crc32c_sw
crc32c_detects_byte before after a b hb ha la lb ne e =
    let c = crc32c_sw (2 ^ 32 - 1) before in
    let cl : c < 2 ^ 32 = crc32c_sw-lt (2 ^ 32 - 1) before (omega arith) hb in
    let one = crc32c_sw-append (2 ^ 32 - 1) before (a ∷ after) in
    let two = crc32c_sw-append (2 ^ 32 - 1) before (b ∷ after) in
    ne (
      bit_xor_left_cancel c a b (
        sw_step_equal c c a b cl cl la lb (
          crc32c_sw_injective after (sw_step c a) (sw_step c b) ha (sw_step-lt c a cl la)
            (sw_step-lt c b cl lb)
            (omega (
              arith,
              one,
              two,
              crc32c_sw-lt c (a ∷ after) cl (la, ha),
              crc32c_sw-lt c (b ∷ after) cl (lb, ha),
            )))))
