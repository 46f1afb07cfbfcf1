-- ===== src/Crc/Laws.antt =====
-- The table-driven CRC32C of src/mm_crc32.c computes the bit-by-bit one.
use Prim.Native.Nat.{bit_and, bit_xor}
use native.Mathlib.Nat.{eq-or-lt_of_le}
use mathlib.Core.Logic.{inl, inr}
use mars_memory_allocator.Base.{
  ℕ, zero, suc, ◌*◌, ◌/◌, ◌%◌, ◌^◌, ◌≤◌, ◌<◌, ◌≡◌, refl, sym, ap, ◌∙◌, inl, inr, Bool, true, ◌&&◌,
  List, [], ◌∷◌, ◌++◌, arith, ◌==◌, get_or,
}
use mars_memory_allocator.Base.Bits.{bit_xor-lt, bit_and_mask, bit_xor_fields, bit_xor_high}
use mars_memory_allocator.Crc.{crc_table, sw_step, crc32c_sw, crc32c}
use mars_memory_allocator.Crc.Reference.{
  shift_bit, shift_bits, bitwise_step, bitwise_crc, shift_bits-bit_xor, shift_bits-mul,
  shift_bits-lt,
}

-- a list of bytes
abbrev pub AreBytes : List ℕ → Type 0
AreBytes [] = Unit
AreBytes (b ∷ bs) = (b < 256) × AreBytes bs

-- the first `count` entries of the table against the definition, as a test
entries_agree : ℕ → Bool
entries_agree zero = true
entries_agree (suc count) = entries_agree count && get_or crc_table count 0 == shift_bits 8 count

entry_of_agree :
    (count i : ℕ) → entries_agree count ≡ true → i < count → get_or crc_table i 0 ≡ shift_bits 8 i
unfolding entries_agree
entry_of_agree zero i agree below = absurd (omega arith)
entry_of_agree (suc count) i agree below =
    let earlier = entry_of_agree count i in
    let here : get_or crc_table count 0 ≡ shift_bits 8 count = ground arith in
    let within : i ≤ count = omega arith in
    elim (eq-or-lt_of_le within) [ inl e ↦ rw e here | inr l ↦ earlier (ground arith) l ]

table_checks : entries_agree 256 ≡ true
unfolding entries_agree crc_table shift_bits shift_bit
table_checks = refl

-- Each of the 256 entries of the table is its index, shifted out bit by bit.
table_entry : (i : ℕ) → i < 256 → get_or crc_table i 0 ≡ shift_bits 8 i
table_entry i h = entry_of_agree 256 i table_checks h

pub sw_step-bitwise_step : (crc b : ℕ) → b < 256 → sw_step crc b ≡ bitwise_step crc b
unfolding sw_step bitwise_step
sw_step-bitwise_step crc b h =
    let x = bit_xor crc b in
    let low : bit_and x 0xff ≡ x % 256 = bit_and_mask 8 x in
    let split : x ≡ bit_xor (x / 256 * 2 ^ 8) (x % 256) =
      omega (arith, bit_xor_fields 8 (x / 256) (x % 256) (omega arith)) in
    rw (low, table_entry (x % 256) (omega arith), ← bit_xor_high 8 crc b h)
      (rw shift_bits-mul at
        (sym (ap (shift_bits 8) split ∙ shift_bits-bit_xor 8 (x / 256 * 2 ^ 8) (x % 256))))

-- Over any bytes and any register, the table-driven loop of mm_crc32c_sw gives what dividing by
-- the reflected Castagnoli polynomial one bit at a time gives.
pub crc32c_sw-bitwise_crc :
    (crc : ℕ) (bs : List ℕ) → AreBytes bs → crc32c_sw crc bs ≡ bitwise_crc crc bs
unfolding crc32c_sw bitwise_crc
crc32c_sw-bitwise_crc crc [] h = refl
crc32c_sw-bitwise_crc crc (b ∷ bs) h =
    rw (sw_step-bitwise_step crc b h.0) (crc32c_sw-bitwise_crc (bitwise_step crc b) bs h.1)

-- A message may be fed to mm_crc32c_sw in pieces: the register after the first piece, carried into
-- the second, is the register after the whole.
pub crc32c_sw-append :
    (crc : ℕ) (xs ys : List ℕ) → crc32c_sw crc (xs ++ ys) ≡ crc32c_sw (crc32c_sw crc xs) ys
unfolding crc32c_sw
crc32c_sw-append crc [] ys = refl
crc32c_sw-append crc (x ∷ xs) ys = crc32c_sw-append (sw_step crc x) xs ys

pub bitwise_step-lt : (crc b : ℕ) → crc < 2 ^ 32 → b < 256 → bitwise_step crc b < 2 ^ 32
unfolding bitwise_step
bitwise_step-lt crc b h k = shift_bits-lt 8 (bit_xor crc b) (bit_xor-lt 32 crc b h (omega arith))

pub crc32c_sw-lt : (crc : ℕ) (bs : List ℕ) → crc < 2 ^ 32 → AreBytes bs → crc32c_sw crc bs < 2 ^ 32
unfolding crc32c_sw
crc32c_sw-lt crc [] h k = h
crc32c_sw-lt crc (b ∷ bs) h k =
    crc32c_sw-lt (sw_step crc b) bs
      (rw (sw_step-bitwise_step crc b k.0) (bitwise_step-lt crc b h k.0)) k.1

-- The checksum is a 32-bit number.
pub crc32c-lt : (bs : List ℕ) → crc32c bs < 2 ^ 32
unfolding crc32c
crc32c-lt bs = omega arith
