-- ===== src/Crc/Hardware.antt =====
-- crc32c_sse42 and the dispatch of src/mm_crc32.c. The two instructions are the processor's: they
-- are parameters, with what Intel documents of them as hypotheses.
use mars_memory_allocator.Base.{
  ℕ, ◌+◌, ◌*◌, ◌^◌, ◌<◌, ◌≡◌, refl, sym, ◌∙◌, Bool, true, false, List, [], ◌∷◌, arith,
  if◌then◌else◌,
}
use mars_memory_allocator.Crc.{crc32c_sw}
use mars_memory_allocator.Crc.Reference.{bitwise_step, bitwise_crc}
use mars_memory_allocator.Crc.Laws.{AreBytes, crc32c_sw-bitwise_crc, bitwise_step-lt}

-- the 64-bit number that eight bytes stand for, lowest first
abbrev pub chunk : ℕ → ℕ → ℕ → ℕ → ℕ → ℕ → ℕ → ℕ → ℕ
chunk a b c d e f g h =
    a + 256 * (b + 256 * (c + 256 * (d + 256 * (e + 256 * (f + 256 * (g + 256 * h))))))

module _ (crc32_u8 crc32_u64 : ℕ → ℕ → ℕ) where
  -- `while (len-- > 0) crc = _mm_crc32_u8(crc, *p++);`
  unfoldable pub sse42_tail : ℕ → List ℕ → ℕ
  sse42_tail crc [] = crc
  sse42_tail crc (b ∷ bs) = sse42_tail (crc32_u8 crc b) bs

  -- eight bytes at a time while the run is long enough, then one at a time
  unfoldable pub crc32c_sse42 : ℕ → List ℕ → ℕ
  crc32c_sse42 crc (a ∷ b ∷ c ∷ d ∷ e ∷ f ∷ g ∷ h ∷ bs) =
      crc32c_sse42 (crc32_u64 crc (chunk a b c d e f g h)) bs
  crc32c_sse42 crc bs = sse42_tail crc bs

  -- mm_crc32c_hw and mm_crc32c_update: `have_hw` is what the processor says of itself.
  unfoldable pub crc32c_update : Bool → ℕ → List ℕ → ℕ
  crc32c_update have_hw crc bs = if have_hw then crc32c_sse42 crc bs else crc32c_sw crc bs

-- The instruction on one byte accumulates a CRC32C over it; the one on 64 bits over its eight bytes,
-- lowest first.
abbrev pub ByteInstruction : (ℕ → ℕ → ℕ) → Type 0
ByteInstruction crc32_u8 =
    (crc b : ℕ) → crc < 2 ^ 32 → b < 256 → crc32_u8 crc b ≡ bitwise_step crc b

abbrev pub WordInstruction : (ℕ → ℕ → ℕ) → Type 0
WordInstruction crc32_u64 =
    (crc a b c d e f g h : ℕ)
    → crc < 2 ^ 32
    → AreBytes (a ∷ b ∷ c ∷ d ∷ e ∷ f ∷ g ∷ h ∷ [])
    → crc32_u64 crc (chunk a b c d e f g h) ≡ bitwise_crc crc (a ∷ b ∷ c ∷ d ∷ e ∷ f ∷ g ∷ h ∷ [])

bitwise_crc-lt : (crc : ℕ) (bs : List ℕ) → crc < 2 ^ 32 → AreBytes bs → bitwise_crc crc bs < 2 ^ 32
unfolding bitwise_crc
bitwise_crc-lt crc [] h v = h
bitwise_crc-lt crc (b ∷ bs) h v =
    bitwise_crc-lt (bitwise_step crc b) bs (bitwise_step-lt crc b h v.0) v.1

module _ (crc32_u8 crc32_u64 : ℕ → ℕ → ℕ) (byte : ByteInstruction crc32_u8)
    (word : WordInstruction crc32_u64) where
  sse42_tail-bitwise :
      (crc : ℕ) (bs : List ℕ)
      → crc < 2 ^ 32
      → AreBytes bs
      → sse42_tail crc32_u8 crc32_u64 crc bs ≡ bitwise_crc crc bs
  unfolding sse42_tail bitwise_crc
  sse42_tail-bitwise crc [] h v = refl
  sse42_tail-bitwise crc (b ∷ bs) h v =
      rw (byte crc b h v.0)
        (sse42_tail-bitwise (bitwise_step crc b) bs (bitwise_step-lt crc b h v.0) v.1)

  crc32c_sse42-bitwise :
      (crc : ℕ) (bs : List ℕ)
      → crc < 2 ^ 32
      → AreBytes bs
      → crc32c_sse42 crc32_u8 crc32_u64 crc bs ≡ bitwise_crc crc bs
  unfolding crc32c_sse42 bitwise_crc
  crc32c_sse42-bitwise crc (a ∷ b ∷ c ∷ d ∷ e ∷ f ∷ g ∷ h ∷ bs) l v =
      let eight : AreBytes (a ∷ b ∷ c ∷ d ∷ e ∷ f ∷ g ∷ h ∷ []) = ground arith in
      let tail : AreBytes bs = ground arith in
      rw (word crc a b c d e f g h l eight) (
        crc32c_sse42-bitwise (bitwise_crc crc (a ∷ b ∷ c ∷ d ∷ e ∷ f ∷ g ∷ h ∷ [])) bs
          (bitwise_crc-lt crc (a ∷ b ∷ c ∷ d ∷ e ∷ f ∷ g ∷ h ∷ []) l eight) tail)
  crc32c_sse42-bitwise crc bs l v = sse42_tail-bitwise crc bs l v

  -- With CRC instructions that do what their documentation says, both paths of the dispatch give
  -- the same checksum for every byte buffer and every 32-bit register, whatever the length.
  pub crc32c_update_paths :
      (crc : ℕ) (bs : List ℕ)
      → crc < 2 ^ 32
      → AreBytes bs
      → crc32c_update crc32_u8 crc32_u64 true crc bs ≡ crc32c_update crc32_u8 crc32_u64 false crc bs
  unfolding crc32c_update
  crc32c_update_paths crc bs h v =
      crc32c_sse42-bitwise crc bs h v ∙ sym (crc32c_sw-bitwise_crc crc bs v)
