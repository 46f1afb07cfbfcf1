-- ===== src/Examples/Parts.antt =====
-- The theorems on sizes, control words, bins, checksums and counters, at concrete inputs.
use mars_memory_allocator.Base.{
  ℕ, ◌≤◌, ◌<◌, ◌≡◌, refl, ap, ◌≢◌, true, false, [], ◌∷◌, ◌++◌, arith, ◌==◌, if◌then◌else◌,
}
use mars_memory_allocator.Layout.{hardened, paranoid, size_for}
use mars_memory_allocator.Bitmap.{Bitmap, bitmap_test, next_nonempty, bin_count}
use mars_memory_allocator.Layout.Geometry.{Fits, size_for-Fits}
use mars_memory_allocator.Bitmap.Laws.{IsBitmap}
use mars_memory_allocator.Bins.{bin_of}
use mars_memory_allocator.Crc.Reference.{bitwise_crc, bitwise_step}
use mars_memory_allocator.Memory.{bytes_of}
use mars_memory_allocator.Crc.{crc32c, crc32c_sw}
use mars_memory_allocator.Crc.Hardware.{crc32c_update, WordInstruction, crc32c_update_paths, chunk}
use mars_memory_allocator.Bins.Order.{bin_of_mono}
use mars_memory_allocator.Crc.Detect.{crc32c_detects_byte}
use mars_memory_allocator.Crc.Laws.{crc32c_sw-bitwise_crc}
use mars_memory_allocator.Bitmap.Search.{next_nonempty-smallest}

crc32c_sw-bitwise_crc_example :
    crc32c_sw 0xffffffff (49 ∷ 50 ∷ 51 ∷ []) ≡ bitwise_crc 0xffffffff (49 ∷ 50 ∷ 51 ∷ [])
crc32c_sw-bitwise_crc_example =
    crc32c_sw-bitwise_crc 0xffffffff (49 ∷ 50 ∷ 51 ∷ [])
      (omega arith, (omega arith, (omega arith, tt)))

crc32c_detects_byte_example : crc32c ((1 ∷ []) ++ (2 ∷ 4 ∷ [])) ≢ crc32c ((1 ∷ []) ++ (3 ∷ 4 ∷ []))
crc32c_detects_byte_example =
    crc32c_detects_byte (1 ∷ []) (4 ∷ []) 2 3 (omega arith, tt) (omega arith, tt) (omega arith)
      (omega arith) (λ e. omega arith)

-- instructions that do what the processor's documentation says of them
word_crc : ℕ → ℕ → ℕ
word_crc crc w = bitwise_crc crc (bytes_of 8 w)

word_crc-WordInstruction : WordInstruction word_crc
unfolding word_crc bytes_of
word_crc-WordInstruction crc a b c d e f g h l v =
    let bytes : bytes_of 8 (chunk a b c d e f g h) ≡ (a ∷ b ∷ c ∷ d ∷ e ∷ f ∷ g ∷ h ∷ []) =
      ground arith in
    ap (bitwise_crc crc) bytes

crc32c_update_paths_example :
    crc32c_update bitwise_step word_crc true 9 (1 ∷ 2 ∷ [])
    ≡ crc32c_update bitwise_step word_crc false 9 (1 ∷ 2 ∷ [])
crc32c_update_paths_example =
    crc32c_update_paths bitwise_step word_crc (λ crc b l k. refl) word_crc-WordInstruction 9
      (1 ∷ 2 ∷ []) (omega arith) (omega arith, (omega arith, tt))

size_for-Fits_example : Fits paranoid 100 (size_for paranoid 100)
size_for-Fits_example = size_for-Fits paranoid 100 (omega arith) (omega arith)

two_words : Bitmap
two_words w = if w == 0 then 1 else if w == 1 then 4 else 0

two_words-IsBitmap : IsBitmap two_words
unfolding two_words
two_words-IsBitmap w = ground arith

next_nonempty-smallest_example :
    (next_nonempty two_words 1 ≤ bin_count)
    × (next_nonempty two_words 1 < bin_count
        → (1 ≤ next_nonempty two_words 1)
          × (bitmap_test two_words (next_nonempty two_words 1) ≡ true))
    × ((j : ℕ) → 1 ≤ j → j < next_nonempty two_words 1 → bitmap_test two_words j ≡ false)
next_nonempty-smallest_example = next_nonempty-smallest two_words 1 two_words-IsBitmap

bin_of_mono_example : bin_of hardened 1040 ≤ bin_of hardened 9000
bin_of_mono_example = bin_of_mono hardened 1040 9000 (omega arith) (omega arith)
