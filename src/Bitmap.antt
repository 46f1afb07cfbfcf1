-- ===== src/Bitmap.antt =====
-- The bitmap over the bins, src/mm_freelist.c: one bit for each non-empty bin, in 64-bit words.
pub mod Laws
pub mod Search
use Prim.Native.Nat.{bit_and, bit_or}
use mars_memory_allocator.Base.{
  ℕ, zero, suc, ◌+◌, ◌-◌, ◌*◌, ◌/◌, ◌%◌, ◌^◌, ◌≤◌, ◌<◌, ◌≡◌, refl, sym, ap, ◌∙◌, ◌≢◌, ◌↔◌, ◌⊎◌, inl,
  inr, Bool, true, false, not, ◌&&◌, ◌||◌, Option, none, some, List, [], ◌∷◌, ◌++◌, arith, ltb, leb,
  ◌==◌, if◌then◌else◌, ltb→lt, lt→ltb, leb→le, le→leb, eq→==, ==_iff, Bool-cases, Option-cases,
  length, get_or, length-append,
}

abbrev pub bin_count : ℕ
bin_count = 128

abbrev pub bin_words : ℕ
bin_words = bin_count / 64

-- `bin_bitmap[]`: the words by index
abbrev pub Bitmap : Type 0
Bitmap = ℕ → ℕ

-- one array element overwritten
abbrev pub update {ℓ} : {A : Type ℓ} → (ℕ → A) → ℕ → A → ℕ → A
update f i v j = if i == j then v else f j

unfoldable pub bitmap_set : Bitmap → ℕ → Bitmap
bitmap_set bm bin = update bm (bin / 64) (bit_or (bm (bin / 64)) (2 ^ (bin % 64)))

unfoldable pub bitmap_clear : Bitmap → ℕ → Bitmap
bitmap_clear bm bin = update bm (bin / 64) (bit_and (bm (bin / 64)) (2 ^ 64 - 1 - 2 ^ (bin % 64)))

unfoldable pub bitmap_test : Bitmap → ℕ → Bool
bitmap_test bm bin = not (bm (bin / 64) / 2 ^ (bin % 64) % 2 == 0)

-- `while ((w & 1) == 0) { w >>= 1; k++; }`, for the 64 rounds that a word can take
unfoldable pub lowest_bit_from : ℕ → ℕ → ℕ → ℕ
lowest_bit_from zero w k = k
lowest_bit_from (suc rounds) w k =
    let rest = lowest_bit_from rounds (w / 2) (k + 1) in if w % 2 == 0 then rest else k

unfoldable pub lowest_bit : ℕ → ℕ
unfolding lowest_bit_from
lowest_bit w = lowest_bit_from 64 w 0

-- the loop of next_nonempty: `rounds` words may still be looked at
unfoldable pub next_word : ℕ → Bitmap → ℕ → ℕ → ℕ
next_word zero bm word w = bin_count
next_word (suc rounds) bm word w =
    let rest = next_word rounds bm (word + 1) (bm (word + 1)) in
    if not (w == 0)
    then word * 64 + lowest_bit w
    else if leb bin_words (word + 1)
    then bin_count
    else rest

-- the smallest non-empty bin at or above `from`
unfoldable pub next_nonempty : Bitmap → ℕ → ℕ
unfolding next_word
next_nonempty bm from =
    if leb bin_count from
    then bin_count
    else next_word bin_words bm (from / 64)
        (bit_and (bm (from / 64)) ((2 ^ 64 - 1) * 2 ^ (from % 64) % 2 ^ 64))
