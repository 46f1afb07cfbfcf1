-- ===== src/Layout/Word.antt =====
-- The control-word accessors of src/mm_layout.h, on the word itself. A shift is a product or a
-- quotient by a power of two, a mask of low bits a remainder, and `|` of disjoint fields a sum.
pub mod Laws
use mars_memory_allocator.Base.{
  ℕ, ◌+◌, ◌-◌, ◌*◌, ◌/◌, ◌%◌, ◌^◌, Bool, not, ◌==◌, leb, if◌then◌else◌,
}
use mars_memory_allocator.Layout.{Profile, hdr_size}

-- the extent, bits 63..10 in units of 16
unfoldable pub size_of : ℕ → ℕ
size_of w = w / 2 ^ 10 * 16

unfoldable pub set_size : ℕ → ℕ → ℕ
set_size w n = n / 16 * 2 ^ 10 % 2 ^ 64 + w % 2 ^ 10

unfoldable pub is_used : ℕ → Bool
is_used w = not (w % 2 == 0)

unfoldable pub prev_in_use : ℕ → Bool
prev_in_use w = not (w / 2 % 2 == 0)

unfoldable pub is_quarantined : ℕ → Bool
is_quarantined w = not (w / 2 ^ 2 % 2 == 0)

unfoldable pub set_prev_in_use : ℕ → Bool → ℕ
set_prev_in_use w used = w - w / 2 % 2 * 2 + (if used then 2 else 0)

unfoldable pub slack_of : ℕ → ℕ
slack_of w = w / 2 ^ 3 % 2 ^ 7

-- mm_set_word: the new word, with PREV_IN_USE kept from the old one.
unfoldable pub set_word : ℕ → ℕ → ℕ → Bool → Bool → ℕ
set_word w block_size slack used quarantined =
    block_size / 16 * 2 ^ 10 % 2 ^ 64
    + slack % 2 ^ 7 * 2 ^ 3
    + (if quarantined then 4 else 0)
    + (if used then 1 else 0)
    + w / 2 % 2 * 2

-- mm_requested_size; the subtraction of the header wraps, as size_t does.
unfoldable pub requested_size : Profile → ℕ → ℕ
unfolding is_used size_of slack_of
requested_size p w =
    let avail = (size_of w + 2 ^ 64 - hdr_size p) % 2 ^ 64 in
    if is_used w then (if leb (slack_of w) avail then avail - slack_of w else 0) else 0
