-- ===== src/Layout/Slack.antt =====
-- requested_size is recovered from the slack field: src/mm_layout.h, "requested_size does not need
-- 64 bits".
use mars_memory_allocator.Base.{ℕ, ◌+◌, ◌-◌, ◌%◌, ◌^◌, ◌≤◌, ◌<◌, ◌≡◌, true, false, arith}
use mars_memory_allocator.Layout.{
  Profile, fast, hardened, paranoid, hdr_size, trail, min_block, size_for, slack_max, size_max,
  alignment,
}
use mars_memory_allocator.Layout.Geometry.{size_for-Fits}
use mars_memory_allocator.Layout.Word.{size_of, set_word, requested_size}

-- A block keeps a remainder only if it is too small to split off, so its slack fits the field.
pub slack_fits :
    (p : Profile) (payload total : ℕ)
    → 0 < payload
    → payload + hdr_size p + trail p + alignment ≤ size_max
    → size_for p payload ≤ total
    → total % 16 ≡ 0
    → total < size_for p payload + min_block p
    → (hdr_size p + payload ≤ total) × (total - hdr_size p - payload ≤ slack_max p)
slack_fits fast payload total h k l d r = omega (arith, size_for-Fits fast payload h k)
slack_fits hardened payload total h k l d r = omega (arith, size_for-Fits hardened payload h k)
slack_fits paranoid payload total h k l d r = omega (arith, size_for-Fits paranoid payload h k)

pub slack_max-lt : (p : Profile) → slack_max p < 2 ^ 7
slack_max-lt fast = omega arith
slack_max-lt hardened = omega arith
slack_max-lt paranoid = omega arith

pub requested_of_fields :
    (p : Profile) (w payload total : ℕ)
    → hdr_size p + payload ≤ total
    → total - hdr_size p - payload < 2 ^ 7
    → total % 16 ≡ 0
    → total < 2 ^ 58
    → requested_size p (set_word w total (total - hdr_size p - payload) true false) ≡ payload
unfolding requested_size set_word
requested_of_fields fast w payload total h s d k = ground arith
requested_of_fields hardened w payload total h s d k = ground arith
requested_of_fields paranoid w payload total h s d k = ground arith

-- Under every profile, a block that was carved for a request of `payload` bytes that does not
-- overflow, whose 16-granular extent is below 2^58 and exceeds the request's by less than a block,
-- gives exactly `payload` back from the word that finish_allocation writes.
requested_size-set_word :
    (p : Profile) (w payload total : ℕ)
    → 0 < payload
    → payload + hdr_size p + trail p + alignment ≤ size_max
    → size_for p payload ≤ total
    → total % 16 ≡ 0
    → total < size_for p payload + min_block p
    → total < 2 ^ 58
    → requested_size p (set_word w total (total - hdr_size p - payload) true false) ≡ payload
requested_size-set_word p w payload total h k l d r b =
    let f = slack_fits p payload total h k l d r in
    requested_of_fields p w payload total f.0 (omega (arith, slack_max-lt p)) d b

-- Whatever a 64-bit control word says, the payload of a block whose extent holds its header ends
-- inside the block.
requested_size_inside :
    (p : Profile) (w : ℕ)
    → w < 2 ^ 64
    → hdr_size p ≤ size_of w
    → hdr_size p + requested_size p w ≤ size_of w
unfolding requested_size
requested_size_inside fast w h k = ground arith
requested_size_inside hardened w h k = ground arith
requested_size_inside paranoid w h k = ground arith
