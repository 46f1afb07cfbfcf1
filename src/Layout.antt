-- ===== src/Layout.antt =====
-- src/mm_layout.h: the profiles, the sizes that each one derives, and the control word of a block.
pub mod Word
pub mod Geometry
pub mod Slack
use Prim.Native.Nat.{bit_and}
use mars_memory_allocator.Base.{
  ℕ, ◌+◌, ◌-◌, ◌*◌, ◌/◌, ◌%◌, ◌^◌, Bool, true, false, ltb, if◌then◌else◌,
}

-- MARS_PROFILE
pub data Profile : Type 0 where
  fast hardened paranoid : Profile

abbrev pub has_crc : Profile → Bool
has_crc fast = false
has_crc hardened = true
has_crc paranoid = true

abbrev pub has_canary : Profile → Bool
has_canary fast = false
has_canary hardened = true
has_canary paranoid = true

abbrev pub has_mirror : Profile → Bool
has_mirror fast = false
has_mirror hardened = false
has_mirror paranoid = true

abbrev pub alignment : ℕ
alignment = 16

-- SIZE_MAX, where size_t is 64 bits wide
abbrev pub size_max : ℕ
size_max = 2 ^ 64 - 1

-- `m & ~(to - 1)` over size_t
abbrev pub clear_low : ℕ → ℕ → ℕ
clear_low m to = bit_and m ((2 ^ 64 - to) % 2 ^ 64)

-- mm_round_up over size_t
abbrev pub round_up : ℕ → ℕ → ℕ
round_up n to = clear_low ((n + to + 2 ^ 64 - 1) % 2 ^ 64) to

-- mm_round_up to MM_ALIGNMENT, whose mask clears the four low bits
abbrev pub round_units : ℕ → ℕ
round_units n = let m = (n + alignment - 1) % 2 ^ 64 in m - m % alignment

module _ (p : Profile) where
  abbrev pub hdr_size : ℕ
  hdr_size = if has_crc p then 16 else 8

  abbrev pub canary_size : ℕ
  canary_size = if has_canary p then 8 else 0

  abbrev pub mirror_size : ℕ
  mirror_size = if has_mirror p then hdr_size else 0

  abbrev pub trail : ℕ
  trail = canary_size + mirror_size

  abbrev pub free_min : ℕ
  free_min = hdr_size + 2 * 8 + 8

  abbrev pub used_min : ℕ
  used_min = hdr_size + 1 + trail

  abbrev pub min_block : ℕ
  min_block = round_units (if ltb used_min free_min then free_min else used_min)

  abbrev pub block_offset : ℕ
  block_offset = (alignment - hdr_size % alignment) % alignment

  abbrev pub slack_rounding : ℕ
  slack_rounding = trail + alignment - 1

  abbrev pub slack_floor : ℕ
  slack_floor = min_block - hdr_size - 1

  abbrev pub slack_carved : ℕ
  slack_carved = if ltb slack_rounding slack_floor then slack_floor else slack_rounding

  abbrev pub slack_max : ℕ
  slack_max = slack_carved + min_block - alignment

  -- mm_size_for: the block size that holds `payload` bytes, 0 where the sum would overflow.
  unfoldable pub size_for : ℕ → ℕ
  size_for payload =
      if ltb (size_max - hdr_size - trail - alignment) payload
      then 0
      else let need = round_units (payload + hdr_size + trail) in
        if ltb need min_block then min_block else need
