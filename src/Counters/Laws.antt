-- ===== src/Counters/Laws.antt =====
-- What the live and the peak counters of src/mm_stats.c mean.
use mars_memory_allocator.Base.{ℕ, ◌+◌, ◌^◌, ◌≤◌, ◌<◌, ◌≡◌, ◌⊎◌, arith}
use mars_memory_allocator.State.{Stats}
use mars_memory_allocator.Counters.{block_added, block_removed}

-- room for one more block in the 64-bit counters
pub record HasRoom (s : Stats) (block payload : ℕ) : Type 0 where
  pub blocks : s.live_blocks + 1 < 2 ^ 64
  pub payload_bytes : s.live_payload_bytes + payload < 2 ^ 64
  pub block_bytes : s.live_block_bytes + block < 2 ^ 64

abbrev pub SameLive : Stats → Stats → Type 0
SameLive s t =
    (s.live_blocks ≡ t.live_blocks)
    × (s.live_payload_bytes ≡ t.live_payload_bytes)
    × (s.live_block_bytes ≡ t.live_block_bytes)

-- Counting a block out again gives back the live figures from before it was counted in, while the
-- 64-bit counters have room for it.
block_removed-block_added :
    (s : Stats) (block payload : ℕ)
    → HasRoom s block payload
    → SameLive (block_removed (block_added s block payload) block payload) s
unfolding block_removed block_added
block_removed-block_added s block payload r = ground arith

-- The peak is never below what is live, and when it moves it is one snapshot: the three peak
-- figures are the three live figures of that moment, and otherwise all three stay.
pub record PeakStep (s t : Stats) : Type 0 where
  pub covers : t.live_block_bytes ≤ t.peak_block_bytes
  pub grows : s.peak_block_bytes ≤ t.peak_block_bytes
  pub snapshot :
      ((t.peak_block_bytes ≡ t.live_block_bytes)
        × (t.peak_payload_bytes ≡ t.live_payload_bytes)
        × (t.peak_blocks ≡ t.live_blocks))
      ⊎ ((t.peak_block_bytes ≡ s.peak_block_bytes)
          × (t.peak_payload_bytes ≡ s.peak_payload_bytes)
          × (t.peak_blocks ≡ s.peak_blocks))

-- After a block is counted in, the peak is not below what is live and not below the old peak, and
-- the three peak figures are either the three live figures of this moment or all three as they
-- were.
pub block_added-PeakStep :
    (s : Stats) (block payload : ℕ) → PeakStep s (block_added s block payload)
unfolding block_added
block_added-PeakStep s block payload = ground arith

-- From counters whose peak is not below what is live, counting a block out keeps the peak so, and
-- leaves the three peak figures as one snapshot.
pub block_removed-PeakStep :
    (s : Stats) (block payload : ℕ)
    → s.live_block_bytes ≤ s.peak_block_bytes
    → PeakStep s (block_removed s block payload)
unfolding block_removed
block_removed-PeakStep s block payload h = ground arith
